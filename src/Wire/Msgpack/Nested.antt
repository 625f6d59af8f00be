-- ===== src/Wire/Msgpack/Nested.antt =====
-- What `_mp_encode` writes, `MsgpackReader` reads back, nested maps too.
use local_smarthinq.Prelude.{
  ℕ, zero, suc, ◌+◌, ◌/◌, ◌%◌, ◌*◌, ◌≤◌, ◌<◌, ◌≡◌, refl, String, Bool, true, false, Option, none,
  some, ◌∷◌, ◌++◌, if◌then◌else◌, ltb, Bytes, arith, ap, str_eq, leb, ◌&&◌, Bool-cases, inl, inr,
  subst, ltb→lt,
}
use mathlib.Core.Option.{some-injective}
use local_smarthinq.Json.{
  Value, obj, arr, str, num, bool, null, Fields, end, field, get, set_field, Text,
}
use local_smarthinq.Wire.Msgpack.{mp_str, Read, value, read_map, read}
use local_smarthinq.Prelude.{append_assoc, ◌∙◌, sym}
use local_smarthinq.Wire.Msgpack.{and_then}
use local_smarthinq.Wire.Msgpack.RoundTrip.{read-mp_str}
use local_smarthinq.Wire.Msgpack.Encode.{both, count, map_prefix, mp_encode, mp_fields, read-mp_int}

-- The object with these fields behind.
unfoldable pub append_fields : Fields → Fields → Fields
append_fields end fs = fs
append_fields (field k v ds) fs = field k v (append_fields ds fs)

set_field_new :
    (k : String) (v : Value) (d : Fields)
    → get k d ≡ none
    → set_field k v d ≡ append_fields d (field k v end)
unfolding set_field append_fields get
set_field_new k v end h = refl
set_field_new k v (field j w d) h = elim (Bool-cases (str_eq j k)) [
  | inl same ↦ cc (rw same at h)
  | inr other ↦ rw other (ap (field j w) (set_field_new k v d (rw other at h)))
]

append_fields_assoc :
    (a b c : Fields) → append_fields (append_fields a b) c ≡ append_fields a (append_fields b c)
unfolding append_fields
append_fields_assoc end b c = refl
append_fields_assoc (field k v a) b c = ap (field k v) (append_fields_assoc a b c)

append_fields-end : (a : Fields) → append_fields a end ≡ a
unfolding append_fields
append_fields-end end = refl
append_fields-end (field k v a) = ap (field k v) (append_fields-end a)

-- No key of the fields is among those before it.
unfoldable pub Fresh : Fields → Fields → Type 0
unfolding append_fields get
Fresh d end = Unit {0}
Fresh d (field k v fs) = (get k d ≡ none) × Fresh (append_fields d (field k v end)) fs

-- The text is read back from its bytes.
abbrev pub IsText : Text → String → Type 0
IsText t s = t.utf8 (t.encode s) ≡ s

mutual
  -- What the reader can give: texts that are read back, small numbers, and no key twice.
  pub data IsPlain (t : Text) : Value → Type 0 where
    text : {s : String} → IsText t s → IsPlain t (str s)
    truth : {b : Bool} → IsPlain t (bool b)
    small : {n : ℕ} → n < 256 → IsPlain t (num n)
    map_of : {fs : Fields} → Fresh end fs → ArePlain t fs → IsPlain t (obj fs)

  pub data ArePlain (t : Text) : Fields → Type 0 where
    no_fields : ArePlain t end
    field_then :
        {k : String} {v : Value} {fs : Fields}
        → IsText t k
        → t.show (str k) ≡ k
        → IsPlain t v
        → ArePlain t fs
        → ArePlain t (field k v fs)

unfoldable mutual
  -- How many maps a value holds.
  pub maps : Value → ℕ
  maps (obj fs) = suc (maps_in fs)
  maps (arr vs) = 0
  maps (str s) = 0
  maps (num n) = 0
  maps (bool b) = 0
  maps null = 0

  pub maps_in : Fields → ℕ
  maps_in end = 0
  maps_in (field k v fs) = maps v + maps_in fs

-- The two parts that were written one behind the other.
record Parts (a b : Option Bytes) (frame : Bytes) : Type 0 where
  front : Bytes
  behind : Bytes
  is_front : a ≡ some front
  is_behind : b ≡ some behind
  is : front ++ behind ≡ frame

both-Parts : (a b : Option Bytes) (frame : Bytes) → both a b ≡ some frame → Parts a b frame
unfolding both
both-Parts none b frame h = absurd (ground arith)
both-Parts (some x) none frame h = absurd (ground arith)
both-Parts (some x) (some y) frame h = record {
  front = x;
  behind = y;
  is_front = refl;
  is_behind = refl;
  is = some-injective _ _ h;
}

read-fixmap :
    (t : Text) (fuel n : ℕ) (ys : Bytes)
    → n < 16
    → read t (suc fuel) ((128 + n) ∷ ys) ≡ read_map t (read t fuel) n end ys
unfolding read
read-fixmap t fuel n ys h =
    let is_map : (leb 128 (128 + n) && leb (128 + n) 143) ≡ true = ground arith in
    let size : (128 + n) % 16 ≡ n = omega arith in rw (is_map, size) refl

read-map16 :
    (t : Text) (fuel n : ℕ) (ys : Bytes)
    → read t (suc fuel) (222 ∷ n / 256 ∷ n % 256 ∷ ys) ≡ read_map t (read t fuel) n end ys
unfolding read
read-map16 t fuel n ys = let size : n / 256 * 256 + n % 256 ≡ n = omega arith in rw size refl

read-map_prefix :
    (t : Text) (fuel n : ℕ) (frame ys : Bytes)
    → map_prefix n ≡ some frame
    → read t (suc fuel) (frame ++ ys) ≡ read_map t (read t fuel) n end ys
unfolding map_prefix
read-map_prefix t fuel n frame ys e =
    let back = λ (w : Bytes). read t (suc fuel) (w ++ ys) ≡ read_map t (read t fuel) n end ys in
    elim (Bool-cases (ltb n 16)) [
      | inl fix ↦
          subst back (some-injective _ _ (rw fix at e)) (read-fixmap t fuel n ys (ltb→lt n 16 fix))
      | inr more ↦ elim (Bool-cases (ltb n 65536)) [
        | inl two ↦ subst back (some-injective _ _ (rw (more, two) at e)) (read-map16 t fuel n ys)
        | inr big ↦ cc (rw (more, big) at e)
      ]
    ]

read-bool :
    (t : Text) (fuel : ℕ) (b : Bool) (ys : Bytes)
    → read t (suc fuel) ((if b then 195 else 194) ∷ ys) ≡ value (bool b) ys
unfolding read
read-bool t fuel true ys = refl
read-bool t fuel false ys = refl

read_map_step :
    (t : Text) (one : Bytes → Read) (n : ℕ) (d : Fields) (k : String) (v : Value)
    (at_key at_value behind : Bytes)
    → one at_key ≡ value (str k) at_value
    → t.show (str k) ≡ k
    → one at_value ≡ value v behind
    → read_map t one (suc n) d at_key ≡ read_map t one n (set_field k v d) behind
unfolding read_map and_then
read_map_step t one n d k v at_key at_value behind a b c = rw (a, b, c) refl

mutual
  unfolding mp_encode mp_fields count maps maps_in Fresh append_fields read_map

  -- `_mp_encode` of a value that has no key twice and no number from 256 on is read back, with
  -- whatever stands behind it left; the fuel is enough when it is at least the number of maps.
  pub read-mp_encode :
      (t : Text) (fuel : ℕ) {v : Value} (frame ys : Bytes)
      → IsPlain t v
      → maps v ≤ fuel
      → mp_encode t v ≡ some frame
      → read t (suc fuel) (frame ++ ys) ≡ value v ys
  read-mp_encode t fuel frame ys (text {s} i) h e =
      read-mp_str t fuel (t.encode s) frame ys e ∙ ap (λ x. value (str x) ys) i
  read-mp_encode t fuel frame ys (truth {b}) h e =
      subst (λ w. read t (suc fuel) (w ++ ys) ≡ value (bool b) ys) (some-injective _ _ e)
        (read-bool t fuel b ys)
  read-mp_encode t fuel frame ys (small {n} below) h e = read-mp_int t fuel n frame ys below e
  read-mp_encode t zero frame ys (map_of fresh plain) h e = absurd (omega (arith, h))
  read-mp_encode t (suc fuel) frame ys (map_of {fs} fresh plain) h e =
      let p = both-Parts (map_prefix (count fs)) (mp_fields t fs) frame e in
      subst (λ w. read t (suc (suc fuel)) (w ++ ys) ≡ value (obj fs) ys) p.is
        (ap (read t (suc (suc fuel))) (append_assoc p.front p.behind ys)
          ∙ read-map_prefix t (suc fuel) (count fs) p.front (p.behind ++ ys) p.is_front
          ∙ read-mp_fields t fuel end p.behind ys plain (omega (arith, h)) fresh p.is_behind)

  read-mp_fields :
      (t : Text) (fuel : ℕ) {fs : Fields} (d : Fields) (frame ys : Bytes)
      → ArePlain t fs
      → maps_in fs ≤ fuel
      → Fresh d fs
      → mp_fields t fs ≡ some frame
      → read_map t (read t (suc fuel)) (count fs) d (frame ++ ys)
        ≡ value (obj (append_fields d fs)) ys
  read-mp_fields t fuel d frame ys no_fields h fresh e =
      subst
        (λ w. read_map t (read t (suc fuel)) 0 d (w ++ ys) ≡ value (obj (append_fields d end)) ys)
        (some-injective _ _ e) (ap (λ x. value (obj x) ys) (sym (append_fields-end d)))
  read-mp_fields t fuel d frame ys (field_then {k} {v} {fs} i j plain plains) h fresh e =
      let one = read t (suc fuel) in
      let p = both-Parts (mp_str (t.encode k)) (both (mp_encode t v) (mp_fields t fs)) frame e in
      let q = both-Parts (mp_encode t v) (mp_fields t fs) p.behind p.is_behind in
      let at_value = q.front ++ (q.behind ++ ys) in
      let d' = append_fields d (field k v end) in
      let split : p.front ++ at_value ≡ frame ++ ys =
        ap (λ w. p.front ++ w) (sym (append_assoc q.front q.behind ys) ∙ ap (λ w. w ++ ys) q.is)
        ∙ sym (append_assoc p.front p.behind ys)
        ∙ ap (λ w. w ++ ys) p.is in
      ap (read_map t one (suc (count fs)) d) (sym split)
      ∙ read_map_step t one (count fs) d k v (p.front ++ at_value) at_value (q.behind ++ ys)
          (read-mp_str t fuel (t.encode k) p.front at_value p.is_front
            ∙ ap (λ x. value (str x) at_value) i)
          j (read-mp_encode t fuel q.front (q.behind ++ ys) plain (omega (arith, h)) q.is_front)
      ∙ ap (λ x. read_map t one (count fs) x (q.behind ++ ys)) (set_field_new k v d fresh.0)
      ∙ read-mp_fields t fuel d' q.behind ys plains (omega (arith, h)) fresh.1 q.is_behind
      ∙ ap (λ x. value (obj x) ys) (append_fields_assoc d (field k v end) fs)
