-- ===== src/Wire/Msgpack/Encode.antt =====
-- `_mp_encode` of server/control_channel.py, which writes maps, texts, truth values and small
-- numbers.
use local_smarthinq.Prelude.{
  ℕ, suc, ◌+◌, ◌/◌, ◌%◌, ◌≤◌, ◌<◌, ◌≡◌, refl, true, false, Option, none, some, [], ◌∷◌, ◌++◌,
  if◌then◌else◌, ltb, Bytes, arith, leb, ◌&&◌, ◌==◌, Bool-cases, inl, inr, subst, ltb→lt,
}
use mathlib.Core.Option.{some-injective}
use local_smarthinq.Json.{Value, obj, arr, str, num, bool, null, Fields, end, field, Text}
use local_smarthinq.Wire.Msgpack.{mp_str, raised, value, read}

unfoldable pub both : Option Bytes → Option Bytes → Option Bytes
both none later = none
both (some b) none = none
both (some b) (some c) = some (b ++ c)

-- `len(obj)`
unfoldable pub count : Fields → ℕ
count end = 0
count (field k v fs) = suc (count fs)

-- The prefix of a map of n entries: `bytes` raises on what is no byte.
unfoldable pub map_prefix : ℕ → Option Bytes
map_prefix n =
    if ltb n 16
    then some ((128 + n) ∷ [])
    else if ltb n 65536
    then some (222 ∷ n / 256 ∷ n % 256 ∷ [])
    else none

unfoldable pub mp_int : ℕ → Option Bytes
mp_int n =
    if ltb n 128
    then some (n ∷ [])
    else if ltb n 256
    then some (204 ∷ n ∷ [])
    else if ltb n 65536
    then some (205 ∷ n / 256 ∷ n % 256 ∷ [])
    else none

unfoldable mutual
  unfolding both count map_prefix mp_int mp_str

  -- `none` is a `TypeError` or a `ValueError`.
  pub mp_encode : Text → Value → Option Bytes
  mp_encode t (str s) = mp_str (t.encode s)
  mp_encode t (obj fs) = both (map_prefix (count fs)) (mp_fields t fs)
  mp_encode t (bool b) = some ((if b then 195 else 194) ∷ [])
  mp_encode t (num n) = mp_int n
  mp_encode t (arr vs) = none
  mp_encode t null = none

  pub mp_fields : Text → Fields → Option Bytes
  mp_fields t end = some []
  mp_fields t (field k v fs) = both (mp_str (t.encode k)) (both (mp_encode t v) (mp_fields t fs))

read-fixint :
    (t : Text) (fuel n : ℕ) (ys : Bytes) → n < 128 → read t (suc fuel) (n ∷ ys) ≡ value (num n) ys
unfolding read
read-fixint t fuel n ys h =
    let no_map : (leb 128 n && leb n 143) ≡ false = ground arith in
    let no_str : (leb 160 n && leb n 191) ≡ false = ground arith in
    let no_str8 : (n == 217) ≡ false = ground arith in
    let no_str16 : (n == 218) ≡ false = ground arith in
    let no_map16 : (n == 222) ≡ false = ground arith in
    let is_int : ltb n 128 ≡ true = ground arith in
    rw (no_map, no_str, no_str8, no_str16, no_map16, is_int) refl

-- What is written of a number below 256 is read back.
pub read-mp_int :
    (t : Text) (fuel n : ℕ) (frame ys : Bytes)
    → n < 256
    → mp_int n ≡ some frame
    → read t (suc fuel) (frame ++ ys) ≡ value (num n) ys
unfolding mp_int read
read-mp_int t fuel n frame ys h e =
    let back = λ (w : Bytes). read t (suc fuel) (w ++ ys) ≡ value (num n) ys in
    elim (Bool-cases (ltb n 128)) [
      | inl fix ↦
          subst back (some-injective _ _ (rw fix at e)) (read-fixint t fuel n ys (ltb→lt n 128 fix))
      | inr more ↦
          let one : ltb n 256 ≡ true = ground arith in
          subst back (some-injective _ _ (rw (more, one) at e)) refl
    ]

-- A number from 256 on is written with a prefix that the reader does not know: it raises.
pub read-mp_int_wide :
    (t : Text) (fuel n : ℕ) (frame ys : Bytes)
    → 256 ≤ n
    → mp_int n ≡ some frame
    → read t (suc fuel) (frame ++ ys) ≡ raised
unfolding mp_int read
read-mp_int_wide t fuel n frame ys h e =
    let back = λ (w : Bytes). read t (suc fuel) (w ++ ys) ≡ raised in
    let fix : ltb n 128 ≡ false = ground arith in
    let one : ltb n 256 ≡ false = ground arith in
    elim (Bool-cases (ltb n 65536)) [
      | inl two ↦ subst back (some-injective _ _ (rw (fix, one, two) at e)) refl
      | inr big ↦ cc (rw (fix, one, big) at e)
    ]
