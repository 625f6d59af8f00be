-- ===== src/Wire/Msgpack/Fuel.antt =====
-- The reader takes a byte at least, so its fuel is enough.
use local_smarthinq.Prelude.{
  ℕ, zero, suc, ◌+◌, ◌*◌, ◌%◌, ◌≤◌, ◌≡◌, refl, ap, Bool, true, false, ◌&&◌, List, [], ◌∷◌, arith,
  ltb, leb, ◌==◌, if◌then◌else◌, Bytes, length, length-drop,
}
use local_smarthinq.Json.{Value, Fields, end, bool, num, set_field, Text}
use local_smarthinq.Wire.Msgpack.{
  Read, raised, value, read_str, and_then, read_map, with_byte, read_prefix, read, message_in, keep,
  round, read_all,
}

-- A read leaves `n` bytes at most.
pub data Within (n : ℕ) : Read → Type 0 where
  nothing : Within n raised
  leaves : {v : Value} {rest : Bytes} → length rest ≤ n → Within n (value v rest)

Within-if :
    (n : ℕ) (b : Bool) (x y : Read) → Within n x → Within n y → Within n (if b then x else y)
Within-if n true x y p q = p
Within-if n false x y p q = q

Within-le : {m n : ℕ} {r : Read} → m ≤ n → Within m r → Within n r
Within-le h nothing = nothing
Within-le h (leaves w) = leaves (omega arith)

Within-and_then :
    (n : ℕ) (r : Read) (k : Value → Bytes → Read)
    → Within n r
    → ((v : Value) (rest : Bytes) → length rest ≤ n → Within n (k v rest))
    → Within n (and_then r k)
unfolding and_then
Within-and_then n raised k w h = nothing
Within-and_then n (value v rest) k (leaves w) h = h v rest w

read_str-Within : (t : Text) (n : ℕ) (rest : Bytes) → Within (length rest) (read_str t n rest)
unfolding read_str
read_str-Within t n rest =
    Within-if (length rest) (ltb (length rest) n) _ _ nothing
      (leaves (omega (arith, length-drop {0} n rest)))

with_byte-Within :
    (m : ℕ) (k : ℕ → Bytes → Read) (rest : Bytes)
    → length rest ≤ m
    → ((b : ℕ) (later : Bytes) → length later ≤ m → Within m (k b later))
    → Within m (with_byte k rest)
unfolding with_byte
with_byte-Within m k [] le h = nothing
with_byte-Within m k (b ∷ rest) le h = h b rest (omega arith)

module _ (t : Text) (one : Bytes → Read)
    (shrinks : (buf : Bytes) → Within (length buf) (one buf)) where
  read_map-Within :
      (n m : ℕ) (d : Fields) (rest : Bytes) → length rest ≤ m → Within m (read_map t one n d rest)
  unfolding read_map
  read_map-Within zero m d rest le = leaves le
  read_map-Within (suc n) m d rest le =
      Within-and_then m (one rest) _ (Within-le le (shrinks rest)) λ k after_key le'.
        Within-and_then m (one after_key) _ (Within-le le' (shrinks after_key))
          λ v after_value le''. read_map-Within n m (set_field (t.show k) v d) after_value le''

  read_prefix-Within :
      (prefix : ℕ) (rest : Bytes) → Within (length rest) (read_prefix t one prefix rest)
  unfolding read_prefix
  read_prefix-Within prefix rest =
      let m = length rest in
      let self : length rest ≤ m = omega arith in
      let text : (n : ℕ) (later : Bytes) → length later ≤ m → Within m (read_str t n later) =
        λ n later le. Within-le le (read_str-Within t n later) in
      let two =
        λ (k : ℕ → Bytes → Read) (h : (n : ℕ) (r : Bytes) → length r ≤ m → Within m (k n r)).
          with_byte-Within m (λ hi. with_byte (λ lo. k (hi * 256 + lo))) rest self
            λ hi r le.
              with_byte-Within m (λ lo. k (hi * 256 + lo)) r le (λ lo. h (hi * 256 + lo)) in
      Within-if m (leb 128 prefix && leb prefix 143) _ _
        (read_map-Within (prefix % 16) m end rest self)
        (Within-if m (leb 160 prefix && leb prefix 191) _ _ (text (prefix % 32) rest self) (
          Within-if m (prefix == 217) _ _ (with_byte-Within m (read_str t) rest self text) (
            Within-if m (prefix == 218) _ _ (two (read_str t) text) (
              Within-if m (prefix == 222) _ _
                (two (λ n. read_map t one n end) (λ n r le. read_map-Within n m end r le))
                (Within-if m (ltb prefix 128) _ _ (leaves {v = num prefix} self) (
                  Within-if m (prefix == 204) _ _
                    (with_byte-Within m (λ b. value (num b)) rest self (λ b r le. leaves le))
                    (Within-if m (prefix == 194) _ _ (leaves {v = bool false} self)
                      (Within-if m (prefix == 195) _ _ (leaves {v = bool true} self) nothing))))))))

-- A read of a buffer that is not empty takes a byte at least.
pub read-Within : (t : Text) (fuel : ℕ) (buf : Bytes) → Within (length buf) (read t fuel buf)
unfolding read
read-Within t (suc fuel) [] = leaves (omega arith)
read-Within t (suc fuel) (b ∷ rest) =
    Within-le {m = length rest} (omega arith)
      (read_prefix-Within t (read t fuel) (read-Within t fuel) b rest)
read-Within t zero [] = nothing
read-Within t zero (b ∷ rest) = nothing

pub read-Within_cons :
    (t : Text) (fuel b : ℕ) (rest : Bytes) → Within (length rest) (read t (suc fuel) (b ∷ rest))
unfolding read
read-Within_cons t fuel b rest = read_prefix-Within t (read t fuel) (read-Within t fuel) b rest

round_later :
    (t : Text) (buf : Bytes) (n : ℕ) (f g : Bytes → List Fields × Bytes) (r : Read)
    → Within n r
    → ((rest : Bytes) → length rest ≤ n → f rest ≡ g rest)
    → round t buf f r ≡ round t buf g r
unfolding round
round_later t buf n f g raised w h = refl
round_later t buf n f g (value v rest) (leaves w) h =
    ap (λ later. keep buf later (message_in t v)) (h rest w)

-- The loop's fuel covers the buffer: more changes nothing.
pub read_all_fuel :
    (t : Text) (f g : ℕ) (buf : Bytes)
    → length buf ≤ f
    → length buf ≤ g
    → read_all t f buf ≡ read_all t g buf
unfolding read_all
read_all_fuel t (suc f) (suc g) (b ∷ bs) hf hg =
    round_later t (b ∷ bs) (length bs) (read_all t f) (read_all t g) _
      (read-Within_cons t (length (b ∷ bs)) b bs)
      (λ rest le. read_all_fuel t f g rest (omega arith) (omega arith))
read_all_fuel t (suc f) (suc g) [] hf hg = refl
read_all_fuel t zero zero buf hf hg = refl
read_all_fuel t zero (suc g) [] hf hg = refl
read_all_fuel t (suc f) zero [] hf hg = refl
read_all_fuel t zero (suc g) (b ∷ bs) hf hg = absurd (omega arith)
read_all_fuel t (suc f) zero (b ∷ bs) hf hg = absurd (omega arith)
