-- ===== src/Observe/Records.antt =====
-- One line of the relay's log (server/wm_local_bridge.py): `records_from_hex` behind
-- `bytes.fromhex`.
use local_smarthinq.Prelude.{
  le→ltb, false, arith, ap, ◌≤◌, length-append, take-append, drop-append, ℕ, zero, suc, ◌≡◌, refl,
  List, [], ◌∷◌, ◌++◌, if◌then◌else◌, ltb, ◌==◌, Bytes, length, take, drop,
}
use local_smarthinq.Wire.Len4.{from_be}

-- The loop, at what is left of the line's bytes. It stops at a length of zero and at a record that
-- is cut.
unfoldable pub split : ℕ → Bytes → List Bytes
unfolding from_be
split (suc fuel) (a ∷ b ∷ c ∷ d ∷ rest) =
    let n = from_be a b c d in
    let later = split fuel (drop n rest) in
    if n == 0 then [] else if ltb (length rest) n then [] else take n rest ∷ later
split _ buf = []

unfoldable pub records_from_hex : Bytes → List Bytes
unfolding split
records_from_hex buf = split (length buf) buf

-- The line's bytes are these records, each behind its length, none of them empty.
pub data IsFramed : List Bytes → Bytes → Type 0 where
  no_records : IsFramed [] []
  record_then :
      (a b c d x : ℕ) (xs : Bytes) {ps : List Bytes} {rest : Bytes}
      → from_be a b c d ≡ length (x ∷ xs)
      → IsFramed ps rest
      → IsFramed ((x ∷ xs) ∷ ps) (a ∷ b ∷ c ∷ d ∷ ((x ∷ xs) ++ rest))

not_empty : (x : ℕ) (xs : Bytes) → (length (x ∷ xs) == 0) ≡ false
not_empty x xs = ground arith

not_cut : (p rest : Bytes) → ltb (length (p ++ rest)) (length p) ≡ false
not_cut p rest = le→ltb (length (p ++ rest)) (length p) (omega (arith, length-append p rest))

split-IsFramed :
    (fuel : ℕ) (ps : List Bytes) (buf : Bytes)
    → IsFramed ps buf
    → length buf ≤ fuel
    → split fuel buf ≡ ps
unfolding split
split-IsFramed zero _ _ no_records h = refl
split-IsFramed (suc fuel) _ _ no_records h = refl
split-IsFramed zero _ _ (record_then a b c d x xs e f) h = absurd (omega arith)
split-IsFramed (suc fuel) _ _ (record_then a b c d x xs {ps} {rest} e f) h =
    rw
      (
        e,
        not_empty x xs,
        not_cut (x ∷ xs) rest,
        take-append (x ∷ xs) rest,
        drop-append (x ∷ xs) rest,
      )
      (ap (◌∷◌ (x ∷ xs)) (split-IsFramed fuel ps rest f (omega (arith, length-append xs rest))))

-- Records, none of them empty, that stand in a line behind their lengths are split into these
-- records.
pub records_from_hex-IsFramed :
    (ps : List Bytes) (buf : Bytes) → IsFramed ps buf → records_from_hex buf ≡ ps
unfolding records_from_hex
records_from_hex-IsFramed ps buf f = split-IsFramed (length buf) ps buf f (omega arith)
