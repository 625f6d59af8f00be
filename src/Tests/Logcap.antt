-- ===== src/Tests/Logcap.antt =====
-- The cap on a small log.
use local_smarthinq.Prelude.{ℕ, ◌≤◌, ◌<◌, ◌≡◌, refl, none, some, [], ◌∷◌, arith, Bytes, length, All}
use local_smarthinq.Logcap.{kept_bytes, truncate, truncate_oversized}
use local_smarthinq.Logcap.Kept.{
  KeepsLines, length-truncate, truncate-KeepsLines, Capped, truncate_oversized-Capped,
}

abbrev log : Bytes
log = b'a' ∷ b'b' ∷ b'\n' ∷ b'c' ∷ b'\n' ∷ b'd' ∷ b'e' ∷ []

truncate_log : truncate 5 4 log ≡ some (b'd' ∷ b'e' ∷ [])
unfolding truncate
truncate_log = refl

length-truncate_example : (5 < length log) × (length {A = ℕ} (b'd' ∷ b'e' ∷ []) ≤ kept_bytes 5 4)
length-truncate_example = length-truncate 5 4 log (b'd' ∷ b'e' ∷ []) truncate_log

truncate-KeepsLines_example : KeepsLines 5 4 log (b'd' ∷ b'e' ∷ [])
truncate-KeepsLines_example = truncate-KeepsLines 5 4 log (b'd' ∷ b'e' ∷ []) truncate_log

truncate_oversized-Capped_example :
    All (Capped 5) (truncate_oversized 5 4 (("relay-a.log", some log) ∷ ("relay-b.log", none) ∷ []))
unfolding kept_bytes
truncate_oversized-Capped_example =
    truncate_oversized-Capped 5 4 (("relay-a.log", some log) ∷ ("relay-b.log", none) ∷ [])
      (omega arith) (omega arith)
