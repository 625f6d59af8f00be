-- ===== src/Wire/Len4/Progress.antt =====
-- The length-prefixed reader never parks: what it keeps is short, and cannot be read any further.
use local_smarthinq.Prelude.{
  ℕ, zero, suc, ◌+◌, ◌≤◌, ◌<◌, ◌≡◌, refl, inl, inr, [], ◌∷◌, arith, ltb, ltb→lt, ltb→le, Bool-cases,
  Bytes, length, drop, length-drop,
}
use local_smarthinq.Json.{Loads}
use local_smarthinq.Wire.Len4.{from_be, len4_max_frame, decode_messages_len4}
use local_smarthinq.Wire.Len4.Fuel.{decode-skip, decode-wait, decode-frame}

-- The buffer is one on which the reader waits, and is shorter than the largest frame.
pub record IsParked (loads : Loads) (r : Bytes) : Type 0 where
  pub short : length r < 4 + len4_max_frame
  pub stuck : decode_messages_len4 loads r ≡ ([], r)

IsParked-below :
    (loads : Loads) (k : ℕ) (buf : Bytes)
    → length buf ≤ k
    → IsParked loads (decode_messages_len4 loads buf).1
IsParked-below loads (suc k) (a ∷ b ∷ c ∷ d ∷ rest) h =
    let n = from_be a b c d in
    elim (Bool-cases (ltb len4_max_frame n)) [
      | inl big ↦
          rw (decode-skip loads a b c d rest big)
            (IsParked-below loads k (b ∷ c ∷ d ∷ rest) (omega arith))
      | inr fits ↦ elim (Bool-cases (ltb (length rest) n)) [
        | inl wait ↦
            let e = decode-wait loads a b c d rest fits wait in
            rw e (record {
              short = omega (arith, ltb→le len4_max_frame n fits, ltb→lt (length rest) n wait);
              stuck = e;
            })
        | inr whole ↦
            rw (decode-frame loads a b c d rest fits whole)
              (IsParked-below loads k (drop n rest) (omega (arith, length-drop {0} n rest)))
      ]
    ]
IsParked-below loads zero (a ∷ buf) h = absurd (omega arith)
IsParked-below loads k [] h =
    unfold decode_messages_len4 in (record { short = omega arith; stuck = refl })
IsParked-below loads k (a ∷ []) h =
    unfold decode_messages_len4 in (record { short = omega arith; stuck = refl })
IsParked-below loads k (a ∷ b ∷ []) h =
    unfold decode_messages_len4 in (record { short = omega arith; stuck = refl })
IsParked-below loads k (a ∷ b ∷ c ∷ []) h =
    unfold decode_messages_len4 in (record { short = omega arith; stuck = refl })

-- What the reader keeps of any input is less than four bytes and the largest frame, and reading
-- it again yields no message and keeps it whole.
pub decode-IsParked :
    (loads : Loads) (buf : Bytes) → IsParked loads (decode_messages_len4 loads buf).1
decode-IsParked loads buf = IsParked-below loads (length buf) buf (omega arith)
