-- ===== src/Wire/Len4/Chunks.antt =====
-- How the network cuts the stream does not change the messages.
use local_smarthinq.Prelude.{
  ℕ, zero, suc, ◌≤◌, ◌≡◌, refl, false, inl, inr, List, [], ◌∷◌, ◌++◌, append_assoc, arith, ltb,
  ltb→le, le→ltb, Bool-cases, Bytes, length, length-append, drop, length-drop, take-append_le,
  drop-append_le,
}
use local_smarthinq.Json.{Fields, Loads}
use local_smarthinq.Wire.Len4.{from_be, len4_max_frame, decode_messages_len4}
use local_smarthinq.Wire.Len4.Fuel.{decode-skip, decode-wait, decode-frame}

-- Read one chunk, then the rest of it with the next chunk behind.
abbrev pub in_two : Loads → Bytes → Bytes → List Fields × Bytes
in_two loads xs ys =
    let first = decode_messages_len4 loads xs in
    let second = decode_messages_len4 loads (first.1 ++ ys) in (first.0 ++ second.0, second.1)

chunks-below :
    (loads : Loads) (k : ℕ) (xs ys : Bytes)
    → length xs ≤ k
    → decode_messages_len4 loads (xs ++ ys) ≡ in_two loads xs ys
chunks-below loads (suc k) (a ∷ b ∷ c ∷ d ∷ rest) ys h =
    let n = from_be a b c d in
    elim (Bool-cases (ltb len4_max_frame n)) [
      | inl big ↦
          rw (decode-skip loads a b c d rest big, decode-skip loads a b c d (rest ++ ys) big)
            (chunks-below loads k (b ∷ c ∷ d ∷ rest) ys (omega arith))
      | inr fits ↦ elim (Bool-cases (ltb (length rest) n)) [
        | inl wait ↦ rw (decode-wait loads a b c d rest fits wait)
        | inr whole ↦
            let le : n ≤ length rest = ltb→le (length rest) n whole in
            let more : ltb (length (rest ++ ys)) n ≡ false =
              le→ltb (length (rest ++ ys)) n (omega (arith, length-append {0} rest ys)) in
            rw (
              decode-frame loads a b c d rest fits whole,
              decode-frame loads a b c d (rest ++ ys) fits more,
              take-append_le n rest ys le,
              drop-append_le n rest ys le,
              chunks-below loads k (drop n rest) ys (omega (arith, length-drop {0} n rest)),
              append_assoc,
            )
      ]
    ]
chunks-below loads zero (a ∷ buf) ys h = absurd (omega arith)
chunks-below loads k [] ys h = unfold decode_messages_len4 in refl
chunks-below loads k (a ∷ []) ys h = unfold decode_messages_len4 in refl
chunks-below loads k (a ∷ b ∷ []) ys h = unfold decode_messages_len4 in refl
chunks-below loads k (a ∷ b ∷ c ∷ []) ys h = unfold decode_messages_len4 in refl

-- Reading a stream in two chunks, with what the first leaves put in front of the second, gives
-- the messages and the remainder of reading it at once.
pub decode-append :
    (loads : Loads) (xs ys : Bytes) → decode_messages_len4 loads (xs ++ ys) ≡ in_two loads xs ys
decode-append loads xs ys = chunks-below loads (length xs) xs ys (omega arith)
