-- ===== src/Wire/Len4/Fuel.antt =====
-- The fuel of `scan` does not matter once it covers the buffer.
use local_smarthinq.Prelude.{
  ℕ, zero, suc, ◌≤◌, ◌≡◌, refl, ap, ◌∙◌, true, false, List, [], ◌∷◌, ◌++◌, arith, ltb, Bytes,
  length, take, drop, length-drop,
}
use local_smarthinq.Json.{Fields, Loads}
use local_smarthinq.Wire.Len4.{from_be, message_of, len4_max_frame, scan, decode_messages_len4}

pub scan_fuel :
    (loads : Loads) (f g : ℕ) (buf : Bytes)
    → length buf ≤ f
    → length buf ≤ g
    → scan loads f buf ≡ scan loads g buf
unfolding scan
scan_fuel loads (suc f) (suc g) (a ∷ b ∷ c ∷ d ∷ rest) hf hg =
    let n = from_be a b c d in
    rw (
      scan_fuel loads f g (b ∷ c ∷ d ∷ rest) (omega arith) (omega arith),
      scan_fuel loads f g (drop n rest) (omega (arith, length-drop {0} n rest))
          (omega (arith, length-drop {0} n rest)),
    )
scan_fuel loads zero zero _ hf hg = refl
scan_fuel loads zero (suc g) [] hf hg = refl
scan_fuel loads (suc f) zero [] hf hg = refl
scan_fuel loads (suc f) (suc g) _ hf hg = refl
scan_fuel loads zero (suc g) (a ∷ buf) hf hg = absurd (omega arith)
scan_fuel loads (suc f) zero (a ∷ buf) hf hg = absurd (omega arith)

-- One round of the loop, with the decoder shut.
module _ (loads : Loads) (a b c d : ℕ) (rest : Bytes) where
  scan-frame :
      (f : ℕ)
      → ltb len4_max_frame (from_be a b c d) ≡ false
      → ltb (length rest) (from_be a b c d) ≡ false
      → scan loads (suc f) (a ∷ b ∷ c ∷ d ∷ rest) ≡ (
        message_of (loads (take (from_be a b c d) rest))
            ++ (scan loads f (drop (from_be a b c d) rest)).0,
        (scan loads f (drop (from_be a b c d) rest)).1,
      )
  unfolding scan
  scan-frame f e w = rw (e, w)

  pub decode-skip :
      ltb len4_max_frame (from_be a b c d) ≡ true
      → decode_messages_len4 loads (a ∷ b ∷ c ∷ d ∷ rest)
        ≡ decode_messages_len4 loads (b ∷ c ∷ d ∷ rest)
  unfolding decode_messages_len4
  decode-skip e = rw e

  pub decode-wait :
      ltb len4_max_frame (from_be a b c d) ≡ false
      → ltb (length rest) (from_be a b c d) ≡ true
      → decode_messages_len4 loads (a ∷ b ∷ c ∷ d ∷ rest) ≡ ([], a ∷ b ∷ c ∷ d ∷ rest)
  unfolding decode_messages_len4
  decode-wait e w = rw (e, w)

  pub decode-frame :
      ltb len4_max_frame (from_be a b c d) ≡ false
      → ltb (length rest) (from_be a b c d) ≡ false
      → decode_messages_len4 loads (a ∷ b ∷ c ∷ d ∷ rest) ≡ (
        message_of (loads (take (from_be a b c d) rest))
            ++ (decode_messages_len4 loads (drop (from_be a b c d) rest)).0,
        (decode_messages_len4 loads (drop (from_be a b c d) rest)).1,
      )
  unfolding decode_messages_len4
  decode-frame e w =
      let n = from_be a b c d in
      scan-frame (length (b ∷ c ∷ d ∷ rest)) e w
      ∙ ap {B = List Fields × Bytes} (λ r. (message_of (loads (take n rest)) ++ r.0, r.1))
          (scan_fuel loads (length (b ∷ c ∷ d ∷ rest)) (length (drop n rest)) (drop n rest)
            (omega (arith, length-drop {0} n rest)) (omega arith))
