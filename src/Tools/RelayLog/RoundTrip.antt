-- ===== src/Tools/RelayLog/RoundTrip.antt =====
-- What the relay logs of a chunk is read back as this chunk.
use Prim.Native.Char.{Char, code}
use local_smarthinq.Prelude.{
  ℕ, zero, suc, ◌+◌, ◌*◌, ◌/◌, ◌%◌, ◌<◌, ◌≡◌, refl, sym, ap, ◌∙◌, ◌==◌, Bool, true, false, some,
  List, [], ◌∷◌, ◌++◌, append_assoc, Bytes, length, IsBytes, All, arith, inl,
}
use local_smarthinq.Regex.{Piece, letter, several, Groups, prefer, match, fixed, search}
use local_smarthinq.Regex.Greedy.{Several, match-fixed, one_or_more-found}
use local_smarthinq.Tools.RelayLog.{
  digits, nth, digit, hex, is_hex, hex_value, and_byte, from_hex, len_label, hex_label, logged,
  chunk_pattern, digits_of, find_chunk,
}

-- A digit is one of the class, and has its value.
abbrev IsDigitOf : ℕ → Type 0
IsDigitOf n = (is_hex (digit n) ≡ true) × (hex_value (digit n) ≡ n)

-- The letters are digits of the values from this one on.
abbrev AreDigitsFrom : ℕ → List Char → Type 0
AreDigitsFrom k [] = Unit {0}
AreDigitsFrom k (c ∷ cs) = ((is_hex c ≡ true) × (hex_value c ≡ k)) × AreDigitsFrom (suc k) cs

nth-value :
    (k n : ℕ) (cs : List Char)
    → AreDigitsFrom k cs
    → n < length cs
    → (is_hex (nth n cs) ≡ true) × (hex_value (nth n cs) ≡ k + n)
unfolding nth
nth-value k n [] all h = absurd (omega arith)
nth-value k zero (c ∷ cs) ((hex, value), all) h = (hex, value ∙ omega arith)
nth-value k (suc n) (c ∷ cs) (first, all) h =
    let p = nth-value (suc k) n cs all (omega arith) in (p.0, p.1 ∙ omega arith)

all_digits : AreDigitsFrom 0 digits
unfolding is_hex hex_value
all_digits = (
  (refl, refl),
  (
    (refl, refl),
    (
      (refl, refl),
      (
        (refl, refl),
        (
          (refl, refl),
          (
            (refl, refl),
            (
              (refl, refl),
              (
                (refl, refl),
                (
                  (refl, refl),
                  (
                    (refl, refl),
                    (
                      (refl, refl),
                      (
                        (refl, refl),
                        ((refl, refl), ((refl, refl), ((refl, refl), ((refl, refl), tt)))),
                      ),
                    ),
                  ),
                ),
              ),
            ),
          ),
        ),
      ),
    ),
  ),
)

digit-value : (n : ℕ) → n < 16 → IsDigitOf n
unfolding digit
digit-value n h = let p = nth-value 0 n digits all_digits h in (p.0, p.1 ∙ omega arith)

from_hex-hex : (bs : Bytes) → IsBytes bs → from_hex (hex bs) ≡ some bs
unfolding from_hex hex and_byte
from_hex-hex [] h = refl
from_hex-hex (b ∷ bs) (byte, h) =
    let high = digit-value (b / 16) (omega arith) in
    let low = digit-value (b % 16) (omega arith) in
    ap (and_byte (hex_value (digit (b / 16))) (hex_value (digit (b % 16)))) (from_hex-hex bs h)
    ∙ ap (λ n. some ((n * 16 + hex_value (digit (b % 16))) ∷ bs)) high.1
    ∙ ap (λ n. some (((b / 16) * 16 + n) ∷ bs)) low.1
    ∙ ap (λ n. some (n ∷ bs)) (omega arith)

pub hex-All : (bs : Bytes) → IsBytes bs → All (λ c. is_hex c ≡ true) (hex bs)
unfolding hex
hex-All [] h = tt
hex-All (b ∷ bs) (byte, h) =
    ((digit-value (b / 16) (omega arith)).0, ((digit-value (b % 16) (omega arith)).0, hex-All bs h))

hex-Several : (b : ℕ) (bs : Bytes) → IsBytes (b ∷ bs) → Several is_hex (hex (b ∷ bs))
unfolding hex
hex-Several b bs h = hex-All (b ∷ bs) h

-- A letter that does not occur in a text.
abbrev pub Lacks : Char → List Char → Type 0
Lacks d = All (λ c. (code c == code d) ≡ false)

search-behind :
    (d : Char) (ps : List Piece) (xs ys : List Char) (gs : Groups)
    → Lacks d xs
    → match (letter d ∷ ps) ys ≡ some gs
    → search (letter d ∷ ps) (xs ++ ys) ≡ some gs
unfolding search match prefer
search-behind d ps [] [] gs lacks h = absurd (ground arith)
search-behind d ps [] (y ∷ ys) gs lacks h = ap (λ o. prefer o (search (letter d ∷ ps) ys)) h
search-behind d ps (x ∷ xs) ys gs (now, lacks) h = rw now (search-behind d ps xs ys gs lacks h)

-- What is matched behind the side and its label.
abbrev pub behind_len : (Char → Bool) → List Piece
behind_len is_digit = several is_digit ∷ fixed hex_label (several is_hex ∷ [])

abbrev from_len : (ℕ → List Char) → Bytes → List Char
from_len show chunk = show (length chunk) ++ (hex_label ++ (hex chunk ++ "\n" ∷ []))

match-len :
    (is_digit : Char → Bool) (show : ℕ → List Char) (b : ℕ) (bs : Bytes)
    → IsBytes (b ∷ bs)
    → Several is_digit (show (length (b ∷ bs)))
    → is_digit " " ≡ false
    → match (behind_len is_digit) (from_len show (b ∷ bs))
      ≡ some (show (length (b ∷ bs)) ∷ hex (b ∷ bs) ∷ [])
unfolding match is_hex
match-len is_digit show b bs bytes shown space =
    let chunk = b ∷ bs in
    let at_hex : match (several is_hex ∷ []) (hex chunk ++ "\n" ∷ []) ≡ some (hex chunk ∷ []) =
      one_or_more-found is_hex (match []) (hex chunk) ("\n" ∷ []) [] (hex-Several b bs bytes) refl
        (inl refl) in
    one_or_more-found is_digit (match (fixed hex_label (several is_hex ∷ []))) (show (length chunk))
      (hex_label ++ (hex chunk ++ "\n" ∷ [])) (hex chunk ∷ []) shown
      (match-fixed hex_label (hex chunk ++ "\n" ∷ []) (several is_hex ∷ []) ∙ at_hex) (inl space)

-- The line that the relay logs for a chunk that is not empty is read back as this chunk, if the
-- side's first letter does not occur in the stamp, and the length is written in digits, of which
-- the space is none.
pub find_chunk-logged :
    (first : Char) (tag : List Char) (is_digit : Char → Bool) (show : ℕ → List Char)
    (stamp : List Char) (b : ℕ) (bs : Bytes)
    → IsBytes (b ∷ bs)
    → Lacks first (stamp ++ " " ∷ [])
    → Several is_digit (show (length (b ∷ bs)))
    → is_digit " " ≡ false
    → find_chunk first tag is_digit (logged first tag show stamp (b ∷ bs)) ≡ some (b ∷ bs)
unfolding find_chunk digits_of logged
find_chunk-logged first tag is_digit show stamp b bs bytes lacks shown space =
    let chunk = b ∷ bs in
    let label = tag ++ len_label in
    let line = label ++ from_len show chunk in
    let matched =
      match-fixed (first ∷ label) (from_len show chunk) (behind_len is_digit)
      ∙ match-len is_digit show b bs bytes shown space in
    let found =
      search-behind first (fixed label (behind_len is_digit)) (stamp ++ " " ∷ []) (first ∷ line)
        (show (length chunk) ∷ hex chunk ∷ []) lacks matched in
    ap (λ l. digits_of (search (chunk_pattern first tag is_digit) l))
      (ap (λ l. stamp ++ " " ∷ first ∷ l) (sym (append_assoc tag len_label (from_len show chunk)))
        ∙ sym (append_assoc stamp (" " ∷ []) (first ∷ line)))
    ∙ ap digits_of found
    ∙ from_hex-hex chunk bytes
