-- ===== src/Tools/RelayLog/Lines.antt =====
-- A line of the relay's log is read as one chunk of its side, and as nothing else.
use Prim.Native.Char.{Char, code}
use local_smarthinq.Prelude.{
  ℕ, ◌≡◌, refl, sym, ap, ◌∙◌, ◌==◌, Bool, true, false, Option, none, List, [], ◌∷◌, ◌++◌,
  append_assoc, Bytes, length, IsBytes, All, arith,
}
use local_smarthinq.Regex.{Piece, letter, prefer, match, fixed, search}
use local_smarthinq.Regex.Greedy.{Several}
use local_smarthinq.Tools.Extract.{Line}
use local_smarthinq.Tools.Extract.Joined.{answer_line}
use local_smarthinq.Tools.Extract.Late.{request_line}
use local_smarthinq.Tools.RelayLog.{
  hex, is_hex, client_tag, up_tag, len_label, hex_label, logged, chunk_pattern, digits_of,
  find_chunk, open_rest, closed_rest, is_found, occurs, read_line,
}
use local_smarthinq.Tools.RelayLog.RoundTrip.{Lacks, behind_len, hex-All, find_chunk-logged}

-- Letters that start no mark of the log.
abbrev pub IsPlain : List Char → Type 0
IsPlain cs = Lacks "C" cs × Lacks "U" cs × Lacks "r" cs

Lacks-append : (d : Char) (xs ys : List Char) → Lacks d xs → Lacks d ys → Lacks d (xs ++ ys)
Lacks-append d [] ys h k = k
Lacks-append d (x ∷ xs) ys (now, h) k = (now, Lacks-append d xs ys h k)

search-Lacks :
    (d : Char) (ps : List Piece) (xs ys : List Char)
    → Lacks d xs
    → search (letter d ∷ ps) (xs ++ ys) ≡ search (letter d ∷ ps) ys
unfolding search match prefer
search-Lacks d ps [] ys h = refl
search-Lacks d ps (x ∷ xs) ys (now, h) = rw now (search-Lacks d ps xs ys h)

search-none :
    (d : Char) (ps : List Piece) (xs : List Char) → Lacks d xs → search (letter d ∷ ps) xs ≡ none
unfolding search match prefer
search-none d ps [] h = refl
search-none d ps (x ∷ xs) (now, h) = rw now (search-none d ps xs h)

-- A letter that is no digit.
abbrev NoDigit : Char → Type 0
NoDigit d = (c : Char) → is_hex c ≡ true → (code c == code d) ≡ false

hex-Lacks : (d : Char) (cs : List Char) → NoDigit d → All (λ c. is_hex c ≡ true) cs → Lacks d cs
hex-Lacks d [] plain h = tt
hex-Lacks d (c ∷ cs) plain (now, h) = (plain c now, hex-Lacks d cs plain h)

C-NoDigit : NoDigit "C"
unfolding is_hex
C-NoDigit c h = ground arith

U-NoDigit : NoDigit "U"
unfolding is_hex
U-NoDigit c h = ground arith

r-NoDigit : NoDigit "r"
unfolding is_hex
r-NoDigit c h = ground arith

-- The line behind the side.
abbrev rest_of : (ℕ → List Char) → Bytes → List Char
rest_of show chunk = len_label ++ (show (length chunk) ++ (hex_label ++ (hex chunk ++ "\n" ∷ [])))

rest-Lacks :
    (d : Char) (show : ℕ → List Char) (chunk : Bytes)
    → NoDigit d
    → IsBytes chunk
    → Lacks d len_label
    → Lacks d hex_label
    → Lacks d ("\n" ∷ [])
    → Lacks d (show (length chunk))
    → Lacks d (rest_of show chunk)
rest-Lacks d show chunk plain bytes len_free hex_free end shown =
    Lacks-append d len_label _ len_free (
      Lacks-append d (show (length chunk)) _ shown (
        Lacks-append d hex_label _ hex_free
          (Lacks-append d (hex chunk) _ (hex-Lacks d (hex chunk) plain (hex-All chunk bytes)) end)))

abbrev found_in : Bool → Bool → Option Bytes → Option Bytes → Line
found_in o c t f = record { opens = o; closes = c; to_cloud = t; from_cloud = f }

same_line :
    (o c o' c' : Bool) (t f t' f' : Option Bytes)
    → o ≡ o'
    → c ≡ c'
    → t ≡ t'
    → f ≡ f'
    → found_in o c t f ≡ found_in o' c' t' f'
same_line o c o' c' t f t' f' h k l m =
    ap (λ x. found_in x c t f) h
    ∙ ap (λ x. found_in o' x t f) k
    ∙ ap (λ x. found_in o' c' x f) l
    ∙ ap (found_in o' c' t') m

module _ (is_digit : Char → Bool) (show : ℕ → List Char) (stamp : List Char) (b : ℕ) (bs : Bytes)
    (bytes : IsBytes (b ∷ bs)) (stamped : IsPlain stamp) (plain : IsPlain (show (length (b ∷ bs))))
    (shown : Several is_digit (show (length (b ∷ bs)))) (space : is_digit " " ≡ false) where
  abbrev rest : List Char
  rest = rest_of show (b ∷ bs)

  rest-plain : IsPlain rest
  rest-plain = (
    rest-Lacks "C" show (b ∷ bs) C-NoDigit bytes (refl, (refl, (refl, (refl, (refl, tt)))))
        (refl, (refl, (refl, (refl, (refl, tt))))) (refl, tt) plain.0,
    rest-Lacks "U" show (b ∷ bs) U-NoDigit bytes (refl, (refl, (refl, (refl, (refl, tt)))))
        (refl, (refl, (refl, (refl, (refl, tt))))) (refl, tt) plain.1,
    rest-Lacks "r" show (b ∷ bs) r-NoDigit bytes (refl, (refl, (refl, (refl, (refl, tt)))))
        (refl, (refl, (refl, (refl, (refl, tt))))) (refl, tt) plain.2,
  )

  -- A text that starts with an r does not occur, whatever the side.
  occurs-none :
      (ps side : List Char)
      → Lacks "r" side
      → occurs ("r" ∷ ps) (stamp ++ " " ∷ (side ++ rest)) ≡ false
  unfolding occurs is_found
  occurs-none ps side h = ap is_found (
      search-none "r" (fixed ps []) (stamp ++ " " ∷ (side ++ rest))
        (Lacks-append "r" stamp _ stamped.2 (refl, Lacks-append "r" side rest h rest-plain.2)))

  -- A line of one side holds nothing of the other.
  client-no_answer :
      find_chunk "U" up_tag is_digit (logged "C" client_tag show stamp (b ∷ bs)) ≡ none
  unfolding find_chunk logged digits_of search match prefer
  client-no_answer =
      let ps = fixed (up_tag ++ len_label) (behind_len is_digit) in
      ap digits_of (
        ap (search (chunk_pattern "U" up_tag is_digit))
          (sym (append_assoc stamp (" " ∷ "C" ∷ "-" ∷ ">" ∷ []) ("U" ∷ rest)))
        ∙ search-Lacks "U" ps (stamp ++ " " ∷ "C" ∷ "-" ∷ ">" ∷ []) ("U" ∷ rest)
            (Lacks-append "U" stamp _ stamped.1 (refl, (refl, (refl, (refl, tt)))))
        ∙ search-none "U" ps rest rest-plain.1)

  up-no_request : find_chunk "C" client_tag is_digit (logged "U" up_tag show stamp (b ∷ bs)) ≡ none
  unfolding find_chunk logged digits_of search match prefer
  up-no_request =
      let ps = fixed (client_tag ++ len_label) (behind_len is_digit) in
      ap digits_of (
        ap (search (chunk_pattern "C" client_tag is_digit))
          (sym (append_assoc stamp (" " ∷ "U" ∷ "-" ∷ ">" ∷ []) ("C" ∷ rest)))
        ∙ search-Lacks "C" ps (stamp ++ " " ∷ "U" ∷ "-" ∷ ">" ∷ []) ("C" ∷ rest)
            (Lacks-append "C" stamp _ stamped.0 (refl, (refl, (refl, (refl, tt)))))
        ∙ search-none "C" ps rest rest-plain.0)

  -- What the relay logs of a chunk, of either side, is read by the extraction as this chunk of this
  -- side and as nothing else: no chunk of the other side, no start and no end of a connection. The
  -- chunk is not empty, its length is written in digits, of which the space is none, and the stamp
  -- and these digits hold none of the letters C, U and r.
  pub read_line-logged :
      (read_line is_digit (logged "C" client_tag show stamp (b ∷ bs)) ≡ request_line (b ∷ bs))
      × (read_line is_digit (logged "U" up_tag show stamp (b ∷ bs)) ≡ answer_line (b ∷ bs))
  unfolding read_line logged
  read_line-logged = (
    same_line _ _ _ _ _ _ _ _
        (occurs-none open_rest ("C" ∷ client_tag) (refl, (refl, (refl, (refl, tt)))))
        (occurs-none closed_rest ("C" ∷ client_tag) (refl, (refl, (refl, (refl, tt)))))
        (find_chunk-logged "C" client_tag is_digit show stamp b bs bytes
          (Lacks-append "C" stamp (" " ∷ []) stamped.0 (refl, tt)) shown space)
        client-no_answer,
    same_line _ _ _ _ _ _ _ _
        (occurs-none open_rest ("U" ∷ up_tag) (refl, (refl, (refl, (refl, tt)))))
        (occurs-none closed_rest ("U" ∷ up_tag) (refl, (refl, (refl, (refl, tt))))) up-no_request
        (find_chunk-logged "U" up_tag is_digit show stamp b bs bytes
          (Lacks-append "U" stamp (" " ∷ []) stamped.1 (refl, tt)) shown space),
  )
