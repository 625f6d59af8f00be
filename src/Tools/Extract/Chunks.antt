-- ===== src/Tools/Extract/Chunks.antt =====
-- A response is put together again, however the relay's reads cut it.
use local_smarthinq.Prelude.{
  ℕ, ◌≤◌, ◌≡◌, refl, sym, ap, ◌∙◌, ◌==◌, true, ◌&&◌, Option, none, some, [], ◌∷◌, ◌++◌, ltb, Bytes,
  length, take, drop, arith, length-append, take-append_le, drop-append_le, Bool-cases, inl, inr,
  if_true, if_false,
}
use local_smarthinq.Tools.Extract.{
  Parsing, Answer, starts_with, blank, behind, partition, sized, with_head, http, parse_response,
}

starts_with-append :
    (ps xs ys : Bytes) → length ps ≤ length xs → starts_with ps (xs ++ ys) ≡ starts_with ps xs
unfolding starts_with
starts_with-append [] xs ys h = refl
starts_with-append (p ∷ ps) [] ys h = absurd (omega arith)
starts_with-append (p ∷ ps) (x ∷ xs) ys h =
    ap (λ b. p == x && b) (starts_with-append ps xs ys (omega arith))

starts_with-true : (ps xs ys : Bytes) → starts_with ps xs ≡ true → starts_with ps (xs ++ ys) ≡ true
unfolding starts_with
starts_with-true [] xs ys h = refl
starts_with-true (p ∷ ps) [] ys h = absurd (ground arith)
starts_with-true (p ∷ ps) (x ∷ xs) ys h = ground (arith, starts_with-true ps xs ys)

starts_with-length : (ps xs : Bytes) → starts_with ps xs ≡ true → length ps ≤ length xs
unfolding starts_with
starts_with-length [] xs h = omega arith
starts_with-length (p ∷ ps) [] h = absurd (ground arith)
starts_with-length (p ∷ ps) (x ∷ xs) h = ground (arith, starts_with-length ps xs)

-- The separator was found in the buffer.
abbrev Found : Bytes → Bytes × Bytes → Type 0
Found buf d = partition buf ≡ some d

behind-some :
    (b : ℕ) (o : Option (Bytes × Bytes)) (d : Bytes × Bytes)
    → behind b o ≡ some d
    → (e : Bytes × Bytes) × (o ≡ some e) × (d ≡ (b ∷ e.0, e.1))
unfolding behind
behind-some b none d h = absurd (ground arith)
behind-some b (some e) d h = (e, refl, ground arith)

partition-length : (buf : Bytes) (d : Bytes × Bytes) → Found buf d → 4 ≤ length buf
unfolding partition
partition-length [] d h = absurd (ground arith)
partition-length (b ∷ bs) d h = elim (Bool-cases (starts_with blank (b ∷ bs))) [
  | inl now ↦ starts_with-length blank (b ∷ bs) now
  | inr later ↦
      let (e, found, same) = behind-some b (partition bs) d (ground arith) in
      let n = partition-length bs e found in omega arith
]

-- With more behind the rest.
abbrev grown : Bytes → Option (Bytes × Bytes) → Option (Bytes × Bytes)
grown ys none = none
grown ys (some (head, rest)) = some (head, rest ++ ys)

grown-behind :
    (ys : Bytes) (b : ℕ) (o : Option (Bytes × Bytes))
    → behind b (grown ys o) ≡ grown ys (behind b o)
unfolding behind
grown-behind ys b none = refl
grown-behind ys b (some (head, rest)) = refl

-- What is found stays found when more comes.
partition-append :
    (xs ys : Bytes) (d : Bytes × Bytes)
    → Found xs d
    → partition (xs ++ ys) ≡ grown ys (partition xs)
unfolding partition
partition-append [] ys d h = absurd (ground arith)
partition-append (x ∷ xs) ys d h = elim (Bool-cases (starts_with blank (x ∷ xs))) [
  | inl now ↦
      if_true (starts_with blank (x ∷ (xs ++ ys))) (some ([], drop 4 (x ∷ (xs ++ ys))))
        (behind x (partition (xs ++ ys))) (starts_with-true blank (x ∷ xs) ys now)
      ∙ ap (λ r. some ([], r))
          (drop-append_le 4 (x ∷ xs) ys (starts_with-length blank (x ∷ xs) now))
      ∙ ap (grown ys) (
          sym (
            if_true (starts_with blank (x ∷ xs)) (some ([], drop 4 (x ∷ xs)))
              (behind x (partition xs)) now))
  | inr other ↦
      let before =
        if_false (starts_with blank (x ∷ xs)) (some ([], drop 4 (x ∷ xs))) (behind x (partition xs))
          other in
      let (e, found, same) = behind-some x (partition xs) d (sym before ∙ h) in
      if_false (starts_with blank (x ∷ (xs ++ ys))) (some ([], drop 4 (x ∷ (xs ++ ys))))
        (behind x (partition (xs ++ ys)))
        (starts_with-append blank (x ∷ xs) ys (partition-length (x ∷ xs) d h) ∙ other)
      ∙ ap (behind x) (partition-append xs ys e found)
      ∙ grown-behind ys x (partition xs)
      ∙ ap (grown ys) (sym before)
]

sized-append :
    (p : Parsing) (head rest ys : Bytes) (n : Option ℕ) (r : Answer)
    → sized p head rest n ≡ some r
    → sized p head (rest ++ ys) n ≡ some r
unfolding sized
sized-append p head rest ys none r h = h
sized-append p head rest ys (some n) r h = elim (Bool-cases (ltb (length rest) n)) [
  | inl short ↦ absurd (ground arith)
  | inr enough ↦
      if_false (ltb (length (rest ++ ys)) n) none (some (p.utf8 head, p.utf8 (take n (rest ++ ys))))
        (ground (arith, length-append rest ys))
      ∙ ap (λ b. some (p.utf8 head, p.utf8 b)) (take-append_le n rest ys (ground arith))
      ∙ sym (if_false (ltb (length rest) n) none (some (p.utf8 head, p.utf8 (take n rest))) enough)
      ∙ h
]

with_head-append :
    (p : Parsing) (xs ys : Bytes) (o : Option (Bytes × Bytes)) (r : Answer)
    → partition xs ≡ o
    → with_head p o ≡ some r
    → with_head p (partition (xs ++ ys)) ≡ some r
unfolding with_head
with_head-append p xs ys none r e h = absurd (ground arith)
with_head-append p xs ys (some (head, rest)) r e h =
    ap (with_head p) (partition-append xs ys (head, rest) e ∙ ap (grown ys) e)
    ∙ sized-append p head rest ys (p.content_length head) r h

-- A complete response is not changed by what comes behind it.
pub parse_response-append :
    (p : Parsing) (xs ys : Bytes) (r : Answer)
    → parse_response p xs ≡ some r
    → parse_response p (xs ++ ys) ≡ some r
unfolding parse_response
parse_response-append p xs ys r h = elim (Bool-cases (starts_with http xs)) [
  | inl start ↦
      if_true (starts_with http (xs ++ ys)) (with_head p (partition (xs ++ ys))) none
        (starts_with-true http xs ys start)
      ∙ with_head-append p xs ys (partition xs) r refl
          (sym (if_true (starts_with http xs) (with_head p (partition xs)) none start) ∙ h)
  | inr other ↦ absurd (ground arith)
]
