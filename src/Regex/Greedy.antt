-- ===== src/Regex/Greedy.antt =====
-- Where a greedy group ends.
use Prim.Native.Char.{Char, code}
use local_smarthinq.Prelude.{
  ◌≡◌, refl, ◌∙◌, Bool, true, false, Option, none, some, List, [], ◌∷◌, ◌++◌, ◌==◌, ◌⊎◌, inl, inr,
  arith, All, if_true,
}
use local_smarthinq.Regex.{
  Piece, Groups, prefer, stop, captured, with_group, more, one_or_more, match, fixed,
}

-- One or more letters of a class.
abbrev pub Several : (Char → Bool) → List Char → Type 0
Several p [] = ⊥
Several p (c ∷ cs) = (p c ≡ true) × All (λ d. p d ≡ true) cs

pub match-fixed :
    (xs ys : List Char) (ps : List Piece) → match (fixed xs ps) (xs ++ ys) ≡ match ps ys
unfolding match
match-fixed [] ys ps = refl
match-fixed (x ∷ xs) ys ps =
    if_true (code x == code x) (match (fixed xs ps) (xs ++ ys)) none (ground arith)
    ∙ match-fixed xs ys ps

-- The rest of a pattern matches nowhere in a text.
abbrev pub Nowhere : (List Char → Option Groups) → List Char → Type 0
Nowhere rest [] = rest [] ≡ none
Nowhere rest (c ∷ cs) = (rest (c ∷ cs) ≡ none) × Nowhere rest cs

-- A captured group ends in front of such a text: it cannot go on, or in vain.
abbrev pub Ends : (Char → Bool) → (List Char → Option Groups) → List Char → Type 0
Ends p rest [] = Unit {0}
Ends p rest (c ∷ cs) = (p c ≡ false) ⊎ Nowhere rest cs

pub more-none :
    (p : Char → Bool) (rest : List Char → Option Groups) (cs : List Char)
    → Nowhere rest cs
    → more p rest cs ≡ none
unfolding more stop prefer captured
more-none p rest [] h = rw h refl
more-none p rest (c ∷ cs) (h, later) = rw (more-none p rest cs later, h) (ground arith)

pub more-Ends :
    (p : Char → Bool) (rest : List Char → Option Groups) (ys : List Char) (gs : Groups)
    → rest ys ≡ some gs
    → Ends p rest ys
    → more p rest ys ≡ some ([], gs)
unfolding more stop prefer captured
more-Ends p rest [] gs h e = rw h refl
more-Ends p rest (c ∷ cs) gs h (inl other) = rw (other, h) refl
more-Ends p rest (c ∷ cs) gs h (inr vain) = rw (more-none p rest cs vain, h) (ground arith)

pub more-found :
    (p : Char → Bool) (rest : List Char → Option Groups) (xs ys : List Char) (gs : Groups)
    → All (λ c. p c ≡ true) xs
    → rest ys ≡ some gs
    → Ends p rest ys
    → more p rest (xs ++ ys) ≡ some (xs, gs)
unfolding more captured prefer
more-found p rest [] ys gs all h e = more-Ends p rest ys gs h e
more-found p rest (x ∷ xs) ys gs (now, all) h e = rw (now, more-found p rest xs ys gs all h e) refl

pub one_or_more-found :
    (p : Char → Bool) (rest : List Char → Option Groups) (xs ys : List Char) (gs : Groups)
    → Several p xs
    → rest ys ≡ some gs
    → Ends p rest ys
    → one_or_more p rest (xs ++ ys) ≡ some (xs ∷ gs)
unfolding one_or_more captured with_group
one_or_more-found p rest [] ys gs s h e = absurd s
one_or_more-found p rest (x ∷ xs) ys gs (now, all) h e =
    rw (now, more-found p rest xs ys gs all h e) refl

pub Several-All : (p : Char → Bool) (xs : List Char) → Several p xs → All (λ c. p c ≡ true) xs
Several-All p [] h = tt
Several-All p (x ∷ xs) h = h
