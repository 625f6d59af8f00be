-- ===== src/Regex.antt =====
-- What the program uses of Python's `re`: fixed letters, one or more letters of a class, captured
-- greedily with backtracking, and the end of the text.
pub mod Greedy
use Prim.Native.Char.{Char, code}
use local_smarthinq.Prelude.{
  ℕ, Bool, true, false, Option, none, some, List, [], ◌∷◌, if◌then◌else◌, ◌==◌,
}

-- A fixed letter, one or more letters of a class, which are captured, and `$`.
pub data Piece : Type 0 where
  letter : Char → Piece
  several : (Char → Bool) → Piece
  line_end : Piece

-- What a pattern captures.
abbrev pub Groups : Type 0
Groups = List (List Char)

-- `$`
unfoldable pub at_end : List Char → Option Groups
at_end [] = some []
at_end (c ∷ []) = if code c == 10 then some [] else none
at_end (c ∷ d ∷ cs) = none

unfoldable pub prefer {ℓ} : {A : Type ℓ} → Option A → Option A → Option A
prefer none later = later
prefer (some x) later = some x

unfoldable pub stop : Option Groups → Option (List Char × Groups)
stop none = none
stop (some gs) = some ([], gs)

unfoldable pub captured : Char → Option (List Char × Groups) → Option (List Char × Groups)
captured c none = none
captured c (some (g, gs)) = some (c ∷ g, gs)

unfoldable pub with_group : Option (List Char × Groups) → Option Groups
with_group none = none
with_group (some (g, gs)) = some (g ∷ gs)

-- As many letters of the class as leave the rest a match.
unfoldable pub more :
    (Char → Bool) → (List Char → Option Groups) → List Char → Option (List Char × Groups)
unfolding stop captured prefer
more p rest [] = stop (rest [])
more p rest (c ∷ cs) =
    let longer = captured c (more p rest cs) in
    if p c then prefer longer (stop (rest (c ∷ cs))) else stop (rest (c ∷ cs))

unfoldable pub one_or_more : (Char → Bool) → (List Char → Option Groups) → List Char → Option Groups
unfolding more captured with_group
one_or_more p rest [] = none
one_or_more p rest (c ∷ cs) = if p c then with_group (captured c (more p rest cs)) else none

-- `re.match`
unfoldable pub match : List Piece → List Char → Option Groups
unfolding at_end one_or_more
match [] cs = some []
match (letter d ∷ ps) [] = none
match (letter d ∷ ps) (c ∷ cs) = if code c == code d then match ps cs else none
match (several p ∷ ps) cs = one_or_more p (match ps) cs
match (line_end ∷ ps) cs = elim (at_end cs) [ none ↦ none | some gs ↦ match ps cs ]

abbrev pub fixed : List Char → List Piece → List Piece
fixed [] ps = ps
fixed (c ∷ cs) ps = letter c ∷ fixed cs ps

-- `re.search`: the first place where the pattern matches.
unfoldable pub search : List Piece → List Char → Option Groups
unfolding match prefer
search ps [] = match ps []
search ps (c ∷ cs) = prefer (match ps (c ∷ cs)) (search ps cs)
