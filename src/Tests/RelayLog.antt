-- ===== src/Tests/RelayLog.antt =====
-- A line of the relay's log for two bytes.
use Prim.Native.Char.{Char, code}
use local_smarthinq.Prelude.{ℕ, ◌≡◌, refl, Bool, ◌&&◌, List, [], ◌∷◌, leb, arith, Bytes, IsBytes}
use local_smarthinq.Tools.Extract.Joined.{answer_line}
use local_smarthinq.Tools.Extract.Late.{request_line}
use local_smarthinq.Tools.RelayLog.{client_tag, up_tag, logged, read_line}
use local_smarthinq.Tools.RelayLog.Lines.{IsPlain, read_line-logged}

abbrev is_digit : Char → Bool
is_digit c = leb 48 (code c) && leb (code c) 57

abbrev show : ℕ → List Char
show n = "2" ∷ []

abbrev stamp : List Char
stamp = "1" ∷ "2" ∷ ":" ∷ []

abbrev chunk : Bytes
chunk = 255 ∷ 10 ∷ []

chunk-IsBytes : IsBytes chunk
chunk-IsBytes = (omega arith, (omega arith, tt))

stamp-IsPlain : IsPlain stamp
stamp-IsPlain = ((refl, (refl, (refl, tt))), (refl, (refl, (refl, tt))), (refl, (refl, (refl, tt))))

read_line-logged_example :
    (read_line is_digit (logged "C" client_tag show stamp chunk) ≡ request_line chunk)
    × (read_line is_digit (logged "U" up_tag show stamp chunk) ≡ answer_line chunk)
read_line-logged_example =
    read_line-logged is_digit show stamp 255 (10 ∷ []) chunk-IsBytes stamp-IsPlain
      ((refl, tt), (refl, tt), (refl, tt)) (refl, tt) refl

-- "12: C->U len=2 hex=ff0a", and the end of the line.
written :
    logged "C" client_tag show stamp chunk
    ≡ "1" ∷ "2" ∷ ":" ∷ " " ∷ "C" ∷ "-" ∷ ">" ∷ "U" ∷ " " ∷ "l" ∷ "e" ∷ "n" ∷ "=" ∷ "2" ∷ " " ∷ "h"
      ∷ "e" ∷ "x" ∷ "=" ∷ "f" ∷ "f" ∷ "0" ∷ "a" ∷ "\n" ∷ []
unfolding logged
written = refl
