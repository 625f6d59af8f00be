-- ===== src/Tools/RelayLog.antt =====
-- The log of decrypted chunks: how tools/wm47878_tls_relay.py writes a line, `on_client` and
-- `on_up` of `handle_connection`, and how tools/extract_replay_store.py finds the bytes in it. The
-- stamp, `str` of a number and the class `\d` are arguments.
pub mod RoundTrip
pub mod Lines
use Prim.Native.Char.{Char, code}
use local_smarthinq.Prelude.{
  ℕ, zero, suc, ◌-◌, ◌*◌, ◌+◌, ◌/◌, ◌%◌, Bool, true, false, ◌&&◌, ◌||◌, Option, none, some, List,
  [], ◌∷◌, ◌++◌, leb, if◌then◌else◌, Bytes, length,
}
use local_smarthinq.Tools.Extract.{Line}
use local_smarthinq.Regex.{Piece, several, Groups, fixed, search}

abbrev pub digits : List Char
digits =
    "0" ∷ "1" ∷ "2" ∷ "3" ∷ "4" ∷ "5" ∷ "6" ∷ "7" ∷ "8" ∷ "9" ∷ "a" ∷ "b" ∷ "c" ∷ "d" ∷ "e" ∷ "f"
    ∷ []

unfoldable pub nth : ℕ → List Char → Char
nth n [] = "0"
nth zero (c ∷ cs) = c
nth (suc n) (c ∷ cs) = nth n cs

unfoldable pub digit : ℕ → Char
unfolding nth
digit n = nth n digits

-- `chunk.hex()`
unfoldable pub hex : Bytes → List Char
unfolding digit
hex [] = []
hex (b ∷ bs) = digit (b / 16) ∷ digit (b % 16) ∷ hex bs

unfoldable pub is_hex : Char → Bool
is_hex c = leb 48 (code c) && leb (code c) 57 || leb 97 (code c) && leb (code c) 102

unfoldable pub hex_value : Char → ℕ
hex_value c = if leb (code c) 57 then code c - 48 else code c - 87

unfoldable pub and_byte : ℕ → ℕ → Option Bytes → Option Bytes
and_byte a b none = none
and_byte a b (some bs) = some ((a * 16 + b) ∷ bs)

-- `bytes.fromhex` of digits; `none` where one is left over, on which the code raises.
unfoldable pub from_hex : List Char → Option Bytes
unfolding hex_value and_byte
from_hex [] = some []
from_hex (c ∷ []) = none
from_hex (c ∷ d ∷ cs) = and_byte (hex_value c) (hex_value d) (from_hex cs)

-- A side is written with its first letter and the rest.
abbrev pub client_tag : List Char
client_tag = "-" ∷ ">" ∷ "U" ∷ []

abbrev pub up_tag : List Char
up_tag = "-" ∷ ">" ∷ "C" ∷ []

abbrev pub len_label : List Char
len_label = " " ∷ "l" ∷ "e" ∷ "n" ∷ "=" ∷ []

abbrev pub hex_label : List Char
hex_label = " " ∷ "h" ∷ "e" ∷ "x" ∷ "=" ∷ []

-- A line of the log, up to its end.
unfoldable pub logged : Char → List Char → (ℕ → List Char) → List Char → Bytes → List Char
unfolding hex
logged first tag show stamp chunk =
    stamp
    ++ " "
      ∷ first
      ∷ (tag ++ (len_label ++ (show (length chunk) ++ (hex_label ++ (hex chunk ++ "\n" ∷ [])))))

abbrev pub chunk_pattern : Char → List Char → (Char → Bool) → List Piece
chunk_pattern first tag is_digit =
    fixed (first ∷ (tag ++ len_label)) (several is_digit ∷ fixed hex_label (several is_hex ∷ []))

unfoldable pub digits_of : Option Groups → Option Bytes
unfolding from_hex
digits_of (some (n ∷ digits ∷ [])) = from_hex digits
digits_of _ = none

-- The chunk in a line, if it is one of this side.
unfoldable pub find_chunk : Char → List Char → (Char → Bool) → List Char → Option Bytes
unfolding search digits_of is_hex
find_chunk first tag is_digit line = digits_of (search (chunk_pattern first tag is_digit) line)

-- What stands behind the first letter of "relay open" and of "relay closed".
abbrev pub open_rest : List Char
open_rest = "e" ∷ "l" ∷ "a" ∷ "y" ∷ " " ∷ "o" ∷ "p" ∷ "e" ∷ "n" ∷ []

abbrev pub closed_rest : List Char
closed_rest = "e" ∷ "l" ∷ "a" ∷ "y" ∷ " " ∷ "c" ∷ "l" ∷ "o" ∷ "s" ∷ "e" ∷ "d" ∷ []

unfoldable pub is_found : Option Groups → Bool
is_found none = false
is_found (some gs) = true

-- `text in line`
unfoldable pub occurs : List Char → List Char → Bool
unfolding search is_found
occurs text line = is_found (search (fixed text []) line)

-- What `extract` finds in a line.
unfoldable pub read_line : (Char → Bool) → List Char → Line
unfolding occurs find_chunk
read_line is_digit line = record {
  opens = occurs ("r" ∷ open_rest) line;
  closes = occurs ("r" ∷ closed_rest) line;
  to_cloud = find_chunk "C" client_tag is_digit line;
  from_cloud = find_chunk "U" up_tag is_digit line;
}
