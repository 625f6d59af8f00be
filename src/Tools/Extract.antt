-- ===== src/Tools/Extract.antt =====
-- tools/extract_replay_store.py: the replay store from the log of the relay on :46030. Reading a
-- line, the regular expressions and UTF-8 are arguments; a line whose digits are not pairs, on
-- which `bytes.fromhex` raises, is not among the lines here.
pub mod Chunks
pub mod Joined
pub mod First
pub mod Late
use Prim.Native.String.{◌++◌ as join}
use local_smarthinq.Prelude.{
  ℕ, ◌==◌, String, Bool, true, false, ◌&&◌, Option, none, some, List, [], ◌∷◌, ◌++◌, ltb,
  if◌then◌else◌, Bytes, length, take, drop, Dict, find, put,
}

-- What the tests and the two searches of `extract` find in a line.
pub record Line : Type 0 where
  pub opens : Bool
  pub closes : Bool
  pub to_cloud : Option Bytes
  pub from_cloud : Option Bytes

-- `POST (\S+)` and `<item>([^<]*)</item>` in a request, `Content-Length:\s*(\d+)` in a response's
-- head, and `decode("utf-8", "replace")`.
pub record Parsing : Type 0 where
  pub post : Bytes → Option String
  pub item : Bytes → Option String
  pub content_length : Bytes → Option ℕ
  pub utf8 : Bytes → String

-- The response's headers and its body.
abbrev pub Answer : Type 0
Answer = String × String

abbrev pub Pairs : Type 0
Pairs = Dict Answer

pub record Conn : Type 0 where
  pub endpoint : Option String
  pub item : Option String
  pub response : Option Answer
  pub up_buf : Bytes

pub record Extraction : Type 0 where
  pub conn : Option Conn
  pub pairs : Pairs

unfoldable pub starts_with : Bytes → Bytes → Bool
starts_with [] bs = true
starts_with (p ∷ ps) [] = false
starts_with (p ∷ ps) (b ∷ bs) = p == b && starts_with ps bs

abbrev pub blank : Bytes
blank = 13 ∷ 10 ∷ 13 ∷ 10 ∷ []

unfoldable pub behind : ℕ → Option (Bytes × Bytes) → Option (Bytes × Bytes)
behind b none = none
behind b (some (head, rest)) = some (b ∷ head, rest)

-- `buf.partition(b"\r\n\r\n")`; `none` where the separator is not there.
unfoldable pub partition : Bytes → Option (Bytes × Bytes)
unfolding starts_with behind
partition [] = none
partition (b ∷ bs) =
    let later = behind b (partition bs) in
    if starts_with blank (b ∷ bs) then some ([], drop 4 (b ∷ bs)) else later

unfoldable pub sized : Parsing → Bytes → Bytes → Option ℕ → Option Answer
sized p head rest none = none
sized p head rest (some n) =
    if ltb (length rest) n then none else some (p.utf8 head, p.utf8 (take n rest))

unfoldable pub with_head : Parsing → Option (Bytes × Bytes) → Option Answer
unfolding sized
with_head p none = none
with_head p (some (head, rest)) = sized p head rest (p.content_length head)

abbrev pub http : Bytes
http = b'H' ∷ b'T' ∷ b'T' ∷ b'P' ∷ []

unfoldable pub parse_response : Parsing → Bytes → Option Answer
unfolding starts_with partition with_head
parse_response p buf = if starts_with http buf then with_head p (partition buf) else none

-- `conn.get('item', '')`, and the key of the pair.
unfoldable pub item_or_empty : Option String → String
item_or_empty none = ""
item_or_empty (some item) = item

unfoldable pub key_of : String → Option String → String
unfolding item_or_empty
key_of endpoint item = join endpoint (join "|" (item_or_empty item))

-- `if key not in pairs`
unfoldable pub put_first : String → Answer → Option Answer → Pairs → Pairs
unfolding put
put_first key r none pairs = put key r pairs
put_first key r (some old) pairs = pairs

unfoldable pub keep_at : Option String → Option String → Option Answer → Pairs → Pairs
unfolding put_first key_of find
keep_at none item response pairs = pairs
keep_at (some endpoint) item none pairs = pairs
keep_at (some endpoint) item (some r) pairs =
    put_first (key_of endpoint item) r (find (key_of endpoint item) pairs) pairs

unfoldable pub keep : Conn → Pairs → Pairs
unfolding keep_at
keep c pairs = keep_at c.endpoint c.item c.response pairs

-- A response that only the connection's end completes.
unfoldable pub to_the_end : Parsing → Option (Bytes × Bytes) → Option Answer
to_the_end p none = none
to_the_end p (some (head, rest)) = some (p.utf8 head, p.utf8 rest)

unfoldable pub finish : Parsing → Conn → Option Answer → Conn
unfolding starts_with partition to_the_end
finish p c (some r) = c
finish p c none = record c {
  response = if starts_with http c.up_buf then to_the_end p (partition c.up_buf) else none;
}

unfoldable pub close : Parsing → Pairs → Option Conn → Extraction
unfolding finish keep
close p pairs none = record { conn = none; pairs = pairs }
close p pairs (some c) = record { conn = none; pairs = keep (finish p c c.response) pairs }

-- A chunk of the request: nothing is read from it once the endpoint is known.
unfoldable pub take_request : Parsing → Bytes → Conn → Option String → Conn
unfolding item_or_empty
take_request p bytes c (some endpoint) = c
take_request p bytes c none = record c {
  endpoint = p.post bytes;
  item = some (item_or_empty (p.item bytes));
}

unfoldable pub on_request : Parsing → Option Bytes → Conn → Conn
unfolding take_request
on_request p none c = c
on_request p (some bytes) c = take_request p bytes c c.endpoint

unfoldable pub answered : Conn → Pairs → Option Answer → Extraction
unfolding keep
answered c pairs none = record { conn = some c; pairs = pairs }
answered c pairs (some r) =
    let c' : Conn = record c { response = some r } in
    record { conn = some c'; pairs = keep c' pairs }

unfoldable pub take_answer : Parsing → Bytes → Conn → Pairs → Option Answer → Extraction
unfolding answered parse_response
take_answer p bytes c pairs (some r) = record { conn = some c; pairs = pairs }
take_answer p bytes c pairs none =
    let buf = c.up_buf ++ bytes in answered (record c { up_buf = buf }) pairs (parse_response p buf)

unfoldable pub on_answer : Parsing → Option Bytes → Conn → Pairs → Extraction
unfolding take_answer
on_answer p none c pairs = record { conn = some c; pairs = pairs }
on_answer p (some bytes) c pairs = take_answer p bytes c pairs c.response

-- A line inside a connection.
unfoldable pub on_bytes : Parsing → Line → Pairs → Option Conn → Extraction
unfolding on_request on_answer
on_bytes p l pairs none = record { conn = none; pairs = pairs }
on_bytes p l pairs (some c) = on_answer p l.from_cloud (on_request p l.to_cloud c) pairs

abbrev pub new_conn : Conn
new_conn = record { endpoint = none; item = none; response = none; up_buf = [] }

unfoldable pub on_line : Parsing → Line → Extraction → Extraction
unfolding close on_bytes
on_line p l x =
    if l.opens
    then record { conn = some new_conn; pairs = x.pairs }
    else if l.closes
    then close p x.pairs x.conn
    else on_bytes p l x.pairs x.conn

unfoldable pub on_lines : Parsing → List Line → Extraction → Extraction
unfolding on_line
on_lines p [] x = x
on_lines p (l ∷ ls) x = on_lines p ls (on_line p l x)

unfoldable pub extract : Parsing → List Line → Pairs
unfolding on_lines
extract p lines = (on_lines p lines (record { conn = none; pairs = [] })).pairs
