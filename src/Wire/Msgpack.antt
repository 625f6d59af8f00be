-- ===== src/Wire/Msgpack.antt =====
-- The fridge's framing of server/control_channel.py: `_mp_str`, `encode_message`,
-- `MsgpackReader` and `decode_messages`, messages of JSON inside msgpack strings. The masks and
-- shifts of the source stand here as `+`, `*`, `/` and `%` by powers of two, which is the same on
-- the ranges where they are used. A read that raises leaves no position: the caller rewinds.
mod Fuel
pub mod Guard
pub mod RoundTrip
pub mod Encode
pub mod Nested
use local_smarthinq.Prelude.{
  ℕ, zero, suc, ◌+◌, ◌*◌, ◌/◌, ◌%◌, String, Bool, true, false, ◌&&◌, Option, none, some, List, [],
  ◌∷◌, ◌++◌, ltb, leb, ◌==◌, if◌then◌else◌, Bytes, length, take, drop,
}
use local_smarthinq.Json.{Value, null, bool, num, str, obj, Fields, end, set_field, Text}

-- `_mp_str`, on the encoded text. `bytes([0xda, n >> 8, ...])` raises above 65535.
unfoldable pub mp_str : Bytes → Option Bytes
mp_str b =
    let n = length b in
    if ltb n 32
    then some ((160 + n) ∷ b)
    else if ltb n 256
    then some (217 ∷ n ∷ b)
    else if ltb n 65536
    then some (218 ∷ n / 256 ∷ n % 256 ∷ b)
    else none

-- `encode_message`, from the text that `json.dumps` gives
unfoldable pub encode_message : (Fields → Bytes) → Fields → Option Bytes
unfolding mp_str
encode_message dumps msg = mp_str (dumps msg)

-- A read returns a value and what is left, or raises `ValueError` or `IndexError`.
pub data Read : Type 0 where
  raised : Read
  value : Value → Bytes → Read

-- `_read_str`
unfoldable pub read_str : Text → ℕ → Bytes → Read
read_str t n rest =
    if ltb (length rest) n then raised else value (str (t.utf8 (take n rest))) (drop n rest)

-- Go on with what was read, unless the read raised.
unfoldable pub and_then : Read → (Value → Bytes → Read) → Read
and_then raised k = raised
and_then (value v rest) k = k v rest

-- `_read_map`, with the reader of one value
unfoldable pub read_map : Text → (Bytes → Read) → ℕ → Fields → Bytes → Read
unfolding and_then
read_map t one zero d rest = value (obj d) rest
read_map t one (suc n) d rest = and_then (one rest) λ k after_key.
    and_then (one after_key)
      λ v after_value. read_map t one n (set_field (t.show k) v d) after_value

-- `self._byte()` and what is done with it
unfoldable pub with_byte : (ℕ → Bytes → Read) → Bytes → Read
with_byte k [] = raised
with_byte k (b ∷ rest) = k b rest

unfoldable pub with_two : (ℕ → Bytes → Read) → Bytes → Read
unfolding with_byte
with_two k = with_byte (λ hi. with_byte (λ lo. k (hi * 256 + lo)))

-- The branches of `read` on the prefix byte, in the source's order.
unfoldable pub read_prefix : Text → (Bytes → Read) → ℕ → Bytes → Read
unfolding read_str read_map with_two
read_prefix t one prefix rest =
    if leb 128 prefix && leb prefix 143
    then read_map t one (prefix % 16) end rest
    else if leb 160 prefix && leb prefix 191
    then read_str t (prefix % 32) rest
    else if prefix == 217
    then with_byte (read_str t) rest
    else if prefix == 218
    then with_two (read_str t) rest
    else if prefix == 222
    then with_two (λ n. read_map t one n end) rest
    else if ltb prefix 128
    then value (num prefix) rest
    else if prefix == 204
    then with_byte (λ b. value (num b)) rest
    else if prefix == 194
    then value (bool false) rest
    else if prefix == 195
    then value (bool true) rest
    else raised

-- `read`: with no byte left it returns `None`. Fuel bounds the nesting of maps.
unfoldable pub read : Text → ℕ → Bytes → Read
unfolding read_prefix
read t (suc fuel) [] = value null []
read t (suc fuel) (prefix ∷ rest) = read_prefix t (read t fuel) prefix rest
read t zero _ = raised

unfoldable pub object_of : Option Value → Option Fields
object_of (some (obj m)) = some m
object_of _ = none

-- What `decode_messages` takes for a message: a text of a JSON object, or a map.
unfoldable pub message_in : Text → Value → Option Fields
unfolding object_of
message_in t (str s) = object_of (t.loads s)
message_in t (obj m) = some m
message_in t _ = none

unfoldable pub keep : Bytes → List Fields × Bytes → Option Fields → List Fields × Bytes
keep buf later none = ([], buf)
keep buf later (some msg) = (msg ∷ later.0, later.1)

-- One round of the loop of `decode_messages`: it stops at a read that raises and at what is no
-- message, in front of the bytes that were read.
unfoldable pub round : Text → Bytes → (Bytes → List Fields × Bytes) → Read → List Fields × Bytes
unfolding message_in keep
round t buf later raised = ([], buf)
round t buf later (value v rest) = keep buf (later rest) (message_in t v)

unfoldable pub read_all : Text → ℕ → Bytes → List Fields × Bytes
unfolding round read
read_all t (suc fuel) (b ∷ bs) =
    round t (b ∷ bs) (λ rest. read_all t fuel rest) (read t (suc (length (b ∷ bs))) (b ∷ bs))
read_all t _ buf = ([], buf)

abbrev pub msgbuf_sanity_limit : ℕ
msgbuf_sanity_limit = 65536

-- The never-park guard behind the loop.
unfoldable pub drop_mute : List Fields × Bytes → List Fields × Bytes
drop_mute ([], remainder) =
    if ltb msgbuf_sanity_limit (length remainder) then ([], []) else ([], remainder)
drop_mute (msg ∷ msgs, remainder) = (msg ∷ msgs, remainder)

unfoldable pub decode_messages : Text → Bytes → List Fields × Bytes
unfolding read_all drop_mute
decode_messages t buf = drop_mute (read_all t (length buf) buf)
