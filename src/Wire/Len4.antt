-- ===== src/Wire/Len4.antt =====
-- The washer and dryer framing of server/control_channel.py: `encode_message_len4` and
-- `decode_messages_len4`, frames of a 4-byte big-endian length and that many bytes of JSON.
-- The decoder's log lines are not modelled.
mod Fuel
pub mod Progress
pub mod RoundTrip
pub mod Chunks
use mathlib.Core.Option
use local_smarthinq.Prelude.{
  ℕ, zero, suc, ◌+◌, ◌*◌, ◌/◌, ◌%◌, ◌^◌, Option, none, some, List, [], ◌∷◌, ◌++◌, ltb,
  if◌then◌else◌, Bytes, length, take, drop,
}
use local_smarthinq.Json.{Value, Fields, obj, Loads, Dumps}

-- `int.from_bytes(buf[pos:pos + 4], "big")`
unfoldable pub from_be : ℕ → ℕ → ℕ → ℕ → ℕ
from_be a b c d = a * 16777216 + b * 65536 + c * 256 + d

-- `struct.pack("!I", n)`; `none` is its `struct.error` at four gigabytes.
unfoldable pub pack_u32 : ℕ → Option Bytes
pack_u32 n =
    if ltb n 4294967296
    then some (n / 16777216 ∷ (n / 65536) % 256 ∷ (n / 256) % 256 ∷ n % 256 ∷ [])
    else none

unfoldable pub encode_message_len4 : Dumps → Fields → Option Bytes
unfolding pack_u32
encode_message_len4 dumps msg =
    let payload = dumps msg in Option.map (λ header. header ++ payload) (pack_u32 (length payload))

abbrev pub len4_max_frame : ℕ
len4_max_frame = 1048576

-- What a complete frame adds to the messages: nothing, if it is no JSON or no object.
unfoldable pub message_of : Option Value → List Fields
message_of (some (obj msg)) = msg ∷ []
message_of _ = []

-- The loop, at what is left of the buffer behind `pos`.
unfoldable pub scan : Loads → ℕ → Bytes → List Fields × Bytes
unfolding from_be message_of
scan loads (suc fuel) (a ∷ b ∷ c ∷ d ∷ rest) =
    let declared = from_be a b c d in
    let skipped = scan loads fuel (b ∷ c ∷ d ∷ rest) in
    let after = scan loads fuel (drop declared rest) in
    let taken : List Fields × Bytes =
      (message_of (loads (take declared rest)) ++ after.0, after.1) in
    if ltb len4_max_frame declared
    then skipped
    else if ltb (length rest) declared
    then ([], a ∷ b ∷ c ∷ d ∷ rest)
    else taken
scan loads _ buf = ([], buf)

-- Each round drops a byte at least, so the buffer's length is enough fuel.
unfoldable pub decode_messages_len4 : Loads → Bytes → List Fields × Bytes
unfolding scan
decode_messages_len4 loads buf = scan loads (length buf) buf
