-- ===== src/Wire/Len4/RoundTrip.antt =====
-- What `encode_message_len4` writes, `decode_messages_len4` reads back.
use local_smarthinq.Prelude.{
  ℕ, ◌/◌, ◌%◌, ◌≤◌, ◌<◌, ◌≡◌, refl, ◌∙◌, false, Option, none, some, List, [], ◌∷◌, ◌++◌,
  append_assoc, arith, ltb, le→ltb, lt→ltb, Bytes, All, length, length-append, take-append,
  drop-append,
}
use local_smarthinq.Json.{Fields, obj, Loads, Dumps}
use local_smarthinq.Wire.Len4.{
  from_be, encode_message_len4, len4_max_frame, message_of, decode_messages_len4,
}
use local_smarthinq.Wire.Len4.Fuel.{decode-frame}

-- `json.loads` reads the text of the message back, and the text fits the reader's limit.
pub record IsSendable (loads : Loads) (dumps : Dumps) (msg : Fields) : Type 0 where
  pub reads : loads (dumps msg) ≡ some (obj msg)
  pub fits : length (dumps msg) ≤ len4_max_frame

-- The frames of several messages, one behind the other.
unfoldable pub encode_all : Dumps → List Fields → Option Bytes
encode_all dumps [] = some []
encode_all dumps (msg ∷ msgs) = elim (encode_message_len4 dumps msg) [
  | none ↦ none
  | some frame ↦ elim (encode_all dumps msgs) [ none ↦ none | some frames ↦ some (frame ++ frames) ]
]

from_be-pack :
    (n : ℕ)
    → n < 4294967296
    → from_be (n / 16777216) ((n / 65536) % 256) ((n / 256) % 256) (n % 256) ≡ n
unfolding from_be
from_be-pack n h = omega arith

-- A header that declares the payload's length, and the payload, are read as one message.
decode-payload :
    (loads : Loads) (payload ys : Bytes) (msg : Fields) (a b c d : ℕ)
    → from_be a b c d ≡ length payload
    → length payload ≤ len4_max_frame
    → loads payload ≡ some (obj msg)
    → decode_messages_len4 loads (a ∷ b ∷ c ∷ d ∷ (payload ++ ys))
      ≡ (msg ∷ (decode_messages_len4 loads ys).0, (decode_messages_len4 loads ys).1)
unfolding message_of
decode-payload loads payload ys msg a b c d e fits reads =
    let n = from_be a b c d in
    let small : ltb len4_max_frame n ≡ false = le→ltb len4_max_frame n (omega arith) in
    let whole : ltb (length (payload ++ ys)) n ≡ false =
      le→ltb (length (payload ++ ys)) n (omega (arith, length-append {0} payload ys)) in
    decode-frame loads a b c d (payload ++ ys) small whole
    ∙ rw (e, take-append payload ys, drop-append payload ys, reads)

-- The frame of a message, on the wire.
abbrev frame_of : Bytes → Bytes
frame_of payload =
    let n = length payload in n / 16777216 ∷ (n / 65536) % 256 ∷ (n / 256) % 256 ∷ n % 256 ∷ payload

encode-frame_of :
    (dumps : Dumps) (msg : Fields)
    → length (dumps msg) ≤ len4_max_frame
    → encode_message_len4 dumps msg ≡ some (frame_of (dumps msg))
unfolding encode_message_len4
encode-frame_of dumps msg fits = rw (lt→ltb (length (dumps msg)) 4294967296 (omega arith))

-- Messages whose text is read back, and is at most the reader's limit, are all encoded, and their
-- frames, whatever bytes follow, are decoded to these messages and then to what follows.
pub decode-encode :
    (loads : Loads) (dumps : Dumps) (msgs : List Fields) (ys : Bytes)
    → All (IsSendable loads dumps) msgs
    → (wire : Bytes) × (encode_all dumps msgs ≡ some wire)
      × (decode_messages_len4 loads (wire ++ ys)
          ≡ (msgs ++ (decode_messages_len4 loads ys).0, (decode_messages_len4 loads ys).1))
unfolding encode_all
decode-encode loads dumps [] ys h = ([], refl, refl)
decode-encode loads dumps (msg ∷ msgs) ys (s, h) =
    let (wire, encoded, decoded) = decode-encode loads dumps msgs ys h in
    let text = dumps msg in
    let n = length text in
    (
      frame_of text ++ wire,
      ground (arith, encode-frame_of dumps msg s.fits, encoded),
      rw append_assoc (
          decode-payload loads text (wire ++ ys) msg (n / 16777216) ((n / 65536) % 256)
            ((n / 256) % 256) (n % 256) (from_be-pack n (omega (arith, s.fits))) s.fits s.reads
          ∙ rw decoded),
    )
