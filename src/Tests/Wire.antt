-- ===== src/Tests/Wire.antt =====
-- The framings of server/control_channel.py on small streams.
use local_smarthinq.Prelude.{
  ◌≡◌, refl, ◌&&◌, none, some, [], ◌∷◌, ◌++◌, ◌==◌, if◌then◌else◌, Bytes, arith, str_eq,
}
use local_smarthinq.Json.{null, obj, Fields, end, field, Loads, Dumps, Text}
use local_smarthinq.Wire.Len4.{encode_message_len4, decode_messages_len4}
use local_smarthinq.Wire.Len4.Progress.{IsParked, decode-IsParked}
use local_smarthinq.Wire.Len4.RoundTrip.{IsSendable, encode_all, decode-encode}
use local_smarthinq.Wire.Len4.Chunks.{in_two, decode-append}
use local_smarthinq.Wire.Msgpack.{mp_str, encode_message, decode_messages}
use local_smarthinq.Wire.Msgpack.Guard.{decode-fixint, decode-truncated_map}
use local_smarthinq.Wire.Msgpack.RoundTrip.{Frames, no_frames, frame_then, decode-encode_message}

abbrev hello : Fields
hello = field "Body" null end

-- "{}" stands for the message's text; nothing else is JSON here.
abbrev loads : Loads
loads (a ∷ b ∷ []) = if a == b'{' && b == b'}' then some (obj hello) else none
loads _ = none

abbrev dumps : Dumps
dumps _ = b'{' ∷ b'}' ∷ []

abbrev frame : Bytes
frame = 0 ∷ 0 ∷ 0 ∷ 2 ∷ b'{' ∷ b'}' ∷ []

encode_hello : encode_message_len4 dumps hello ≡ some frame
unfolding encode_message_len4
encode_hello = refl

-- A frame, garbage that is no JSON, a desync of one byte, a frame, and a truncated tail.
decode_mixed :
    decode_messages_len4 loads (frame ++ 0 ∷ 0 ∷ 0 ∷ 1 ∷ b'x' ∷ 255 ∷ frame ++ 0 ∷ 0 ∷ [])
    ≡ (hello ∷ hello ∷ [], 0 ∷ 0 ∷ [])
unfolding decode_messages_len4
decode_mixed = refl

decode-append_example :
    decode_messages_len4 loads ((0 ∷ 0 ∷ 0 ∷ []) ++ (2 ∷ b'{' ∷ b'}' ∷ []))
    ≡ in_two loads (0 ∷ 0 ∷ 0 ∷ []) (2 ∷ b'{' ∷ b'}' ∷ [])
decode-append_example = decode-append loads (0 ∷ 0 ∷ 0 ∷ []) (2 ∷ b'{' ∷ b'}' ∷ [])

decode-IsParked_example : IsParked loads (decode_messages_len4 loads (255 ∷ frame)).1
decode-IsParked_example = decode-IsParked loads (255 ∷ frame)

hello-IsSendable : IsSendable loads dumps hello
hello-IsSendable = record { reads = refl; fits = omega arith }

decode-encode_example :
    (wire : Bytes) × (encode_all dumps (hello ∷ hello ∷ []) ≡ some wire)
    × (decode_messages_len4 loads (wire ++ 0 ∷ []) ≡ (
      (hello ∷ hello ∷ []) ++ (decode_messages_len4 loads (0 ∷ [])).0,
      (decode_messages_len4 loads (0 ∷ [])).1,
    ))
decode-encode_example =
    decode-encode loads dumps (hello ∷ hello ∷ []) (0 ∷ [])
      (hello-IsSendable, (hello-IsSendable, tt))

-- UTF-8 of a text that stands for itself, and a JSON reader that knows one text.
abbrev text : Text
text = record {
  utf8 = λ b. elim b [ [] ↦ "" | _ ↦ "{}" ];
  encode = λ s. [];
  show = λ v. "None";
  loads = λ s. if str_eq s "{}" then some (obj hello) else none;
}

abbrev packed : Bytes
packed = 162 ∷ b'{' ∷ b'}' ∷ []

mp_str_hello : mp_str (b'{' ∷ b'}' ∷ []) ≡ some packed
unfolding mp_str
mp_str_hello = refl

encode_message-hello : encode_message dumps hello ≡ some packed
unfolding encode_message
encode_message-hello = refl

two-Frames : Frames dumps (hello ∷ hello ∷ []) (packed ++ packed ++ [])
two-Frames = frame_then encode_message-hello (frame_then encode_message-hello no_frames)

decode-encode_message_example :
    decode_messages text (packed ++ packed ++ []) ≡ (hello ∷ hello ∷ [], [])
decode-encode_message_example =
    decode-encode_message text dumps (hello ∷ hello ∷ []) (packed ++ packed ++ []) two-Frames
      (refl, (refl, tt))

mute_packed : (decode_messages text (162 ∷ [])).0 ≡ []
unfolding decode_messages
mute_packed = refl

decode-fixint_example : decode_messages text (7 ∷ packed) ≡ ([], 7 ∷ packed)
decode-fixint_example = decode-fixint text 7 packed (omega arith)

decode-truncated_map_example : decode_messages text (129 ∷ []) ≡ (field "None" null end ∷ [], [])
decode-truncated_map_example = decode-truncated_map text 1 (omega arith) (omega arith)
