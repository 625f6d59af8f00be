-- ===== src/Wire/Framing.antt =====
-- What a framing of server/control_channel.py promises to the code that sends and receives with it:
-- the pair `encode`, `decode` that `_ControlHandler.handle` picks for a connection.
use local_smarthinq.Prelude.{
  ◌≡◌, refl, ◌∙◌, sym, ap, Option, none, some, List, [], ◌∷◌, ◌++◌, append-nil, Bytes, All,
}
use local_smarthinq.Json.{Fields, Loads, Dumps}
use local_smarthinq.Wire.Len4.{encode_message_len4, decode_messages_len4}
use local_smarthinq.Wire.Len4.Chunks.{decode-append}
use local_smarthinq.Wire.Len4.Progress.{decode-IsParked}
use local_smarthinq.Wire.Len4.RoundTrip.{IsSendable, encode_all, decode-encode}

-- A reader gives the messages of a buffer, and what it keeps of it.
abbrev pub Reader : Type 0
Reader = Bytes → List Fields × Bytes

-- A reader of a stream: chunks may be cut anywhere, and what is kept is kept until more comes.
pub record IsStreaming (decode : Reader) : Type 0 where
  pub append :
      (xs ys : Bytes)
      → decode (xs ++ ys)
        ≡ ((decode xs).0 ++ (decode ((decode xs).1 ++ ys)).0, (decode ((decode xs).1 ++ ys)).1)
  pub parked : (xs : Bytes) → decode (decode xs).1 ≡ ([], (decode xs).1)
  pub empty : decode [] ≡ ([], [])

pub record Framing : Type 0 where
  pub encode : Fields → Option Bytes
  pub decode : Reader

-- The frames of several messages, one behind the other; `none` where one cannot be written.
unfoldable pub written : (Fields → Option Bytes) → List Fields → Option Bytes
written encode [] = some []
written encode (msg ∷ msgs) = elim (encode msg) [
  | none ↦ none
  | some frame ↦ elim (written encode msgs) [ none ↦ none | some frames ↦ some (frame ++ frames) ]
]

-- Messages that may be sent are all written, and are read back just as they are.
pub record IsFaithful (F : Framing) (May : Fields → Type 0) : Type 0 where
  pub carried :
      (msgs : List Fields)
      → All May msgs
      → (wire : Bytes) × (written F.encode msgs ≡ some wire) × (F.decode wire ≡ (msgs, []))

abbrev pub len4 : Loads → Dumps → Framing
len4 loads dumps = record {
  encode = encode_message_len4 dumps;
  decode = decode_messages_len4 loads;
}

-- The washer's and dryer's framing keeps both promises.
pub len4-IsStreaming : (loads : Loads) → IsStreaming (decode_messages_len4 loads)
unfolding decode_messages_len4
len4-IsStreaming loads = record {
  append = decode-append loads;
  parked = λ xs. (decode-IsParked loads xs).stuck;
  empty = refl;
}

written-encode_all :
    (dumps : Dumps) (msgs : List Fields)
    → written (encode_message_len4 dumps) msgs ≡ encode_all dumps msgs
unfolding written encode_all
written-encode_all dumps [] = refl
written-encode_all dumps (msg ∷ msgs) =
    ap {B = Option Bytes}
      (λ later. elim (encode_message_len4 dumps msg) [
        | none ↦ none
        | some frame ↦ elim later [ none ↦ none | some frames ↦ some (frame ++ frames) ]
      ])
      (written-encode_all dumps msgs)

pub len4-IsFaithful :
    (loads : Loads) (dumps : Dumps) → IsFaithful (len4 loads dumps) (IsSendable loads dumps)
len4-IsFaithful loads dumps = record { carried = through }
  where
    through :
        (msgs : List Fields)
        → All (IsSendable loads dumps) msgs
        → (wire : Bytes) × (written (encode_message_len4 dumps) msgs ≡ some wire)
          × (decode_messages_len4 loads wire ≡ (msgs, []))
    through msgs h =
        let (wire, w, d) = decode-encode loads dumps msgs [] h in
        let empty = (len4-IsStreaming loads).empty in
        (
          wire,
          written-encode_all dumps msgs ∙ w,
          ap (decode_messages_len4 loads) (sym (append-nil wire))
              ∙ d
              ∙ ap (λ e. (msgs ++ e.0, e.1)) empty
              ∙ ap (λ ms. (ms, [])) (append-nil msgs),
        )
