-- ===== src/Control/Protocol/Replies.antt =====
-- What `handle_incoming` answers, and what it hands to the state store.
use local_smarthinq.Prelude.{ℕ, String, ◌≡◌, Bool, true, false, ◌&&◌, ◌||◌, some, ◌∷◌, arith, Bytes}
use local_smarthinq.Json.{Fields}
use local_smarthinq.Control.Protocol.{
  ack, is_text, get_text, has, reply, ingest, B64decode, snapshot, handle_body,
}

-- The requests that are acknowledged.
abbrev pub asks : Fields → Bool
asks body =
    let cmd = get_text "Cmd" body in
    is_text "DevInfo" cmd
    || is_text "Alive" cmd
    || is_text "Mon" cmd
      && (is_text "Start" (get_text "CmdOpt" body) || is_text "Stop" (get_text "CmdOpt" body))

-- A message is answered exactly if it is a `DevInfo`, an `Alive`, or a `Mon` with `Start` or
-- `Stop`, and the answer is always the acknowledgement of its own `CmdWId`.
pub handle_body-reply :
    (b64decode : B64decode) (dev_id : String) (body : Fields)
    → (asks body ≡ true
        → handle_body b64decode dev_id body ≡ reply (ack dev_id (get_text "CmdWId" body)))
      × ((m : Fields) → handle_body b64decode dev_id body ≡ reply m → asks body ≡ true)
unfolding handle_body
handle_body-reply b64decode dev_id body = (ground arith, λ m h. ground arith)

-- A message that is not answered goes to the state store exactly if its `Format` is "B64" and its
-- `Data` decodes to at least one byte, whether or not it carries a `ReturnCode` too.
pub handle_body-ingest :
    (b64decode : B64decode) (dev_id : String) (body : Fields) (b : ℕ) (bs : Bytes)
    → (asks body ≡ false
        → has "Format" body ≡ true
        → is_text "B64" (get_text "Format" body) ≡ true
        → b64decode (get_text "Data" body) ≡ some (b ∷ bs)
        → handle_body b64decode dev_id body ≡ ingest (b ∷ bs))
      × (handle_body b64decode dev_id body ≡ ingest (b ∷ bs)
          → (asks body ≡ false)
            × (is_text "B64" (get_text "Format" body) ≡ true)
            × (b64decode (get_text "Data" body) ≡ some (b ∷ bs)))
unfolding handle_body snapshot
handle_body-ingest b64decode dev_id body b bs = (λ h f g e. ground arith, λ h. ground arith)
