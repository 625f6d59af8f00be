-- ===== src/Control/Protocol.antt =====
-- The messages of server/control_channel.py: `make_message`, `mon_start_message` and
-- `handle_incoming`. A `get` on what is no object raises: `none`. Device ids are texts.
pub mod Replies
use local_smarthinq.Prelude.{
  String, Bool, true, false, ◌&&◌, Option, none, some, [], ◌∷◌, if◌then◌else◌, str_eq, Bytes,
}
use local_smarthinq.Json.{Value, str, obj, Fields, end, field, get}

unfoldable pub make_message : String → Value → Fields → Fields
make_message device_id cmd_w_id body_fields =
    field "Header" (obj (field "x-lgedm-deviceId" (str device_id) end))
      (field "Body" (obj (field "CmdWId" cmd_w_id body_fields)) end)

unfoldable pub mon_start_message : String → Value → Fields
unfolding make_message
mon_start_message device_id cmd_w_id =
    make_message device_id cmd_w_id (field "Cmd" (str "Mon") (field "CmdOpt" (str "Start") end))

unfoldable pub ack : String → Value → Fields
unfolding make_message
ack device_id cmd_w_id = make_message device_id cmd_w_id (field "ReturnCode" (str "0000") end)

object_or_empty : Option Value → Option Fields
object_or_empty none = some end
object_or_empty (some (obj fs)) = some fs
object_or_empty (some _) = none

-- `d.get(k, {})`, on which `.get` is called next
unfoldable pub get_object : String → Fields → Option Fields
unfolding get object_or_empty
get_object k d = object_or_empty (get k d)

-- `v == s`, for a text `s`
unfoldable pub is_text : String → Value → Bool
is_text s (str t) = str_eq t s
is_text s _ = false

-- `d.get(k, "")`
unfoldable pub get_text : String → Fields → Value
unfolding get
get_text k d = elim (get k d) [ none ↦ str "" | some v ↦ v ]

unfoldable pub has : String → Fields → Bool
unfolding get
has k d = elim (get k d) [ none ↦ false | some v ↦ true ]

-- What `handle_incoming` does: bytes to send back, a snapshot for the state store, or nothing.
pub data Action : Type 0 where
  reply : Fields → Action
  ingest : Bytes → Action
  silent : Action

-- `base64.b64decode`; `none` where it raises.
abbrev pub B64decode : Type 0
B64decode = Value → Option Bytes

unfoldable pub snapshot : Option Bytes → Action
snapshot none = silent
snapshot (some []) = silent
snapshot (some (b ∷ bs)) = ingest (b ∷ bs)

unfoldable pub handle_body : B64decode → String → Fields → Action
unfolding ack is_text get_text has snapshot
handle_body b64decode dev_id body =
    let cmd = get_text "Cmd" body in
    let cmd_opt = get_text "CmdOpt" body in
    let answer = reply (ack dev_id (get_text "CmdWId" body)) in
    if is_text "DevInfo" cmd
    then answer
    else if is_text "Alive" cmd
    then answer
    else if is_text "Mon" cmd && is_text "Start" cmd_opt
    then answer
    else if is_text "Mon" cmd && is_text "Stop" cmd_opt
    then answer
    else if has "Format" body && is_text "B64" (get_text "Format" body)
    then snapshot (b64decode (get_text "Data" body))
    else silent

unfoldable pub handle_incoming : B64decode → String → Fields → Option Action
unfolding handle_body get_object
handle_incoming b64decode dev_id msg = elim (get_object "Body" msg) [
  | none ↦ none
  | some body ↦ some (handle_body b64decode dev_id body)
]
