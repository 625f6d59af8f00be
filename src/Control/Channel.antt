-- ===== src/Control/Channel.antt =====
-- `ControlChannel` of server/control_channel.py: the registrations and the commands. A socket is
-- known by a number, and a registration holds it with its family's encoder. Each function is what
-- the method does under one hold of its lock; a send stands between two holds, so what other
-- threads do meanwhile comes in between (`Events`).
pub mod Events
pub mod Commands
use local_smarthinq.Prelude.{
  ℕ, ◌+◌, String, Bool, true, false, Option, none, some, List, [], ◌∷◌, map, ◌==◌, if◌then◌else◌,
  Dict, find, put, pop,
}
use local_smarthinq.Json.{Value, str, Fields, end, field}
use local_smarthinq.Control.Protocol.{make_message, mon_start_message}

-- `encode_message` for the fridge, `encode_message_len4` for washer and dryer
pub data Family : Type 0 where
  fridge wm : Family

pub record Connection : Type 0 where
  pub sock : ℕ
  pub family : Family

pub record ControlChannel : Type 0 where
  pub connections : Dict Connection
  pub cmd_counter : ℕ

unfoldable pub register : String → Connection → ControlChannel → ControlChannel
register dev_id conn c = record c { connections = put dev_id conn c.connections }

-- Both `unregister` with a socket and a failed `_push` drop the entry only if it is this socket's.
unfoldable pub drop_own : String → ℕ → ControlChannel → Option Connection → ControlChannel
drop_own dev_id sock c none = c
drop_own dev_id sock c (some entry) =
    if entry.sock == sock then record c { connections = pop dev_id c.connections } else c

unfoldable pub unregister : String → Option ℕ → ControlChannel → ControlChannel
unfolding drop_own
unregister dev_id none c = record c { connections = pop dev_id c.connections }
unregister dev_id (some sock) c = drop_own dev_id sock c (find dev_id c.connections)

-- The `except OSError` of `_push`, for the socket that was read before the send.
unfoldable pub send_failed : String → ℕ → ControlChannel → ControlChannel
unfolding drop_own
send_failed dev_id sock c = drop_own dev_id sock c (find dev_id c.connections)

unfoldable pub devices : ControlChannel → List String
devices c = map (λ entry. entry.0) c.connections

-- `_next_wid`; the text is `f"n-{dev_id[:8]}-{count}"`.
abbrev pub WidText : Type 0
WidText = String → ℕ → String

unfoldable pub next_wid : WidText → String → ControlChannel → String × ControlChannel
next_wid wid dev_id c =
    let count = c.cmd_counter + 1 in (wid dev_id count, record c { cmd_counter = count })

-- A message handed to a socket, in the framing of a family.
pub record Sent : Type 0 where
  pub sock : ℕ
  pub family : Family
  pub message : Fields

-- A method's result: what it returns, the channel, and what it sent.
pub record Outcome : Type 0 where
  pub result : Bool
  pub channel : ControlChannel
  pub sent : List Sent

-- `_push`; the socket accepts the bytes or raises `OSError`.
unfoldable pub push_to : Bool → String → Fields → ControlChannel → Option Connection → Outcome
unfolding send_failed
push_to accepts dev_id msg c none = record { result = false; channel = c; sent = [] }
push_to true dev_id msg c (some entry) = record {
  result = true;
  channel = c;
  sent = record { sock = entry.sock; family = entry.family; message = msg } ∷ [];
}
push_to false dev_id msg c (some entry) = record {
  result = false;
  channel = send_failed dev_id entry.sock c;
  sent = [];
}

unfoldable pub push : Bool → String → Fields → ControlChannel → Outcome
unfolding push_to
push accepts dev_id msg c = push_to accepts dev_id msg c (find dev_id c.connections)

unfoldable pub query_state : WidText → Bool → String → ControlChannel → Outcome
unfolding next_wid
query_state wid accepts dev_id c =
    let (w, c') = next_wid wid dev_id c in push accepts dev_id (mon_start_message dev_id (str w)) c'

unfoldable pub command_message : String → String → Value → String → String → Fields
command_message dev_id w value cmd cmd_opt = make_message dev_id (str w) (
    field "Cmd" (str cmd)
      (field "CmdOpt" (str cmd_opt) (field "Value" value (field "Data" (str "") end))))

-- `send_command`; the first flag is `ALLOW_CONTROL`.
unfoldable pub send_command :
    Bool → WidText → Bool → String → Value → String → String → ControlChannel → Outcome
unfolding next_wid
send_command false wid accepts dev_id value cmd cmd_opt c = record {
  result = false;
  channel = c;
  sent = [];
}
send_command true wid accepts dev_id value cmd cmd_opt c =
    let (w, c') = next_wid wid dev_id c in
    push accepts dev_id (command_message dev_id w value cmd cmd_opt) c'
