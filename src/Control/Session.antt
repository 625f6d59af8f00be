-- ===== src/Control/Session.antt =====
-- One appliance's connection: the loop of `_ControlHandler.handle` over decoded messages, and its
-- `finally`. TLS, the first-byte dispatch and the timeouts are not modelled; a refused send, like a
-- message on which the code raises, ends the connection. The Mon Start behind an answered DevInfo
-- is always accepted by the socket, and an id that is no text, with which the code goes on, ends
-- the connection.
pub mod Safety
pub mod Cleanup
use local_smarthinq.Prelude.{
  ℕ, String, Bool, true, false, not, Option, none, some, List, [], ◌∷◌, ◌++◌, if◌then◌else◌, str_eq,
  Bytes,
}
use local_smarthinq.Json.{Value, str, Fields, get}
use local_smarthinq.Control.Protocol.{
  mon_start_message, get_object, is_text, get_text, Action, reply, ingest, silent, B64decode,
  handle_body,
}
use local_smarthinq.Control.Channel.{Family, Connection, ControlChannel, register, unregister, Sent}

pub record Session : Type 0 where
  pub dev_id : String
  pub sock : ℕ
  pub family : Family

pub data Effect : Type 0 where
  sends : Sent → Effect
  ingests : String → Bytes → Effect

pub record Round : Type 0 where
  pub session : Session
  pub channel : ControlChannel
  pub effects : List Effect
  pub ended : Bool

id_or : String → Option Value → Option String
id_or dev none = some dev
id_or dev (some (str d)) = some d
id_or dev (some _) = none

-- `msg.get("Header", {}).get("x-lgedm-deviceId", dev_id)`; an id that is no text ends the model.
unfoldable pub device_in : String → Option Fields → Option String
unfolding id_or
device_in dev none = none
device_in dev (some header) = id_or dev (get "x-lgedm-deviceId" header)

abbrev pub to_appliance : Session → Fields → Effect
to_appliance s msg = sends (record { sock = s.sock; family = s.family; message = msg })

-- The effects of one action; the flag says whether the socket accepts the bytes.
unfoldable pub perform : Bool → Session → Action → List Effect × Bool
perform true s (reply m) = (to_appliance s m ∷ [], false)
perform false s (reply m) = ([], true)
perform accepts s (ingest blob) = (ingests s.dev_id blob ∷ [], false)
perform accepts s silent = ([], false)

-- `encode(mon_start_message(dev_id, f"n-{dev_id[:8]}-mon"))` behind a `DevInfo`
unfoldable pub ask_to_monitor : (String → String) → Session → Fields → List Effect
unfolding is_text get_text
ask_to_monitor mon_wid s body =
    if is_text "DevInfo" (get_text "Cmd" body)
    then to_appliance s (mon_start_message s.dev_id (str (mon_wid s.dev_id))) ∷ []
    else []

unfoldable pub answer :
    (String → String) → Session → ControlChannel → Fields → List Effect × Bool → Round
unfolding ask_to_monitor
answer mon_wid s c body (effects, true) = record {
  session = s;
  channel = c;
  effects = effects;
  ended = true;
}
answer mon_wid s c body (effects, false) = record {
  session = s;
  channel = c;
  effects = effects ++ ask_to_monitor mon_wid s body;
  ended = false;
}

unfoldable pub with_body :
    B64decode → (String → String) → Bool → Session → ControlChannel → Option Fields → Round
unfolding perform answer
with_body b64decode mon_wid accepts s c none = record {
  session = s;
  channel = c;
  effects = [];
  ended = true;
}
with_body b64decode mon_wid accepts s c (some body) =
    answer mon_wid s c body (perform accepts s (handle_body b64decode s.dev_id body))

-- The body of `for msg in msgs`.
unfoldable pub on_message :
    B64decode → (String → String) → Bool → Session → ControlChannel → Fields → Round
unfolding with_body device_in
on_message b64decode mon_wid accepts s c msg = elim (device_in s.dev_id (get_object "Header" msg)) [
  | none ↦ record { session = s; channel = c; effects = []; ended = true }
  | some dev ↦
      let s' = record s { dev_id = dev } in
      let c' = register dev (record { sock = s.sock; family = s.family }) c in
      with_body b64decode mon_wid accepts s' c' (get_object "Body" msg)
]

-- The rest of the loop counts unless the connection has ended.
unfoldable pub join : Round → Round → Round
join r later = if r.ended then r else record later { effects = r.effects ++ later.effects }

-- Messages until one ends the connection; the flag beside each says whether its answer goes out.
unfoldable pub serve :
    B64decode → (String → String) → List (Bool × Fields) → Session → ControlChannel → Round
unfolding join
serve b64decode mon_wid [] s c = record { session = s; channel = c; effects = []; ended = false }
serve b64decode mon_wid ((accepts, msg) ∷ msgs) s c =
    let r = on_message b64decode mon_wid accepts s c msg in
    join r (serve b64decode mon_wid msgs r.session r.channel)

-- The `finally`.
unfoldable pub disconnect : Session → ControlChannel → ControlChannel
disconnect s c = if not (str_eq s.dev_id "unknown") then unregister s.dev_id (some s.sock) c else c
