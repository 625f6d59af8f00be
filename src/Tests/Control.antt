-- ===== src/Tests/Control.antt =====
-- The control channel on small histories.
use local_smarthinq.Prelude.{◌+◌, ◌≡◌, refl, Bool, true, some, List, [], ◌∷◌, inr, arith, find}
use local_smarthinq.Json.{str, Fields, end, field}
use local_smarthinq.Control.Protocol.{make_message, handle_body, ingest, B64decode}
use local_smarthinq.Control.Channel.{
  fridge, Connection, ControlChannel, WidText, Sent, send_command, command_message, push,
}
use local_smarthinq.Control.Channel.Commands.{GoesTo, send_command-sent}
use local_smarthinq.Control.Channel.Events.{unregisters, fails, mints, run, find-run}
use local_smarthinq.Control.Session.{Session, serve}
use local_smarthinq.Control.Session.Safety.{IsSafeRound, serve-IsSafe}

abbrev b64 : B64decode
b64 v = some (1 ∷ 2 ∷ [])

abbrev snapshot_body : Fields
snapshot_body =
    field "CmdWId" (str "w1")
      (field "ReturnCode" (str "0000") (field "Format" (str "B64") (field "Data" (str "AQI=") end)))

abbrev alive_body : Fields
alive_body = field "CmdWId" (str "w2") (field "Cmd" (str "Alive") end)

-- A pump frame that carries a `ReturnCode` too is a snapshot.
snapshot_run : handle_body b64 "d" snapshot_body ≡ ingest (1 ∷ 2 ∷ [])
unfolding handle_body
snapshot_run = refl

abbrev old : Connection
old = record { sock = 1; family = fridge }

abbrev new : Connection
new = record { sock = 2; family = fridge }

abbrev channel : ControlChannel
channel = record { connections = ("d", new) ∷ []; cmd_counter = 4 }

abbrev wid : WidText
wid d n = "n-d-1"

-- The old handler times out late, and its send fails, after the appliance has come back.
find-run_example :
    find "d" (run wid (unregisters "d" (some 1) ∷ mints "d" ∷ fails "d" 1 ∷ []) channel).connections
    ≡ some new
unfolding find
find-run_example =
    find-run wid (unregisters "d" (some 1) ∷ mints "d" ∷ fails "d" 1 ∷ []) "d" channel new
      (inr (omega arith), (tt, (inr (omega arith), tt))) refl

abbrev command : Sent
command = record {
  sock = 2;
  family = fridge;
  message = command_message "d" (wid "d" 5) (str "v") "Control" "Set";
}

command_sent :
    (send_command true wid true "d" (str "v") "Control" "Set" channel).sent ≡ command ∷ []
unfolding send_command push find
command_sent = refl

send_command-sent_example :
    (◌≡◌ {A = Bool} true true)
    × GoesTo channel "d" (command_message "d" (wid "d" (4 + 1)) (str "v") "Control" "Set") command
    × (◌≡◌ {A = List Sent} [] [])
send_command-sent_example =
    send_command-sent true wid true "d" (str "v") "Control" "Set" channel command [] command_sent

abbrev session : Session
session = record { dev_id = "d"; sock = 2; family = fridge }

abbrev dev_info : Fields
dev_info = make_message "d" (str "w1") (field "Cmd" (str "DevInfo") end)

serve-IsSafe_example :
    IsSafeRound session (serve b64 (λ d. "n-d-mon") ((true, dev_info) ∷ []) session channel)
serve-IsSafe_example = serve-IsSafe b64 (λ d. "n-d-mon") ((true, dev_info) ∷ []) session channel
