-- ===== src/Tools/Appliance.antt =====
-- `FakeAppliance` of tools/fake_appliance.py, the client that plays a washer against the server:
-- its messages on the control channel, at the times of its loop. Times are in milliseconds. base64
-- and the random message ids are arguments; TLS and the registration over HTTPS are not modelled.
pub mod Served
pub mod Monitored
pub mod Conversation
use local_smarthinq.Prelude.{
  ℕ, suc, ◌+◌, ◌-◌, ◌%◌, zero, String, Bool, true, false, ◌&&◌, not, Option, none, some, List, [],
  ◌∷◌, ◌++◌, ltb, leb, if◌then◌else◌, Bytes, length,
}
use local_smarthinq.Json.{Value, str, Fields, end, field, get, Loads}
use local_smarthinq.Wire.Len4.{decode_messages_len4}
use local_smarthinq.Control.Protocol.{make_message, get_object, is_text, get_text, has}
use local_smarthinq.Mqtt.View.{truthy}

-- `LADDER_WTWN3`: the states of a wash, as the washer pumped them.
abbrev pub ladder_wtwn3 : List Bytes
ladder_wtwn3 =
    (1 ∷ 3 ∷ 43 ∷ 3 ∷ 43 ∷ 1 ∷ 0 ∷ 3 ∷ 10 ∷ 4 ∷ 1 ∷ 0 ∷ 0 ∷ 0 ∷ 0 ∷ 64 ∷ 0 ∷ 0 ∷ 1 ∷ 4 ∷ 0 ∷ 45 ∷ 0
      ∷ 100 ∷ 0 ∷ 0 ∷ 3 ∷ 0 ∷ [])
    ∷ (6 ∷ 0 ∷ 54 ∷ 1 ∷ 7 ∷ 7 ∷ 0 ∷ 3 ∷ 7 ∷ 4 ∷ 1 ∷ 0 ∷ 0 ∷ 0 ∷ 0 ∷ 64 ∷ 0 ∷ 0 ∷ 1 ∷ 4 ∷ 0 ∷ 45 ∷ 0
        ∷ 100 ∷ 0 ∷ 0 ∷ 3 ∷ 0 ∷ [])
    ∷ (7 ∷ 0 ∷ 35 ∷ 1 ∷ 7 ∷ 7 ∷ 0 ∷ 3 ∷ 7 ∷ 0 ∷ 1 ∷ 0 ∷ 0 ∷ 0 ∷ 0 ∷ 64 ∷ 0 ∷ 0 ∷ 1 ∷ 4 ∷ 0 ∷ 45 ∷ 0
        ∷ 100 ∷ 0 ∷ 0 ∷ 3 ∷ 0 ∷ [])
    ∷ (8 ∷ 0 ∷ 8 ∷ 1 ∷ 7 ∷ 7 ∷ 0 ∷ 0 ∷ 7 ∷ 0 ∷ 1 ∷ 0 ∷ 0 ∷ 0 ∷ 0 ∷ 64 ∷ 0 ∷ 0 ∷ 1 ∷ 4 ∷ 0 ∷ 45 ∷ 0
        ∷ 100 ∷ 0 ∷ 0 ∷ 3 ∷ 0 ∷ [])
    ∷ (10 ∷ 0 ∷ 0 ∷ 1 ∷ 6 ∷ 7 ∷ 0 ∷ 0 ∷ 0 ∷ 0 ∷ 0 ∷ 0 ∷ 0 ∷ 0 ∷ 0 ∷ 0 ∷ 0 ∷ 0 ∷ 1 ∷ 8 ∷ 0 ∷ 45 ∷ 0
        ∷ 100 ∷ 0 ∷ 0 ∷ 3 ∷ 0 ∷ [])
    ∷ (0 ∷ 0 ∷ 0 ∷ 1 ∷ 6 ∷ 7 ∷ 0 ∷ 0 ∷ 0 ∷ 0 ∷ 0 ∷ 0 ∷ 0 ∷ 0 ∷ 0 ∷ 0 ∷ 0 ∷ 0 ∷ 0 ∷ 10 ∷ 0 ∷ 45 ∷ 0
        ∷ 100 ∷ 0 ∷ 0 ∷ 3 ∷ 0 ∷ [])
    ∷ []

-- The arguments of `FakeAppliance`, and what `base64` and `uuid4` give. `ladder or LADDER_WTWN3` is
-- never empty: it has a first state.
pub record Settings : Type 0 where
  pub device_id : String
  pub first : Bytes
  pub others : List Bytes
  pub pump_interval : ℕ
  pub alive_interval : ℕ
  pub b64encode : Bytes → String
  pub identity : Bytes
  pub uuid : ℕ → String

-- `drawn` counts the random ids.
pub record FakeAppliance : Type 0 where
  pub mon_start_received : Bool
  pub mon_cmd_w_id : Option Value
  pub acks_sent : ℕ
  pub pump_i : ℕ
  pub last_alive : ℕ
  pub last_pump : ℕ
  pub buf : Bytes
  pub drawn : ℕ

unfoldable pub new_appliance : FakeAppliance
new_appliance = record {
  mon_start_received = false;
  mon_cmd_w_id = none;
  acks_sent = 0;
  pump_i = 0;
  last_alive = 0;
  last_pump = 0;
  buf = [];
  drawn = 0;
}

-- The appliance, and the messages that it sent.
abbrev pub Said : Type 0
Said = FakeAppliance × List Fields

unfoldable pub drawn_id : Settings → Fields → FakeAppliance → Said
unfolding make_message
drawn_id st body a =
    (record a { drawn = suc a.drawn }, make_message st.device_id (str (st.uuid a.drawn)) body ∷ [])

-- `_send`, with `cmd_w_id or str(uuid.uuid4())`
unfoldable pub send : Settings → Option Value → Fields → FakeAppliance → Said
unfolding drawn_id make_message truthy
send st none body a = drawn_id st body a
send st (some w) body a =
    if truthy w then (a, make_message st.device_id w body ∷ []) else drawn_id st body a

abbrev pub alive_body : Fields
alive_body = field "Cmd" (str "Alive") end

abbrev pub ack_body : Fields
ack_body = field "ReturnCode" (str "0000") end

abbrev pub pump_body : String → Fields
pump_body data64 =
    field "ReturnCode" (str "0000") (field "Format" (str "B64") (field "Data" (str data64) end))

abbrev pub dev_info_body : String → Fields
dev_info_body data64 =
    field "Cmd" (str "DevInfo") (field "Format" (str "B64") (field "Data" (str data64) end))

-- The first message of a connection.
unfoldable pub connect : Settings → FakeAppliance → Said
unfolding send
connect st a = send st none (dev_info_body (st.b64encode st.identity)) a

unfoldable pub alive : Settings → ℕ → FakeAppliance → Said
unfolding send
alive st now a =
    let (a', msgs) = send st none alive_body a in
    if leb st.alive_interval (now - a.last_alive)
    then (record a' { last_alive = now }, msgs)
    else (a, [])

-- The n-th state, or the other one.
unfoldable pub state_at : Bytes → ℕ → List Bytes → Bytes
state_at other n [] = other
state_at other zero (s ∷ ss) = s
state_at other (suc n) (s ∷ ss) = state_at other n ss

-- `self.ladder[i % len(self.ladder)]`
unfoldable pub rung : Settings → ℕ → Bytes
unfolding state_at
rung st i = state_at st.first (i % length (st.first ∷ st.others)) (st.first ∷ st.others)

unfoldable pub pump : Settings → ℕ → FakeAppliance → Said
unfolding send rung
pump st now a =
    let (a', msgs) = send st a.mon_cmd_w_id (pump_body (st.b64encode (rung st a.pump_i))) a in
    if a.mon_start_received && leb st.pump_interval (now - a.last_pump)
    then (record a' { pump_i = suc a.pump_i; last_pump = now }, msgs)
    else (a, [])

-- What a round of the loop sends before it receives.
unfoldable pub tick : Settings → ℕ → FakeAppliance → Said
unfolding alive pump
tick st now a = let (a', m) = alive st now a in let (a'', n) = pump st now a' in (a'', m ++ n)

unfoldable pub acked : Said → Said
acked (a, msgs) = (record a { acks_sent = suc a.acks_sent }, msgs)

-- The body of `for m in msgs`; `none` where a `get` on what is no object raises.
unfoldable pub hear_body : Settings → Option Fields → FakeAppliance → Option Said
unfolding send is_text get_text has acked get
hear_body st none a = none
hear_body st (some body) a =
    let wid = get "CmdWId" body in
    if is_text "Mon" (get_text "Cmd" body) && is_text "Start" (get_text "CmdOpt" body)
    then some
        (acked (send st wid ack_body (record a { mon_start_received = true; mon_cmd_w_id = wid })))
    else if has "CmdWId" body && not (has "ReturnCode" body)
    then some (acked (send st wid ack_body a))
    else some (a, [])

unfoldable pub and_said : List Fields → Option Said → Option Said
and_said msgs none = none
and_said msgs (some (a, more)) = some (a, msgs ++ more)

unfoldable pub and_hear : (FakeAppliance → Option Said) → Option Said → Option Said
unfolding and_said
and_hear rest none = none
and_hear rest (some (a, msgs)) = and_said msgs (rest a)

unfoldable pub hear : Settings → List Fields → FakeAppliance → Option Said
unfolding hear_body get_object and_hear
hear st [] a = some (a, [])
hear st (m ∷ ms) a = and_hear (hear st ms) (hear_body st (get_object "Body" m) a)

-- What the socket gives in a round: nothing in time, its end, or a chunk.
pub data Incoming : Type 0 where
  timed_out closed : Incoming
  chunk : Bytes → Incoming

unfoldable pub heard : Settings → FakeAppliance → List Fields × Bytes → Option Said
unfolding hear
heard st a (msgs, rest) = hear st msgs (record a { buf = rest })

-- What was received, and then the later rounds.
unfoldable pub on_incoming :
    Loads
    → Settings
    → (FakeAppliance → Option Said)
    → List Fields
    → FakeAppliance
    → Incoming
    → Option Said
unfolding and_said and_hear heard decode_messages_len4
on_incoming loads st rest msgs a timed_out = and_said msgs (rest a)
on_incoming loads st rest msgs a closed = some (a, msgs)
on_incoming loads st rest msgs a (chunk []) = some (a, msgs)
on_incoming loads st rest msgs a (chunk (b ∷ bs)) =
    and_said msgs (and_hear rest (heard st a (decode_messages_len4 loads (a.buf ++ b ∷ bs))))

unfoldable pub expired : Option ℕ → ℕ → Bool
expired none elapsed = false
expired (some duration) elapsed = ltb duration elapsed

-- `run` for some rounds, each at its time, up to the end of the connection or of the duration.
unfoldable pub run :
    Loads → Settings → Option ℕ → ℕ → List (ℕ × Incoming) → FakeAppliance → Option Said
unfolding tick on_incoming expired
run loads st duration started [] a = some (a, [])
run loads st duration started ((now, i) ∷ rounds) a =
    let (a', msgs) = tick st now a in
    let later = on_incoming loads st (run loads st duration started rounds) msgs a' i in
    if expired duration (now - started) then some (a, []) else later
