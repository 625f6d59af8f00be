-- ===== src/Mqtt/Sink/Routing.antt =====
-- What a Home Assistant command can make the server send to an appliance.
use local_smarthinq.Prelude.{
  ◌+◌, ◌≡◌, refl, String, Bool, true, Option, none, some, List, [], ◌∷◌, arith, find,
}
use local_smarthinq.Json.{str, obj, end, field}
use local_smarthinq.Model.Registry.{Payload}
use local_smarthinq.Model.Vocabulary.{CommandEntity, WireCommand, to_wire}
use local_smarthinq.Model.Vocabulary.Offered.{Sets, to_wire-Sets}
use local_smarthinq.Mqtt.Sink.Entities.{IsUnder, AllOwn, calls-AllOwn, start-AllOwn}
use local_smarthinq.Mqtt.Sink.{
  Setup, Sink, or_empty, calls, start, addressed, for_entity, route, send_routed, on_message,
}
use local_smarthinq.Control.Channel.{ControlChannel, WidText, Sent, command_message}
use local_smarthinq.Control.Channel.Commands.{GoesTo, send_command-sent}

-- A message that a payload on the command topic of `ha` and `slug` may send: control is allowed,
-- the sink knows the device, the entity of this very slug, which is one of the device's, makes the
-- command of the payload, and the message goes to the connection that is registered for the device.
pub record IsLegitimate (su : Setup) (allow : Bool) (wid : WidText) (ha slug payload : String)
    (s : Sink) (c : ControlChannel) (m : Sent) : Type 0 where
  pub dev : String
  pub entity : CommandEntity
  pub wire : WireCommand
  pub allowed : allow ≡ true
  pub last_device : find ha s.dev_by_ha ≡ some dev
  pub own : IsUnder su ha slug entity
  pub of_payload : Sets entity payload wire
  pub goes :
      GoesTo c dev
        (command_message dev
          (wid dev (c.cmd_counter + 1))
          (obj (field wire.key (str wire.value) end))
          wire.cmd
          wire.cmd_opt)
        m

addressed-IsLegitimate :
    (su : Setup) (allow : Bool) (wid : WidText) (accepts : Bool) (ha slug payload : String)
    (s : Sink) (c : ControlChannel) (m : Sent) (ms : List Sent) (dev : String) (e : CommandEntity)
    (o : Option WireCommand)
    → find ha s.dev_by_ha ≡ some dev
    → IsUnder su ha slug e
    → to_wire e payload ≡ o
    → (send_routed allow wid accepts (addressed dev o) c).sent ≡ m ∷ ms
    → IsLegitimate su allow wid ha slug payload s c m × (ms ≡ [])
unfolding send_routed addressed
addressed-IsLegitimate su allow wid accepts ha slug payload s c m ms dev e none d i t h =
    absurd (ground arith)
addressed-IsLegitimate su allow wid accepts ha slug payload s c m ms dev e (some w) d i t h =
    let r =
      send_command-sent allow wid accepts dev (obj (field w.key (str w.value) end)) w.cmd w.cmd_opt
        c m ms h in
    (
      record {
        dev = dev;
        entity = e;
        wire = w;
        allowed = r.0;
        last_device = d;
        own = i;
        of_payload = to_wire-Sets e payload w t;
        goes = r.1;
      },
      r.2,
    )

for_entity-IsLegitimate :
    (su : Setup) (allow : Bool) (wid : WidText) (accepts : Bool) (ha slug payload : String)
    (s : Sink) (c : ControlChannel) (m : Sent) (ms : List Sent) (d : Option String)
    (o : Option CommandEntity)
    → AllOwn su s.cmd_entities
    → find ha s.dev_by_ha ≡ d
    → find slug (or_empty (find ha s.cmd_entities)) ≡ o
    → (send_routed allow wid accepts (for_entity payload d o) c).sent ≡ m ∷ ms
    → IsLegitimate su allow wid ha slug payload s c m × (ms ≡ [])
unfolding for_entity AllOwn
for_entity-IsLegitimate su allow wid accepts ha slug payload s c m ms d none a e f h =
    absurd (unfold send_routed in (ground arith))
for_entity-IsLegitimate su allow wid accepts ha slug payload s c m ms none (some x) a e f h =
    absurd (unfold send_routed in (ground arith))
for_entity-IsLegitimate su allow wid accepts ha slug payload s c m ms (some dev) (some x) a e f h =
    addressed-IsLegitimate su allow wid accepts ha slug payload s c m ms dev x (to_wire x payload) e
      (a ha slug x f) refl h

-- If a command from Home Assistant makes the server send anything, after any payloads from the
-- sink's start, it is one legitimate message for the entity of the command's slug.
pub on_message-IsLegitimate :
    (su : Setup) (announces allow : Bool) (ps : List (String × Payload)) (wid : WidText)
    (accepts : Bool) (ha slug payload : String) (c : ControlChannel) (m : Sent) (ms : List Sent)
    → (on_message allow wid accepts ha slug payload (calls su ps (start announces)) c).sent ≡ m ∷ ms
    → IsLegitimate su allow wid ha slug payload (calls su ps (start announces)) c m × (ms ≡ [])
unfolding on_message route
on_message-IsLegitimate su announces allow ps wid accepts ha slug payload c m ms h =
    let s = calls su ps (start announces) in
    for_entity-IsLegitimate su allow wid accepts ha slug payload s c m ms (find ha s.dev_by_ha)
      (find slug (or_empty (find ha s.cmd_entities)))
      (calls-AllOwn su ps (start announces) (start-AllOwn su announces)) refl refl h
