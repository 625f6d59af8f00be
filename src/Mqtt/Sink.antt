-- ===== src/Mqtt/Sink.antt =====
-- `_Sink` of server/mqtt_bridge.py. What it publishes stands in `published`, the newest first.
-- Where the view raises, the store swallows the exception and the sink keeps the device's id.
pub mod Announced
pub mod Entities
pub mod Routing
use local_smarthinq.Prelude.{
  ℕ, String, Bool, true, false, ◌&&◌, ◌||◌, not, Option, none, some, List, [], ◌∷◌, map,
  if◌then◌else◌, str_eq, Dict, find, put,
}
use local_smarthinq.Json.{Value, str, obj, end, field}
use local_smarthinq.Model.Registry.{Payload}
use local_smarthinq.Model.Vocabulary.{
  Texts, Sections, CommandEntity, WireCommand, all_entities, to_wire,
}
use local_smarthinq.Mqtt.View.{View, truthy, reads, Countdown, one_of, view_of}
use local_smarthinq.Control.Channel.{ControlChannel, WidText, Outcome, send_command}

-- What the sink takes from outside: Python's text functions, `str`, the order of texts, the
-- equality of dictionaries, and the model files.
pub record Setup : Type 0 where
  pub texts : Texts
  pub sub : String → String → String → String
  pub show : Value → String
  pub countdown : Countdown
  pub before : String → String → Bool
  pub same : View → View → Bool
  pub model_json_for : String → Option Sections

pub data Publication : Type 0 where
  discovery : String → String → List String → Publication
  error_alert : String → String → Publication
  commands : String → String → List CommandEntity → Publication
  state : String → View → Publication

pub record Sink : Type 0 where
  pub allow_control : Bool
  pub last : Dict View
  pub merged : Dict View
  pub fields : Dict (List String)
  pub cmd_entities : Dict (Dict CommandEntity)
  pub dev_by_ha : Dict String
  pub published : List Publication

-- `stable_key` of server/ha_mqtt.py
unfoldable pub stable_key : Setup → String → String
stable_key su model_name = su.sub "[^0-9a-z]" "" (su.texts.lower model_name)

unfoldable pub keys {ℓ} : {V : Type ℓ} → Dict V → List String
keys [] = []
keys ((k, v) ∷ d) = k ∷ keys d

-- `d.get(k) or []`
unfoldable pub or_empty {ℓ} : {A : Type ℓ} → Option (List A) → List A
or_empty none = []
or_empty (some xs) = xs

-- `not (set(ks) - set(js))`
unfoldable pub all_in : List String → List String → Bool
unfolding one_of
all_in [] js = true
all_in (k ∷ ks) js = one_of k js && all_in ks js

unfoldable pub insert : (String → String → Bool) → String → List String → List String
insert before k [] = k ∷ []
insert before k (j ∷ js) =
    let later = insert before k js in
    if str_eq j k then j ∷ js else if before k j then k ∷ j ∷ js else j ∷ later

-- `sorted(set(js) | set(ks))`, for a sorted `js`
unfoldable pub union : (String → String → Bool) → List String → List String → List String
unfolding insert
union before js [] = js
union before js (k ∷ ks) = union before (insert before k js) ks

-- `{**old, **view}`
unfoldable pub merge : View → View → View
merge old [] = old
merge old ((k, v) ∷ view) = merge (put k v old) view

-- A state that is no longer reserved empties the countdown.
unfoldable pub retire : Option Value → View → View
retire none merged = merged
retire (some v) merged =
    if truthy v && not (reads "WM_STATE_RESERVE" (some v))
    then put "reserve_countdown" (str "") merged
    else merged

unfoldable pub by_slug : Dict CommandEntity → List CommandEntity → Dict CommandEntity
by_slug d [] = d
by_slug d (e ∷ es) = by_slug (put e.slug e d) es

unfoldable pub with_entities : String → String → List CommandEntity → Sink → Sink
unfolding by_slug
with_entities ha m [] s = s
with_entities ha m (e ∷ es) s = record s {
  published = commands ha m (e ∷ es) ∷ s.published;
  cmd_entities = put ha (by_slug [] (e ∷ es)) s.cmd_entities;
}

unfoldable pub with_sections : Setup → String → String → Option Sections → Sink → Sink
unfolding with_entities
with_sections su ha m none s = s
with_sections su ha m (some mj) s = with_entities ha m (all_entities su.texts mj) s

-- `_publish_command_discovery`, for a sink that has a control channel
unfoldable pub publish_command_discovery : Setup → String → String → Sink → Sink
unfolding with_sections
publish_command_discovery su ha m s =
    if s.allow_control then with_sections su ha m (su.model_json_for m) s else s

-- The discovery of the sensors, and of the error alert.
unfoldable pub publish_sensors : String → String → View → List String → Sink → Sink
publish_sensors ha m merged fields s =
    let told = discovery ha m fields ∷ s.published in
    record s {
      fields = put ha fields s.fields;
      published = if one_of "Error" (keys merged) then error_alert ha m ∷ told else told;
    }

-- A new key announces the device again, with all keys.
unfoldable pub announce : Setup → String → String → View → Sink → Sink
unfolding publish_sensors publish_command_discovery keys or_empty all_in union
announce su ha m merged s =
    let fields = or_empty (find ha s.fields) in
    if all_in (keys merged) fields
    then s
    else publish_command_discovery su ha m
        (publish_sensors ha m merged (union su.before fields (keys merged)) s)

unfoldable pub same_as : Setup → Option View → View → Bool
same_as su none merged = false
same_as su (some last) merged = su.same last merged

-- The state goes out unless it is the last one again.
unfoldable pub publish_state : Setup → String → View → Sink → Sink
unfolding same_as
publish_state su ha merged s =
    if same_as su (find ha s.last) merged
    then s
    else record s { last = put ha merged s.last; published = state ha merged ∷ s.published }

unfoldable pub take_view : Setup → String → String → Sink → View → Sink
unfolding merge retire or_empty announce publish_state
take_view su ha m s view =
    let merged = retire (find "State" view) (merge (or_empty (find ha s.merged)) view) in
    publish_state su ha merged
      (announce su ha m merged (record s { merged = put ha merged s.merged }))

unfoldable pub with_view : Setup → String → String → Sink → Option View → Sink
unfolding take_view
with_view su ha m s none = s
with_view su ha m s (some []) = s
with_view su ha m s (some (i ∷ view)) = take_view su ha m s (i ∷ view)

-- `payload.get("modelName")`, if it is true
unfoldable pub model_name : Setup → Option Value → Option String
model_name su none = none
model_name su (some v) = if truthy v then some (su.show v) else none

unfoldable pub with_model : Setup → String → Payload → Sink → Option String → Sink
unfolding stable_key with_view
with_model su dev_id p s none = s
with_model su dev_id p s (some m) =
    let ha = stable_key su m in
    with_view su ha m (record s { dev_by_ha = put ha dev_id s.dev_by_ha })
      (view_of su.countdown [] p)

-- `_Sink.__call__`
unfoldable pub call : Setup → String → Payload → Sink → Sink
unfolding with_model model_name
call su dev_id p s = with_model su dev_id p s (model_name su (find "modelName" p))

-- The calls of a run, in order.
unfoldable pub calls : Setup → List (String × Payload) → Sink → Sink
calls su [] s = s
calls su ((dev_id, p) ∷ ps) s = calls su ps (call su dev_id p s)

unfoldable pub start : Bool → Sink
start allow_control = record {
  allow_control = allow_control;
  last = [];
  merged = [];
  fields = [];
  cmd_entities = [];
  dev_by_ha = [];
  published = [];
}

unfoldable pub addressed : String → Option WireCommand → Option (String × WireCommand)
addressed dev_id none = none
addressed dev_id (some w) = some (dev_id, w)

unfoldable pub for_entity :
    String → Option String → Option CommandEntity → Option (String × WireCommand)
unfolding addressed
for_entity payload dev_id none = none
for_entity payload none (some e) = none
for_entity payload (some dev_id) (some e) = addressed dev_id (to_wire e payload)

-- The command that a payload on an entity's topic stands for, with the device to send it to.
unfoldable pub route : String → String → String → Sink → Option (String × WireCommand)
unfolding for_entity or_empty
route ha slug payload s =
    for_entity payload (find ha s.dev_by_ha) (find slug (or_empty (find ha s.cmd_entities)))

unfoldable pub send_routed :
    Bool → WidText → Bool → Option (String × WireCommand) → ControlChannel → Outcome
send_routed allow wid accepts none c = record { result = false; channel = c; sent = [] }
send_routed allow wid accepts (some (dev_id, w)) c =
    send_command allow wid accepts dev_id (obj (field w.key (str w.value) end)) w.cmd w.cmd_opt c

-- `_on_message`, from what `parse_command_topic` finds in the topic, and the payload's text
unfoldable pub on_message :
    Bool → WidText → Bool → String → String → String → Sink → ControlChannel → Outcome
unfolding route send_routed
on_message allow wid accepts ha slug payload s c =
    send_routed allow wid accepts (route ha slug payload s) c
