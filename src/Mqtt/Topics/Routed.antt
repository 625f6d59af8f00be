-- ===== src/Mqtt/Topics/Routed.antt =====
-- The topic that a command entity is announced with leads back to it.
use text.Mathlib.TextBridge.{to_list}
use local_smarthinq.Prelude.{
  ◌≡◌, refl, ap, String, Bool, Option, none, some, List, [], ◌∷◌, str_eq, if-both, All,
}
use local_smarthinq.Json.{Value, str, arr, Fields, end, field, get, set_field}
use local_smarthinq.Control.Channel.{ControlChannel, WidText}
use local_smarthinq.Model.Vocabulary.{CommandEntity, ha_options}
use local_smarthinq.Mqtt.Sink.{Sink, on_message}
use local_smarthinq.Mqtt.Discovery.{
  Message, Wording, command_topic, labels, with_bound, with_choices, command_config,
  publish_command_discovery,
}
use local_smarthinq.Mqtt.Topics.{Classes, on_parsed, on_topic}
use local_smarthinq.Mqtt.Topics.RoundTrip.{NoSlash, parse-command_topic}
use local_smarthinq.Regex.Greedy.{Several}

-- An entity whose topic can be read back.
abbrev pub IsNamed : Classes → CommandEntity → Type 0
IsNamed cl e = Several cl.is_word (to_list e.component) × Several cl.is_word (to_list e.slug)

-- The settings that a command entity is announced with, before its choices.
abbrev settings : Value → Value → Value → Value → Fields
settings name topic unique_id device =
    field "name" name
      (field "command_topic" topic (field "unique_id" unique_id (field "device" device end)))

-- A place in the settings where the topic still stands.
abbrev Keeps : Value → Fields → Type 0
Keeps topic cfg = get "command_topic" cfg ≡ some topic

with_bound-Keeps :
    (n t u d : Value) (low high : Option Value)
    → Keeps t (with_bound "max" high (with_bound "min" low (settings n t u d)))
unfolding with_bound get set_field
with_bound-Keeps n t u d none none = refl
with_bound-Keeps n t u d none (some v) = refl
with_bound-Keeps n t u d (some v) none = refl
with_bound-Keeps n t u d (some v) (some w) = refl

with_choices-Keeps :
    (w : Wording) (e : CommandEntity) (n t u d : Value)
    → Keeps t (with_choices w e (settings n t u d))
unfolding with_choices get set_field
with_choices-Keeps w e n t u d =
    let cfg = settings n t u d in
    let number =
      if-both (Keeps t) (str_eq e.component "number")
        (with_bound "max" e.max_val (with_bound "min" e.min_val cfg)) cfg
        (with_bound-Keeps n t u d e.min_val e.max_val) refl in
    let select =
      if-both (Keeps t) (str_eq e.component "select")
        (set_field "options" (arr (labels (ha_options w.le e))) cfg) _ refl number in
    if-both (Keeps t) (str_eq e.component "button") cfg _ refl select

-- What the sink does with a payload on a topic, and what it does with it for an entity.
module _ (cl : Classes) (allow : Bool) (wid : WidText) (accepts : Bool) (payload : String)
    (s : Sink) (c : ControlChannel) where
  -- A message announces a topic, and a payload that comes on it is one for this entity.
  pub record LeadsTo (device_id slug : String) (m : Message) : Type 0 where
    pub topic : String
    pub announced : get "command_topic" m.config ≡ some (str topic)
    pub routed :
        on_topic cl allow wid accepts topic payload s c
        ≡ on_message allow wid accepts device_id slug payload s c

  command_config-LeadsTo :
      (w : Wording) (model_name device_id : String) (e : CommandEntity)
      → NoSlash cl
      → Several cl.is_not_space (to_list device_id)
      → IsNamed cl e
      → LeadsTo device_id e.slug (command_config w model_name device_id e)
  unfolding command_config on_topic on_parsed
  command_config-LeadsTo w model_name device_id e plain full (named, slug) = record {
    topic = command_topic device_id e.component e.slug;
    announced =
        with_choices-Keeps w e (str e.name) (str (command_topic device_id e.component e.slug)) _ _;
    routed =
        ap (on_parsed allow wid accepts payload s c)
          (parse-command_topic cl device_id e.component e.slug plain named full slug);
  }

  -- The messages announce the entities, one for one.
  abbrev pub AllLead : String → List CommandEntity → List Message → Type 0
  AllLead device_id [] [] = Unit {0}
  AllLead device_id [] (m ∷ ms) = ⊥
  AllLead device_id (e ∷ es) [] = ⊥
  AllLead device_id (e ∷ es) (m ∷ ms) = LeadsTo device_id e.slug m × AllLead device_id es ms

  -- Each entity of a device is announced with a topic that leads back to it: what Home Assistant
  -- writes there, the sink takes for this device and this entity. The components and slugs are
  -- words, and the device's id has no white space.
  pub announced-LeadBack :
      (w : Wording) (model_name device_id : String) (es : List CommandEntity)
      → NoSlash cl
      → Several cl.is_not_space (to_list device_id)
      → All (IsNamed cl) es
      → AllLead device_id es (publish_command_discovery w model_name device_id es)
  unfolding publish_command_discovery
  announced-LeadBack w model_name device_id [] plain full named = tt
  announced-LeadBack w model_name device_id (e ∷ es) plain full (now, named) = (
    command_config-LeadsTo w model_name device_id e plain full now,
    announced-LeadBack w model_name device_id es plain full named,
  )
