-- ===== src/Mqtt/Discovery.antt =====
-- server/ha_mqtt.py: the messages that announce a device's entities to Home Assistant, and its
-- state. A message is a topic and the object that is written there. Python's text functions are
-- arguments; `template` stands for the value template of a field.
use Prim.Native.String.{◌++◌ as join}
use local_smarthinq.Prelude.{
  ◌≡◌, String, Bool, ◌||◌, Option, none, some, List, [], ◌∷◌, map, if◌then◌else◌, arith, str_eq,
}
use local_smarthinq.Json.{
  Value, str, arr, obj, no_elements, element, Elements, Fields, end, field, get, set_field,
}
use local_smarthinq.Model.Vocabulary.{CommandEntity, ha_options}
use local_smarthinq.Mqtt.View.{View}

pub record Message : Type 0 where
  pub topic : String
  pub config : Fields

pub record Wording : Type 0 where
  pub lower : String → String
  pub spaced : String → String
  pub template : String → String
  pub show : Value → String
  pub le : String → String → Bool

unfoldable pub node : String → String
node device_id = join "lgthinq_" device_id

unfoldable pub state_topic : String → String
unfolding node
state_topic device_id = join "homeassistant/sensor/" (join (node device_id) "/state")

unfoldable pub device_payload : String → String → Fields
unfolding node
device_payload model_name device_id =
    field "identifiers" (arr (element (str (node device_id)) no_elements)) (
      field "manufacturer" (str "LG")
        (field "model" (str model_name) (field "name" (str model_name) end)))

-- `_FIELD_OVERRIDES`
unfoldable pub overrides : String → Fields → Fields
overrides name cfg =
    if str_eq name "TempRefrigerator" || str_eq name "TempFreezer"
    then set_field "unit_of_measurement" (str "°C")
        (set_field "device_class" (str "temperature") cfg)
    else if str_eq name "Remain_Time_H"
    then set_field "unit_of_measurement" (str "h") (set_field "device_class" (str "duration") cfg)
    else if str_eq name "Remain_Time_M"
    then set_field "unit_of_measurement" (str "min") (set_field "device_class" (str "duration") cfg)
    else if str_eq name "WaterFilterUsedMonth"
    then set_field "unit_of_measurement" (str "months") cfg
    else cfg

unfoldable pub sensor_config : Wording → String → String → String → Message
unfolding node state_topic device_payload overrides
sensor_config w model_name device_id name = record {
  topic =
      join "homeassistant/sensor/"
        (join (node device_id) (join "/" (join (w.lower name) "/config")));
  config = overrides name (
      field "name" (str (w.spaced name)) (
        field "state_topic" (str (state_topic device_id)) (
          field "value_template" (str (w.template name)) (
            field "unique_id" (str (join (node device_id) (join "_" (w.lower name))))
              (field "device" (obj (device_payload model_name device_id)) end)))));
}

unfoldable pub publish_discovery : Wording → String → String → List String → List Message
unfolding sensor_config
publish_discovery w model_name device_id fields = map (sensor_config w model_name device_id) fields

-- `{k: str(v) for k, v in decoded.items()}`
unfoldable pub texts_of : Wording → View → Fields
texts_of w [] = end
texts_of w ((k, v) ∷ view) = field k (str (w.show v)) (texts_of w view)

unfoldable pub publish_state : Wording → View → String → Message
unfolding state_topic texts_of
publish_state w decoded device_id = record {
  topic = state_topic device_id;
  config = texts_of w decoded;
}

abbrev pub error_on_template : String
error_on_template =
    "{{ 'on' if value_json.Error is defined and value_json.Error and value_json.Error != 'No Error' else 'off' }}"

unfoldable pub publish_error_alert_discovery : String → String → Message
unfolding node state_topic device_payload
publish_error_alert_discovery model_name device_id = record {
  topic = join "homeassistant/binary_sensor/" (join (node device_id) "/error_alert/config");
  config = field "name" (str "Error") (
      field "state_topic" (str (state_topic device_id)) (
        field "value_template" (str error_on_template) (
          field "payload_on" (str "on") (
            field "payload_off" (str "off") (
              field "unique_id" (str (join (node device_id) "_error_alert"))
                (field "device" (obj (device_payload model_name device_id)) end))))));
}

unfoldable pub command_topic : String → String → String → String
unfolding node
command_topic device_id component slug =
    join "homeassistant/"
      (join component (join "/" (join (node device_id) (join "/" (join slug "/cmd")))))

unfoldable pub labels : List String → Elements
labels [] = no_elements
labels (l ∷ ls) = element (str l) (labels ls)

-- `if v is not None: cfg[key] = v`
unfoldable pub with_bound : String → Option Value → Fields → Fields
with_bound key none cfg = cfg
with_bound key (some v) cfg = set_field key v cfg

unfoldable pub with_choices : Wording → CommandEntity → Fields → Fields
unfolding labels with_bound ha_options
with_choices w e cfg =
    if str_eq e.component "button"
    then cfg
    else if str_eq e.component "select"
    then set_field "options" (arr (labels (ha_options w.le e))) cfg
    else if str_eq e.component "number"
    then with_bound "max" e.max_val (with_bound "min" e.min_val cfg)
    else cfg

unfoldable pub command_config : Wording → String → String → CommandEntity → Message
unfolding node device_payload command_topic with_choices
command_config w model_name device_id e = record {
  topic =
      join "homeassistant/"
        (join e.component (join "/" (join (node device_id) (join "/" (join e.slug "/config")))));
  config = with_choices w e (
      field "name" (str e.name) (
        field "command_topic" (str (command_topic device_id e.component e.slug)) (
          field "unique_id" (str (join (node device_id) (join "_cmd_" e.slug)))
            (field "device" (obj (device_payload model_name device_id)) end))));
}

unfoldable pub publish_command_discovery :
    Wording → String → String → List CommandEntity → List Message
unfolding command_config
publish_command_discovery w model_name device_id entities =
    map (command_config w model_name device_id) entities

-- The entity reads its values from this topic.
abbrev pub ReadsFrom : String → Message → Type 0
ReadsFrom topic m = get "state_topic" m.config ≡ some (str topic)

sensor_config-ReadsFrom :
    (w : Wording) (model_name device_id name : String)
    → ReadsFrom (state_topic device_id) (sensor_config w model_name device_id name)
unfolding sensor_config overrides get set_field
sensor_config-ReadsFrom w model_name device_id name = ground arith
