-- ===== src/Tests/Mqtt.antt =====
-- The sink on a fridge's snapshots and a command for it.
use Prim.Native.Char.{code}
use local_smarthinq.Prelude.{find, put, ◌≡◌, refl, true, false, not, ◌==◌, none, some, [], ◌∷◌}
use local_smarthinq.Json.{str, obj, end, field, get}
use local_smarthinq.Model.Registry.{Payload}
use local_smarthinq.Model.Vocabulary.{
  Texts, Sections, CommandEntity, WireCommand, all_entities, to_wire,
}
use local_smarthinq.App.Text.{ends_with}
use local_smarthinq.Mqtt.View.{Countdown, truthy, view_of}
use local_smarthinq.Mqtt.Sink.{Setup, discovery, commands, state, call, calls, start}
use local_smarthinq.Mqtt.Sink.Announced.{IsAnnounced, calls-IsAnnounced}
use local_smarthinq.Mqtt.Topics.{Classes}
use local_smarthinq.Control.Channel.{fridge, ControlChannel, WidText, Sent, command_message}

abbrev texts : Texts
texts = record {
  placeholders = λ s. "TempFreezer" ∷ [];
  key_pairs = λ s. ("REFT", "TempFreezer") ∷ [];
  label_group = λ s. none;
  lower = λ s. s;
  replace = λ a b s. s;
  strip = λ s. s;
}

abbrev sections : Sections
sections = record {
  actions =
      record { name = "SetControl"; cmd = "Control"; cmd_opt = "Set"; template = "t" }
      ∷ record { name = "PowerOff"; cmd = "Control"; cmd_opt = "Power"; template = "Off" }
      ∷ [];
  values =
      (
        "TempFreezer",
        record {
          kind = some "Enum";
          option = ("4", "-18") ∷ ("5", "-19") ∷ [];
          min = none;
          max = none;
        },
      )
      ∷ [];
}

abbrev countdown : Countdown
countdown h m = some "1h39m"

abbrev setup : Setup
setup = record {
  texts = texts;
  sub = λ pattern by s. s;
  show = λ v. "gr";
  countdown = countdown;
  before = λ a b. false;
  same = λ a b. false;
  model_json_for = λ name. some sections;
}

abbrev snapshot : Payload
snapshot =
    ("modelName", str "gr") ∷ ("monData_decoded", obj (field "TempFreezer" (str "-18") end)) ∷ []

abbrev freezer : CommandEntity
freezer = record {
  slug = "TempFreezer";
  component = "select";
  name = "TempFreezer";
  cmd = "Control";
  cmd_opt = "Set";
  wire_key = some "REFT";
  payload = "";
  options = ("4", "-18") ∷ ("5", "-19") ∷ [];
  min_val = none;
  max_val = none;
}

-- Only the freezer's setting is published, not the power button.
freezer_only : all_entities texts sections ≡ freezer ∷ []
unfolding all_entities find
freezer_only = refl

abbrev minus_19 : WireCommand
minus_19 = record { cmd = "Control"; cmd_opt = "Set"; key = "REFT"; value = "5" }

freezer-to_wire : to_wire freezer "-19" ≡ some minus_19
unfolding to_wire
freezer-to_wire = refl

-- A key of the option table is no label.
freezer_rejects : to_wire freezer "5" ≡ none
unfolding to_wire
freezer_rejects = refl

one_call :
    (calls setup (("dev", snapshot) ∷ []) (start true)).published
    ≡ state "gr" (("TempFreezer", str "-18") ∷ [])
      ∷ commands "gr" "gr" (freezer ∷ [])
      ∷ discovery "gr" "gr" ("TempFreezer" ∷ [])
      ∷ []
unfolding calls start call find truthy view_of ends_with get put all_entities
one_call = refl

calls-IsAnnounced_example :
    IsAnnounced (calls setup (("dev", snapshot) ∷ ("dev", snapshot) ∷ []) (start true)).published
calls-IsAnnounced_example =
    calls-IsAnnounced setup true (("dev", snapshot) ∷ ("dev", snapshot) ∷ [])

abbrev wid : WidText
wid dev n = "n-dev-1"

abbrev channel : ControlChannel
channel = record {
  connections = ("dev", record { sock = 7; family = fridge }) ∷ [];
  cmd_counter = 0;
}

abbrev message : Sent
message = record {
  sock = 7;
  family = fridge;
  message = command_message "dev" "n-dev-1" (obj (field "REFT" (str "5") end)) "Control" "Set";
}

abbrev classes : Classes
classes = record { is_word = λ c. not (code c == 47); is_not_space = λ c. true }
