-- ===== src/Tests/Topics.antt =====
-- A device with a slash in its id, and what is offered for one setting.
use Prim.Native.Char.{Char, code}
use text.Mathlib.TextBridge.{to_list, to_list-of_list}
use local_smarthinq.Prelude.{
  ◌≡◌, refl, sym, subst, true, ◌&&◌, not, none, some, List, [], ◌∷◌, ◌==◌, leb, ltb, arith, find,
}
use local_smarthinq.Control.Channel.{ControlChannel, WidText}
use local_smarthinq.Model.Vocabulary.{CommandEntity, ha_options}
use local_smarthinq.Model.Vocabulary.Choices.{OffersAll, ha_options-OffersAll}
use local_smarthinq.Mqtt.Sink.{start}
use local_smarthinq.Mqtt.Discovery.{Wording, publish_command_discovery}
use local_smarthinq.Mqtt.Topics.{Classes}
use local_smarthinq.Mqtt.Topics.RoundTrip.{NoSlash}
use local_smarthinq.Regex.Greedy.{Several}
use local_smarthinq.Mqtt.Topics.Routed.{AllLead, announced-LeadBack}

abbrev classes : Classes
classes = record {
  is_word = λ c. leb 48 (code c) && ltb (code c) 128;
  is_not_space = λ c. not (code c == 32);
}

slash_free : NoSlash classes
slash_free c h = ground arith

abbrev device_letters : List Char
device_letters = "g" ∷ "/" ∷ "r" ∷ []

abbrev component_letters : List Char
component_letters = "s" ∷ "e" ∷ "l" ∷ "e" ∷ "c" ∷ "t" ∷ []

abbrev slug_letters : List Char
slug_letters = "t" ∷ "e" ∷ "m" ∷ "p" ∷ []

device_full : Several classes.is_not_space (to_list "g/r")
device_full =
    subst (Several classes.is_not_space) (sym (to_list-of_list device_letters))
      (refl, (refl, (refl, tt)))

component_word : Several classes.is_word (to_list "select")
component_word =
    subst (Several classes.is_word) (sym (to_list-of_list component_letters))
      (refl, (refl, (refl, (refl, (refl, (refl, tt))))))

slug_word : Several classes.is_word (to_list "temp")
slug_word =
    subst (Several classes.is_word) (sym (to_list-of_list slug_letters))
      (refl, (refl, (refl, (refl, tt))))

abbrev temp : CommandEntity
temp = record {
  slug = "temp";
  component = "select";
  name = "Temp";
  cmd = "Control";
  cmd_opt = "Set";
  wire_key = some "REFT";
  payload = "";
  options = ("5", "-19") ∷ ("4", "-18") ∷ [];
  min_val = none;
  max_val = none;
}

-- An order that is enough for the two wire values.
abbrev wording : Wording
wording = record {
  lower = λ s. s;
  spaced = λ s. s;
  template = λ s. s;
  show = λ v. "";
  le = λ a b. true;
}

abbrev wid : WidText
wid dev n = "n"

abbrev channel : ControlChannel
channel = record { connections = []; cmd_counter = 0 }

announced-LeadBack_example :
    AllLead classes true wid true "-19"
      (start true)
      channel
      "g/r"
      (temp ∷ [])
      (publish_command_discovery wording "GR" "g/r" (temp ∷ []))
announced-LeadBack_example =
    announced-LeadBack classes true wid true "-19" (start true) channel wording "GR" "g/r"
      (temp ∷ []) slash_free device_full ((component_word, slug_word), tt)

two_choices : ha_options (λ a b. true) temp ≡ "-19" ∷ "-18" ∷ []
unfolding ha_options find
two_choices = refl

ha_options-OffersAll_example : OffersAll temp (ha_options (λ a b. true) temp)
ha_options-OffersAll_example = ha_options-OffersAll (λ a b. true) temp "REFT" refl
