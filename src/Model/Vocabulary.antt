-- ===== src/Model/Vocabulary.antt =====
-- server/models/control_vocab.py: from the actions of a modelJson's `ControlWifi` section to the
-- command entities, and from a payload to the command on the wire. A `cmd` of null is read as the
-- empty text, which is as false.
pub mod Offered
pub mod Choices
use local_smarthinq.Json.{Value}
use local_smarthinq.Prelude.{
  String, Bool, ◌&&◌, not, Option, none, some, List, [], ◌∷◌, ◌++◌, map, if◌then◌else◌, str_eq,
  Dict, find,
}

-- What Python's `re` and text methods give here: the matches of `\{\{(\w+)\}\}`, those of
-- `"(\w+)"\s*:\s*"\{\{(\w+)\}\}"` (key first), the group of `_LABEL_RE`, `lower`,
-- `replace` and `strip`.
pub record Texts : Type 0 where
  pub placeholders : String → List String
  pub key_pairs : String → List (String × String)
  pub label_group : String → Option String
  pub lower : String → String
  pub replace : String → String → String → String
  pub strip : String → String

pub record CommandField : Type 0 where
  pub key : String
  pub field_type : String
  pub options : Dict String
  pub min_val : Option Value
  pub max_val : Option Value
  pub wire_key : Option String

pub record Command : Type 0 where
  pub name : String
  pub cmd : String
  pub cmd_opt : String
  pub value_template : String
  pub fields : List CommandField

pub record CommandEntity : Type 0 where
  pub slug : String
  pub component : String
  pub name : String
  pub cmd : String
  pub cmd_opt : String
  pub wire_key : Option String
  pub payload : String
  pub options : Dict String
  pub min_val : Option Value
  pub max_val : Option Value

pub record WireCommand : Type 0 where
  pub cmd : String
  pub cmd_opt : String
  pub key : String
  pub value : String

-- An entry of the section `Value`, with the `min` and `max` among its options, and one of the
-- section `ControlWifi.action`.
pub record ValueSpec : Type 0 where
  pub kind : Option String
  pub option : Dict String
  pub min : Option Value
  pub max : Option Value

pub record Action : Type 0 where
  pub name : String
  pub cmd : String
  pub cmd_opt : String
  pub template : String

pub record Sections : Type 0 where
  pub actions : List Action
  pub values : Dict ValueSpec

unfoldable pub or_else : Option String → String → String
or_else none other = other
or_else (some s) other = s

-- `a or b`
unfoldable pub or_text : Option String → String → String
or_text none other = other
or_text (some s) other = if str_eq s "" then other else s

unfoldable pub clean_label : Texts → String → String
unfolding or_else
clean_label t label = or_else (t.label_group label) label

unfoldable pub slug_of : Texts → String → String
slug_of t name = t.replace "_" "" (t.lower name)

unfoldable pub pretty : Texts → String → String
pretty t name = t.strip (t.replace "_" " " name)

-- `_wire_keys_from_template`: of two pairs for one field the last counts.
unfoldable pub last_pair : String → Option String → List (String × String) → Option String
last_pair fk found [] = found
last_pair fk found ((wire, key) ∷ pairs) =
    last_pair fk (if str_eq key fk then some wire else found) pairs

unfoldable pub wire_key_of : Texts → String → String → Option String
unfolding last_pair
wire_key_of t template fk = last_pair fk none (t.key_pairs template)

-- `value_section.get(fk, {})`
unfoldable pub spec_of : Option ValueSpec → ValueSpec
spec_of none = record { kind = none; option = []; min = none; max = none }
spec_of (some v) = v

unfoldable pub cleaned : Texts → Dict String → Dict String
unfolding clean_label
cleaned t opts = map (λ o. (o.0, clean_label t o.1)) opts

unfoldable pub field_of : Texts → Sections → String → String → CommandField
unfolding or_else wire_key_of spec_of cleaned
field_of t m template fk =
    let vdef = spec_of (find fk m.values) in
    if str_eq (or_else vdef.kind "Enum") "Range"
    then record {
      key = fk;
      field_type = "Range";
      options = [];
      min_val = vdef.min;
      max_val = vdef.max;
      wire_key = wire_key_of t template fk;
    }
    else record {
      key = fk;
      field_type = "Enum";
      options = cleaned t vdef.option;
      min_val = none;
      max_val = none;
      wire_key = wire_key_of t template fk;
    }

unfoldable pub command_of : Texts → Sections → Action → Command
unfolding field_of
command_of t m a = record {
  name = a.name;
  cmd = a.cmd;
  cmd_opt = a.cmd_opt;
  value_template = a.template;
  fields = map (field_of t m a.template) (t.placeholders a.template);
}

unfoldable pub parse_commands : Texts → Sections → List Command
unfolding command_of
parse_commands t m = map (command_of t m) m.actions

unfoldable pub for_simple_action : Texts → Command → CommandEntity
unfolding slug_of pretty
for_simple_action t c = record {
  slug = slug_of t c.name;
  component = "button";
  name = pretty t c.name;
  cmd = c.cmd;
  cmd_opt = c.cmd_opt;
  wire_key = none;
  payload = c.value_template;
  options = [];
  min_val = none;
  max_val = none;
}

unfoldable pub for_field : Texts → Command → CommandField → CommandEntity
unfolding slug_of pretty or_text
for_field t c f = record {
  slug = slug_of t f.key;
  component = if str_eq f.field_type "Enum" then "select" else "number";
  name = pretty t f.key;
  cmd = c.cmd;
  cmd_opt = c.cmd_opt;
  wire_key = some (or_text f.wire_key f.key);
  payload = "";
  options = f.options;
  min_val = f.min_val;
  max_val = f.max_val;
}

unfoldable pub expand : Texts → Command → List CommandField → List CommandEntity
unfolding for_simple_action for_field
expand t c [] = for_simple_action t c ∷ []
expand t c (f ∷ fs) = map (for_field t c) (f ∷ fs)

unfoldable pub expand_entities : Texts → Command → List CommandEntity
unfolding expand
expand_entities t c = expand t c c.fields

-- `c.is_sendable and c.cmd_opt == "Set"`
unfoldable pub published : Command → Bool
published c = not (str_eq c.cmd "") && str_eq c.cmd_opt "Set"

unfoldable pub entities_of : Texts → List Command → List CommandEntity
unfolding expand_entities published
entities_of t [] = []
entities_of t (c ∷ cs) =
    let later = entities_of t cs in if published c then expand_entities t c ++ later else later

unfoldable pub all_entities : Texts → Sections → List CommandEntity
unfolding parse_commands entities_of
all_entities t m = entities_of t (parse_commands t m)

-- The wire value of the first option with this label.
unfoldable pub wire_value : String → Dict String → Option String
wire_value payload [] = none
wire_value payload ((wire, label) ∷ options) =
    let later = wire_value payload options in if str_eq payload label then some wire else later

unfoldable pub command_on : CommandEntity → String → Option String → Option WireCommand
command_on e key none = none
command_on e key (some v) = some (record { cmd = e.cmd; cmd_opt = e.cmd_opt; key = key; value = v })

-- The value to send: a label's, or the payload itself where there are no options.
unfoldable pub value_for : Dict String → String → Option String
unfolding wire_value
value_for [] payload = if str_eq payload "" then none else some payload
value_for (o ∷ os) payload = wire_value payload (o ∷ os)

unfoldable pub wire_for : CommandEntity → String → Option String → Option WireCommand
unfolding command_on value_for
wire_for e payload none = none
wire_for e payload (some key) = command_on e key (value_for e.options payload)

unfoldable pub to_wire : CommandEntity → String → Option WireCommand
unfolding wire_for
to_wire e payload = wire_for e payload e.wire_key

-- `sorted`, by the order of texts.
unfoldable pub insert : (String → String → Bool) → String → List String → List String
insert le k [] = k ∷ []
insert le k (j ∷ js) = let later = insert le k js in if le k j then k ∷ j ∷ js else j ∷ later

unfoldable pub sorted : (String → String → Bool) → List String → List String
unfolding insert
sorted le [] = []
sorted le (k ∷ ks) = insert le k (sorted le ks)

unfoldable pub with_label : Option String → List String → List String
with_label none ls = ls
with_label (some l) ls = l ∷ ls

-- `[options[k] for k in keys]`
unfoldable pub labels_at : Dict String → List String → List String
unfolding with_label
labels_at options [] = []
labels_at options (k ∷ ks) = with_label (find k options) (labels_at options ks)

unfoldable pub ha_options : (String → String → Bool) → CommandEntity → List String
unfolding sorted labels_at
ha_options le e = labels_at e.options (sorted le (map (λ o. o.0) e.options))
