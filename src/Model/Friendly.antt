-- ===== src/Model/Friendly.antt =====
-- `ModelInfo.decode_friendly` of server/models/model_json.py: the numbers of a decoded state become
-- the modelJson's names. `none` is an exception. An entry of the section `Value` comes with its
-- options in both of the shapes that the code reads.
use local_smarthinq.Prelude.{
  ℕ, ◌≡◌, refl, ap, ◌∙◌, String, ◌||◌, Option, none, some, List, [], ◌∷◌, if◌then◌else◌, str_eq,
  Bytes, Dict, find, eq_iff, arith, Bool-cases, inl, inr,
}
use local_smarthinq.Model.Binary.{Item, decode_monitor_binary}
use local_smarthinq.Model.Vocabulary.{Texts, or_else, clean_label}

-- The options of an enumeration; the table of a reference, with each entry's `_comment`.
pub record ValueDef : Type 0 where
  pub type : String
  pub options : Dict String
  pub table : Option (Dict (Option String))

pub data Kind : Type 0 where
  enum : Dict String → Kind
  range bit text : Kind
  reference : Dict (Option String) → Kind

unfoldable pub reference_to : Option (Dict (Option String)) → Option Kind
reference_to none = none
reference_to (some table) = some (reference table)

-- `value`
unfoldable pub value : Texts → ValueDef → Option Kind
unfolding reference_to
value t d =
    if str_eq d.type "Enum" || str_eq d.type "enum"
    then some (enum d.options)
    else if str_eq d.type "Range"
    then some range
    else if str_eq (t.lower d.type) "bit"
    then some bit
    else if str_eq (t.lower d.type) "reference"
    then reference_to d.table
    else if str_eq (t.lower d.type) "string"
    then some text
    else none

-- `enum_name`, for an enumeration
unfoldable pub enum_name : Dict String → String → String
unfolding or_else
enum_name options val = or_else (find val options) "Unknown"

-- `reference_name`, for a reference
unfoldable pub reference_name : Option (Option String) → Option String
reference_name none = none
reference_name (some comment) = comment

unfoldable pub named : Texts → String → Option String → String
unfolding clean_label
named t val none = val
named t val (some name) = if str_eq name "" then val else clean_label t name

unfoldable pub friendly : Texts → String → Kind → String
unfolding enum_name reference_name named clean_label
friendly t val (enum options) = clean_label t (enum_name options val)
friendly t val (reference table) = named t val (reference_name (find val table))
friendly t val range = val
friendly t val bit = val
friendly t val text = val

unfoldable pub friendly_kind : Texts → String → Option Kind → Option String
unfolding friendly
friendly_kind t val none = none
friendly_kind t val (some k) = some (friendly t val k)

-- A key without an entry keeps its value.
unfoldable pub friendly_value : Texts → String → Option ValueDef → Option String
unfolding friendly_kind value
friendly_value t val none = some val
friendly_value t val (some d) = friendly_kind t val (value t d)

unfoldable pub and_rest : String → Option String → Option (Dict String) → Option (Dict String)
and_rest key none rest = none
and_rest key (some v) none = none
and_rest key (some v) (some rest) = some ((key, v) ∷ rest)

unfoldable pub friendly_all : Texts → Dict ValueDef → Dict String → Option (Dict String)
unfolding friendly_value and_rest
friendly_all t defs [] = some []
friendly_all t defs ((key, val) ∷ decoded) =
    and_rest key (friendly_value t val (find key defs)) (friendly_all t defs decoded)

-- A modelJson: the type and the protocol of its section `Monitoring`, and its section `Value`.
pub record ModelJson : Type 0 where
  pub monitoring_type : String
  pub protocol : List Item
  pub values : Dict ValueDef

-- `decode`; a monitor that is not binary is JSON.
unfoldable pub decode :
    (ℕ → String) → (Bytes → Option (Dict String)) → ModelJson → Bytes → Option (Dict String)
unfolding decode_monitor_binary
decode show loads m blob =
    if str_eq m.monitoring_type "BINARY(BYTE)"
    then some (decode_monitor_binary show blob m.protocol)
    else loads blob

unfoldable pub friendly_state : Texts → Dict ValueDef → Option (Dict String) → Option (Dict String)
unfolding friendly_all
friendly_state t defs none = none
friendly_state t defs (some decoded) = friendly_all t defs decoded

unfoldable pub decode_friendly :
    Texts → (ℕ → String) → (Bytes → Option (Dict String)) → ModelJson → Bytes → Option (Dict String)
unfolding decode friendly_state
decode_friendly t show loads m blob = friendly_state t m.values (decode show loads m blob)

-- The value that the friendly state has for a key, from the decoded one.
pub found_friendly : Texts → Dict ValueDef → String → Option String → Option String
found_friendly t defs key none = none
found_friendly t defs key (some val) = friendly_value t val (find key defs)

find-and_rest :
    (j key : String) (o : Option String) (r : Option (Dict String)) (out : Dict String)
    (other : Option String)
    → ((rest : Dict String) → r ≡ some rest → find key rest ≡ other)
    → and_rest j o r ≡ some out
    → find key out ≡ (if str_eq j key then o else other)
unfolding and_rest find
find-and_rest j key none r out other h e = absurd (ground arith)
find-and_rest j key (some v) none out other h e = absurd (ground arith)
find-and_rest j key (some v) (some rest) out other h e =
    let same : (j, v) ∷ rest ≡ out = ground arith in rw (← same) (rw (h rest refl) refl)

found-friendly :
    (t : Texts) (defs : Dict ValueDef) (j key val : String) (o : Option String)
    → (if str_eq j key then friendly_value t val (find j defs) else found_friendly t defs key o)
      ≡ found_friendly t defs key (if str_eq j key then some val else o)
unfolding found_friendly
found-friendly t defs j key val o = elim (Bool-cases (str_eq j key)) [
  | inl same ↦ rw same (ap (λ x. friendly_value t val (find x defs)) (ground (arith, eq_iff j key)))
  | inr other ↦ rw other refl
]

-- If the friendly names of a decoded state are found at all, a key has the friendly name of the
-- value that the decoded state has for it, and a key that the decoded state lacks has none.
pub find-friendly_all :
    (t : Texts) (defs : Dict ValueDef) (decoded out : Dict String) (key : String)
    → friendly_all t defs decoded ≡ some out
    → find key out ≡ found_friendly t defs key (find key decoded)
unfolding friendly_all found_friendly find
find-friendly_all t defs [] out key h = let same : [] ≡ out = ground arith in rw (← same) refl
find-friendly_all t defs ((j, val) ∷ decoded) out key h =
    find-and_rest j key (friendly_value t val (find j defs)) (friendly_all t defs decoded) out
      (found_friendly t defs key (find key decoded))
      (λ rest e. find-friendly_all t defs decoded rest key e) h
    ∙ found-friendly t defs j key val (find key decoded)
