-- ===== src/Model/Vocabulary/Offered.antt =====
-- What the published entities of a model send.
use local_smarthinq.Prelude.{
  ◌≡◌, ◌≢◌, refl, ◌∙◌, ap, String, true, false, Option, none, some, List, [], ◌∷◌, ◌++◌, Bool-cases,
  inl, inr, str_eq, eq_iff, arith, All, Dict, map, subst,
}
use local_smarthinq.Model.Vocabulary.{
  Texts, CommandField, Command, Sections, CommandEntity, WireCommand, for_field, for_simple_action,
  expand, expand_entities, published, entities_of, parse_commands, all_entities, wire_value,
  command_on, value_for, wire_for, to_wire,
}

-- The option `wire` has the label `label`.
pub data IsOption (wire label : String) : Dict String → Type 0 where
  here :
      {w l : String} (os : Dict String) → w ≡ wire → l ≡ label → IsOption wire label ((w, l) ∷ os)
  there :
      (o : String × String) {os : Dict String}
      → IsOption wire label os
      → IsOption wire label (o ∷ os)

-- A payload stands for a value: by its label, or for itself where the entity has no options.
pub data StandsFor (payload : String) : Dict String → String → Type 0 where
  by_label : {os : Dict String} {v : String} → IsOption v payload os → StandsFor payload os v
  itself : payload ≢ "" → StandsFor payload [] payload

-- The command sets one key of the entity, to a value that the payload stands for.
pub record Sets (e : CommandEntity) (payload : String) (w : WireCommand) : Type 0 where
  pub same_cmd : w.cmd ≡ e.cmd
  pub same_opt : w.cmd_opt ≡ e.cmd_opt
  pub own_key : e.wire_key ≡ some w.key
  pub value : StandsFor payload e.options w.value

wire_value-IsOption :
    (payload : String) (os : Dict String) (v : String)
    → wire_value payload os ≡ some v
    → IsOption v payload os
unfolding wire_value
wire_value-IsOption payload [] v h = absurd (ground arith)
wire_value-IsOption payload ((w, l) ∷ os) v h = elim (Bool-cases (str_eq payload l)) [
  | inl same ↦ here os (ground arith) (ground (arith, eq_iff payload l))
  | inr other ↦ there (w, l) (wire_value-IsOption payload os v (ground arith))
]

ne_of : (a b : String) → str_eq a b ≡ false → a ≢ b
ne_of a b h e = ground (arith, eq_iff a b)

value_for-StandsFor :
    (os : Dict String) (payload v : String) → value_for os payload ≡ some v → StandsFor payload os v
unfolding value_for
value_for-StandsFor [] payload v h = elim (Bool-cases (str_eq payload "")) [
  | inl empty ↦ absurd (ground arith)
  | inr other ↦ subst (StandsFor payload []) (ground arith) (itself (ne_of payload "" other))
]
value_for-StandsFor (o ∷ os) payload v h = by_label (wire_value-IsOption payload (o ∷ os) v h)

command_on-Sets :
    (e : CommandEntity) (key payload : String) (o : Option String) (w : WireCommand)
    → e.wire_key ≡ some key
    → value_for e.options payload ≡ o
    → command_on e key o ≡ some w
    → Sets e payload w
unfolding command_on
command_on-Sets e key payload none w k h r = absurd (ground arith)
command_on-Sets e key payload (some v) w k h r = record {
  same_cmd = ground arith;
  same_opt = ground arith;
  own_key = k ∙ ap some (ground arith);
  value =
      subst (StandsFor payload e.options) (ground arith)
        (value_for-StandsFor e.options payload v h);
}

wire_for-Sets :
    (e : CommandEntity) (payload : String) (k : Option String) (w : WireCommand)
    → e.wire_key ≡ k
    → wire_for e payload k ≡ some w
    → Sets e payload w
unfolding wire_for
wire_for-Sets e payload none w k h = absurd (ground arith)
wire_for-Sets e payload (some key) w k h =
    command_on-Sets e key payload (value_for e.options payload) w k refl h

-- A command that an entity makes of a payload is the entity's own, sets the entity's key, and its
-- value is the wire value of an option with that label, or the payload itself, if not empty, where
-- the entity has no options.
pub to_wire-Sets :
    (e : CommandEntity) (payload : String) (w : WireCommand)
    → to_wire e payload ≡ some w
    → Sets e payload w
unfolding to_wire
to_wire-Sets e payload w h = wire_for-Sets e payload e.wire_key w refl h

-- An entity whose command is sent as `Set`.
pub record IsSetCommand (e : CommandEntity) : Type 0 where
  pub named : e.cmd ≢ ""
  pub set : e.cmd_opt ≡ "Set"

All-append {ℓ κ} :
    {A : Type ℓ} (P : A → Type κ) (xs ys : List A) → All P xs → All P ys → All P (xs ++ ys)
All-append P [] ys h k = k
All-append P (x ∷ xs) ys (now, h) k = (now, All-append P xs ys h k)

fields-IsSetCommand :
    (t : Texts) (c : Command) (fs : List CommandField)
    → c.cmd ≢ ""
    → c.cmd_opt ≡ "Set"
    → All IsSetCommand (map (for_field t c) fs)
unfolding for_field
fields-IsSetCommand t c [] n s = tt
fields-IsSetCommand t c (f ∷ fs) n s =
    (record { named = n; set = s }, fields-IsSetCommand t c fs n s)

expand-IsSetCommand :
    (t : Texts) (c : Command) (fs : List CommandField)
    → c.cmd ≢ ""
    → c.cmd_opt ≡ "Set"
    → All IsSetCommand (expand t c fs)
unfolding expand for_simple_action
expand-IsSetCommand t c [] n s = (record { named = n; set = s }, tt)
expand-IsSetCommand t c (f ∷ fs) n s = fields-IsSetCommand t c (f ∷ fs) n s

published-ne : (c : Command) → published c ≡ true → c.cmd ≢ ""
unfolding published
published-ne c h e = ground (arith, eq_iff c.cmd "")

published-set : (c : Command) → published c ≡ true → c.cmd_opt ≡ "Set"
unfolding published
published-set c h = ground (arith, eq_iff c.cmd_opt "Set")

entities_of-IsSetCommand : (t : Texts) (cs : List Command) → All IsSetCommand (entities_of t cs)
unfolding entities_of expand_entities
entities_of-IsSetCommand t [] = tt
entities_of-IsSetCommand t (c ∷ cs) = elim (Bool-cases (published c)) [
  | inl sent ↦ rw sent (
      All-append IsSetCommand (expand t c c.fields) (entities_of t cs)
        (expand-IsSetCommand t c c.fields (published-ne c sent) (published-set c sent))
        (entities_of-IsSetCommand t cs))
  | inr kept ↦ rw kept (entities_of-IsSetCommand t cs)
]

-- Every entity that a model publishes belongs to a command with a `cmd`, sent as `Set`: no button
-- of another kind of command is published.
pub all_entities-IsSetCommand : (t : Texts) (m : Sections) → All IsSetCommand (all_entities t m)
unfolding all_entities
all_entities-IsSetCommand t m = entities_of-IsSetCommand t (parse_commands t m)
