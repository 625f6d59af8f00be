-- ===== src/Model/Vocabulary/Choices.antt =====
-- What Home Assistant offers for a select, and what becomes of it when it is chosen.
use mathlib.Core.List.{Memᴰ}
use mathlib.Core.List.Memᴰ
use mathlib.Core.List.Memᴰ.{head, tail}
use local_smarthinq.Prelude.{
  ◌≡◌, refl, sym, ap, ◌∙◌, String, Bool, Option, none, some, List, [], ◌∷◌, map, Bool-cases, inl,
  inr, str_eq, eq_iff, arith, All, Dict, find, if_true, if_false, subst,
}
use local_smarthinq.Model.Vocabulary.{
  CommandEntity, WireCommand, wire_value, command_on, value_for, wire_for, to_wire, insert, sorted,
  with_label, labels_at, ha_options,
}
use local_smarthinq.Model.Vocabulary.Offered.{IsOption, here, there, Sets, to_wire-Sets}

-- Some option has this label.
abbrev HasLabel : Dict String → String → Type 0
HasLabel options label = (wire : String) × IsOption wire label options

find-IsOption :
    (k label : String) (options : Dict String)
    → find k options ≡ some label
    → IsOption k label options
unfolding find
find-IsOption k label [] h = absurd (ground arith)
find-IsOption k label ((w, l) ∷ os) h = elim (Bool-cases (str_eq w k)) [
  | inl same ↦ here os (ground (arith, eq_iff w k)) (ground arith)
  | inr other ↦ there (w, l) (find-IsOption k label os (ground arith))
]

with_label-All :
    (options : Dict String) (k : String) (o : Option String) (ls : List String)
    → find k options ≡ o
    → All (HasLabel options) ls
    → All (HasLabel options) (with_label o ls)
unfolding with_label
with_label-All options k none ls h later = later
with_label-All options k (some l) ls h later = ((k, find-IsOption k l options h), later)

labels_at-All :
    (options : Dict String) (ks : List String) → All (HasLabel options) (labels_at options ks)
unfolding labels_at
labels_at-All options [] = tt
labels_at-All options (k ∷ ks) =
    with_label-All options k (find k options) (labels_at options ks) refl (labels_at-All options ks)

-- A label that some option has is found.
wire_value-found :
    (label wire : String) (options : Dict String)
    → IsOption wire label options
    → (v : String) × (wire_value label options ≡ some v)
unfolding wire_value
wire_value-found label wire [] h = elim h [ ]
wire_value-found label wire ((w, l) ∷ os) (here rest e same) =
    (w, if_true (str_eq label l) (some w) (wire_value label os) (ground (arith, eq_iff label l)))
wire_value-found label wire ((w, l) ∷ os) (there o h) = elim (Bool-cases (str_eq label l)) [
  | inl same ↦ (w, if_true (str_eq label l) (some w) (wire_value label os) same)
  | inr other ↦ (
    (wire_value-found label wire os h).0,
    if_false (str_eq label l) (some w) (wire_value label os) other
        ∙ (wire_value-found label wire os h).1,
  )
]

-- Choosing the label sends a command that sets the entity's key to a value with that label.
abbrev pub IsAccepted : CommandEntity → String → Type 0
IsAccepted e label = (w : WireCommand) × (to_wire e label ≡ some w) × Sets e label w

value_for-found :
    (label wire : String) (options : Dict String)
    → IsOption wire label options
    → (v : String) × (value_for options label ≡ some v)
unfolding value_for
value_for-found label wire [] h = elim h [ ]
value_for-found label wire (o ∷ os) h = wire_value-found label wire (o ∷ os) h

accepts-label :
    (e : CommandEntity) (key label : String)
    → e.wire_key ≡ some key
    → HasLabel e.options label
    → IsAccepted e label
unfolding to_wire wire_for command_on
accepts-label e key label h (wire, o) =
    let (v, found) = value_for-found label wire e.options o in
    let w : WireCommand = record { cmd = e.cmd; cmd_opt = e.cmd_opt; key = key; value = v } in
    let sent : to_wire e label ≡ some w = ap (wire_for e label) h ∙ ap (command_on e key) found in
    (w, sent, to_wire-Sets e label w sent)

All-accepted :
    (e : CommandEntity) (key : String) (labels : List String)
    → e.wire_key ≡ some key
    → All (HasLabel e.options) labels
    → All (IsAccepted e) labels
All-accepted e key [] h all = tt
All-accepted e key (l ∷ ls) h (now, later) =
    (accepts-label e key l h now, All-accepted e key ls h later)

insert-first :
    (le : String → String → Bool) (k : String) (ks : List String) → Memᴰ k (insert le k ks)
unfolding insert
insert-first le k [] = head refl
insert-first le k (j ∷ js) = elim (Bool-cases (le k j)) [
  | inl before ↦ rw before (head refl)
  | inr behind ↦ rw behind (tail (insert-first le k js))
]

insert-later :
    (le : String → String → Bool) (i k : String) (ks : List String)
    → Memᴰ i ks
    → Memᴰ i (insert le k ks)
unfolding insert
insert-later le i k [] h = elim h [ ]
insert-later le i k (j ∷ js) h = elim (Bool-cases (le k j)) [
  | inl before ↦ rw before (tail h)
  | inr behind ↦
      rw behind (elim (Memᴰ.cases_cons h) [
        | inl same ↦ head same
        | inr m ↦ tail (insert-later le i k js m)
      ])
]

sorted-Mem :
    (le : String → String → Bool) (k : String) (ks : List String)
    → Memᴰ k ks
    → Memᴰ k (sorted le ks)
unfolding sorted
sorted-Mem le k [] h = elim h [ ]
sorted-Mem le k (j ∷ js) h = elim (Memᴰ.cases_cons h) [
  | inl same ↦ Memᴰ.cast same (insert-first le j (sorted le js))
  | inr m ↦ insert-later le k j (sorted le js) (sorted-Mem le k js m)
]

with_label-Mem :
    (o : Option String) (label : String) (ls : List String)
    → Memᴰ label ls
    → Memᴰ label (with_label o ls)
unfolding with_label
with_label-Mem none label ls h = h
with_label-Mem (some l) label ls h = tail h

labels_at-Mem :
    (options : Dict String) (k label : String) (ks : List String)
    → Memᴰ k ks
    → find k options ≡ some label
    → Memᴰ label (labels_at options ks)
unfolding labels_at with_label
labels_at-Mem options k label [] h found = elim h [ ]
labels_at-Mem options k label (j ∷ js) h found = elim (Memᴰ.cases_cons h) [
  | inl same ↦
      subst (λ o. Memᴰ label (with_label o (labels_at options js)))
        (sym found ∙ ap (λ i. find i options) same) (head refl)
  | inr m ↦
      with_label-Mem (find j options) label (labels_at options js)
        (labels_at-Mem options k label js m found)
]

find-key :
    (k : String) (options : Dict String)
    → Memᴰ k (map (λ o. o.0) options)
    → (label : String) × (find k options ≡ some label)
unfolding find
find-key k [] h = elim h [ ]
find-key k ((w, l) ∷ os) h = elim (Bool-cases (str_eq w k)) [
  | inl same ↦ (l, if_true (str_eq w k) (some l) (find k os) same)
  | inr other ↦ elim (Memᴰ.cases_cons h) [
    | inl e ↦ absurd (ground (arith, eq_iff w k))
    | inr m ↦ (
      (find-key k os m).0,
      if_false (str_eq w k) (some l) (find k os) other ∙ (find-key k os m).1,
    )
  ]
]

All-Mem : {P : String → Type 0} (ks : List String) → ((k : String) → Memᴰ k ks → P k) → All P ks
All-Mem [] h = tt
All-Mem (k ∷ ks) h = (h k (head refl), All-Mem ks (λ j m. h j (tail m)))

-- The label of a wire value is among the choices.
abbrev pub IsOffered : Dict String → List String → String → Type 0
IsOffered options choices wire =
    (label : String) × (find wire options ≡ some label) × Memᴰ label choices

-- The choices are labels that are accepted, and no wire value's label is missing among them.
pub record OffersAll (e : CommandEntity) (choices : List String) : Type 0 where
  pub accepted : All (IsAccepted e) choices
  pub complete : All (IsOffered e.options choices) (map (λ o. o.0) e.options)

-- Of an entity that sets a key, Home Assistant is offered just the labels of its wire values, and
-- every choice is accepted: chosen, it is sent as the entity's command, with the entity's key and
-- the wire value of an option that has this label.
pub ha_options-OffersAll :
    (le : String → String → Bool) (e : CommandEntity) (key : String)
    → e.wire_key ≡ some key
    → OffersAll e (ha_options le e)
unfolding ha_options
ha_options-OffersAll le e key h = record {
  accepted =
      All-accepted e key (ha_options le e) h
        (labels_at-All e.options (sorted le (map (λ o. o.0) e.options)));
  complete =
      let keys = map (λ o. o.0) e.options in
      All-Mem keys (λ k m.
        let (label, found) = find-key k e.options m in
        (
          label,
          found,
          labels_at-Mem e.options k label (sorted le keys) (sorted-Mem le k keys m) found,
        ));
}
