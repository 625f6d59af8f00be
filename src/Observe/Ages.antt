-- ===== src/Observe/Ages.antt =====
-- `publish_ages` of server/observability.py, with `store_model_ages`, and the seed of its memory.
-- Times are whole seconds. `KNOWN_DEVICES` joined with the store's map is an argument, and so is
-- what `fromisoformat` reads of a time stamp.
pub mod Young
pub mod Fresh
use local_smarthinq.Prelude.{
  ℕ, zero, suc, ◌+◌, ◌-◌, String, Bool, true, false, ◌&&◌, not, Option, none, some, List, [], ◌∷◌,
  ◌++◌, map, if◌then◌else◌, str_eq, ltb, Dict, find, put,
}
use local_smarthinq.Json.{Value, str}
use local_smarthinq.Model.Registry.{Payload}
use local_smarthinq.State.{DeviceStateStore}
use local_smarthinq.Observe.Lines.{higher, bump}

abbrev pub max_memory_age : ℕ
max_memory_age = 604800

unfoldable pub merge_sightings : Dict ℕ → Dict ℕ → Dict ℕ
unfolding bump
merge_sightings [] memory = memory
merge_sightings ((dev, seen) ∷ sightings) memory = merge_sightings sightings (bump dev seen memory)

-- `seed_memory`: what `scan_whole_file` gives for each log, one behind the other.
unfoldable pub seed_memory : List (Dict ℕ) → Dict ℕ → Dict ℕ
unfolding merge_sightings
seed_memory [] memory = memory
seed_memory (out ∷ outs) memory = seed_memory outs (merge_sightings out memory)

-- `dev_models.get(dev)`, if it is true
unfoldable pub model_of : Dict String → String → Option String
model_of models dev = elim (find dev models) [
  | none ↦ none
  | some m ↦ if str_eq m "" then none else some m
]

unfoldable pub kept : Option String → ℕ → ℕ → Bool
kept none now seen = false
kept (some m) now seen = not (ltb max_memory_age (now - seen))

-- Devices with no model and old sightings are dropped.
unfoldable pub prune : Dict String → ℕ → Dict ℕ → Dict ℕ
unfolding kept model_of
prune models now [] = []
prune models now ((dev, seen) ∷ memory) =
    let rest = prune models now memory in
    if kept (model_of models dev) now seen then (dev, seen) ∷ rest else rest

unfoldable pub bump_model : Option String → ℕ → Dict ℕ → Dict ℕ
unfolding bump
bump_model none seen d = d
bump_model (some model) seen d = bump model seen d

-- The latest sighting of each model.
unfoldable pub by_model : Dict String → Dict ℕ → Dict ℕ → Dict ℕ
unfolding bump_model model_of
by_model models [] d = d
by_model models ((dev, seen) ∷ memory) d =
    by_model models memory (bump_model (model_of models dev) seen d)

-- A text that is true.
unfoldable pub true_text : Option Value → Option String
true_text (some (str s)) = if str_eq s "" then none else some s
true_text _ = none

unfoldable pub lower_age : String → ℕ → Option ℕ → Dict ℕ → Dict ℕ
lower_age model age none out = put model age out
lower_age model age (some old) out = if ltb age old then put model age out else out

unfoldable pub view_age : ℕ → Option String → Option ℕ → Dict ℕ → Dict ℕ
unfolding lower_age
view_age now (some model) (some epoch) out = lower_age model (now - epoch) (find model out) out
view_age now (some model) none out = out
view_age now none epoch out = out

unfoldable pub epoch_of : (String → Option ℕ) → Option String → Option ℕ
epoch_of from_iso none = none
epoch_of from_iso (some ts) = from_iso ts

-- `store_model_ages`, over the latest views; a time stamp that cannot be read is passed over.
unfoldable pub store_model_ages : (String → Option ℕ) → ℕ → Dict Payload → Dict ℕ → Dict ℕ
unfolding view_age epoch_of true_text
store_model_ages from_iso now [] out = out
store_model_ages from_iso now ((dev, view) ∷ views) out = store_model_ages from_iso now views (
    view_age now (true_text (find "modelName" view))
      (epoch_of from_iso (true_text (find "ts" view))) out)

unfoldable pub by_store : ℕ → Dict ℕ → Dict ℕ → Dict ℕ
unfolding bump
by_store now [] d = d
by_store now ((model, age) ∷ ages) d = by_store now ages (bump model (now - age) d)

unfoldable pub ages_of : ℕ → Dict ℕ → Dict ℕ
ages_of now seen = map (λ e. (e.0, now - e.1)) seen

-- What one pass computes: the memory, and the age of each model.
pub record Pass : Type 0 where
  pub memory : Dict ℕ
  pub ages : Dict ℕ

unfoldable pub pass : (String → Option ℕ) → Dict String → Dict Payload → Dict ℕ → Dict ℕ → ℕ → Pass
unfolding merge_sightings prune by_model store_model_ages by_store ages_of
pass from_iso models latest memory sightings now =
    let memory' = prune models now (merge_sightings sightings memory) in
    let seen = by_model models memory' [] in
    record {
      memory = memory';
      ages = ages_of now (by_store now (store_model_ages from_iso now latest []) seen);
    }

unfoldable pub first_dev : String → Dict String → Option String
first_dev model [] = none
first_dev model ((d, m) ∷ models) =
    let later = first_dev model models in if str_eq m model then some d else later

unfoldable pub is_model : String → Option Value → Bool
is_model model (some (str m)) = str_eq m model
is_model model _ = false

unfoldable pub first_view : String → Dict Payload → Option String
unfolding is_model
first_view model [] = none
first_view model ((k, v) ∷ latest) =
    let later = first_view model latest in
    if is_model model (find "modelName" v) then some k else later

unfoldable pub or_else : Option String → String → String
or_else none other = other
or_else (some d) other = d

-- The id under which a model's age is published.
unfoldable pub published_dev : String → Dict String → Dict Payload → String
unfolding first_dev first_view or_else
published_dev model models latest =
    or_else (first_dev model models) (or_else (first_view model latest) model)

unfoldable pub with_event : Option (ℕ × Value) → Payload → Payload
with_event none p = p
with_event (some (seen, state)) p = put "State" state p

unfoldable pub age_payload : (ℕ → String) → Dict (ℕ × Value) → String → ℕ → Payload
unfolding with_event
age_payload show events model age =
    with_event (find model events)
      (("modelName", str model) ∷ ("last_frame_age", str (show age)) ∷ [])

-- The calls of the sink, if there is one (`if sink is None: continue`); what it raises is
-- swallowed.
unfoldable pub sink_calls :
    Bool
    → (ℕ → String)
    → Dict String
    → Dict Payload
    → Dict (ℕ × Value)
    → Dict ℕ
    → List (String × Payload)
unfolding published_dev age_payload
sink_calls false show models latest events ages = []
sink_calls true show models latest events ages =
    map (λ e. (published_dev e.0 models latest, age_payload show events e.0 e.1)) ages
