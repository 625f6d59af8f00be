-- ===== src/Observe/Ages/Fresh.antt =====
-- A device that was seen is reported with no more than the age of that sighting.
use mathlib.Core.List.{Memᴰ}
use mathlib.Core.List.Memᴰ
use mathlib.Core.List.Memᴰ.{head, tail}
use local_smarthinq.Json.{Value, str}
use local_smarthinq.Prelude.{
  List, map, ◌∙◌, Option-cases, ℕ, ◌+◌, ◌-◌, ◌≤◌, ◌≡◌, refl, sym, ap, String, true, Option, none,
  some, [], ◌∷◌, str_eq, Dict, find, put, eq_refl, arith, Bool-cases, inl, inr,
}
use local_smarthinq.Model.Registry.{Payload}
use local_smarthinq.Observe.Ages.{
  max_memory_age, model_of, pass, first_dev, first_view, or_else, published_dev, with_event,
  age_payload, sink_calls,
}
use local_smarthinq.Observe.Ages.Young.{same_text, pass-young}

same_entry :
    {V : Type 0} (j k : String) (v w : V)
    → str_eq j k ≡ true
    → v ≡ w
    → ◌≡◌ {A = String × V} (k, w) (j, v)
same_entry j k v w h e = sym (ap (λ x. (x, v)) (same_text j k h) ∙ ap (λ x. (k, x)) e)

map-Mem :
    {B : Type 0} (f : String × ℕ → B) (k : String) (n : ℕ) (ages : Dict ℕ)
    → find k ages ≡ some n
    → Memᴰ (f (k, n)) (map f ages)
unfolding find
map-Mem f k n [] h = absurd (ground arith)
map-Mem f k n ((j, m) ∷ ages) h = elim (Bool-cases (str_eq j k)) [
  | inl same ↦ head (ap f (same_entry j k m n same (ground arith)))
  | inr other ↦ tail (map-Mem f k n ages (ground arith))
]

known_model :
    (models : Dict String) (dev model : String)
    → model_of models dev ≡ some model
    → find dev models ≡ some model
unfolding model_of
known_model models dev model h = elim (Option-cases (find dev models)) [
  | inl e ↦ absurd (ground arith)
  | inr (m, e) ↦ ground (arith, e)
]

-- The device of a model's first entry.
record IsFirst (model : String) (models : Dict String) : Type 0 where
  dev : String
  first : first_dev model models ≡ some dev
  listed : Memᴰ (dev, model) models

find-IsFirst :
    (models : Dict String) (dev model : String)
    → find dev models ≡ some model
    → IsFirst model models
unfolding find first_dev
find-IsFirst [] dev model h = absurd (ground arith)
find-IsFirst ((j, m) ∷ models) dev model h = elim (Bool-cases (str_eq m model)) [
  | inl same ↦ record {
    dev = j;
    first = rw same refl;
    listed = head (ap (λ x. (j, x)) (sym (same_text m model same)));
  }
  | inr other ↦
      let late : find dev models ≡ some model = ground (arith, eq_refl model) in
      let q = find-IsFirst models dev model late in
      record { dev = q.dev; first = rw other q.first; listed = tail q.listed }
]

-- One of these calls of the sink is for a device of the model, names the model, and gives an age of
-- at most `limit`.
pub record IsReported (show : ℕ → String) (models : Dict String) (calls : List (String × Payload))
    (model : String) (limit : ℕ) : Type 0 where
  pub dev : String
  pub payload : Payload
  pub age : ℕ
  pub called : Memᴰ (dev, payload) calls
  pub of_model : Memᴰ (dev, model) models
  pub named : find "modelName" payload ≡ some (str model)
  pub aged : find "last_frame_age" payload ≡ some (str (show age))
  pub fresh : age ≤ limit

payload-named :
    (show : ℕ → String) (events : Dict (ℕ × Value)) (model : String) (age : ℕ)
    → (find "modelName" (age_payload show events model age) ≡ some (str model))
      × (find "last_frame_age" (age_payload show events model age) ≡ some (str (show age)))
unfolding age_payload
payload-named show events model age = with_state (find model events)
  where
    with_state :
        (o : Option (ℕ × Value))
        → (find "modelName"
              (with_event o (("modelName", str model) ∷ ("last_frame_age", str (show age)) ∷ []))
            ≡ some (str model))
          × (find "last_frame_age"
                (with_event o (("modelName", str model) ∷ ("last_frame_age", str (show age)) ∷ []))
              ≡ some (str (show age)))
    with_state none = unfold with_event find in (refl, refl)
    with_state (some (seen, state)) = unfold with_event find put in (refl, refl)

-- With a sink, a device of a known model that was sighted in this pass, at most seven days ago, is
-- reported: whatever the memory and the store hold, the pass calls the sink for a device of this
-- model, with the model's name and an age that is at most the age of that sighting.
pub pass-fresh :
    (from_iso : String → Option ℕ) (show : ℕ → String) (models : Dict String)
    (latest : Dict Payload) (events : Dict (ℕ × Value)) (memory sightings : Dict ℕ) (now : ℕ)
    (dev model : String) (seen : ℕ)
    → find dev sightings ≡ some seen
    → model_of models dev ≡ some model
    → now ≤ seen + max_memory_age
    → IsReported show models
        (sink_calls true show models latest events
          (pass from_iso models latest memory sightings now).ages)
        model
        (now - seen)
unfolding sink_calls published_dev or_else
pass-fresh from_iso show models latest events memory sightings now dev model seen h known fresh =
    let ages = (pass from_iso models latest memory sightings now).ages in
    let (age, found, young) =
      pass-young from_iso models latest memory sightings now dev model seen h known fresh in
    let first = find-IsFirst models dev model (known_model models dev model known) in
    let named = payload-named show events model age in
    let call : String × ℕ → String × Payload =
      λ e. (published_dev e.0 models latest, age_payload show events e.0 e.1) in
    record {
      dev = first.dev;
      payload = age_payload show events model age;
      age = age;
      called =
          Memᴰ.cast
            (ap
              (λ o. (
                or_else o (or_else (first_view model latest) model),
                age_payload show events model age,
              ))
              (sym first.first))
            (map-Mem call model age ages found);
      of_model = first.listed;
      named = named.0;
      aged = named.1;
      fresh = young;
    }
