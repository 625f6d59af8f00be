-- ===== src/Observe/Ages/Young.antt =====
-- The age of a model is at most that of a sighting of one of its devices.
use local_smarthinq.Prelude.{
  ℕ, ◌+◌, ◌-◌, ◌≤◌, ◌≡◌, refl, sym, ap, if-both, subst, String, true, false, Option, none, some, [],
  ◌∷◌, str_eq, Dict, find, put, find-put, eq_refl, eq_iff, arith, Bool-cases, inl, inr,
}
use local_smarthinq.Model.Registry.{Payload}
use local_smarthinq.Observe.Lines.{higher, bump}
use local_smarthinq.Observe.Ages.{
  max_memory_age, merge_sightings, model_of, kept, prune, bump_model, by_model, store_model_ages,
  by_store, ages_of, pass,
}

-- The key has a time of at least `n`.
pub record Reaches (k : String) (n : ℕ) (d : Dict ℕ) : Type 0 where
  pub time : ℕ
  pub found : find k d ≡ some time
  pub late : n ≤ time

put-Reaches : (k : String) (n m : ℕ) (d : Dict ℕ) → n ≤ m → Reaches k n (put k m d)
put-Reaches k n m d h = record { time = m; found = rw (find-put k k m d, eq_refl k) refl; late = h }

higher-le : (n : ℕ) (o : Option ℕ) → n ≤ higher n o
unfolding higher
higher-le n none = omega arith
higher-le n (some m) = ground arith

higher-old : (n m : ℕ) → m ≤ higher n (some m)
unfolding higher
higher-old n m = ground arith

bump-own : (k : String) (n : ℕ) (d : Dict ℕ) → Reaches k n (bump k n d)
unfolding bump
bump-own k n d = put-Reaches k n (higher n (find k d)) d (higher-le n (find k d))

pub same_text : (j k : String) → str_eq j k ≡ true → j ≡ k
same_text j k h = ground (arith, eq_iff j k)

higher-Reaches : (k : String) (n m : ℕ) (d : Dict ℕ) → Reaches k n d → n ≤ higher m (find k d)
higher-Reaches k n m d r = rw r.found (omega (arith, r.late, higher-old m r.time))

bump-Reaches : (k j : String) (n m : ℕ) (d : Dict ℕ) → Reaches k n d → Reaches k n (bump j m d)
unfolding bump
bump-Reaches k j n m d r = elim (Bool-cases (str_eq j k)) [
  | inl same ↦
      subst (λ x. Reaches k n (put x (higher m (find x d)) d)) (sym (same_text j k same))
        (put-Reaches k n (higher m (find k d)) d (higher-Reaches k n m d r))
  | inr other ↦ record {
    time = r.time;
    found = rw (find-put j k (higher m (find j d)) d, other) r.found;
    late = r.late;
  }
]

merge-keeps :
    (k : String) (n : ℕ) (sightings d : Dict ℕ)
    → Reaches k n d
    → Reaches k n (merge_sightings sightings d)
unfolding merge_sightings
merge-keeps k n [] d r = r
merge-keeps k n ((j, m) ∷ sightings) d r =
    merge-keeps k n sightings (bump j m d) (bump-Reaches k j n m d r)

-- What a list finds for a key it holds is its first entry of that key.
first_time :
    (j k : String) (n m : ℕ) (d : Dict ℕ) → str_eq j k ≡ true → find k ((j, m) ∷ d) ≡ some n → m ≡ n
unfolding find
first_time j k n m d e h = ground arith

later_time :
    (j k : String) (n m : ℕ) (d : Dict ℕ)
    → str_eq j k ≡ false
    → find k ((j, m) ∷ d) ≡ some n
    → find k d ≡ some n
unfolding find
later_time j k n m d e h = ground arith

found_first : (j k : String) (m : ℕ) (d : Dict ℕ) → str_eq j k ≡ true → find k ((j, m) ∷ d) ≡ some m
unfolding find
found_first j k m d e = rw e refl

found_later :
    (j k : String) (n m : ℕ) (d : Dict ℕ)
    → str_eq j k ≡ false
    → find k d ≡ some n
    → find k ((j, m) ∷ d) ≡ some n
unfolding find
found_later j k n m d e h = rw e h

merge-Reaches :
    (k : String) (n : ℕ) (sightings d : Dict ℕ)
    → find k sightings ≡ some n
    → Reaches k n (merge_sightings sightings d)
unfolding merge_sightings
merge-Reaches k n [] d h = absurd (unfold find in (ground arith))
merge-Reaches k n ((j, m) ∷ sightings) d h = elim (Bool-cases (str_eq j k)) [
  | inl same ↦ merge-keeps k n sightings (bump j m d) (
      subst (λ x. Reaches k n (bump j x d)) (sym (first_time j k n m sightings same h))
        (subst (λ x. Reaches k n (bump x n d)) (sym (same_text j k same)) (bump-own k n d)))
  | inr other ↦ merge-Reaches k n sightings (bump j m d) (later_time j k n m sightings other h)
]

kept_fresh :
    (model : String) (now seen t : ℕ)
    → seen ≤ t
    → now ≤ seen + max_memory_age
    → kept (some model) now t ≡ true
unfolding kept
kept_fresh model now seen t h k = ground arith

prune-Reaches :
    (models : Dict String) (dev model : String) (now n : ℕ) (memory : Dict ℕ)
    → model_of models dev ≡ some model
    → now ≤ n + max_memory_age
    → Reaches dev n memory
    → Reaches dev n (prune models now memory)
unfolding prune
prune-Reaches models dev model now n [] known fresh r = r
prune-Reaches models dev model now n ((j, m) ∷ memory) known fresh r =
    elim (Bool-cases (str_eq j dev)) [
      | inl same ↦
          let t : m ≡ r.time = first_time j dev r.time m memory same r.found in
          let k : kept (model_of models j) now m ≡ true =
            subst (λ x. kept (model_of models x) now m ≡ true) (sym (same_text j dev same))
              (rw known (kept_fresh model now n m (omega (arith, r.late)) fresh)) in
          rw k (record {
            time = m;
            found = found_first j dev m (prune models now memory) same;
            late = omega (arith, r.late);
          })
      | inr other ↦
          let q = prune-Reaches models dev model now n memory known fresh (record {
            time = r.time;
            found = later_time j dev r.time m memory other r.found;
            late = r.late;
          }) in
          if-both (Reaches dev n) (kept (model_of models j) now m)
            ((j, m) ∷ prune models now memory) (prune models now memory)
            (record {
              time = q.time;
              found = found_later j dev q.time m (prune models now memory) other q.found;
              late = q.late;
            })
            q
    ]

bump_model-keeps :
    (k : String) (n m : ℕ) (o : Option String) (d : Dict ℕ)
    → Reaches k n d
    → Reaches k n (bump_model o m d)
unfolding bump_model
bump_model-keeps k n m none d r = r
bump_model-keeps k n m (some j) d r = bump-Reaches k j n m d r

by_model-keeps :
    (models : Dict String) (k : String) (n : ℕ) (memory d : Dict ℕ)
    → Reaches k n d
    → Reaches k n (by_model models memory d)
unfolding by_model
by_model-keeps models k n [] d r = r
by_model-keeps models k n ((j, m) ∷ memory) d r =
    by_model-keeps models k n memory (bump_model (model_of models j) m d)
      (bump_model-keeps k n m (model_of models j) d r)

by_model-Reaches :
    (models : Dict String) (dev model : String) (n : ℕ) (memory d : Dict ℕ)
    → model_of models dev ≡ some model
    → find dev memory ≡ some n
    → Reaches model n (by_model models memory d)
unfolding by_model
by_model-Reaches models dev model n [] d known h = absurd (unfold find in (ground arith))
by_model-Reaches models dev model n ((j, m) ∷ memory) d known h = elim (Bool-cases (str_eq j dev)) [
  | inl same ↦ by_model-keeps models model n memory (bump_model (model_of models j) m d) (
      subst (λ x. Reaches model n (bump_model (model_of models x) m d)) (sym (same_text j dev same))
        (rw (known, bump_model, first_time j dev n m memory same h) (bump-own model n d)))
  | inr other ↦
      by_model-Reaches models dev model n memory (bump_model (model_of models j) m d) known
        (later_time j dev n m memory other h)
]

by_store-keeps :
    (now : ℕ) (k : String) (n : ℕ) (ages d : Dict ℕ)
    → Reaches k n d
    → Reaches k n (by_store now ages d)
unfolding by_store
by_store-keeps now k n [] d r = r
by_store-keeps now k n ((j, a) ∷ ages) d r =
    by_store-keeps now k n ages (bump j (now - a) d) (bump-Reaches k j n (now - a) d r)

find-ages_of :
    (now : ℕ) (k : String) (n : ℕ) (d : Dict ℕ)
    → find k d ≡ some n
    → find k (ages_of now d) ≡ some (now - n)
unfolding ages_of find
find-ages_of now k n [] h = absurd (ground arith)
find-ages_of now k n ((j, m) ∷ d) h = elim (Bool-cases (str_eq j k)) [
  | inl same ↦ rw same (ap (λ x. some (now - x)) (ground arith))
  | inr other ↦ rw other (find-ages_of now k n d (ground arith))
]

-- The model of a device that was sighted in this pass, at most seven days ago, has an age that is
-- at most the age of that sighting.
pub pass-young :
    (from_iso : String → Option ℕ) (models : Dict String) (latest : Dict Payload)
    (memory sightings : Dict ℕ) (now : ℕ) (dev model : String) (seen : ℕ)
    → find dev sightings ≡ some seen
    → model_of models dev ≡ some model
    → now ≤ seen + max_memory_age
    → (age : ℕ) × (find model (pass from_iso models latest memory sightings now).ages ≡ some age)
      × (age ≤ now - seen)
unfolding pass
pass-young from_iso models latest memory sightings now dev model seen h known fresh =
    let merged = merge_sightings sightings memory in
    let p =
      prune-Reaches models dev model now seen merged known fresh
        (merge-Reaches dev seen sightings memory h) in
    let q = by_model-Reaches models dev model p.time (prune models now merged) [] known p.found in
    let r =
      by_store-keeps now model p.time (store_model_ages from_iso now latest [])
        (by_model models (prune models now merged) []) q in
    (
      now - r.time,
      find-ages_of now model r.time
          (by_store now (store_model_ages from_iso now latest [])
            (by_model models (prune models now merged) []))
          r.found,
      omega (arith, p.late, r.late),
    )
