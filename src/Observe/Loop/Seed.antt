-- ===== src/Observe/Loop/Seed.antt =====
-- What the seed of the memory and the polls behind it know is what the whole logs tell.
use local_smarthinq.Prelude.{
  ℕ, ◌≡◌, refl, sym, ap, ◌∙◌, String, true, false, Option, none, some, List, [], ◌∷◌, ◌++◌,
  if◌then◌else◌, str_eq, eq_iff, eq_refl, Bytes, Dict, find, put, find-put, arith, Bool-cases, inl,
  inr, if_false, if-both, subst,
}
use local_smarthinq.Json.{Value}
use local_smarthinq.Mqtt.View.{truthy}
use local_smarthinq.Model.Registry.{Models}
use local_smarthinq.Observe.Lines.{
  higher, bump, bump_all, sighting_epoch, Finds, Seen, note_state, note_event, event_model,
  event_state, take_text, take_found, take_lines,
}
use local_smarthinq.Observe.Ages.{merge_sightings}
use local_smarthinq.Observe.Loop.{bump_seen, scan_found, scan_lines}

-- Two dictionaries with the same entries, in whatever order.
abbrev pub Same : Dict ℕ → Dict ℕ → Type 0
Same d e = (k : String) → find k d ≡ find k e

find-bump :
    (j k : String) (n : ℕ) (d : Dict ℕ)
    → find j (bump k n d) ≡ (if str_eq k j then some (higher n (find k d)) else find j d)
unfolding bump
find-bump j k n d = find-put k j (higher n (find k d)) d

bump-Same : (k : String) (n : ℕ) (d e : Dict ℕ) → Same d e → Same (bump k n d) (bump k n e)
bump-Same k n d e h j =
    find-bump j k n d
    ∙ ap (λ o. if str_eq k j then some (higher n o) else find j d) (h k)
    ∙ ap (λ o. if str_eq k j then some (higher n (find k e)) else o) (h j)
    ∙ sym (find-bump j k n e)

merge-Same : (xs d e : Dict ℕ) → Same d e → Same (merge_sightings xs d) (merge_sightings xs e)
unfolding merge_sightings
merge-Same [] d e h = h
merge-Same ((k, n) ∷ xs) d e h = merge-Same xs (bump k n d) (bump k n e) (bump-Same k n d e h)

higher_comm : (n m : ℕ) (o : Option ℕ) → higher n (some (higher m o)) ≡ higher m (some (higher n o))
unfolding higher
higher_comm n m none = ground arith
higher_comm n m (some l) = ground arith

bump_comm :
    (k i : String) (n m : ℕ) (d : Dict ℕ) → Same (bump k n (bump i m d)) (bump i m (bump k n d))
bump_comm k i n m d j = ground (
  arith,
  find-bump j k n (bump i m d),
  find-bump k i m d,
  find-bump j i m d,
  find-bump j i m (bump k n d),
  find-bump i k n d,
  find-bump j k n d,
  eq_iff k j,
  eq_iff i j,
  eq_iff i k,
  eq_iff k i,
  higher_comm n m (find k d),
)

-- A sighting before those that are merged counts as one behind them.
merge-first :
    (k : String) (n : ℕ) (e d : Dict ℕ)
    → Same (merge_sightings e (bump k n d)) (bump k n (merge_sightings e d))
unfolding merge_sightings
merge-first k n [] d j = refl
merge-first k n ((i, v) ∷ e) d j =
    merge-Same e (bump i v (bump k n d)) (bump k n (bump i v d)) (bump_comm i k v n d) j
    ∙ merge-first k n e (bump i v d) j

higher-higher :
    (n m : ℕ) (o : Option ℕ) → higher (higher n (some m)) o ≡ higher n (some (higher m o))
unfolding higher
higher-higher n m none = ground arith
higher-higher n m (some l) = ground arith

bump-twice :
    (k : String) (n m : ℕ) (d : Dict ℕ)
    → Same (bump k (higher n (some m)) d) (bump k n (bump k m d))
bump-twice k n m d j = ground (
  arith,
  find-bump j k (higher n (some m)) d,
  find-bump j k n (bump k m d),
  find-bump k k m d,
  find-bump j k m d,
  eq_refl k,
  higher-higher n m (find k d),
)

bump-here :
    (k i : String) (n v : ℕ) (e : Dict ℕ)
    → str_eq i k ≡ true
    → bump k n ((i, v) ∷ e) ≡ (i, higher n (some v)) ∷ e
unfolding bump find put
bump-here k i n v e h = ground (arith, h)

bump-there :
    (k i : String) (n v : ℕ) (e : Dict ℕ)
    → str_eq i k ≡ false
    → bump k n ((i, v) ∷ e) ≡ (i, v) ∷ bump k n e
unfolding bump find put
bump-there k i n v e h =
    rw h (ap (λ o. (i, v) ∷ put k (higher n o) e) (if_false (str_eq i k) (some v) (find k e) h))

-- A sighting more among those that are merged is a sighting more in the result.
merge-bump :
    (k : String) (n : ℕ) (e d : Dict ℕ)
    → Same (merge_sightings (bump k n e) d) (bump k n (merge_sightings e d))
unfolding merge_sightings bump find put
merge-bump k n [] d j = refl
merge-bump k n ((i, v) ∷ e) d j = elim (Bool-cases (str_eq i k)) [
  | inl same ↦
      let e_same : i ≡ k = ground (arith, eq_iff i k) in
      ap (λ x. find j (merge_sightings x d)) (bump-here k i n v e same)
      ∙ merge-Same e (bump i (higher n (some v)) d) (bump k n (bump i v d))
          (λ l. bump-twice i n v d l ∙ ap (λ x. find l (bump x n (bump i v d))) e_same) j
      ∙ merge-first k n e (bump i v d) j
  | inr other ↦
      ap (λ x. find j (merge_sightings x d)) (bump-there k i n v e other)
      ∙ merge-bump k n e (bump i v d) j
]

-- The merged sightings go along with a dictionary.
merge-bump_all :
    (ks : List String) (n : ℕ) (e d whole : Dict ℕ)
    → Same (merge_sightings e d) whole
    → Same (merge_sightings (bump_all ks n e) d) (bump_all ks n whole)
unfolding bump_all
merge-bump_all [] n e d whole h = h
merge-bump_all (k ∷ ks) n e d whole h =
    merge-bump_all ks n (bump k n e) d (bump k n whole)
      (λ j. merge-bump k n e d j ∙ bump-Same k n (merge_sightings e d) whole h j)

-- A scan that comes out, with these sightings behind those of `d`.
abbrev Whole : Dict ℕ → Dict ℕ → Option (Dict ℕ) → Type 0
Whole d out o = (whole : Dict ℕ) × (o ≡ some whole) × Same (merge_sightings out d) whole

-- A step of the scan that keeps pace.
bump_seen-Whole :
    (devs : List String) (seen : Option ℕ) (e d whole out : Dict ℕ)
    → Same (merge_sightings e d) whole
    → bump_seen devs seen e ≡ some out
    → Whole d out (bump_seen devs seen whole)
unfolding bump_seen
bump_seen-Whole devs none e d whole out h r = absurd (ground arith)
bump_seen-Whole devs (some n) e d whole out h r = (
  bump_all devs n whole,
  refl,
  subst (λ x. Same (merge_sightings x d) (bump_all devs n whole)) (ground arith)
      (merge-bump_all devs n e d whole h),
)

scan_found-Whole :
    (f : Finds) (now : ℕ) (stamp : Option (ℕ × ℕ × ℕ)) (txt : Option String)
    (e d whole out : Dict ℕ)
    → Same (merge_sightings e d) whole
    → scan_found f now stamp txt e ≡ some out
    → Whole d out (scan_found f now stamp txt whole)
unfolding scan_found
scan_found-Whole f now (some stamp) (some txt) e d whole out h r =
    bump_seen-Whole (f.devs txt) (sighting_epoch stamp now) e d whole out h r
scan_found-Whole f now (some stamp) none e d whole out h r =
    (whole, refl, subst (λ x. Same (merge_sightings x d) whole) (ground arith) h)
scan_found-Whole f now none txt e d whole out h r =
    (whole, refl, subst (λ x. Same (merge_sightings x d) whole) (ground arith) h)

scan_lines-none : (f : Finds) (now : ℕ) (lines : List Bytes) → scan_lines f now lines none ≡ none
unfolding scan_lines
scan_lines-none f now [] = refl
scan_lines-none f now (line ∷ lines) = refl

-- A line, and what is known of the lines behind it.
scan_next :
    (f : Finds) (now : ℕ) (lines : List Bytes) (stamp : Option (ℕ × ℕ × ℕ)) (txt : Option String)
    (e d whole out : Dict ℕ) (o : Option (Dict ℕ))
    → Same (merge_sightings e d) whole
    → scan_found f now stamp txt e ≡ o
    → ((x w : Dict ℕ)
        → Same (merge_sightings x d) w
        → scan_lines f now lines (some x) ≡ some out
        → Whole d out (scan_lines f now lines (some w)))
    → scan_lines f now lines o ≡ some out
    → Whole d out (scan_lines f now lines (scan_found f now stamp txt whole))
scan_next f now lines stamp txt e d whole out none h found later r =
    absurd (ground (arith, scan_lines-none f now lines))
scan_next f now lines stamp txt e d whole out (some x) h found later r =
    let (w, is, same) = scan_found-Whole f now stamp txt e d whole x h found in
    let (w', is', same') = later x w same r in (w', ap (scan_lines f now lines) is ∙ is', same')

scan_lines-Whole :
    (f : Finds) (now : ℕ) (lines : List Bytes) (e d whole out : Dict ℕ)
    → Same (merge_sightings e d) whole
    → scan_lines f now lines (some e) ≡ some out
    → Whole d out (scan_lines f now lines (some whole))
unfolding scan_lines
scan_lines-Whole f now [] e d whole out h r =
    (whole, refl, subst (λ x. Same (merge_sightings x d) whole) (ground arith) h)
scan_lines-Whole f now (line ∷ lines) e d whole out h r =
    scan_next f now lines (f.stamp line) (f.hex_text line) e d whole out
      (scan_found f now (f.stamp line) (f.hex_text line) e) h refl
      (λ x w. scan_lines-Whole f now lines x d w out) r

scan_lines-append :
    (f : Finds) (now : ℕ) (before after : List Bytes) (o : Option (Dict ℕ))
    → scan_lines f now (before ++ after) o ≡ scan_lines f now after (scan_lines f now before o)
unfolding scan_lines
scan_lines-append f now [] after none = refl
scan_lines-append f now [] after (some out) = refl
scan_lines-append f now (line ∷ before) after none = sym (scan_lines-none f now after)
scan_lines-append f now (line ∷ before) after (some out) =
    scan_lines-append f now before after (scan_found f now (f.stamp line) (f.hex_text line) out)

-- What a poll notes of its lines, the events aside.
abbrev sightings_of : Option Seen → Option (Dict ℕ)
sightings_of none = none
sightings_of (some s) = some s.sightings

note_state-sightings :
    (n : ℕ) (model : String) (o : Option Value) (s : Seen)
    → (note_state n model o s).sightings ≡ s.sightings
unfolding note_state
note_state-sightings n model none s = refl
note_state-sightings n model (some v) s =
    if-both (λ (t : Seen). t.sightings ≡ s.sightings) (truthy v) _ s refl refl

module _ {ℓ} {M : Type ℓ} (f : Finds) (ms : Models M) (models : Dict String) (now : ℕ) where
  note_event-sightings :
      (n : ℕ) (txt : String) (o : Option String) (s : Seen)
      → (note_event f ms n txt o s).sightings ≡ s.sightings
  unfolding note_event
  note_event-sightings n txt none s = refl
  note_event-sightings n txt (some model) s =
      if-both (λ (t : Seen). t.sightings ≡ s.sightings) (str_eq model "") s _ refl
        (note_state-sightings n model (event_state f ms model txt) s)

  take_text-sightings :
      (txt : String) (o : Option ℕ) (s : Seen)
      → sightings_of (take_text f ms models txt o s) ≡ bump_seen (f.devs txt) o s.sightings
  unfolding take_text bump_seen
  take_text-sightings txt none s = refl
  take_text-sightings txt (some n) s =
      let s' : Seen = record s { sightings = bump_all (f.devs txt) n s.sightings } in
      ap some (
        if-both (λ (t : Seen). t.sightings ≡ s'.sightings) (f.is_event txt)
          (note_event f ms n txt (event_model f models txt) s') s'
          (note_event-sightings n txt (event_model f models txt) s') refl)

  take_found-sightings :
      (stamp : Option (ℕ × ℕ × ℕ)) (txt : Option String) (s : Seen)
      → sightings_of (take_found f ms models now stamp txt s)
        ≡ scan_found f now stamp txt s.sightings
  unfolding take_found scan_found
  take_found-sightings (some stamp) (some txt) s =
      take_text-sightings txt (sighting_epoch stamp now) s
  take_found-sightings (some stamp) none s = refl
  take_found-sightings none txt s = refl

  -- A poll sees in its lines the devices that a scan of these lines finds.
  take_lines-sightings :
      (lines : List Bytes) (o : Option Seen)
      → sightings_of (take_lines f ms models now lines o) ≡ scan_lines f now lines (sightings_of o)
  unfolding take_lines scan_lines
  take_lines-sightings lines none = sym (scan_lines-none f now lines)
  take_lines-sightings [] (some s) = refl
  take_lines-sightings (line ∷ lines) (some s) =
      take_lines-sightings lines (take_found f ms models now (f.stamp line) (f.hex_text line) s)
      ∙ ap (scan_lines f now lines) (take_found-sightings (f.stamp line) (f.hex_text line) s)

  -- The seed of the memory from the lines that a log has at the start, joined with what a poll sees
  -- in the lines behind them at that time, is for every device what a scan of all the lines finds.
  pub seed-poll :
      (before after : List Bytes) (seed : Dict ℕ) (s : Seen)
      → scan_lines f now before (some []) ≡ some seed
      → take_lines f ms models now after (some (record { sightings = []; events = [] })) ≡ some s
      → (whole : Dict ℕ) × (scan_lines f now (before ++ after) (some []) ≡ some whole)
        × Same (merge_sightings s.sightings seed) whole
  unfolding merge_sightings
  seed-poll before after seed s h polled =
      let start : Seen = record { sightings = []; events = [] } in
      let scanned = sym (take_lines-sightings after (some start)) ∙ ap sightings_of polled in
      let (whole, is, same) =
        scan_lines-Whole f now after [] seed seed s.sightings (λ k. refl) scanned in
      (
        whole,
        scan_lines-append f now before after (some []) ∙ ap (scan_lines f now after) h ∙ is,
        same,
      )
