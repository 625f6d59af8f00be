-- ===== src/Mqtt/Sink/Announced.antt =====
-- What the sink publishes, in its order: a state has only keys that Home Assistant was told of.
use local_smarthinq.Prelude.{
  ◌≡◌, refl, String, Bool, true, false, ◌&&◌, ◌||◌, Option, none, some, List, [], ◌∷◌, Bool-cases,
  inl, inr, str_eq, eq_iff, arith, find, put, find-put, eq_refl, Dict, if-both, subst,
  if◌then◌else◌,
}
use local_smarthinq.Model.Registry.{Payload}
use local_smarthinq.Model.Vocabulary.{CommandEntity, Sections, all_entities}
use local_smarthinq.Mqtt.View.{View, one_of, view_of}
use local_smarthinq.Mqtt.Sink.{
  Setup, Publication, discovery, error_alert, commands, state, Sink, keys, or_empty, all_in, insert,
  union, with_entities, with_sections, publish_command_discovery, publish_sensors, announce,
  same_as, publish_state, take_view, with_view, with_model, call, calls, start, stable_key,
  model_name, merge, retire,
}

-- A discovery of the device `ha` among these publications names the key.
unfoldable pub told : String → String → List Publication → Bool
told ha k [] = false
told ha k (discovery h m fs ∷ ps) = (str_eq h ha && one_of k fs) || told ha k ps
told ha k (error_alert h m ∷ ps) = told ha k ps
told ha k (commands h m es ∷ ps) = told ha k ps
told ha k (state h v ∷ ps) = told ha k ps

-- Each state, newest first, has only keys that were told before.
pub data IsAnnounced : List Publication → Type 0 where
  nothing : IsAnnounced []
  after_discovery :
      {h m : String} {fs : List String} {ps : List Publication}
      → IsAnnounced ps
      → IsAnnounced (discovery h m fs ∷ ps)
  after_alert :
      {h m : String} {ps : List Publication} → IsAnnounced ps → IsAnnounced (error_alert h m ∷ ps)
  after_commands :
      {h m : String} {es : List CommandEntity} {ps : List Publication}
      → IsAnnounced ps
      → IsAnnounced (commands h m es ∷ ps)
  after_state :
      {h : String} {v : View} {ps : List Publication}
      → ((k : String) → one_of k (keys v) ≡ true → told h k ps ≡ true)
      → IsAnnounced ps
      → IsAnnounced (state h v ∷ ps)

-- The keys that the sink remembers for a device were told, and its publications are announced.
pub record IsCovered (s : Sink) : Type 0 where
  pub known :
      (ha k : String) → one_of k (or_empty (find ha s.fields)) ≡ true → told ha k s.published ≡ true
  pub announced : IsAnnounced s.published

one_of-insert :
    (before : String → String → Bool) (j k : String) (js : List String)
    → one_of k (insert before j js) ≡ (str_eq j k || one_of k js)
unfolding one_of insert
one_of-insert before j k [] = refl
one_of-insert before j k (i ∷ is) =
    ground (arith, eq_iff i j, eq_iff i k, eq_iff j k, one_of-insert before j k is)

one_of-union :
    (before : String → String → Bool) (k : String) (js ks : List String)
    → one_of k (union before js ks) ≡ (one_of k js || one_of k ks)
unfolding one_of union
one_of-union before k js [] = ground arith
one_of-union before k js (i ∷ is) =
    ground (arith, one_of-union before k (insert before i js) is, one_of-insert before i k js)

same_text : (i k : String) → str_eq i k ≡ true → i ≡ k
same_text i k h = ground (arith, eq_iff i k)

one_of-all_in :
    (k : String) (ks js : List String)
    → all_in ks js ≡ true
    → one_of k ks ≡ true
    → one_of k js ≡ true
unfolding one_of all_in
one_of-all_in k [] js h o = absurd (ground arith)
one_of-all_in k (i ∷ is) js h o = elim (Bool-cases (str_eq i k)) [
  | inl same ↦ subst (λ x. one_of x js ≡ true) (same_text i k same) (ground arith)
  | inr other ↦ one_of-all_in k is js (ground arith) (ground arith)
]

with_entities-IsCovered :
    (ha m : String) (es : List CommandEntity) (s : Sink)
    → IsCovered s
    → IsCovered (with_entities ha m es s)
unfolding with_entities told
with_entities-IsCovered ha m [] s c = c
with_entities-IsCovered ha m (e ∷ es) s c = record {
  known = c.known;
  announced = after_commands c.announced;
}

with_sections-IsCovered :
    (su : Setup) (ha m : String) (o : Option Sections) (s : Sink)
    → IsCovered s
    → IsCovered (with_sections su ha m o s)
unfolding with_sections
with_sections-IsCovered su ha m none s c = c
with_sections-IsCovered su ha m (some mj) s c =
    with_entities-IsCovered ha m (all_entities su.texts mj) s c

commands-IsCovered :
    (su : Setup) (ha m : String) (s : Sink)
    → IsCovered s
    → IsCovered (publish_command_discovery su ha m s)
unfolding publish_command_discovery
commands-IsCovered su ha m s c =
    if-both IsCovered s.allow_control (with_sections su ha m (su.model_json_for m) s) s
      (with_sections-IsCovered su ha m (su.model_json_for m) s c) c

with_entities-fields :
    (ha m : String) (es : List CommandEntity) (s : Sink)
    → (with_entities ha m es s).fields ≡ s.fields
unfolding with_entities
with_entities-fields ha m [] s = refl
with_entities-fields ha m (e ∷ es) s = refl

with_sections-fields :
    (su : Setup) (ha m : String) (o : Option Sections) (s : Sink)
    → (with_sections su ha m o s).fields ≡ s.fields
unfolding with_sections
with_sections-fields su ha m none s = refl
with_sections-fields su ha m (some mj) s = with_entities-fields ha m (all_entities su.texts mj) s

commands-fields :
    (su : Setup) (ha m : String) (s : Sink)
    → (publish_command_discovery su ha m s).fields ≡ s.fields
unfolding publish_command_discovery
commands-fields su ha m s =
    if-both (λ x. x.fields ≡ s.fields) s.allow_control
      (with_sections su ha m (su.model_json_for m) s) s
      (with_sections-fields su ha m (su.model_json_for m) s) refl

told-alert :
    (h k ha m : String) (b : Bool) (ps : List Publication)
    → told h k (if b then error_alert ha m ∷ ps else ps) ≡ told h k ps
unfolding told
told-alert h k ha m true ps = refl
told-alert h k ha m false ps = refl

told-either :
    (k : String) (b x : Bool) (fs : List String) (o : Option (List String))
    → one_of k (or_empty (if b then some fs else o)) ≡ true
    → (one_of k (or_empty o) ≡ true → x ≡ true)
    → ((b && one_of k fs) || x) ≡ true
unfolding or_empty
told-either k true x fs o h old = ground arith
told-either k false x fs o h old = old h

told-discovery :
    (h k ha m : String) (fs : List String) (s : Sink)
    → IsCovered s
    → one_of k (or_empty (if str_eq ha h then some fs else find h s.fields)) ≡ true
    → told h k (discovery ha m fs ∷ s.published) ≡ true
unfolding told
told-discovery h k ha m fs s c o =
    told-either k (str_eq ha h) (told h k s.published) fs (find h s.fields) o (c.known h k)

sensors-IsCovered :
    (ha m : String) (merged : View) (fs : List String) (s : Sink)
    → IsCovered s
    → IsCovered (publish_sensors ha m merged fs s)
unfolding publish_sensors told or_empty
sensors-IsCovered ha m merged fs s c = record {
  known = λ h k h'.
      rw (told-alert h k ha m (one_of "Error" (keys merged)) (discovery ha m fs ∷ s.published)) (
        told-discovery h k ha m fs s c
          (subst (λ x. one_of k (or_empty x) ≡ true) (find-put ha h fs s.fields) h'));
  announced =
      if-both IsAnnounced (one_of "Error" (keys merged))
        (error_alert ha m ∷ discovery ha m fs ∷ s.published) (discovery ha m fs ∷ s.published)
        (after_alert (after_discovery c.announced)) (after_discovery c.announced);
}

-- The sink remembers all keys of this state.
Remembers : String → View → Sink → Type 0
Remembers ha merged s =
    (k : String) → one_of k (keys merged) ≡ true → one_of k (or_empty (find ha s.fields)) ≡ true

found-put :
    (ha k : String) (fs : List String) (d : Dict (List String))
    → one_of k fs ≡ true
    → one_of k (or_empty (find ha (put ha fs d))) ≡ true
unfolding or_empty
found-put ha k fs d h = rw (find-put, eq_refl ha) h

in_union :
    (before : String → String → Bool) (k : String) (js ks : List String)
    → one_of k ks ≡ true
    → one_of k (union before js ks) ≡ true
in_union before k js ks h = ground (arith, one_of-union before k js ks)

told-Remembers :
    (su : Setup) (ha m : String) (merged : View) (s : Sink)
    → Remembers ha merged (
        publish_command_discovery su ha m (
          publish_sensors ha m merged
            (union su.before (or_empty (find ha s.fields)) (keys merged))
            s))
unfolding Remembers publish_sensors
told-Remembers su ha m merged s k h =
    let fs = union su.before (or_empty (find ha s.fields)) (keys merged) in
    rw (commands-fields su ha m (publish_sensors ha m merged fs s)) (
      found-put ha k fs s.fields
        (in_union su.before k (or_empty (find ha s.fields)) (keys merged) h))

announce-IsCovered :
    (su : Setup) (ha m : String) (merged : View) (s : Sink)
    → IsCovered s
    → IsCovered (announce su ha m merged s) × Remembers ha merged (announce su ha m merged s)
unfolding announce Remembers
announce-IsCovered su ha m merged s c =
    elim (Bool-cases (all_in (keys merged) (or_empty (find ha s.fields)))) [
      | inl old ↦
          rw old (c, λ k h. one_of-all_in k (keys merged) (or_empty (find ha s.fields)) old h)
      | inr new ↦ rw new (
        commands-IsCovered su ha m
            (publish_sensors ha m merged
              (union su.before (or_empty (find ha s.fields)) (keys merged)) s)
            (sensors-IsCovered ha m merged
              (union su.before (or_empty (find ha s.fields)) (keys merged)) s c),
        told-Remembers su ha m merged s,
      )
    ]

publish_state-IsCovered :
    (su : Setup) (ha : String) (merged : View) (s : Sink)
    → IsCovered s
    → Remembers ha merged s
    → IsCovered (publish_state su ha merged s)
unfolding publish_state told Remembers
publish_state-IsCovered su ha merged s c r =
    if-both IsCovered (same_as su (find ha s.last) merged) s
      (record s { last = put ha merged s.last; published = state ha merged ∷ s.published }) c
      (record {
        known = c.known;
        announced = after_state (λ k h. c.known ha k (r k h)) c.announced;
      })

take_view-IsCovered :
    (su : Setup) (ha m : String) (s : Sink) (view : View)
    → IsCovered s
    → IsCovered (take_view su ha m s view)
unfolding take_view
take_view-IsCovered su ha m s view c =
    let merged = retire (find "State" view) (merge (or_empty (find ha s.merged)) view) in
    let s' : Sink = record s { merged = put ha merged s.merged } in
    let r =
      announce-IsCovered su ha m merged s' (record { known = c.known; announced = c.announced }) in
    publish_state-IsCovered su ha merged (announce su ha m merged s') r.0 r.1

with_view-IsCovered :
    (su : Setup) (ha m : String) (s : Sink) (o : Option View)
    → IsCovered s
    → IsCovered (with_view su ha m s o)
unfolding with_view
with_view-IsCovered su ha m s none c = c
with_view-IsCovered su ha m s (some []) c = c
with_view-IsCovered su ha m s (some (i ∷ view)) c = take_view-IsCovered su ha m s (i ∷ view) c

with_model-IsCovered :
    (su : Setup) (dev : String) (p : Payload) (s : Sink) (o : Option String)
    → IsCovered s
    → IsCovered (with_model su dev p s o)
unfolding with_model
with_model-IsCovered su dev p s none c = c
with_model-IsCovered su dev p s (some m) c =
    with_view-IsCovered su (stable_key su m) m
      (record s { dev_by_ha = put (stable_key su m) dev s.dev_by_ha }) (view_of su.countdown [] p)
      (record { known = c.known; announced = c.announced })

calls-IsCovered :
    (su : Setup) (ps : List (String × Payload)) (s : Sink) → IsCovered s → IsCovered (calls su ps s)
unfolding calls call
calls-IsCovered su [] s c = c
calls-IsCovered su ((dev, p) ∷ ps) s c =
    calls-IsCovered su ps (call su dev p s)
      (with_model-IsCovered su dev p s (model_name su (find "modelName" p)) c)

start-IsCovered : (allow : Bool) → IsCovered (start allow)
unfolding start or_empty find one_of
start-IsCovered allow = record { known = λ ha k h. absurd (ground arith); announced = nothing }

-- Whatever payloads come, from the sink's start on, each state that is published has only keys that
-- a discovery before it has told Home Assistant of for that device.
pub calls-IsAnnounced :
    (su : Setup) (allow : Bool) (ps : List (String × Payload))
    → IsAnnounced (calls su ps (start allow)).published
calls-IsAnnounced su allow ps =
    (calls-IsCovered su ps (start allow) (start-IsCovered allow)).announced
