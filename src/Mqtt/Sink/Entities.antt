-- ===== src/Mqtt/Sink/Entities.antt =====
-- The entities that the sink keeps for its command topics come from its model files.
use mathlib.Core.List.{Memᴰ}
use mathlib.Core.List.Memᴰ.{head, tail}
use local_smarthinq.Prelude.{
  eq_iff, sym, ◌≡◌, refl, String, Bool, true, false, Option, none, some, List, [], ◌∷◌, str_eq,
  arith, find, put, find-put, subst, if-both, if◌then◌else◌, Dict, All,
}
use local_smarthinq.Model.Registry.{Payload}
use local_smarthinq.Model.Vocabulary.{CommandEntity, Sections, all_entities}
use local_smarthinq.Model.Vocabulary.Offered.{IsSetCommand, all_entities-IsSetCommand}
use local_smarthinq.Mqtt.View.{View, view_of}
use local_smarthinq.Mqtt.Sink.{
  Setup, Sink, keys, or_empty, all_in, union, by_slug, with_entities, with_sections,
  publish_command_discovery, publish_sensors, announce, same_as, publish_state, take_view, merge,
  retire, with_view, with_model, model_name, stable_key, call, calls, start, state,
}

-- An entity of a device: it is one of the entities of the layout of a model whose key this is, and
-- belongs to a command that is sent as `Set`.
pub record IsEntity (su : Setup) (ha : String) (e : CommandEntity) : Type 0 where
  pub model : String
  pub sections : Sections
  pub of_model : stable_key su model ≡ ha
  pub layout : su.model_json_for model ≡ some sections
  pub listed : Memᴰ e (all_entities su.texts sections)
  pub set : IsSetCommand e

-- What is found under a slug is the entity of that slug.
pub record IsUnder (su : Setup) (ha slug : String) (e : CommandEntity) : Type 0 where
  pub same_slug : e.slug ≡ slug
  pub entity : IsEntity su ha e

-- Every entity under these slugs is one of the device.
OnlyOwn : Setup → String → Dict CommandEntity → Type 0
OnlyOwn su ha d = (slug : String) (e : CommandEntity) → find slug d ≡ some e → IsUnder su ha slug e

-- So it is for every device.
unfoldable pub AllOwn : Setup → Dict (Dict CommandEntity) → Type 0
unfolding or_empty
AllOwn su d =
    (ha slug : String) (e : CommandEntity)
    → find slug (or_empty (find ha d)) ≡ some e
    → IsUnder su ha slug e

either-Under :
    (P : CommandEntity → Type 0) (b : Bool) (e e' : CommandEntity) (o : Option CommandEntity)
    → (b ≡ true → P e)
    → (o ≡ some e' → P e')
    → (if b then some e else o) ≡ some e'
    → P e'
either-Under P true e e' o i j h = subst P (ground arith) (i refl)
either-Under P false e e' o i j h = j h

same_text : (s t : String) → str_eq s t ≡ true → s ≡ t
same_text s t h = ground (arith, eq_iff s t)

put-OnlyOwn :
    (su : Setup) (ha : String) (e : CommandEntity) (d : Dict CommandEntity)
    → IsEntity su ha e
    → OnlyOwn su ha d
    → OnlyOwn su ha (put e.slug e d)
unfolding OnlyOwn
put-OnlyOwn su ha e d i a slug e' h =
    either-Under (IsUnder su ha slug) (str_eq e.slug slug) e e' (find slug d)
      (λ same. record { same_slug = same_text e.slug slug same; entity = i }) (a slug e')
      (subst (λ x. x ≡ some e') (find-put e.slug slug e d) h)

by_slug-OnlyOwn :
    (su : Setup) (ha : String) (es : List CommandEntity) (d : Dict CommandEntity)
    → All (IsEntity su ha) es
    → OnlyOwn su ha d
    → OnlyOwn su ha (by_slug d es)
unfolding by_slug
by_slug-OnlyOwn su ha [] d i a = a
by_slug-OnlyOwn su ha (e ∷ es) d (now, i) a =
    by_slug-OnlyOwn su ha es (put e.slug e d) i (put-OnlyOwn su ha e d now a)

none-OnlyOwn : (su : Setup) (ha : String) → OnlyOwn su ha []
unfolding OnlyOwn find
none-OnlyOwn su ha slug e h = absurd (ground arith)

either-OnlyOwn :
    (su : Setup) (ha : String) (b : Bool) (x : Dict CommandEntity) (o : Option (Dict CommandEntity))
    → (b ≡ true → OnlyOwn su ha x)
    → OnlyOwn su ha (or_empty o)
    → OnlyOwn su ha (or_empty (if b then some x else o))
unfolding or_empty
either-OnlyOwn su ha true x o i j = i refl
either-OnlyOwn su ha false x o i j = j

put-AllOwn :
    (su : Setup) (ha : String) (x : Dict CommandEntity) (d : Dict (Dict CommandEntity))
    → OnlyOwn su ha x
    → AllOwn su d
    → AllOwn su (put ha x d)
unfolding AllOwn OnlyOwn
put-AllOwn su ha x d i a h =
    subst (λ o. OnlyOwn su h (or_empty o)) (sym (find-put ha h x d))
      (either-OnlyOwn su h (str_eq ha h) x (find h d)
        (λ same. subst (λ k. OnlyOwn su k x) (same_text ha h same) i) (a h))

with_entities-AllOwn :
    (su : Setup) (ha m : String) (es : List CommandEntity) (s : Sink)
    → All (IsEntity su ha) es
    → AllOwn su s.cmd_entities
    → AllOwn su (with_entities ha m es s).cmd_entities
unfolding with_entities
with_entities-AllOwn su ha m [] s i a = a
with_entities-AllOwn su ha m (e ∷ es) s i a =
    put-AllOwn su ha (by_slug [] (e ∷ es)) s.cmd_entities
      (by_slug-OnlyOwn su ha (e ∷ es) [] i (none-OnlyOwn su ha)) a

all-IsEntity :
    (su : Setup) (ha m : String) (mj : Sections) (es : List CommandEntity)
    → stable_key su m ≡ ha
    → su.model_json_for m ≡ some mj
    → ((e : CommandEntity) → Memᴰ e es → Memᴰ e (all_entities su.texts mj))
    → All IsSetCommand es
    → All (IsEntity su ha) es
all-IsEntity su ha m mj [] k j among h = tt
all-IsEntity su ha m mj (e ∷ es) k j among (now, h) = (
  record {
    model = m;
    sections = mj;
    of_model = k;
    layout = j;
    listed = among e (head refl);
    set = now;
  },
  all-IsEntity su ha m mj es k j (λ x i. among x (tail i)) h,
)

with_sections-AllOwn :
    (su : Setup) (ha m : String) (o : Option Sections) (s : Sink)
    → stable_key su m ≡ ha
    → su.model_json_for m ≡ o
    → AllOwn su s.cmd_entities
    → AllOwn su (with_sections su ha m o s).cmd_entities
unfolding with_sections
with_sections-AllOwn su ha m none s k j a = a
with_sections-AllOwn su ha m (some mj) s k j a =
    with_entities-AllOwn su ha m (all_entities su.texts mj) s
      (all-IsEntity su ha m mj (all_entities su.texts mj) k j (λ e i. i)
        (all_entities-IsSetCommand su.texts mj))
      a

announce-AllOwn :
    (su : Setup) (ha m : String) (merged : View) (s : Sink)
    → stable_key su m ≡ ha
    → AllOwn su s.cmd_entities
    → AllOwn su (announce su ha m merged s).cmd_entities
unfolding announce publish_command_discovery publish_sensors
announce-AllOwn su ha m merged s key a =
    let s' =
      publish_sensors ha m merged (union su.before (or_empty (find ha s.fields)) (keys merged)) s in
    if-both (λ x. AllOwn su x.cmd_entities) (all_in (keys merged) (or_empty (find ha s.fields))) s
      (publish_command_discovery su ha m s') a
      (if-both (λ x. AllOwn su x.cmd_entities) s.allow_control
        (with_sections su ha m (su.model_json_for m) s') s'
        (with_sections-AllOwn su ha m (su.model_json_for m) s' key refl a) a)

take_view-AllOwn :
    (su : Setup) (ha m : String) (s : Sink) (view : View)
    → stable_key su m ≡ ha
    → AllOwn su s.cmd_entities
    → AllOwn su (take_view su ha m s view).cmd_entities
unfolding take_view publish_state
take_view-AllOwn su ha m s view key a =
    let merged = retire (find "State" view) (merge (or_empty (find ha s.merged)) view) in
    let s' = announce su ha m merged (record s { merged = put ha merged s.merged }) in
    let k = announce-AllOwn su ha m merged (record s { merged = put ha merged s.merged }) key a in
    if-both (λ x. AllOwn su x.cmd_entities) (same_as su (find ha s'.last) merged) s'
      (record s' { last = put ha merged s'.last; published = state ha merged ∷ s'.published }) k k

with_model-AllOwn :
    (su : Setup) (dev : String) (p : Payload) (s : Sink) (o : Option String)
    → AllOwn su s.cmd_entities
    → AllOwn su (with_model su dev p s o).cmd_entities
unfolding with_model
with_model-AllOwn su dev p s none a = a
with_model-AllOwn su dev p s (some m) a =
    viewed (stable_key su m) m (record s { dev_by_ha = put (stable_key su m) dev s.dev_by_ha })
      (view_of su.countdown [] p) refl a
  where
    viewed :
        (ha m : String) (s : Sink) (o : Option View)
        → stable_key su m ≡ ha
        → AllOwn su s.cmd_entities
        → AllOwn su (with_view su ha m s o).cmd_entities
    viewed ha m s none key a = unfold with_view in a
    viewed ha m s (some []) key a = unfold with_view in a
    viewed ha m s (some (i ∷ view)) key a =
        unfold with_view in (take_view-AllOwn su ha m s (i ∷ view) key a)

pub calls-AllOwn :
    (su : Setup) (ps : List (String × Payload)) (s : Sink)
    → AllOwn su s.cmd_entities
    → AllOwn su (calls su ps s).cmd_entities
unfolding calls call
calls-AllOwn su [] s a = a
calls-AllOwn su ((dev, p) ∷ ps) s a =
    calls-AllOwn su ps (call su dev p s)
      (with_model-AllOwn su dev p s (model_name su (find "modelName" p)) a)

pub start-AllOwn : (su : Setup) (allow : Bool) → AllOwn su (start allow).cmd_entities
unfolding start or_empty find AllOwn OnlyOwn
start-AllOwn su allow ha = none-OnlyOwn su ha
