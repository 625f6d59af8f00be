-- ===== src/Cloud/Events/About.antt =====
-- Which device an event is about.
use local_smarthinq.Prelude.{
  zero, false, All, ℕ, suc, ◌≡◌, refl, ap, ◌∙◌, subst, ◌⊎◌, inl, inr, String, Bool, true, Option,
  none, some, List, [], ◌∷◌, Bool-cases, str_eq, eq_iff, arith,
}
use local_smarthinq.Json.{Value, null, bool, num, str, arr, obj, Fields, end, field, get}
use local_smarthinq.Cloud.Events.{
  own_id, or_found, first_in, find_device_id, CloudDevice, Event, event_of, first_device, event_for,
  by_payload, by_topic, dispatch,
}

-- The device is in the list.
pub data IsListed (d : CloudDevice) : List CloudDevice → Type 0 where
  here : {e : CloudDevice} {ds : List CloudDevice} → e ≡ d → IsListed d (e ∷ ds)
  there : {e : CloudDevice} {ds : List CloudDevice} → IsListed d ds → IsListed d (e ∷ ds)

-- A value among the fields of an object.
pub data IsField (v : Value) : Fields → Type 0 where
  this : {k : String} {w : Value} {fs : Fields} → w ≡ v → IsField v (field k w fs)
  that : {k : String} {w : Value} {fs : Fields} → IsField v fs → IsField v (field k w fs)

-- A `deviceId` that is no empty text, at most so many objects deep.
pub data Holds (id : String) : ℕ → Value → Type 0 where
  own :
      {n : ℕ} {fs : Fields}
      → get "deviceId" fs ≡ some (str id)
      → str_eq id "" ≡ false
      → Holds id (suc n) (obj fs)
  inside :
      {n : ℕ} {fs : Fields} {v : Value} → IsField v fs → Holds id n v → Holds id (suc n) (obj fs)

own_id-some :
    (o : Option Value) (id : String)
    → own_id o ≡ some id
    → (o ≡ some (str id)) × (str_eq id "" ≡ false)
unfolding own_id
own_id-some none id h = absurd (ground arith)
own_id-some (some (str s)) id h = elim (Bool-cases (str_eq s "")) [
  | inl empty ↦ absurd (ground arith)
  | inr named ↦
      let same : s ≡ id = ground arith in
      (ap (λ x. some (str x)) same, subst (λ x. str_eq x "" ≡ false) same named)
]
own_id-some (some (num n)) id h = absurd (ground arith)
own_id-some (some (bool b)) id h = absurd (ground arith)
own_id-some (some (arr vs)) id h = absurd (ground arith)
own_id-some (some (obj fs)) id h = absurd (ground arith)
own_id-some (some null) id h = absurd (ground arith)

-- A field in which something is found.
record FoundIn (look : Value → Option String) (id : String) (fs : Fields) : Type 0 where
  value : Value
  is_field : IsField value fs
  found : look value ≡ some id

first_or-FoundIn :
    (look : Value → Option String) (id k : String) (v : Value) (fs : Fields) (o : Option String)
    → look v ≡ o
    → or_found o (first_in look fs) ≡ some id
    → (first_in look fs ≡ some id → FoundIn look id fs)
    → FoundIn look id (field k v fs)
unfolding or_found
first_or-FoundIn look id k v fs none e h rest =
    let later = rest h in
    record { value = later.value; is_field = that later.is_field; found = later.found }
first_or-FoundIn look id k v fs (some d) e h rest = record {
  value = v;
  is_field = this refl;
  found = e ∙ h;
}

first_in-FoundIn :
    (look : Value → Option String) (id : String) (fs : Fields)
    → first_in look fs ≡ some id
    → FoundIn look id fs
unfolding first_in
first_in-FoundIn look id end h = absurd (ground arith)
first_in-FoundIn look id (field k v fs) h =
    first_or-FoundIn look id k v fs (look v) refl h (first_in-FoundIn look id fs)

object_id-Holds :
    (n : ℕ) (fs : Fields) (id : String) (o : Option String)
    → own_id (get "deviceId" fs) ≡ o
    → or_found o (first_in (find_device_id n) fs) ≡ some id
    → ((v : Value) → find_device_id n v ≡ some id → Holds id n v)
    → Holds id (suc n) (obj fs)
unfolding or_found
object_id-Holds n fs id none e h rest =
    let f = first_in-FoundIn (find_device_id n) id fs h in inside f.is_field (rest f.value f.found)
object_id-Holds n fs id (some d) e h rest =
    let (held, named) = own_id-some (get "deviceId" fs) id (e ∙ h) in own held named

find_device_id-Holds :
    (n : ℕ) (v : Value) (id : String) → find_device_id n v ≡ some id → Holds id n v
unfolding find_device_id
find_device_id-Holds (suc n) (obj fs) id h =
    object_id-Holds n fs id (own_id (get "deviceId" fs)) refl h
      (λ v k. find_device_id-Holds n v id k)
find_device_id-Holds zero v id h = absurd (ground arith)
find_device_id-Holds (suc n) (str s) id h = absurd (ground arith)
find_device_id-Holds (suc n) (num m) id h = absurd (ground arith)
find_device_id-Holds (suc n) (bool b) id h = absurd (ground arith)
find_device_id-Holds (suc n) (arr vs) id h = absurd (ground arith)
find_device_id-Holds (suc n) null id h = absurd (ground arith)

-- The device is in the list, the event is about it, and the topic names it, or the topic names no
-- device of the list and the payload holds its id within four levels.
pub record IsAbout (contains : String → String → Bool) (devices : List CloudDevice) (topic : String)
    (payload : Fields) (e : Event) : Type 0 where
  pub device : CloudDevice
  pub listed : IsListed device devices
  pub event : e ≡ event_of device payload
  pub named :
      (contains device.device_id topic ≡ true)
      ⊎ (All (λ d. contains d.device_id topic ≡ false) devices
          × Holds device.device_id 4 (obj payload))

pub record Accepted (test : CloudDevice → Bool) (devices : List CloudDevice) (d : CloudDevice)
    : Type 0 where
  pub listed : IsListed d devices
  pub accepted : test d ≡ true

first_device-Accepted :
    (test : CloudDevice → Bool) (ds : List CloudDevice) (d : CloudDevice)
    → first_device test ds ≡ some d
    → Accepted test ds d
unfolding first_device
first_device-Accepted test [] d h = absurd (ground arith)
first_device-Accepted test (c ∷ ds) d h = elim (Bool-cases (test c)) [
  | inl taken ↦
      let same : c ≡ d = ground arith in
      record { listed = here same; accepted = subst (λ x. test x ≡ true) same taken }
  | inr passed ↦
      let later = first_device-Accepted test ds d (ground arith) in
      record { listed = there later.listed; accepted = later.accepted }
]

first_device-none :
    (test : CloudDevice → Bool) (ds : List CloudDevice)
    → first_device test ds ≡ none
    → All (λ d. test d ≡ false) ds
unfolding first_device
first_device-none test [] h = tt
first_device-none test (d ∷ ds) h = elim (Bool-cases (test d)) [
  | inl taken ↦ absurd (ground arith)
  | inr passed ↦ (passed, first_device-none test ds (ground arith))
]

by_payload-IsAbout :
    (contains : String → String → Bool) (devices : List CloudDevice) (topic : String)
    (payload : Fields) (o : Option String) (e : Event)
    → All (λ d. contains d.device_id topic ≡ false) devices
    → find_device_id 4 (obj payload) ≡ o
    → by_payload devices payload o ≡ some e
    → IsAbout contains devices topic payload e
unfolding by_payload
by_payload-IsAbout contains devices topic payload none e u f h = absurd (ground arith)
by_payload-IsAbout contains devices topic payload (some id) e u f h =
    listed_device (first_device (λ d. str_eq d.device_id id) devices) refl h
  where
    listed_device :
        (o : Option CloudDevice)
        → first_device (λ d. str_eq d.device_id id) devices ≡ o
        → event_for payload o ≡ some e
        → IsAbout contains devices topic payload e
    listed_device none g k = absurd (unfold event_for in (ground arith))
    listed_device (some d) g k =
        let a = first_device-Accepted (λ c. str_eq c.device_id id) devices d g in
        record {
          device = d;
          listed = a.listed;
          event = unfold event_for in (ground arith);
          named = inr (
            u,
            find_device_id-Holds 4 (obj payload) d.device_id
                (f ∙ ap some (ground (arith, eq_iff d.device_id id, a.accepted))),
          );
        }

by_topic-IsAbout :
    (contains : String → String → Bool) (devices : List CloudDevice) (topic : String)
    (payload : Fields) (o : Option CloudDevice) (e : Event)
    → first_device (λ d. contains d.device_id topic) devices ≡ o
    → by_topic devices payload o ≡ some e
    → IsAbout contains devices topic payload e
unfolding by_topic
by_topic-IsAbout contains devices topic payload none e f h =
    by_payload-IsAbout contains devices topic payload (find_device_id 4 (obj payload)) e
      (first_device-none (λ d. contains d.device_id topic) devices f) refl h
by_topic-IsAbout contains devices topic payload (some d) e f h =
    let a = first_device-Accepted (λ c. contains c.device_id topic) devices d f in
    record {
      device = d;
      listed = a.listed;
      event = unfold event_for in (ground arith);
      named = inl a.accepted;
    }

-- A message that leads to an event is an object, and the event is about a device of the list, with
-- that device's own alias and model. The topic contains its id; or it contains the id of no listed
-- device, and the payload holds this id, which is not empty, as a `deviceId` within four levels.
pub dispatch-IsAbout :
    (contains : String → String → Bool) (devices : List CloudDevice) (topic : String)
    (payload : Value) (e : Event)
    → dispatch contains devices topic payload ≡ some e
    → (fs : Fields) × (payload ≡ obj fs) × IsAbout contains devices topic fs e
unfolding dispatch
dispatch-IsAbout contains devices topic (obj fs) e h = (
  fs,
  refl,
  by_topic-IsAbout contains devices topic fs
      (first_device (λ d. contains d.device_id topic) devices) e refl h,
)
dispatch-IsAbout contains devices topic (str s) e h = absurd (ground arith)
dispatch-IsAbout contains devices topic (num n) e h = absurd (ground arith)
dispatch-IsAbout contains devices topic (bool b) e h = absurd (ground arith)
dispatch-IsAbout contains devices topic (arr vs) e h = absurd (ground arith)
dispatch-IsAbout contains devices topic null e h = absurd (ground arith)
