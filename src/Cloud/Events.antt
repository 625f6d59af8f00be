-- ===== src/Cloud/Events.antt =====
-- `_find_device_id` and `_dispatch` of server/thinq_events.py: which device a message is about. The
-- payload comes parsed; `contains` is Python's `in` on texts. What the handler of an event raises
-- is swallowed.
pub mod About
use local_smarthinq.Prelude.{
  zero, false, All, ℕ, suc, ◌≡◌, refl, ap, ◌∙◌, subst, ◌⊎◌, inl, inr, String, Bool, true, Option,
  none, some, List, [], ◌∷◌, Bool-cases, if◌then◌else◌, str_eq, eq_iff, arith,
}
use local_smarthinq.Json.{Value, null, bool, num, str, arr, obj, Fields, end, field, get}

-- `isinstance(dev, str) and dev`
unfoldable pub own_id : Option Value → Option String
own_id (some (str s)) = if str_eq s "" then none else some s
own_id _ = none

unfoldable pub or_found : Option String → Option String → Option String
or_found none later = later
or_found (some d) later = some d

unfoldable pub first_in : (Value → Option String) → Fields → Option String
unfolding or_found
first_in look end = none
first_in look (field k v fs) = or_found (look v) (first_in look fs)

-- `_find_device_id`, with the levels that are left.
unfoldable pub find_device_id : ℕ → Value → Option String
unfolding own_id or_found first_in
find_device_id (suc levels) (obj fs) =
    or_found (own_id (get "deviceId" fs)) (first_in (find_device_id levels) fs)
find_device_id _ _ = none

-- An entry of the device list, with its `deviceInfo`.
pub record CloudDevice : Type 0 where
  pub device_id : String
  pub alias : Option String
  pub model_name : Option String

-- The arguments of `on_event`.
pub record Event : Type 0 where
  pub alias : String
  pub model_name : String
  pub device_id : String
  pub payload : Fields

or_default : Option String → String → String
or_default none other = other
or_default (some s) other = s

unfoldable pub event_of : CloudDevice → Fields → Event
unfolding or_default
event_of d payload = record {
  alias = or_default d.alias "unknown";
  model_name = or_default d.model_name "";
  device_id = d.device_id;
  payload = payload;
}

-- The first device that the test accepts.
unfoldable pub first_device : (CloudDevice → Bool) → List CloudDevice → Option CloudDevice
first_device test [] = none
first_device test (d ∷ ds) = let later = first_device test ds in if test d then some d else later

unfoldable pub event_for : Fields → Option CloudDevice → Option Event
unfolding event_of
event_for payload none = none
event_for payload (some d) = some (event_of d payload)

-- A client-scoped push: the device is named by the payload.
unfoldable pub by_payload : List CloudDevice → Fields → Option String → Option Event
unfolding first_device event_for
by_payload devices payload none = none
by_payload devices payload (some id) =
    event_for payload (first_device (λ d. str_eq d.device_id id) devices)

unfoldable pub by_topic : List CloudDevice → Fields → Option CloudDevice → Option Event
unfolding event_for by_payload find_device_id
by_topic devices payload (some d) = event_for payload (some d)
by_topic devices payload none = by_payload devices payload (find_device_id 4 (obj payload))

-- The event that a message leads to, if any.
unfoldable pub dispatch :
    (String → String → Bool) → List CloudDevice → String → Value → Option Event
unfolding by_topic first_device
dispatch contains devices topic (obj payload) =
    by_topic devices payload (first_device (λ d. contains d.device_id topic) devices)
dispatch contains devices topic _ = none
