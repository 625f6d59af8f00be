-- ===== src/Cloud/View.antt =====
-- `_on_cloud_event` of server/app.py: a push event becomes the freshest view of its device. Where
-- the report has the wrong shape the code raises, and the store is left as it was (`none`).
use Prim.Native.String.{◌++◌ as join}
use local_smarthinq.Prelude.{
  ◌≡◌, refl, String, Bool, true, false, Option, none, some, [], ◌∷◌, ◌++◌, if◌then◌else◌, str_eq,
  Dict, put,
}
use local_smarthinq.Json.{Value, num, str, arr, obj, element, Fields, end, field, get}
use local_smarthinq.Model.Registry.{Payload}
use local_smarthinq.State.{DeviceStateStore}
use local_smarthinq.App.Text.{ends_with}
use local_smarthinq.Mqtt.View.{View, truthy, Countdown, view_of}

-- What Python's text functions give: `upper`, `replace`, `str`.
pub record Words : Type 0 where
  pub upper : String → String
  pub replace : String → String → String → String
  pub show : Value → String

-- The first device of this model.
unfoldable pub local_dev : String → Dict String → Option String
local_dev model_name [] = none
local_dev model_name ((k, v) ∷ models) =
    let later = local_dev model_name models in if str_eq v model_name then some k else later

-- The report on which `.get` is called.
unfoldable pub report_of : Option Value → Option Fields
report_of (some (arr (element (obj fs) vs))) = some fs
report_of (some (arr (element v vs))) = none
report_of (some (obj fs)) = some fs
report_of _ = some end

-- `d.get(k) or {}`, on which `.get` is called next
unfoldable pub section : Option Value → Option Fields
unfolding truthy
section none = some end
section (some (obj fs)) = some fs
section (some v) = if truthy v then none else some end

-- `d.get(k) or ""`, on which `.upper` is called if it is true
unfoldable pub text_or_empty : Option Value → Option String
unfolding truthy
text_or_empty none = some ""
text_or_empty (some (str s)) = some s
text_or_empty (some v) = if truthy v then none else some ""

-- `str(timer.get(k, 0))`
unfoldable pub shown : Words → Option Value → String
shown w none = w.show (num 0)
shown w (some v) = w.show v

unfoldable pub state_text : Words → String → String
state_text w run_state = join "WM_STATE_" (w.replace " " "_" (w.upper run_state))

unfoldable pub stated : Words → Bool → String → Payload → Payload
unfolding state_text
stated w true run_state view = view
stated w false run_state view =
    put "State_decoded" (obj (field "State" (str (state_text w run_state)) end)) view

-- `if run_state: view["State_decoded"] = ...`
unfoldable pub with_state : Words → String → Payload → Payload
unfolding stated
with_state w run_state view = stated w (str_eq run_state "") run_state view

unfoldable pub timer_fields : Words → Fields → Fields
unfolding shown
timer_fields w timer =
    field "Remain_Time_H" (str (shown w (get "remainHour" timer)))
      (field "Remain_Time_M" (str (shown w (get "remainMinute" timer))) end)

unfoldable pub with_timer : Words → Fields → Payload → Payload
unfolding timer_fields
with_timer w end view = view
with_timer w (field k v fs) view =
    put "Remain_Time_decoded" (obj (timer_fields w (field k v fs))) view

-- The names that an event carries.
pub record Names : Type 0 where
  pub alias : String
  pub model_name : String
  pub dev_id : String
  pub ts : String
  pub key : String

unfoldable pub named : Names → Payload
named n =
    ("diagMonType", str "CLOUD_EVENT")
    ∷ ("alias", str n.alias)
    ∷ ("modelName", str n.model_name)
    ∷ ("cloud_device_id", str n.dev_id)
    ∷ ("ts", str n.ts)
    ∷ []

unfoldable pub cloud_view : Words → Names → Fields → String → Fields → Payload
unfolding with_state with_timer named
cloud_view w n payload run_state timer =
    put "devId" (str n.key)
      (put "raw_cloud_state" (obj payload) (with_timer w timer (with_state w run_state (named n))))

unfoldable pub and_some {ℓ κ} : {A : Type ℓ} {B : Type κ} → Option A → (A → Option B) → Option B
and_some none k = none
and_some (some a) k = k a

unfoldable pub store_view : Names → Payload → DeviceStateStore → DeviceStateStore
store_view n view s = record s {
  latest = put n.key view s.latest;
  published = if s.has_sink then s.published ++ (n.key, view) ∷ [] else s.published;
}

-- `local_dev or dev_id`
unfoldable pub key_of : String → Option String → String
key_of dev_id none = dev_id
key_of dev_id (some k) = if str_eq k "" then dev_id else k

unfoldable pub on_cloud_event :
    Words → String → String → String → String → Fields → DeviceStateStore → Option DeviceStateStore
unfolding local_dev key_of report_of section text_or_empty cloud_view store_view and_some
on_cloud_event w alias model_name dev_id ts payload s =
    let n : Names = record {
      alias = alias;
      model_name = model_name;
      dev_id = dev_id;
      ts = ts;
      key = key_of dev_id (local_dev model_name s.model_by_devid);
    } in
    and_some (report_of (get "report" payload)) λ report.
      and_some (section (get "runState" report)) λ run.
        and_some (text_or_empty (get "currentState" run)) λ run_state.
          and_some (section (get "timer" report))
            λ timer. some (store_view n (cloud_view w n payload run_state timer) s)

-- What of an event is published: the state, if there is one, and the remaining time, if there is a
-- timer.
unfoldable pub state_or_not : Words → Bool → String → View
state_or_not w true run_state = []
state_or_not w false run_state = ("State", str (state_text w run_state)) ∷ []

unfoldable pub published_state : Words → String → View
unfolding state_or_not
published_state w run_state = state_or_not w (str_eq run_state "") run_state

unfoldable pub published_timer : Words → Fields → View
published_timer w end = []
published_timer w (field k v fs) =
    ("Remain_Time_H", str (shown w (get "remainHour" (field k v fs))))
    ∷ ("Remain_Time_M", str (shown w (get "remainMinute" (field k v fs))))
    ∷ []

view_of-stated :
    (countdown : Countdown) (w : Words) (n : Names) (payload : Fields) (b : Bool)
    (run_state : String) (timer : Fields)
    → str_eq (state_text w run_state) "WM_STATE_RESERVE" ≡ false
    → view_of countdown [] (
        put "devId" (str n.key) (
          put "raw_cloud_state"
            (obj payload)
            (with_timer w timer (stated w b run_state (named n)))))
      ≡ some (
          ("alias", str n.alias)
          ∷ ("cloud_device_id", str n.dev_id)
          ∷ (state_or_not w b run_state ++ published_timer w timer))
unfolding view_of with_timer timer_fields stated state_or_not published_timer named put ends_with
    get
view_of-stated countdown w n payload true run_state end h = refl
view_of-stated countdown w n payload true run_state (field k v fs) h = refl
view_of-stated countdown w n payload false run_state end h = rw h refl
view_of-stated countdown w n payload false run_state (field k v fs) h = rw h refl

-- For a state that is no reservation, the sink publishes of an event just its alias and id, the
-- state where it names one, and the remaining time where it carries a timer: an event with neither
-- changes neither in Home Assistant.
pub view_of-cloud_view :
    (countdown : Countdown) (w : Words) (n : Names) (payload : Fields) (run_state : String)
    (timer : Fields)
    → str_eq (state_text w run_state) "WM_STATE_RESERVE" ≡ false
    → view_of countdown [] (cloud_view w n payload run_state timer)
      ≡ some (
          ("alias", str n.alias)
          ∷ ("cloud_device_id", str n.dev_id)
          ∷ (published_state w run_state ++ published_timer w timer))
unfolding cloud_view published_state with_state
view_of-cloud_view countdown w n payload run_state timer h =
    view_of-stated countdown w n payload (str_eq run_state "") run_state timer h
