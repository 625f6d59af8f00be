-- ===== src/Mqtt/View.antt =====
-- The part of a payload that `_Sink.__call__` of server/mqtt_bridge.py publishes: the excluded keys
-- left out, the decoded objects spread, the summary's fields prefixed.
use Prim.Native.String.{◌++◌ as join}
use local_smarthinq.Prelude.{
  ◌≡◌, refl, String, Bool, true, false, ◌||◌, not, Option, none, some, List, [], ◌∷◌, if◌then◌else◌,
  str_eq, ◌==◌, Dict, put,
}
use local_smarthinq.Json.{
  Value, null, bool, num, str, arr, obj, no_elements, element, Fields, end, field, get,
}
use local_smarthinq.Model.Registry.{Payload}
use local_smarthinq.App.Text.{ends_with}

-- A published state: one value per key.
abbrev pub View : Type 0
View = Dict Value

unfoldable pub one_of : String → List String → Bool
one_of k [] = false
one_of k (j ∷ js) = str_eq j k || one_of k js

abbrev pub excluded_keys : List String
excluded_keys =
    "monData" ∷ "diagData" ∷ "option" ∷ "ts" ∷ "devId" ∷ "diagMonType" ∷ "modelName" ∷ "raw_text"
    ∷ "note" ∷ "raw_cloud_state" ∷ []

-- `bool(v)`
unfoldable pub truthy : Value → Bool
truthy null = false
truthy (bool b) = b
truthy (num n) = not (n == 0)
truthy (str s) = not (str_eq s "")
truthy (arr no_elements) = false
truthy (arr (element v vs)) = true
truthy (obj end) = false
truthy (obj (field k v fs)) = true

-- `d.get(k) or "0"`
unfoldable pub or_zero : Option Value → Value
unfolding truthy
or_zero none = str "0"
or_zero (some v) = if truthy v then v else str "0"

-- `v == s`, for a text `s`
unfoldable pub reads : String → Option Value → Bool
reads s (some (str t)) = str_eq t s
reads s _ = false

-- `view.update(d)`
unfoldable pub update : View → Fields → View
update view end = view
update view (field k v fs) = update (put k v view) fs

-- `f"{hours}h{int(minutes):02d}m"`; `none` where `int` raises.
abbrev pub Countdown : Type 0
Countdown = Value → Value → Option String

unfoldable pub put_countdown : View → Option String → Option View
put_countdown view none = none
put_countdown view (some text) = some (put "reserve_countdown" (str text) view)

-- A decoded object, spread one level.
unfoldable pub spread : Countdown → View → Fields → Option View
unfolding update reads or_zero put_countdown
spread countdown view fs =
    let view' = update view fs in
    if reads "WM_STATE_RESERVE" (get "State" fs)
    then put_countdown view'
        (countdown (or_zero (get "Reserve_Time_H" fs)) (or_zero (get "Reserve_Time_M" fs)))
    else some view'

-- The interpreted fields of the cycle summary, prefixed; neither `raw` nor `len`.
unfoldable pub update_summary : View → Fields → View
update_summary view end = view
update_summary view (field k v fs) =
    let added = update_summary (put (join "diagData_" k) v view) fs in
    let left_out = update_summary view fs in
    if str_eq k "raw" || str_eq k "len" then left_out else added

-- One item of the payload.
unfoldable pub view_value : Countdown → View → String → Value → Option View
unfolding spread update_summary
view_value countdown view k (obj fs) =
    if ends_with "_decoded" k
    then spread countdown view fs
    else if str_eq k "diagData"
    then some (update_summary view fs)
    else some (put k (obj fs) view)
view_value countdown view k v = some (put k v view)

unfoldable pub view_item : Countdown → View → String → Value → Option View
unfolding view_value one_of
view_item countdown view k v =
    if one_of k excluded_keys then some view else view_value countdown view k v

-- `none` where an item raises.
unfoldable pub and_items : (View → Option View) → Option View → Option View
and_items rest none = none
and_items rest (some view) = rest view

unfoldable pub view_of : Countdown → View → Payload → Option View
unfolding view_item and_items
view_of countdown view [] = some view
view_of countdown view ((k, v) ∷ p) =
    and_items (λ view'. view_of countdown view' p) (view_item countdown view k v)

-- Whatever a payload holds under `diagData`, nothing of it is published.
pub view_of-summary :
    (countdown : Countdown) (view : View) (v : Value) (p : Payload)
    → view_of countdown view (("diagData", v) ∷ p) ≡ view_of countdown view p
unfolding view_of view_item
view_of-summary countdown view v p = refl
