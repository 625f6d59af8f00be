-- ===== src/Observe/Lines.antt =====
-- The lines of the relay's logs in server/observability.py: `_sighting_epoch`, the lines of
-- `RelayWatcher.poll` and of `scan_whole_file`. Times are whole seconds. What the regular
-- expressions find in a line or in its text is an argument.
pub mod Epoch
use local_smarthinq.Prelude.{
  ℕ, ◌+◌, ◌-◌, ◌*◌, ◌/◌, ◌%◌, ◌≤◌, ◌<◌, ◌≡◌, String, Bool, false, ◌&&◌, Option, none, some, List,
  [], ◌∷◌, if◌then◌else◌, str_eq, ltb, ◌==◌, Bytes, Dict, find, put, arith, subst, Bool-cases, inl,
  inr,
}
use local_smarthinq.Json.{Value, obj, get}
use local_smarthinq.Model.Registry.{Models, decode_mondata}
use local_smarthinq.Mqtt.View.{truthy}
use local_smarthinq.Observe.Follow.{poll_path}

-- The midnight of `now`, and the time of day on that day.
unfoldable pub candidate : ℕ → ℕ → ℕ → ℕ → ℕ
candidate hh mm ss now = (now / 86400) * 86400 + (hh * 3600 + mm * 60 + ss)

unfoldable pub not_ahead : ℕ → ℕ → ℕ
not_ahead cand now = if ltb (now + 300) cand then cand - 86400 else cand

-- `_sighting_epoch`, for a time behind the first day of the epoch; `none` where `replace` raises on
-- what is no time of day.
unfoldable pub sighting_epoch : ℕ × ℕ × ℕ → ℕ → Option ℕ
unfolding candidate not_ahead
sighting_epoch (hh, mm, ss) now =
    if ltb hh 24 && ltb mm 60 && ltb ss 60
    then some (not_ahead (candidate hh mm ss now) now)
    else none

-- `max(n, d.get(k, 0.0))`
unfoldable pub higher : ℕ → Option ℕ → ℕ
higher n none = n
higher n (some m) = if ltb n m then m else n

unfoldable pub bump : String → ℕ → Dict ℕ → Dict ℕ
unfolding higher
bump k n d = put k (higher n (find k d)) d

unfoldable pub bump_all : List String → ℕ → Dict ℕ → Dict ℕ
unfolding bump
bump_all [] n d = d
bump_all (k ∷ ks) n d = bump_all ks n (bump k n d)

-- What a line's regular expressions find: the stamp, and the text of its hex digits; in that text
-- the device ids and the marks of an event; the event's XML behind base64, and its parts.
pub record Finds : Type 0 where
  pub stamp : Bytes → Option (ℕ × ℕ × ℕ)
  pub hex_text : Bytes → Option String
  pub devs : String → List String
  pub is_event : String → Bool
  pub xml_dev : String → Option String
  pub model_name : String → Option String
  pub diag_xml : String → Option String
  pub event_type : String → Option String
  pub mon_data : String → Option Bytes

unfoldable pub or_name : Option String → Option String → Option String
or_name none name = name
or_name (some m) name = if str_eq m "" then name else some m

unfoldable pub look_up : Dict String → Option String → Option String
look_up models none = none
look_up models (some dev) = find dev models

-- `_event_model`
unfoldable pub event_model : Finds → Dict String → String → Option String
unfolding or_name look_up
event_model f models txt = or_name (look_up models (f.xml_dev txt)) (f.model_name txt)

-- `(d or {}).get("State")`; `none` also where it raises.
unfoldable pub state_in : Option Value → Option Value
state_in (some (obj fs)) = get "State" fs
state_in _ = none

unfoldable pub wm_state : Option String → Bool
wm_state none = false
wm_state (some t) = str_eq t "WM_STATE"

unfoldable pub mon_state {ℓ} : {M : Type ℓ} → Models M → String → Option Bytes → Option Value
unfolding state_in
mon_state ms model none = none
mon_state ms model (some blob) = state_in (find "monData_decoded" (decode_mondata ms blob model))

unfoldable pub state_of_xml {ℓ} :
    {M : Type ℓ} → Finds → Models M → String → Option String → Option Value
unfolding wm_state mon_state
state_of_xml f ms model none = none
state_of_xml f ms model (some xml) =
    if wm_state (f.event_type xml) then mon_state ms model (f.mon_data xml) else none

-- `_event_state`, for a model's name that is not empty
unfoldable pub event_state {ℓ} : {M : Type ℓ} → Finds → Models M → String → String → Option Value
unfolding state_of_xml
event_state f ms model txt = state_of_xml f ms model (f.diag_xml txt)

-- The sightings by device, and the last event by model.
pub record Seen : Type 0 where
  pub sightings : Dict ℕ
  pub events : Dict (ℕ × Value)

unfoldable pub note_state : ℕ → String → Option Value → Seen → Seen
unfolding truthy
note_state seen model none s = s
note_state seen model (some v) s =
    if truthy v then record s { events = put model (seen, v) s.events } else s

unfoldable pub note_event {ℓ} :
    {M : Type ℓ} → Finds → Models M → ℕ → String → Option String → Seen → Seen
unfolding note_state event_state
note_event f ms seen txt none s = s
note_event f ms seen txt (some model) s =
    if str_eq model "" then s else note_state seen model (event_state f ms model txt) s

-- A line with a stamp and a text; `none` where the stamp is no time of day.
unfoldable pub take_text {ℓ} :
    {M : Type ℓ} → Finds → Models M → Dict String → String → Option ℕ → Seen → Option Seen
unfolding bump_all note_event event_model
take_text f ms models txt none s = none
take_text f ms models txt (some seen) s =
    let s' : Seen = record s { sightings = bump_all (f.devs txt) seen s.sightings } in
    some (if f.is_event txt then note_event f ms seen txt (event_model f models txt) s' else s')

unfoldable pub take_found {ℓ} :
    {M : Type ℓ}
    → Finds
    → Models M
    → Dict String
    → ℕ
    → Option (ℕ × ℕ × ℕ)
    → Option String
    → Seen
    → Option Seen
unfolding take_text
take_found f ms models now (some stamp) (some txt) s =
    take_text f ms models txt (sighting_epoch stamp now) s
take_found f ms models now (some stamp) none s = some s
take_found f ms models now none o s = some s

unfoldable pub take_lines {ℓ} :
    {M : Type ℓ} → Finds → Models M → Dict String → ℕ → List Bytes → Option Seen → Option Seen
unfolding take_found
take_lines f ms models now lines none = none
take_lines f ms models now [] (some s) = some s
take_lines f ms models now (line ∷ lines) (some s) =
    take_lines f ms models now lines (take_found f ms models now (f.stamp line) (f.hex_text line) s)

unfoldable pub onto_first : ℕ → List Bytes → List Bytes
onto_first b [] = (b ∷ []) ∷ []
onto_first b (l ∷ ls) = (b ∷ l) ∷ ls

-- `blob.split(b"\n")`
unfoldable pub split_lines : Bytes → List Bytes
unfolding onto_first
split_lines [] = [] ∷ []
split_lines (b ∷ bs) = let rest = split_lines bs in if b == 10 then [] ∷ rest else onto_first b rest

-- A log at a poll: its size (`none`: an `OSError`), and what is read from it.
pub record Log : Type 0 where
  pub path : String
  pub size : Option ℕ
  pub content : Option Bytes

-- Nothing read is nothing to go through.
unfoldable pub lines_of : Bytes → List Bytes
unfolding split_lines
lines_of [] = []
lines_of (b ∷ bs) = split_lines (b ∷ bs)

put_offset : String → Option ℕ → Dict ℕ → Dict ℕ
put_offset path none offsets = offsets
put_offset path (some n) offsets = put path n offsets

-- What is read behind the offset; nothing where the log cannot be opened.
unfoldable pub blob_of : Option ℕ → ℕ → Option Bytes → Bytes
blob_of off size none = []
blob_of off size (some content) = (poll_path off size content).blob

unfoldable pub poll_log {ℓ} :
    {M : Type ℓ}
    → Finds
    → Models M
    → Dict String
    → ℕ
    → Log
    → Option ℕ
    → Dict ℕ × Option Seen
    → Dict ℕ × Option Seen
unfolding put_offset blob_of lines_of take_lines
poll_log f ms models now log none st = st
poll_log f ms models now log (some size) (offsets, s) = (
  put_offset log.path (poll_path (find log.path offsets) size []).offset offsets,
  take_lines f ms models now (lines_of (blob_of (find log.path offsets) size log.content)) s,
)

-- `RelayWatcher.poll`. A stamp that is no time of day raises, and ends the poll where it stands:
-- the offsets of the later logs stay.
unfoldable pub poll {ℓ} :
    {M : Type ℓ}
    → Finds
    → Models M
    → Dict String
    → ℕ
    → List Log
    → Dict ℕ × Option Seen
    → Dict ℕ × Option Seen
unfolding poll_log
poll f ms models now logs (offsets, none) = (offsets, none)
poll f ms models now [] (offsets, some s) = (offsets, some s)
poll f ms models now (log ∷ logs) (offsets, some s) =
    poll f ms models now logs (poll_log f ms models now log log.size (offsets, some s))
