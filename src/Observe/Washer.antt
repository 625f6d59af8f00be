-- ===== src/Observe/Washer.antt =====
-- The follower of the relay's log in server/wm_local_bridge.py: `washer_snapshot`, the warnings,
-- and the rounds of `main`. Times are whole seconds, and one reading of the clock counts for a
-- round. Opening the log, its truncation and the pushes to MQTT and to REST are not modelled: what
-- is published, and the two warnings, stand in `outputs`, the newest first.
pub mod Blank
use local_smarthinq.Prelude.{
  ℕ, ◌-◌, String, Bool, true, false, ◌&&◌, ◌||◌, not, Option, none, some, List, [], ◌∷◌,
  if◌then◌else◌, str_eq, ltb, Bytes, Dict, find,
}
use local_smarthinq.Json.{Value, str, obj, Fields, get, Loads}
use local_smarthinq.Control.Protocol.{get_object, is_text, get_text}
use local_smarthinq.Mqtt.View.{truthy, one_of}
use local_smarthinq.Observe.Records.{records_from_hex}

-- A decoded state.
abbrev pub Snap : Type 0
Snap = Dict String

abbrev pub blank : List String
blank = "" ∷ "unknown" ∷ "unavailable" ∷ "none" ∷ "None" ∷ "-" ∷ []

abbrev pub terminal_states : List String
terminal_states = "WM_STATE_POWER_OFF" ∷ "WM_STATE_END" ∷ []

-- `any(v not in BLANK for v in snap.values())`
unfoldable pub any_real : Snap → Bool
unfolding one_of
any_real [] = false
any_real ((k, v) ∷ snap) = not (one_of v blank) || any_real snap

unfoldable pub usable_snapshot : Option Snap → Bool
unfolding any_real
usable_snapshot none = false
usable_snapshot (some snap) = any_real snap

-- `str(last_state)`; no state reads "None".
unfoldable pub state_name : Option String → String
state_name none = "None"
state_name (some s) = s

unfoldable pub should_warn_washer_dark : Option String → ℕ → ℕ → Bool → Bool
unfolding state_name one_of
should_warn_washer_dark last_state snap_age line_age warned =
    not warned
    && ltb 1800 snap_age
    && ltb line_age 60
    && not (one_of (state_name last_state) terminal_states)

-- What the code calls: `LINE_RE` (whether the line is the appliance's, and its digits),
-- `bytes.fromhex`, `json.loads`, `base64.b64decode`, the decoder of the model; `none` where one
-- raises.
pub record Decoding : Type 0 where
  pub line_re : Bytes → Option (Bool × String)
  pub from_hex : String → Option Bytes
  pub loads : Loads
  pub b64decode : Value → Option Bytes
  pub decode : Bytes → Option Snap

unfoldable pub or_last : Option Snap → Option Snap → Option Snap
or_last last none = last
or_last last (some snap) = some snap

unfoldable pub decode_blob : Decoding → Option Bytes → Option Snap
decode_blob d none = none
decode_blob d (some blob) = d.decode blob

unfoldable pub decode_body : Decoding → Fields → Option Snap → Option Snap
unfolding or_last decode_blob is_text get_text truthy
decode_body d body last =
    if is_text "B64" (get_text "Format" body) && truthy (get_text "Data" body)
    then or_last last (decode_blob d (d.b64decode (get_text "Data" body)))
    else last

unfoldable pub is_device : String → Option Value → Bool
is_device device (some (str s)) = str_eq s device
is_device device _ = false

-- A message with its header and body; `none` where a `get` on what is no
-- object raises.
unfoldable pub take_message :
    Decoding → String → Option Fields → Option Fields → Option Snap → Option (Option Snap)
unfolding is_device decode_body
take_message d device (some header) (some body) last =
    some
      (if is_device device (get "x-lgedm-deviceId" header) then decode_body d body last else last)
take_message d device (some header) none last =
    if is_device device (get "x-lgedm-deviceId" header) then none else some last
take_message d device none body last = none

-- One record: what is no JSON is passed over, what is no object raises.
unfoldable pub take_record : Decoding → String → Option Value → Option Snap → Option (Option Snap)
unfolding take_message get_object
take_record d device none last = some last
take_record d device (some (obj msg)) last =
    take_message d device (get_object "Header" msg) (get_object "Body" msg) last
take_record d device (some v) last = none

unfoldable pub take_records :
    Decoding → String → List Bytes → Option (Option Snap) → Option (Option Snap)
unfolding take_record
take_records d device recs none = none
take_records d device [] (some last) = some last
take_records d device (r ∷ recs) (some last) =
    take_records d device recs (take_record d device (d.loads r) last)

unfoldable pub of_hex : Decoding → String → Option Bytes → Option (Option Snap)
unfolding take_records records_from_hex
of_hex d device none = none
of_hex d device (some buf) = take_records d device (records_from_hex buf) (some none)

unfoldable pub of_line : Decoding → String → Option (Bool × String) → Option (Option Snap)
unfolding of_hex
of_line d device none = some none
of_line d device (some (false, digits)) = some none
of_line d device (some (true, digits)) = of_hex d device (d.from_hex digits)

-- The last snapshot of a line, if any; the outer `none` is an exception.
unfoldable pub washer_snapshot : Decoding → String → Bytes → Option (Option Snap)
unfolding of_line
washer_snapshot d device line = of_line d device (d.line_re line)

pub data Output : Type 0 where
  publish : Snap → Output
  relay_quiet washer_dark : Output

pub record Follower : Type 0 where
  pub last : Snap
  pub last_beat : ℕ
  pub last_line : ℕ
  pub last_snap : ℕ
  pub quiet_warned : Bool
  pub washer_quiet_warned : Bool
  pub outputs : List Output

-- `if snap: last = snap`
unfoldable pub tail_snap : Snap → Option Snap → Snap
tail_snap last none = last
tail_snap last (some []) = last
tail_snap last (some (i ∷ snap)) = i ∷ snap

-- The replay of the log's tail, from the snapshots of its lines.
unfoldable pub tail_last : Snap → List (Option Snap) → Snap
unfolding tail_snap
tail_last last [] = last
tail_last last (o ∷ os) = tail_last (tail_snap last o) os

-- The state in which the loop starts.
unfoldable pub begin : ℕ → List (Option Snap) → Follower
unfolding tail_last any_real
begin now tail =
    let last = tail_last [] tail in
    record {
      last = last;
      last_beat = now;
      last_line = now;
      last_snap = now;
      quiet_warned = false;
      washer_quiet_warned = false;
      outputs = if any_real last then publish last ∷ [] else [];
    }

unfoldable pub not_empty : Snap → Bool
not_empty [] = false
not_empty (i ∷ snap) = true

unfoldable pub warn_quiet : ℕ → Follower → Follower
warn_quiet now f =
    if not f.quiet_warned && ltb 900 (now - f.last_line)
    then record f { quiet_warned = true; outputs = relay_quiet ∷ f.outputs }
    else f

unfoldable pub warn_dark : ℕ → Follower → Follower
unfolding should_warn_washer_dark
warn_dark now f =
    if should_warn_washer_dark (find "State" f.last) (now - f.last_snap) (now - f.last_line)
      f.washer_quiet_warned
    then record f { washer_quiet_warned = true; outputs = washer_dark ∷ f.outputs }
    else f

unfoldable pub heartbeat : ℕ → Follower → Follower
unfolding not_empty
heartbeat now f =
    if not_empty f.last && ltb 300 (now - f.last_beat)
    then record f { last_beat = now; outputs = publish f.last ∷ f.outputs }
    else f

-- A round in which no line is read.
unfoldable pub idle : ℕ → Follower → Follower
unfolding warn_quiet warn_dark heartbeat
idle now f = heartbeat now (warn_dark now (warn_quiet now f))

unfoldable pub heard : ℕ → Follower → Follower
heard now f = record f { last_line = now; quiet_warned = false }

unfoldable pub refresh : ℕ → Option Snap → Follower → Follower
unfolding usable_snapshot
refresh now snap f =
    if usable_snapshot snap then record f { last_snap = now; washer_quiet_warned = false } else f

-- `if snap and snap != last and any(...)`; `same` is the equality of dictionaries.
unfoldable pub publish_new : (Snap → Snap → Bool) → ℕ → Option Snap → Follower → Follower
publish_new same now none f = f
publish_new same now (some snap) f =
    if not_empty snap && not (same snap f.last) && any_real snap
    then record f { last = snap; last_beat = now; outputs = publish snap ∷ f.outputs }
    else f

-- A round in which a line with this snapshot is read.
unfoldable pub on_snapshot : (Snap → Snap → Bool) → ℕ → Option Snap → Follower → Follower
unfolding heard refresh publish_new
on_snapshot same now snap f = publish_new same now snap (refresh now snap (heard now f))

-- The inputs of the rounds, each at its time.
pub data Input : Type 0 where
  no_line : Input
  line : Option Snap → Input

unfoldable pub follow : (Snap → Snap → Bool) → List (ℕ × Input) → Follower → Follower
unfolding idle on_snapshot
follow same [] f = f
follow same ((now, no_line) ∷ rounds) f = follow same rounds (idle now f)
follow same ((now, line snap) ∷ rounds) f = follow same rounds (on_snapshot same now snap f)
