-- ===== src/Mqtt/Lazy.antt =====
-- `_LazySink` of server/mqtt_bridge.py: the broker is tried again at each call until it answers.
-- Whether it does is an argument.
use local_smarthinq.Prelude.{
  ◌≡◌, refl, String, Bool, true, false, Option, none, some, List, [], ◌∷◌, if◌then◌else◌,
}
use local_smarthinq.Model.Registry.{Payload}
use local_smarthinq.Mqtt.Sink.{Setup, Sink, start, call, calls}

pub record LazySink : Type 0 where
  pub allow_control : Bool
  pub sink : Option Sink
  pub logged_down : Bool

-- `_connect_locked`
unfoldable pub connect : Bool → LazySink → LazySink
connect answers l =
    if answers
    then record l { sink = some (start l.allow_control) }
    else record l { logged_down = true }

unfoldable pub ensured : Bool → LazySink → Option Sink → LazySink
unfolding connect
ensured answers l (some s) = l
ensured answers l none = connect answers l

-- `_ensure`
unfoldable pub ensure : Bool → LazySink → LazySink
unfolding ensured
ensure answers l = ensured answers l l.sink

unfoldable pub passed_on : Setup → String → Payload → LazySink → Option Sink → LazySink
passed_on su dev_id p l none = l
passed_on su dev_id p l (some s) = record l { sink = some (call su dev_id p s) }

unfoldable pub lazy_call : Setup → Bool → String → Payload → LazySink → LazySink
unfolding passed_on ensure
lazy_call su answers dev_id p l = let l' = ensure answers l in passed_on su dev_id p l' l'.sink

-- The calls of a run, each with whether the broker answers.
unfoldable pub lazy_calls : Setup → List (Bool × (String × Payload)) → LazySink → LazySink
unfolding lazy_call
lazy_calls su [] l = l
lazy_calls su ((answers, (dev_id, p)) ∷ ps) l = lazy_calls su ps (lazy_call su answers dev_id p l)

unfoldable pub payloads : List (Bool × (String × Payload)) → List (String × Payload)
payloads [] = []
payloads ((answers, p) ∷ ps) = p ∷ payloads ps

-- The payloads from the first call on at which the broker answers.
unfoldable pub from_answer : List (Bool × (String × Payload)) → List (String × Payload)
unfolding payloads
from_answer [] = []
from_answer ((true, p) ∷ ps) = p ∷ payloads ps
from_answer ((false, p) ∷ ps) = from_answer ps

-- The sink behind the calls, where the broker has answered.
unfoldable pub sink_after : Setup → Bool → List (String × Payload) → Option Sink
sink_after su allow [] = none
sink_after su allow (p ∷ ps) = some (calls su (p ∷ ps) (start allow))

lazy_calls-some :
    (su : Setup) (ps : List (Bool × (String × Payload))) (allow down : Bool) (s : Sink)
    → (lazy_calls su ps (record { allow_control = allow; sink = some s; logged_down = down })).sink
      ≡ some (calls su (payloads ps) s)
unfolding lazy_calls lazy_call passed_on ensure calls payloads
lazy_calls-some su [] allow down s = refl
lazy_calls-some su ((answers, (dev_id, p)) ∷ ps) allow down s =
    lazy_calls-some su ps allow down (call su dev_id p s)

-- The lazy sink is the sink that starts at the first call at which the broker answers: the payloads
-- before it are lost, and all from it on are passed on, in their order, whatever the broker does
-- later.
pub lazy_calls-calls :
    (su : Setup) (ps : List (Bool × (String × Payload))) (allow down : Bool)
    → (lazy_calls su ps (record { allow_control = allow; sink = none; logged_down = down })).sink
      ≡ sink_after su allow (from_answer ps)
unfolding lazy_calls lazy_call passed_on ensure from_answer sink_after calls
lazy_calls-calls su [] allow down = refl
lazy_calls-calls su ((true, (dev_id, p)) ∷ ps) allow down =
    lazy_calls-some su ps allow down (call su dev_id p (start allow))
lazy_calls-calls su ((false, (dev_id, p)) ∷ ps) allow down = lazy_calls-calls su ps allow true
