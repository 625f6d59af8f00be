-- ===== src/Observe/Loop.antt =====
-- server/observability.py: `scan_whole_file`, `model_of_event`, and the passes of `_loop`. Times
-- are whole seconds; whether a view's text holds a device's id is an argument.
pub mod Seed
use local_smarthinq.Prelude.{
  ℕ, String, Bool, true, false, Option, none, some, List, [], ◌∷◌, if◌then◌else◌, str_eq, Bytes,
  Dict, find,
}
use local_smarthinq.Json.{Value}
use local_smarthinq.Model.Registry.{Models, Payload}
use local_smarthinq.Observe.Lines.{bump_all, sighting_epoch, Finds, Seen, split_lines, Log, poll}
use local_smarthinq.Observe.Ages.{true_text, model_of, pass, sink_calls}

unfoldable pub bump_seen : List String → Option ℕ → Dict ℕ → Option (Dict ℕ)
unfolding bump_all
bump_seen devs none out = none
bump_seen devs (some seen) out = some (bump_all devs seen out)

-- A line of the file; `none` where its stamp is no time of day.
unfoldable pub scan_found :
    Finds → ℕ → Option (ℕ × ℕ × ℕ) → Option String → Dict ℕ → Option (Dict ℕ)
unfolding bump_seen sighting_epoch
scan_found f now (some stamp) (some txt) out = bump_seen (f.devs txt) (sighting_epoch stamp now) out
scan_found f now (some stamp) none out = some out
scan_found f now none o out = some out

unfoldable pub scan_lines : Finds → ℕ → List Bytes → Option (Dict ℕ) → Option (Dict ℕ)
unfolding scan_found
scan_lines f now lines none = none
scan_lines f now [] (some out) = some out
scan_lines f now (line ∷ lines) (some out) =
    scan_lines f now lines (scan_found f now (f.stamp line) (f.hex_text line) out)

-- `scan_whole_file`, of a file that cannot be opened too.
unfoldable pub scan_whole_file : Finds → ℕ → Option Bytes → Option (Dict ℕ)
unfolding scan_lines split_lines
scan_whole_file f now none = some []
scan_whole_file f now (some blob) = scan_lines f now (split_lines blob) (some [])

unfoldable pub named_in : (Payload → Bool) → Option String → Payload → Option String → Option String
named_in mentions none view later = later
named_in mentions (some model) view later = if mentions view then some model else later

unfoldable pub in_views : (Payload → Bool) → Dict Payload → Option String
unfolding named_in true_text
in_views mentions [] = none
in_views mentions ((k, view) ∷ latest) =
    named_in mentions (true_text (find "modelName" view)) view (in_views mentions latest)

unfoldable pub or_views : Option String → Option String → Option String
or_views none views = views
or_views (some model) views = some model

unfoldable pub model_of_event :
    (Payload → String → Bool) → Dict String → Dict Payload → String → Option String
unfolding model_of in_views or_views
model_of_event mentions models latest dev =
    or_views (model_of models dev) (in_views (λ view. mentions view dev) latest)

-- The watcher's offsets, and the memory.
pub record Observing : Type 0 where
  pub offsets : Dict ℕ
  pub memory : Dict ℕ

-- A pass at a time, with what it finds in the logs and in the store.
pub record Round : Type 0 where
  pub now : ℕ
  pub logs : List Log
  pub latest : Dict Payload

unfoldable pub publish :
    Bool
    → (String → Option ℕ)
    → (ℕ → String)
    → Dict String
    → Round
    → Dict ℕ
    → Dict ℕ × Option Seen
    → Observing × List (String × Payload)
unfolding pass sink_calls
publish has_sink from_iso show models r memory (offsets, none) =
    (record { offsets = offsets; memory = memory }, [])
publish has_sink from_iso show models r memory (offsets, some s) =
    let p = pass from_iso models r.latest memory s.sightings r.now in
    (
      record { offsets = offsets; memory = p.memory },
      sink_calls has_sink show models r.latest s.events p.ages,
    )

-- The body of the loop: where the poll raises, the pass is given up.
unfoldable pub loop_pass {ℓ} :
    {M : Type ℓ}
    → Finds
    → Models M
    → Bool
    → (String → Option ℕ)
    → (ℕ → String)
    → Dict String
    → Round
    → Observing
    → Observing × List (String × Payload)
unfolding publish poll
loop_pass f ms has_sink from_iso show models r o =
    publish has_sink from_iso show models r o.memory
      (poll f ms models r.now r.logs (o.offsets, some (record { sightings = []; events = [] })))
