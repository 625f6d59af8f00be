-- ===== src/Tests/Ages.antt =====
-- A pass of the observability loop.
use local_smarthinq.Prelude.{
  ℕ, ◌-◌, ◌≡◌, refl, true, String, Option, none, some, [], ◌∷◌, arith, Dict, find, put,
}
use local_smarthinq.Json.{str}
use local_smarthinq.Observe.Ages.{model_of, pass, sink_calls}
use local_smarthinq.Observe.Ages.Fresh.{IsReported, pass-fresh}

abbrev no_iso : String → Option ℕ
no_iso s = none

abbrev show : ℕ → String
show n = "1000"

abbrev models : Dict String
models = ("w1", "WTWN3") ∷ ("d1", "RC90U2_WW") ∷ []

abbrev sightings : Dict ℕ
sightings = ("w1", 999000) ∷ []

abbrev memory : Dict ℕ
memory = ("w1", 998000) ∷ ("d1", 100) ∷ ("gone", 999500) ∷ []

w1_seen : find "w1" sightings ≡ some 999000
unfolding find
w1_seen = refl

w1_known : model_of models "w1" ≡ some "WTWN3"
unfolding model_of find
w1_known = refl

-- The dryer's sighting is older than seven days, and the third device has no model.
washer_alone : (pass no_iso models [] memory sightings 1000000).ages ≡ ("WTWN3", 1000) ∷ []
unfolding pass put find
washer_alone = refl

-- Only the washer is reported.
washer_reported :
    sink_calls true show models [] [] (pass no_iso models [] memory sightings 1000000).ages
    ≡ ("w1", ("modelName", str "WTWN3") ∷ ("last_frame_age", str "1000") ∷ []) ∷ []
unfolding sink_calls pass put find
washer_reported = refl

pass-fresh_example :
    IsReported show models
      (sink_calls true show models [] [] (pass no_iso models [] memory sightings 1000000).ages)
      "WTWN3"
      (1000000 - 999000)
pass-fresh_example =
    pass-fresh no_iso show models [] [] memory sightings 1000000 "w1" "WTWN3" 999000 w1_seen
      w1_known (omega arith)
