-- ===== src/Tests/State.antt =====
-- The state store on a report and a snapshot.
use Prim.Native.String.{◌++◌ as join}
use local_smarthinq.Prelude.{◌≡◌, refl, String, true, some, List, [], ◌∷◌, inl, inr, find}
use local_smarthinq.Json.{str}
use local_smarthinq.Model.Registry.{Models}
use local_smarthinq.State.{DeviceStateStore, ingest_mondata}
use local_smarthinq.State.Replay.{
  IsValid, replay, Input, report, pump, ingest_all, ingest_all-IsValid,
}
use local_smarthinq.State.Pump.{undecoded, IsWarned, ingest_mondata-degraded}

abbrev start : DeviceStateStore
start = record {
  latest = [];
  model_by_devid = [];
  warned = [];
  has_sink = true;
  log = [];
  published = [];
}

start-IsValid : IsValid start
unfolding replay
start-IsValid = record { replayed = refl; known = tt }

abbrev models : Models String
models = record { model_json_for = λ name. some name; decode = λ blob m. inr (str "RUNNING") }

abbrev inputs : List (Input String)
inputs =
    report
      (record {
        dev_id = "d";
        model_name = "WTWN3";
        payloads =
            (("diagMonType", str "WM_STATE") ∷ []) ∷ (("diagMonType", str "UNKNOWN") ∷ []) ∷ [];
      })
      "t1"
    ∷ pump models "d" (1 ∷ []) "t2"
    ∷ []

ingest_all-IsValid_example : IsValid (ingest_all inputs start)
ingest_all-IsValid_example = ingest_all-IsValid inputs start start-IsValid

-- A decoder that always raises.
abbrev raising : Models String
raising = record { model_json_for = λ name. some name; decode = λ blob m. inl "short blob" }

abbrev mapped_store : DeviceStateStore
mapped_store = record start {
  model_by_devid = ("d", "WTWN3") ∷ [];
  warned = ("d", "unmapped") ∷ [];
}

found_d : find "d" mapped_store.model_by_devid ≡ some "WTWN3"
unfolding find
found_d = refl

ingest_mondata-degraded_example :
    IsWarned "d"
      (join "note:" (join "monData decode failed: " "short blob"))
      mapped_store
      (ingest_mondata raising "d" (1 ∷ []) "t" mapped_store)
    × (ingest_mondata raising "d"
          (1 ∷ [])
          "t2"
          (ingest_mondata raising "d" (1 ∷ []) "t" mapped_store)
        ≡ ingest_mondata raising "d" (1 ∷ []) "t" mapped_store)
ingest_mondata-degraded_example =
    ingest_mondata-degraded raising "d" (1 ∷ []) "t" "t2"
      (join "note:" (join "monData decode failed: " "short blob")) mapped_store
      (undecoded "WTWN3" "WTWN3" "short blob" found_d refl refl refl)
