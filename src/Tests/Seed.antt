-- ===== src/Tests/Seed.antt =====
-- A washer that is seen before and behind the start, and a dryer that is seen behind it.
use local_smarthinq.Prelude.{
  ℕ, ◌≡◌, refl, String, false, none, some, List, [], ◌∷◌, ◌++◌, Bytes, Dict, find, put, inl,
}
use local_smarthinq.Model.Registry.{Models}
use local_smarthinq.Observe.Lines.{Finds, Seen, take_lines, sighting_epoch}
use local_smarthinq.Observe.Ages.{merge_sightings}
use local_smarthinq.Observe.Loop.{scan_lines}
use local_smarthinq.Observe.Loop.Seed.{Same, seed-poll}

-- The first byte of a line is its second, and the number of the others its device.
abbrev finds : Finds
finds = record {
  stamp = λ line. elim line [ [] ↦ none | b ∷ bs ↦ some (0, 1, b) ];
  hex_text =
      λ line. elim line [ [] ↦ none | b ∷ bs ↦ elim bs [ [] ↦ some "w1" | _ ∷ _ ↦ some "d1" ] ];
  devs = λ txt. txt ∷ [];
  is_event = λ txt. false;
  xml_dev = λ txt. none;
  model_name = λ txt. none;
  diag_xml = λ txt. none;
  event_type = λ txt. none;
  mon_data = λ txt. none;
}

abbrev models : Models String
models = record { model_json_for = λ name. none; decode = λ blob m. inl "" }

abbrev before : List Bytes
before = (7 ∷ []) ∷ [] ∷ []

abbrev after : List Bytes
after = (9 ∷ 0 ∷ []) ∷ (8 ∷ []) ∷ []

abbrev polled : Seen
polled = record { sightings = ("d1", 69) ∷ ("w1", 68) ∷ []; events = [] }

seeded : scan_lines finds 1000 before (some []) ≡ some (("w1", 67) ∷ [])
unfolding scan_lines find put
seeded = refl

seen :
    take_lines finds models [] 1000 after (some (record { sightings = []; events = [] }))
    ≡ some polled
unfolding take_lines find put sighting_epoch
seen = refl

seed-poll_example :
    (whole : Dict ℕ) × (scan_lines finds 1000 (before ++ after) (some []) ≡ some whole)
    × Same (merge_sightings polled.sightings (("w1", 67) ∷ [])) whole
seed-poll_example = seed-poll finds models [] 1000 before after (("w1", 67) ∷ []) polled seeded seen
