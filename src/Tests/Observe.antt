-- ===== src/Tests/Observe.antt =====
-- The relay's log on a few bytes.
use local_smarthinq.Prelude.{◌≡◌, refl, some, List, [], ◌∷◌, Bytes}
use local_smarthinq.Observe.Follow.{poll_path, follow, joined, follow-joined, poll_path-twice}
use local_smarthinq.Observe.Records.{
  records_from_hex, IsFramed, no_records, record_then, records_from_hex-IsFramed,
}
use local_smarthinq.Wire.Len4.{from_be}

abbrev chunks : List Bytes
chunks = (7 ∷ 8 ∷ []) ∷ [] ∷ (9 ∷ []) ∷ []

follow-joined_example : follow (some 2) (1 ∷ 2 ∷ []) chunks ≡ joined chunks
follow-joined_example = follow-joined (1 ∷ 2 ∷ []) chunks

abbrev line : Bytes
line = 0 ∷ 0 ∷ 0 ∷ 2 ∷ 5 ∷ 6 ∷ 0 ∷ 0 ∷ 0 ∷ 1 ∷ 7 ∷ []

line-IsFramed : IsFramed ((5 ∷ 6 ∷ []) ∷ (7 ∷ []) ∷ []) line
unfolding from_be
line-IsFramed = record_then 0 0 0 2 5 (6 ∷ []) refl (record_then 0 0 0 1 7 [] refl no_records)

records_from_hex-IsFramed_example : records_from_hex line ≡ (5 ∷ 6 ∷ []) ∷ (7 ∷ []) ∷ []
records_from_hex-IsFramed_example =
    records_from_hex-IsFramed ((5 ∷ 6 ∷ []) ∷ (7 ∷ []) ∷ []) line line-IsFramed

poll_path-twice_example :
    ((poll_path (some 1) 2 (1 ∷ 2 ∷ 3 ∷ [])).blob ≡ 2 ∷ 3 ∷ [])
    × ((poll_path (poll_path (some 1) 2 (1 ∷ 2 ∷ 3 ∷ [])).offset 4 (1 ∷ 2 ∷ 3 ∷ 4 ∷ [])).blob
        ≡ 3 ∷ 4 ∷ [])
poll_path-twice_example = poll_path-twice (1 ∷ []) 2 [] 3 [] (4 ∷ [])
