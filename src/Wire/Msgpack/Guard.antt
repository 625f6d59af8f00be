-- ===== src/Wire/Msgpack/Guard.antt =====
-- The guard behind the loop of the msgpack reader, and what the reader does with bytes that are
-- no message.
use local_smarthinq.Prelude.{
  ℕ, zero, suc, ◌+◌, ◌≤◌, ◌<◌, ◌≡◌, refl, List, [], ◌∷◌, arith, true, ◌%◌, ◌&&◌, ltb, leb, eq_refl,
  if◌then◌else◌, Bytes, length,
}
use local_smarthinq.Json.{Value, null, Fields, end, field, set_field, Text}
use local_smarthinq.Wire.Msgpack.{
  read_map, value, read, read_all, msgbuf_sanity_limit, drop_mute, decode_messages,
}

-- With no message to show for it, the reader keeps 65536 bytes at most.
pub decode-mute :
    (t : Text) (buf : Bytes)
    → (decode_messages t buf).0 ≡ []
    → length (decode_messages t buf).1 ≤ msgbuf_sanity_limit
unfolding decode_messages set_field
decode-mute t buf h = mute (read_all t (length buf) buf) h
  where
    mute :
        (r : List Fields × Bytes)
        → (drop_mute r).0 ≡ []
        → length (drop_mute r).1 ≤ msgbuf_sanity_limit
    mute ([], rest) h = ground arith
    mute (msg ∷ msgs, rest) h = absurd (ground arith)

-- A byte below 128 in front is no message: whatever stands behind it, valid messages too, is kept
-- unread up to 65536 bytes, and past that dropped whole.
pub decode-fixint :
    (t : Text) (b : ℕ) (bs : Bytes)
    → b < 128
    → decode_messages t (b ∷ bs)
      ≡ (if ltb msgbuf_sanity_limit (length (b ∷ bs)) then ([], []) else ([], b ∷ bs))
unfolding decode_messages set_field
decode-fixint t b bs h = ground arith

-- Reading entries from an empty buffer enters `None` under the key "None".
read_map-empty :
    (t : Text) (fuel n : ℕ)
    → read_map t (read t (suc fuel)) n (field (t.show null) null end) []
      ≡ value (Value.obj (field (t.show null) null end)) []
unfolding read_map read set_field
read_map-empty t fuel zero = refl
read_map-empty t fuel (suc n) = rw (eq_refl (t.show null)) (read_map-empty t fuel n)

-- The one byte that announces a map of 1 to 15 entries, with no entry behind it, is not waited
-- on: it is delivered as the message that holds `None` under the text of `None`.
pub decode-truncated_map :
    (t : Text) (n : ℕ)
    → 0 < n
    → n < 16
    → decode_messages t ((128 + n) ∷ []) ≡ (field (t.show null) null end ∷ [], [])
unfolding decode_messages set_field
decode-truncated_map t zero h k = absurd (omega arith)
decode-truncated_map t (suc n) h k =
    let is_map : (leb 128 (128 + suc n) && leb (128 + suc n) 143) ≡ true = ground arith in
    let entries : (128 + suc n) % 16 ≡ suc n = omega arith in
    rw (is_map, entries, read_map-empty t 0 n)
