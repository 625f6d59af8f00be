-- ===== src/Model/Binary.antt =====
-- `ModelInfo.decode_monitor_binary` of server/models/model_json.py. `str(value)` is an argument.
pub mod Values
use local_smarthinq.Prelude.{
  ℕ, zero, suc, ◌+◌, ◌*◌, ◌≤◌, ◌<◌, ◌≡◌, refl, ◌∙◌, String, Bool, true, false, Option, none, some,
  List, [], ◌∷◌, ◌++◌, arith, ltb, if◌then◌else◌, Bytes, IsBytes, length, take, drop, Dict, put,
  find,
}

-- One entry of `Monitoring.protocol`.
pub record Item : Type 0 where
  pub value : String
  pub start_byte : ℕ
  pub length : ℕ

-- `value = (value << 8) + v` over the field's bytes
unfoldable pub shift_in : ℕ → Bytes → ℕ
shift_in value [] = value
shift_in value (v ∷ vs) = shift_in (value * 256 + v) vs

-- A field's number; `none` is "Unknown", where the protocol declares more bytes than there are.
unfoldable pub decode_item : Bytes → Item → Option ℕ
unfolding shift_in
decode_item blob item =
    if ltb (length blob) (item.start_byte + item.length)
    then none
    else some (shift_in 0 (take item.length (drop item.start_byte blob)))

unfoldable pub friendly_number : (ℕ → String) → Option ℕ → String
friendly_number show none = "Unknown"
friendly_number show (some n) = show n

unfoldable pub decode_from : (ℕ → String) → Bytes → List Item → Dict String → Dict String
unfolding friendly_number decode_item
decode_from show blob [] decoded = decoded
decode_from show blob (item ∷ items) decoded =
    decode_from show blob items
      (put item.value (friendly_number show (decode_item blob item)) decoded)

unfoldable pub decode_monitor_binary : (ℕ → String) → Bytes → List Item → Dict String
unfolding decode_from
decode_monitor_binary show blob items = decode_from show blob items []
