-- ===== src/Model/Washer.antt =====
-- The washer's own reading of its bytes (server/models/washer_wtwn3.py).
use local_smarthinq.Prelude.{
  ℕ, ◌/◌, ◌%◌, String, Bool, true, false, Option, none, some, List, [], ◌∷◌, if◌then◌else◌, ◌==◌,
  Dict, find, put,
}
use local_smarthinq.Json.{Value, bool, num, obj, Fields, get, set_field}
use local_smarthinq.Model.Registry.{Payload}

abbrev pub opt1_bits : List (String × ℕ)
opt1_bits =
    ("opt_turbowash", 1)
    ∷ ("opt_crease_care", 2)
    ∷ ("opt_medic_rinse", 16)
    ∷ ("opt_pre_wash", 64)
    ∷ ("opt_steam", 128)
    ∷ []

abbrev pub opt2_bits : List (String × ℕ)
opt2_bits = ("opt_remote_start", 2) ∷ ("opt_door_lock", 64) ∷ ("opt_child_lock", 128) ∷ []

-- `value & mask`, for a mask of one bit
unfoldable pub has_bit : ℕ → ℕ → Bool
has_bit value mask = (value / mask) % 2 == 1

unfoldable pub set_bits : ℕ → List (String × ℕ) → Dict String → Dict String
unfolding has_bit
set_bits value [] decoded = decoded
set_bits value ((name, mask) ∷ bits) decoded =
    set_bits value bits (put name (if has_bit value mask then "on" else "off") decoded)

-- `int(str(raw))`; `none` where it raises. The states are texts of numbers without a sign.
unfoldable pub set_flags : Option ℕ → List (String × ℕ) → Dict String → Dict String
unfolding set_bits
set_flags none bits decoded = decoded
set_flags (some value) bits decoded = set_bits value bits decoded

unfoldable pub int_of : (String → Option ℕ) → Option String → Option ℕ
int_of to_int none = none
int_of to_int (some raw) = to_int raw

unfoldable pub enrich_decoded : (String → Option ℕ) → Dict String → Dict String
unfolding set_flags int_of
enrich_decoded to_int decoded =
    let one = set_flags (int_of to_int (find "Option1" decoded)) opt1_bits decoded in
    set_flags (int_of to_int (find "Option2" one)) opt2_bits one

-- `_CYCLE_ACTIVE.get(v, v)`
unfoldable pub cycle_active : Value → Value
cycle_active (num n) = if n == 1 then bool true else if n == 2 then bool false else num n
cycle_active v = v

unfoldable pub read_active : Fields → Option Value → Fields
unfolding cycle_active
read_active node none = node
read_active node (some v) = set_field "cycle_active" (cycle_active v) node

unfoldable pub read_node : String → Option Value → Payload → Payload
unfolding read_active
read_node key (some (obj node)) p = put key (obj (read_active node (get "cycle_active" node))) p
read_node key _ p = p

-- `_apply_washer_reads`
unfoldable pub apply_washer_reads : Payload → Payload
unfolding read_node
apply_washer_reads p =
    let p' = read_node "monData" (find "monData" p) p in read_node "option" (find "option" p') p'
