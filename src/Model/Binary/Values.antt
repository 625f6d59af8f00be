-- ===== src/Model/Binary/Values.antt =====
-- The numbers that the decoder reads.
use local_smarthinq.Prelude.{
  length-take, ℕ, zero, suc, ◌+◌, ◌*◌, ◌/◌, ◌%◌, ◌≤◌, ◌<◌, ◌≡◌, ◌≢◌, refl, subst, ◌∙◌, false,
  le→ltb, All, length-append, take-append, drop-append, String, none, some, List, [], ◌∷◌, ◌++◌,
  arith, ltb, Bytes, IsBytes, length, take, drop, length-drop, Dict, put, find, find-put, eq_iff,
}
use local_smarthinq.Model.Binary.{
  Item, shift_in, decode_item, friendly_number, decode_from, decode_monitor_binary,
}

-- 256 ^ n
abbrev pub radix : ℕ → ℕ
radix zero = 1
radix (suc n) = 256 * radix n

-- One byte, then `p` more: with `p` for the weight of the rest.
shift_lt : (value v p n : ℕ) → v < 256 → n < (value * 256 + v + 1) * p → n < (value + 1) * (256 * p)
shift_lt value v p n small h = grind arith

shift_in-lt :
    (value : ℕ) (bs : Bytes) → IsBytes bs → shift_in value bs < (value + 1) * radix (length bs)
unfolding shift_in
shift_in-lt value [] h = omega arith
shift_in-lt value (v ∷ vs) (small, rest) =
    shift_lt value v (radix (length vs)) (shift_in (value * 256 + v) vs) small
      (shift_in-lt (value * 256 + v) vs rest)

-- `n` in `k` bytes, the most significant first.
pub big_endian : ℕ → ℕ → Bytes
big_endian zero n = []
big_endian (suc k) n = big_endian k (n / 256) ++ n % 256 ∷ []

length-big_endian : (k n : ℕ) → length (big_endian k n) ≡ k
unfolding big_endian
length-big_endian zero n = refl
length-big_endian (suc k) n = omega (
  arith,
  length-append {0} (big_endian k (n / 256)) (n % 256 ∷ []),
  length-big_endian k (n / 256),
)

shift_in-concat :
    (value v : ℕ) (bs : Bytes) → shift_in value (bs ++ v ∷ []) ≡ shift_in value bs * 256 + v
unfolding shift_in
shift_in-concat value v [] = refl
shift_in-concat value v (b ∷ bs) = shift_in-concat (value * 256 + b) v bs

shift_in-big_endian : (k n : ℕ) → n < radix k → shift_in 0 (big_endian k n) ≡ n
unfolding big_endian
shift_in-big_endian zero n h = unfold shift_in in omega arith
shift_in-big_endian (suc k) n h = omega (
  arith,
  shift_in-concat 0 (n % 256) (big_endian k (n / 256)),
  shift_in-big_endian k (n / 256) (omega arith),
)

IsBytes-take : (n : ℕ) (bs : Bytes) → IsBytes bs → IsBytes (take n bs)
IsBytes-take zero bs h = tt
IsBytes-take (suc n) [] h = tt
IsBytes-take (suc n) (b ∷ bs) (small, h) = (small, IsBytes-take n bs h)

IsBytes-drop : (n : ℕ) (bs : Bytes) → IsBytes bs → IsBytes (drop n bs)
IsBytes-drop zero bs h = h
IsBytes-drop (suc n) [] h = tt
IsBytes-drop (suc n) (b ∷ bs) (small, h) = IsBytes-drop n bs h

-- A field is decoded exactly if it lies inside the blob, and then its number fits its width.
pub decode_item_bounds :
    (blob : Bytes) (item : Item)
    → IsBytes blob
    → (length blob < item.start_byte + item.length → decode_item blob item ≡ none)
      × (item.start_byte + item.length ≤ length blob
          → (n : ℕ) × (decode_item blob item ≡ some n) × (n < radix item.length))
unfolding decode_item
decode_item_bounds blob item h =
    let bytes = take item.length (drop item.start_byte blob) in
    (
      λ past. ground arith,
      λ inside.
          let full : length bytes ≡ item.length =
            length-take item.length (drop item.start_byte blob)
              (omega (arith, length-drop {0} item.start_byte blob)) in
          (
            shift_in 0 bytes,
            ground arith,
            omega (
              arith,
              subst (λ k. shift_in 0 bytes < 1 * radix k) full
                  (shift_in-lt 0 bytes
                    (IsBytes-take item.length _ (IsBytes-drop item.start_byte blob h))),
            ),
          ),
    )

decode_item-big_endian :
    (before after : Bytes) (key : String) (k n : ℕ)
    → n < radix k
    → decode_item
        (before ++ (big_endian k n ++ after))
        (record { value = key; start_byte = length before; length = k })
      ≡ some n
unfolding decode_item
decode_item-big_endian before after key k n h =
    let field = big_endian k n in
    let width = length-big_endian k n in
    let inside : ltb (length (before ++ (field ++ after))) (length before + k) ≡ false =
      le→ltb _ _ (
        omega (
          arith,
          width,
          length-append {0} before (field ++ after),
          length-append {0} field after,
        )) in
    let bytes : take k (field ++ after) ≡ field =
      subst (λ m. take m (field ++ after) ≡ field) width (take-append field after) in
    rw (inside, drop-append before (field ++ after), bytes, shift_in-big_endian k n h)

find-decode_from_other :
    (show : ℕ → String) (blob : Bytes) (items : List Item) (k : String) (d : Dict String)
    → All (λ i. i.value ≢ k) items
    → find k (decode_from show blob items d) ≡ find k d
unfolding decode_from
find-decode_from_other show blob [] k d h = refl
find-decode_from_other show blob (i ∷ items) k d (other, h) =
    let text = friendly_number show (decode_item blob i) in
    find-decode_from_other show blob items k (put i.value text d) h
    ∙ ground (arith, eq_iff i.value k, find-put i.value k text d)

find-decode_from :
    (show : ℕ → String) (blob : Bytes) (first later : List Item) (item : Item) (d : Dict String)
    → All (λ i. i.value ≢ item.value) later
    → find item.value (decode_from show blob (first ++ item ∷ later) d)
      ≡ some (friendly_number show (decode_item blob item))
unfolding decode_from
find-decode_from show blob [] later item d h =
    let text = friendly_number show (decode_item blob item) in
    find-decode_from_other show blob later item.value (put item.value text d) h
    ∙ ground (arith, eq_iff item.value item.value, find-put item.value item.value text d)
find-decode_from show blob (i ∷ first) later item d h =
    find-decode_from show blob first later item
      (put i.value (friendly_number show (decode_item blob i)) d) h

-- A number that a protocol's field holds big-endian at its offset is what the decoded state shows
-- under that field's key, whatever else the blob and the protocol hold, unless a later field has
-- the same key.
pub decode-big_endian :
    (show : ℕ → String) (before after : Bytes) (first later : List Item) (key : String) (k n : ℕ)
    → n < radix k
    → All (λ i. i.value ≢ key) later
    → find key (
        decode_monitor_binary show
          (before ++ (big_endian k n ++ after))
          (first ++ record { value = key; start_byte = length before; length = k } ∷ later))
      ≡ some (show n)
unfolding decode_monitor_binary friendly_number
decode-big_endian show before after first later key k n h other =
    find-decode_from show _ first later _ [] other
    ∙ rw (decode_item-big_endian before after key k n h)
