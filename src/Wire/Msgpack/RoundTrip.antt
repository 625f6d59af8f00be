-- ===== src/Wire/Msgpack/RoundTrip.antt =====
-- What `encode_message` writes, `decode_messages` reads back.
use local_smarthinq.Prelude.{
  ℕ, suc, ◌+◌, ◌*◌, ◌/◌, ◌%◌, ◌≤◌, ◌<◌, ◌≡◌, refl, ap, subst, ◌∙◌, true, false, Bool-cases, inl,
  inr, none, some, ◌&&◌, leb, List, [], ◌∷◌, ◌++◌, arith, ltb, ltb→lt, le→ltb, Bytes, All, length,
  length-append, take-append, drop-append,
}
use mathlib.Core.Option.{some-injective}
use local_smarthinq.Json.{Fields, str, obj, Text}
use local_smarthinq.Wire.Msgpack.{
  mp_str, encode_message, value, read_str, read, read_all, drop_mute, decode_messages,
}
use local_smarthinq.Wire.Msgpack.Fuel.{read_all_fuel}

read_str-append :
    (t : Text) (b ys : Bytes) → read_str t (length b) (b ++ ys) ≡ value (str (t.utf8 b)) ys
unfolding read_str
read_str-append t b ys =
    let whole : ltb (length (b ++ ys)) (length b) ≡ false =
      le→ltb (length (b ++ ys)) (length b) (omega (arith, length-append {0} b ys)) in
    rw (whole, take-append b ys, drop-append b ys)

read-fixstr :
    (t : Text) (fuel : ℕ) (b ys : Bytes)
    → length b < 32
    → read t (suc fuel) ((160 + length b) ∷ (b ++ ys)) ≡ value (str (t.utf8 b)) ys
unfolding read
read-fixstr t fuel b ys h =
    let n = length b in
    let no_map : (leb 128 (160 + n) && leb (160 + n) 143) ≡ false = ground arith in
    let is_str : (leb 160 (160 + n) && leb (160 + n) 191) ≡ true = ground arith in
    let size : (160 + n) % 32 ≡ n = omega arith in rw (no_map, is_str, size, read_str-append t b ys)

read-str16 :
    (t : Text) (fuel : ℕ) (b ys : Bytes)
    → read t (suc fuel) (218 ∷ length b / 256 ∷ length b % 256 ∷ (b ++ ys))
      ≡ value (str (t.utf8 b)) ys
unfolding read
read-str16 t fuel b ys =
    let n = length b in
    let size : n / 256 * 256 + n % 256 ≡ n = omega arith in rw (size, read_str-append t b ys)

-- `read` takes a string that `_mp_str` wrote off the front of a stream, in each of its three
-- forms: fixstr, str8 and str16.
pub read-mp_str :
    (t : Text) (fuel : ℕ) (b frame ys : Bytes)
    → mp_str b ≡ some frame
    → read t (suc fuel) (frame ++ ys) ≡ value (str (t.utf8 b)) ys
unfolding mp_str
read-mp_str t fuel b frame ys e =
    let back = λ (w : Bytes). read t (suc fuel) (w ++ ys) ≡ value (str (t.utf8 b)) ys in
    elim (Bool-cases (ltb (length b) 32)) [
      | inl fix ↦
          subst back (some-injective _ _ (rw fix at e))
            (read-fixstr t fuel b ys (ltb→lt (length b) 32 fix))
      | inr more ↦ elim (Bool-cases (ltb (length b) 256)) [
        | inl str8 ↦
            subst back (some-injective _ _ (rw (more, str8) at e))
              (unfold read in read_str-append t b ys)
        | inr long ↦ elim (Bool-cases (ltb (length b) 65536)) [
          | inl str16 ↦
              subst back (some-injective _ _ (rw (more, long, str16) at e)) (read-str16 t fuel b ys)
          | inr big ↦ cc (rw (more, long, big) at e)
        ]
      ]
    ]

-- `encode_message` raises exactly for a text of 65536 bytes or more.
pub encode_message-none :
    (dumps : Fields → Bytes) (msg : Fields)
    → (encode_message dumps msg ≡ none → 65536 ≤ length (dumps msg))
      × (65536 ≤ length (dumps msg) → encode_message dumps msg ≡ none)
unfolding encode_message
encode_message-none dumps msg = (λ h. ground arith, λ h. ground arith)

-- Python's text functions read the text of the message back.
abbrev pub ReadsBack : Text → (Fields → Bytes) → Fields → Type 0
ReadsBack t dumps msg = t.loads (t.utf8 (dumps msg)) ≡ some (obj msg)

-- The frames of several messages, one behind the other.
pub data Frames (dumps : Fields → Bytes) : List Fields → Bytes → Type 0 where
  no_frames : Frames dumps [] []
  frame_then :
      {msg : Fields} {msgs : List Fields} {frame wire : Bytes}
      → encode_message dumps msg ≡ some frame
      → Frames dumps msgs wire
      → Frames dumps (msg ∷ msgs) (frame ++ wire)

-- The loop with the fuel that `decode_messages` gives it.
read_buffer : Text → Bytes → List Fields × Bytes
read_buffer t buf = read_all t (length buf) buf

-- The loop takes one message off the front.
read_buffer_first :
    (t : Text) (c : ℕ) (cs ys : Bytes) (msg : Fields) {b : Bytes}
    → read t (suc (length (c ∷ (cs ++ ys)))) (c ∷ (cs ++ ys)) ≡ value (str (t.utf8 b)) ys
    → t.loads (t.utf8 b) ≡ some (obj msg)
    → read_buffer t (c ∷ (cs ++ ys)) ≡ (msg ∷ (read_buffer t ys).0, (read_buffer t ys).1)
unfolding read_buffer
read_buffer_first t c cs ys msg {b} e m =
    let n = length (cs ++ ys) in
    let first : read_all t (suc n) (c ∷ (cs ++ ys))
        ≡ (msg ∷ (read_all t n ys).0, (read_all t n ys).1) =
      unfold read_all in rw (e, m) in
    first
    ∙ ap {B = List Fields × Bytes} (λ r. (msg ∷ r.0, r.1))
        (read_all_fuel t n (length ys) ys (omega (arith, length-append {0} cs ys)) (omega arith))

mp_str-ne-nil : (b : Bytes) → mp_str b ≡ some [] → ⊥
unfolding mp_str
mp_str-ne-nil b e = ground arith

read_buffer-Frames :
    (t : Text) (dumps : Fields → Bytes) {msgs : List Fields} {wire : Bytes}
    → Frames dumps msgs wire
    → All (ReadsBack t dumps) msgs
    → read_buffer t wire ≡ (msgs, [])
unfolding encode_message
read_buffer-Frames t dumps no_frames h = unfold read_buffer read_all in refl
read_buffer-Frames t dumps (frame_then {msg} {frame = []} e later) h =
    absurd (mp_str-ne-nil (dumps msg) e)
read_buffer-Frames t dumps (frame_then {msg} {frame = c ∷ cs} {wire} e later) (m, h) =
    read_buffer_first t c cs wire msg
      (read-mp_str t (length (c ∷ (cs ++ wire))) (dumps msg) (c ∷ cs) wire e) m
    ∙ rw (read_buffer-Frames t dumps later h)

drop_mute-empty : (msgs : List Fields) → drop_mute (msgs, []) ≡ (msgs, [])
unfolding drop_mute
drop_mute-empty [] = refl
drop_mute-empty (msg ∷ msgs) = refl

-- A stream of encoded messages that are read back is decoded to just these messages, and
-- nothing is left of it.
pub decode-encode_message :
    (t : Text) (dumps : Fields → Bytes) (msgs : List Fields) (wire : Bytes)
    → Frames dumps msgs wire
    → All (ReadsBack t dumps) msgs
    → decode_messages t wire ≡ (msgs, [])
unfolding decode_messages read_buffer
decode-encode_message t dumps msgs wire f h =
    ap drop_mute (read_buffer-Frames t dumps f h) ∙ drop_mute-empty msgs
