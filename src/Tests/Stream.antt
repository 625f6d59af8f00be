-- ===== src/Tests/Stream.antt =====
-- A bridged stream that is cut inside a frame, and a port that comes free at the third bind.
use local_smarthinq.Prelude.{
  ℕ, ◌+◌, ◌<◌, ◌≡◌, refl, Bool, true, false, ◌&&◌, none, some, [], ◌∷◌, ◌++◌, ◌==◌, if◌then◌else◌,
  Bytes, arith, ltb,
}
use local_smarthinq.Json.{str, obj, Fields, end, field, Loads}
use local_smarthinq.Control.Protocol.{get_object, is_text, get_text, has, B64decode}
use local_smarthinq.Wire.Len4.{decode_messages_len4}
use local_smarthinq.Control.Observer.{Observed, observe, observe-append}
use local_smarthinq.Control.Start.{Started, start_control_server, rearm, rearm-serves}

abbrev snapshot : Fields
snapshot =
    field "Header" (obj (field "x-lgedm-deviceId" (str "w1") end))
      (field "Body" (obj (field "Format" (str "B64") (field "Data" (str "Bwg=") end))) end)

-- "{}" stands for the text of a snapshot.
abbrev loads : Loads
loads (a ∷ b ∷ []) = if a == b'{' && b == b'}' then some (obj snapshot) else none
loads _ = none

abbrev b64decode : B64decode
b64decode v = some (7 ∷ 8 ∷ [])

abbrev nothing : Observed
nothing = record { dev = none; buf = []; ingested = []; raised = false }

abbrev head : Bytes
head = 0 ∷ 0 ∷ 0 ∷ 2 ∷ b'{' ∷ b'}' ∷ 0 ∷ 0 ∷ []

abbrev tail : Bytes
tail = 0 ∷ 2 ∷ b'{' ∷ b'}' ∷ []

head_fine : (observe loads b64decode head nothing).raised ≡ false
unfolding observe decode_messages_len4 get_object is_text get_text has
head_fine = refl

two_snapshots :
    (observe loads b64decode (head ++ tail) nothing).ingested
    ≡ (str "w1", 7 ∷ 8 ∷ []) ∷ (str "w1", 7 ∷ 8 ∷ []) ∷ []
unfolding observe decode_messages_len4 get_object is_text get_text has
two_snapshots = refl

observe-append_example :
    observe loads b64decode tail (observe loads b64decode head nothing)
    ≡ observe loads b64decode (head ++ tail) nothing
observe-append_example = observe-append loads b64decode head tail nothing head_fine

abbrev free_at_7 : ℕ → Bool
free_at_7 n = ltb 6 n

abbrev waiting : Started
waiting = record { server = none; rearm = true }

five_refused : start_control_server free_at_7 5 ≡ waiting
unfolding start_control_server
five_refused = refl

taken_before : (j : ℕ) → j < 2 → free_at_7 (5 + j) ≡ false
taken_before j h = ground arith

rearm-serves_example : rearm free_at_7 5 10 waiting ≡ record { server = some 7; rearm = false }
rearm-serves_example = rearm-serves free_at_7 5 2 10 waiting refl taken_before refl (omega arith)
