-- ===== src/Tests/Washer.antt =====
-- The follower of the relay's log on a few snapshots.
use local_smarthinq.Prelude.{ℕ, ◌≡◌, refl, Bool, false, none, some, List, [], ◌∷◌, inl, arith}
use local_smarthinq.Observe.Washer.{
  Snap, any_real, Output, publish, begin, idle, not_empty, Input, no_line, line, follow,
}
use local_smarthinq.Observe.Washer.Blank.{IsSound, follow-IsSound, idle-begin_blank}

abbrev running : Snap
running = ("State", "WM_STATE_RUNNING") ∷ []

abbrev dropout : Snap
dropout = ("State", "-") ∷ []

abbrev never : Snap → Snap → Bool
never a b = false

begin-IsSound : IsSound (begin 0 [])
unfolding begin not_empty
begin-IsSound = record { last = inl refl; outputs = tt }

abbrev rounds : List (ℕ × Input)
rounds = (1, line (some running)) ∷ (2, line (some dropout)) ∷ (400, no_line) ∷ []

twice_running : (follow never rounds (begin 0 [])).outputs ≡ publish running ∷ publish running ∷ []
unfolding follow begin
twice_running = refl

follow-IsSound_example : IsSound (follow never rounds (begin 0 []))
follow-IsSound_example = follow-IsSound never rounds (begin 0 []) begin-IsSound

dropout_blank : any_real dropout ≡ false
unfolding any_real
dropout_blank = refl

idle-begin_blank_example :
    (earlier : List Output) × ((idle 301
        (begin 0 (some running ∷ some dropout ∷ none ∷ some [] ∷ []))).outputs
      ≡ publish dropout ∷ earlier)
idle-begin_blank_example =
    idle-begin_blank 0 301 (some running ∷ []) (none ∷ some [] ∷ []) "State" "-" [] (tt, (tt, tt))
      dropout_blank (omega arith)
