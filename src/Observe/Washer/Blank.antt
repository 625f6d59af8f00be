-- ===== src/Observe/Washer/Blank.antt =====
-- Blank snapshots, which drop out of the stream now and then, and what is published.
use local_smarthinq.Prelude.{
  ℕ, ◌-◌, ◌<◌, ◌≡◌, refl, ap, ◌∙◌, lt→ltb, String, Bool, true, false, ◌&&◌, not, Option, none, some,
  List, [], ◌∷◌, ◌++◌, ◌⊎◌, inl, inr, Bool-cases, if-both, arith, All, ltb, find,
}
use local_smarthinq.Observe.Washer.{
  Snap, any_real, usable_snapshot, should_warn_washer_dark, Output, publish, relay_quiet,
  washer_dark, Follower, tail_snap, tail_last, begin, not_empty, warn_quiet, warn_dark, heartbeat,
  idle, heard, refresh, publish_new, on_snapshot, Input, no_line, line, follow,
}

-- What is published has a real value.
abbrev pub IsReal : Output → Type 0
IsReal (publish snap) = any_real snap ≡ true
IsReal relay_quiet = Unit
IsReal washer_dark = Unit

-- The last state is empty or has a real value, and all that was published has one.
pub record IsSound (f : Follower) : Type 0 where
  pub last : (not_empty f.last ≡ false) ⊎ (any_real f.last ≡ true)
  pub outputs : All IsReal f.outputs

warn_quiet-IsSound : (now : ℕ) (f : Follower) → IsSound f → IsSound (warn_quiet now f)
unfolding warn_quiet
warn_quiet-IsSound now f s =
    if-both IsSound (not f.quiet_warned && ltb 900 (now - f.last_line))
      (record f { quiet_warned = true; outputs = relay_quiet ∷ f.outputs }) f
      (record { last = s.last; outputs = (tt, s.outputs) }) s

warn_dark-IsSound : (now : ℕ) (f : Follower) → IsSound f → IsSound (warn_dark now f)
unfolding warn_dark
warn_dark-IsSound now f s =
    if-both IsSound
      (should_warn_washer_dark (find "State" f.last) (now - f.last_snap) (now - f.last_line)
        f.washer_quiet_warned)
      (record f { washer_quiet_warned = true; outputs = washer_dark ∷ f.outputs }) f
      (record { last = s.last; outputs = (tt, s.outputs) }) s

real_last : (f : Follower) → IsSound f → not_empty f.last ≡ true → any_real f.last ≡ true
real_last f s h = ground (arith, s.last)

heartbeat-IsSound : (now : ℕ) (f : Follower) → IsSound f → IsSound (heartbeat now f)
unfolding heartbeat
heartbeat-IsSound now f s = elim (Bool-cases (not_empty f.last && ltb 300 (now - f.last_beat))) [
  | inl beat ↦
      rw beat (record { last = s.last; outputs = (real_last f s (ground arith), s.outputs) })
  | inr still ↦ rw still s
]

idle-IsSound : (now : ℕ) (f : Follower) → IsSound f → IsSound (idle now f)
unfolding idle
idle-IsSound now f s =
    heartbeat-IsSound now (warn_dark now (warn_quiet now f))
      (warn_dark-IsSound now (warn_quiet now f) (warn_quiet-IsSound now f s))

refresh-IsSound :
    (now : ℕ) (o : Option Snap) (f : Follower) → IsSound f → IsSound (refresh now o (heard now f))
unfolding refresh heard
refresh-IsSound now o f s =
    if-both IsSound (usable_snapshot o)
      (record (heard now f) { last_snap = now; washer_quiet_warned = false }) (heard now f)
      (record { last = s.last; outputs = s.outputs })
      (record { last = s.last; outputs = s.outputs })

publish_new-IsSound :
    (same : Snap → Snap → Bool) (now : ℕ) (o : Option Snap) (f : Follower)
    → IsSound f
    → IsSound (publish_new same now o f)
unfolding publish_new
publish_new-IsSound same now none f s = s
publish_new-IsSound same now (some snap) f s =
    elim (Bool-cases (not_empty snap && not (same snap f.last) && any_real snap)) [
      | inl new ↦
          let real : any_real snap ≡ true = ground arith in
          rw new (record { last = inr real; outputs = (real, s.outputs) })
      | inr old ↦ rw old s
    ]

-- From a last state that is empty or has a real value on, whatever lines come and however long none
-- does, all that is published has a real value: a blank snapshot is never published and never
-- overwrites a good one.
pub follow-IsSound :
    (same : Snap → Snap → Bool) (rounds : List (ℕ × Input)) (f : Follower)
    → IsSound f
    → IsSound (follow same rounds f)
unfolding follow on_snapshot
follow-IsSound same [] f s = s
follow-IsSound same ((now, no_line) ∷ rounds) f s =
    follow-IsSound same rounds (idle now f) (idle-IsSound now f s)
follow-IsSound same ((now, line o) ∷ rounds) f s =
    follow-IsSound same rounds (publish_new same now o (refresh now o (heard now f)))
      (publish_new-IsSound same now o (refresh now o (heard now f)) (refresh-IsSound now o f s))

-- A line with no snapshot, or with an empty one.
abbrev pub HasNone : Option Snap → Type 0
HasNone none = Unit
HasNone (some []) = Unit
HasNone (some (i ∷ snap)) = ⊥

tail_last-after :
    (last : Snap) (after : List (Option Snap)) → All HasNone after → tail_last last after ≡ last
unfolding tail_last tail_snap
tail_last-after last [] h = refl
tail_last-after last (none ∷ after) h = tail_last-after last after h.1
tail_last-after last (some [] ∷ after) h = tail_last-after last after h.1
tail_last-after last (some (i ∷ snap) ∷ after) h = absurd h.0

tail_last-last :
    (last : Snap) (before after : List (Option Snap)) (k v : String) (snap : Snap)
    → All HasNone after
    → tail_last last (before ++ some ((k, v) ∷ snap) ∷ after) ≡ (k, v) ∷ snap
unfolding tail_last
tail_last-last last [] after k v snap h =
    unfold tail_snap in (tail_last-after ((k, v) ∷ snap) after h)
tail_last-last last (o ∷ before) after k v snap h =
    tail_last-last (tail_snap last o) before after k v snap h

warn_quiet-last :
    (now : ℕ) (f : Follower)
    → ((warn_quiet now f).last ≡ f.last) × ((warn_quiet now f).last_beat ≡ f.last_beat)
unfolding warn_quiet
warn_quiet-last now f =
    if-both (λ g. (g.last ≡ f.last) × (g.last_beat ≡ f.last_beat))
      (not f.quiet_warned && ltb 900 (now - f.last_line))
      (record f { quiet_warned = true; outputs = relay_quiet ∷ f.outputs }) f (refl, refl)
      (refl, refl)

warn_dark-last :
    (now : ℕ) (f : Follower)
    → ((warn_dark now f).last ≡ f.last) × ((warn_dark now f).last_beat ≡ f.last_beat)
unfolding warn_dark
warn_dark-last now f =
    if-both (λ g. (g.last ≡ f.last) × (g.last_beat ≡ f.last_beat))
      (should_warn_washer_dark (find "State" f.last) (now - f.last_snap) (now - f.last_line)
        f.washer_quiet_warned)
      (record f { washer_quiet_warned = true; outputs = washer_dark ∷ f.outputs }) f (refl, refl)
      (refl, refl)

heartbeat-publishes :
    (now : ℕ) (f : Follower)
    → not_empty f.last ≡ true
    → 300 < now - f.last_beat
    → (heartbeat now f).outputs ≡ publish f.last ∷ f.outputs
unfolding heartbeat
heartbeat-publishes now f h k = rw (h, lt→ltb 300 (now - f.last_beat) k) refl

begun :
    (start : ℕ) (before after : List (Option Snap)) (k v : String) (snap : Snap)
    → All HasNone after
    → (begin start (before ++ some ((k, v) ∷ snap) ∷ after)).last ≡ (k, v) ∷ snap
unfolding begin
begun start before after k v snap h = tail_last-last [] before after k v snap h

begun_at : (start : ℕ) (tail : List (Option Snap)) → (begin start tail).last_beat ≡ start
unfolding begin
begun_at start tail = refl

not_empty_one : (k v : String) (snap : Snap) → not_empty ((k, v) ∷ snap) ≡ true
unfolding not_empty
not_empty_one k v snap = refl

-- If the last line of the replayed tail that has a snapshot has a blank one, whatever lines without
-- one are behind it, the follower keeps it, over any good state before it, and a quiet round more
-- than 300 seconds after the start publishes it.
pub idle-begin_blank :
    (start now : ℕ) (before after : List (Option Snap)) (k v : String) (snap : Snap)
    → All HasNone after
    → any_real ((k, v) ∷ snap) ≡ false
    → 300 < now - start
    → (earlier : List Output) × ((idle now
          (begin start (before ++ some ((k, v) ∷ snap) ∷ after))).outputs
        ≡ publish ((k, v) ∷ snap) ∷ earlier)
unfolding idle
idle-begin_blank start now before after k v snap quiet blank h =
    let tail = before ++ some ((k, v) ∷ snap) ∷ after in
    let f = begin start tail in
    let g = warn_dark now (warn_quiet now f) in
    let last : g.last ≡ (k, v) ∷ snap =
      (warn_dark-last now (warn_quiet now f)).0
      ∙ (warn_quiet-last now f).0
      ∙ begun start before after k v snap quiet in
    let beat : g.last_beat ≡ start =
      (warn_dark-last now (warn_quiet now f)).1 ∙ (warn_quiet-last now f).1 ∙ begun_at start tail in
    (
      g.outputs,
      heartbeat-publishes now g (rw last (not_empty_one k v snap)) (rw beat h)
          ∙ ap (λ x. publish x ∷ g.outputs) last,
    )
