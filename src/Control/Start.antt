-- ===== src/Control/Start.antt =====
-- `start_control_server`, `start_polling` and the bind of `main` (server/control_channel.py,
-- server/app.py): whether the n-th bind of the port succeeds is an argument.
use local_smarthinq.Prelude.{
  ℕ, zero, suc, ◌+◌, ◌<◌, ◌≡◌, refl, ap, ◌∙◌, subst, String, Bool, true, false, Option, none, some,
  List, [], ◌∷◌, ◌++◌, if◌then◌else◌, arith, ◌==◌,
}
use local_smarthinq.Control.Channel.{ControlChannel, WidText, Sent, devices, query_state}

-- The bind that succeeded, if one did, and the waits.
pub record Bound : Type 0 where
  pub at : Option ℕ
  pub waits : ℕ

unfoldable pub waited : Bool → Bound → Bound
waited last b = if last then b else record b { waits = suc b.waits }

-- The attempts that are left, from the n-th bind on; behind the last one there is no wait.
unfoldable pub bind : (ℕ → Bool) → ℕ → ℕ → Bound
unfolding waited
bind binds n zero = record { at = none; waits = 0 }
bind binds n (suc left) =
    let later = bind binds (suc n) left in
    if binds n then record { at = some n; waits = 0 } else waited (left == 0) later

-- A server on the port, and whether the re-arm thread is running.
pub record Started : Type 0 where
  pub server : Option ℕ
  pub rearm : Bool

unfoldable pub started : Option ℕ → Started
started none = record { server = none; rearm = true }
started (some n) = record { server = some n; rearm = false }

-- `start_control_server`
unfoldable pub start_control_server : (ℕ → Bool) → ℕ → Started
unfolding bind started
start_control_server binds retries = started (bind binds 0 retries).at

-- `_rearm`, for some rounds: it ends with the first bind that succeeds.
unfoldable pub rearm : (ℕ → Bool) → ℕ → ℕ → Started → Started
rearm binds n zero s = s
rearm binds n (suc rounds) s =
    let later = rearm binds (suc n) rounds s in
    if s.rearm then if binds n then record { server = some n; rearm = false } else later else s

-- The bind of the HTTPS server: six attempts, then the process exits (`none`).
unfoldable pub bind_https : (ℕ → Bool) → Option ℕ
unfolding bind
bind_https binds = (bind binds 0 6).at

-- One round of `start_polling`'s loop: every device that was connected at its start is queried.
unfoldable pub poll_devices :
    WidText → (String → Bool) → List String → ControlChannel → List Sent × ControlChannel
unfolding query_state
poll_devices wid accepts [] c = ([], c)
poll_devices wid accepts (dev ∷ devs) c =
    let o = query_state wid (accepts dev) dev c in
    let later = poll_devices wid accepts devs o.channel in (o.sent ++ later.0, later.1)

unfoldable pub poll_round : WidText → (String → Bool) → ControlChannel → List Sent × ControlChannel
unfolding poll_devices devices
poll_round wid accepts c = poll_devices wid accepts (devices c) c

rearm_stays :
    (binds : ℕ → Bool) (n rounds : ℕ) (s : Started) → s.rearm ≡ false → rearm binds n rounds s ≡ s
unfolding rearm
rearm_stays binds n zero s h = refl
rearm_stays binds n (suc rounds) s h = rw h refl

rearm_fails :
    (binds : ℕ → Bool) (n rounds : ℕ) (s : Started)
    → s.rearm ≡ true
    → binds n ≡ false
    → rearm binds n (suc rounds) s ≡ rearm binds (suc n) rounds s
unfolding rearm
rearm_fails binds n rounds s h e = ground arith

-- While the re-arm thread is running, the first bind that succeeds among its rounds starts the
-- server and ends the thread: a port that comes free within the rounds is served.
pub rearm-serves :
    (binds : ℕ → Bool) (n d rounds : ℕ) (s : Started)
    → s.rearm ≡ true
    → ((j : ℕ) → j < d → binds (n + j) ≡ false)
    → binds (n + d) ≡ true
    → d < rounds
    → rearm binds n rounds s ≡ record { server = some (n + d); rearm = false }
unfolding rearm
rearm-serves binds n d zero s h before free k = absurd (omega arith)
rearm-serves binds n zero (suc rounds) s h before free k =
    let e : binds n ≡ true = subst (λ m. binds m ≡ true) (omega arith) free in
    let at : n ≡ n + 0 = omega arith in
    rw (h, e) (ap (λ m. record { server = some m; rearm = false }) at)
rearm-serves binds n (suc d) (suc rounds) s h before free k =
    let e : binds n ≡ false = subst (λ m. binds m ≡ false) (omega arith) (before 0 (omega arith)) in
    let at : suc n + d ≡ n + suc d = omega arith in
    rearm_fails binds n rounds s h e
    ∙ rearm-serves binds (suc n) d rounds s h
        (λ j b. subst (λ m. binds m ≡ false) (omega arith) (before (suc j) (omega arith)))
        (subst (λ m. binds m ≡ true) (omega arith) free) (omega arith)
    ∙ ap (λ m. record { server = some m; rearm = false }) at
