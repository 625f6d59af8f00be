-- ===== src/App/Debug.antt =====
-- The debug paths of `dispatch` of server/app.py, in front of `App.Dispatch`. `urlsplit` and
-- `parse_qs` are arguments. While `/debug/query` waits, other threads fill the store: what the
-- store has for the device at the k-th look is an argument.
use local_smarthinq.Prelude.{
  ℕ, zero, suc, ◌+◌, ◌≤◌, ◌<◌, ◌≡◌, refl, subst, String, Bool, true, false, not, Option, none, some,
  List, [], ◌∷◌, if◌then◌else◌, str_eq, Bytes, Bool-cases, inl, inr, arith,
}
use local_smarthinq.App.Text.{ends_with}
use local_smarthinq.App.Dispatch.{
  Response, debug_state, query_not_wired, query_missing_dev, queried, Handled, Server, dispatch,
}

-- A request's path without its query, and the first `dev` of the query.
pub record Url : Type 0 where
  pub path : String
  pub dev : Option String

unfoldable pub same_ts : Option String → String → Bool
same_ts none ts = false
same_ts (some old) ts = str_eq old ts

-- `ts not in (None, before)`
unfoldable pub moved : Option String → Option String → Bool
unfolding same_ts
moved before none = false
moved before (some ts) = not (same_ts before ts)

-- Whether the snapshot came, and the sleeps.
pub record Waited : Type 0 where
  pub fresh : Bool
  pub sleeps : ℕ

unfoldable pub slept : Waited → Waited
slept w = record w { sleeps = suc w.sleeps }

-- The bounded wait, from the k-th look on.
unfoldable pub wait : ℕ → ℕ → (ℕ → Option String) → Option String → Waited
unfolding moved slept
wait zero k ts_at before = record { fresh = false; sleeps = 0 }
wait (suc rounds) k ts_at before =
    let later = wait rounds (suc k) ts_at before in
    if moved before (ts_at k) then record { fresh = true; sleeps = 0 } else slept later

abbrev pub query_wait_rounds : ℕ
query_wait_rounds = 30

-- The channel's query, the time stamp before it, and those at the looks.
pub record Query : Type 0 where
  pub query_fn : String → Bool
  pub before : String → Option String
  pub ts_at : String → ℕ → Option String

unfoldable pub query_dev : Query → String → Response × ℕ
unfolding wait
query_dev q dev =
    let w = wait query_wait_rounds 0 (q.ts_at dev) (q.before dev) in
    (queried (q.query_fn dev) w.fresh, w.sleeps)

unfoldable pub debug_query : Option Query → Option String → Response × ℕ
unfolding query_dev
debug_query none dev = (query_not_wired, 0)
debug_query (some q) none = (query_missing_dev, 0)
debug_query (some q) (some dev) = if str_eq dev "" then (query_missing_dev, 0) else query_dev q dev

-- A wait in milliseconds for each round that found nothing new.
unfoldable pub gaps : ℕ → List ℕ
gaps zero = []
gaps (suc n) = 50 ∷ gaps n

unfoldable pub answered {ℓ} : {S : Type ℓ} → S → Response × ℕ → Handled S
unfolding gaps
answered store (response, sleeps) = record {
  response = response;
  store = store;
  attempts = 0;
  sleeps = gaps sleeps;
}

-- `dispatch`, with the debug paths.
unfoldable pub handle {ℓ} :
    {S : Type ℓ} → Server S → Option Query → Url → String → Bytes → S → Handled S
unfolding answered debug_query
handle srv query url path body store =
    if ends_with "/debug/state" url.path
    then answered store (debug_state, 0)
    else if ends_with "/debug/query" url.path
    then answered store (debug_query query url.dev)
    else dispatch srv path body store

-- The wait finds a new time stamp just if one is there at one of its looks, and it sleeps once
-- before each look but the first, or once for each where there is none.
pub record IsWait (rounds k : ℕ) (ts_at : ℕ → Option String) (before : Option String) (w : Waited)
    : Type 0 where
  pub bounded : w.sleeps ≤ rounds
  pub found : w.fresh ≡ true → moved before (ts_at (k + w.sleeps)) ≡ true
  pub in_time : w.fresh ≡ true → w.sleeps < rounds
  pub waited_out : w.fresh ≡ false → w.sleeps ≡ rounds
  pub none_before : (j : ℕ) → j < w.sleeps → moved before (ts_at (k + j)) ≡ false

later-IsWait :
    (rounds k : ℕ) (ts_at : ℕ → Option String) (before : Option String) (w : Waited)
    → moved before (ts_at k) ≡ false
    → IsWait rounds (suc k) ts_at before w
    → IsWait (suc rounds) k ts_at before (slept w)
unfolding slept
later-IsWait rounds k ts_at before w h i = record {
  bounded = omega (arith, i.bounded);
  found = λ e. subst (λ n. moved before (ts_at n) ≡ true) (omega arith) (i.found e);
  in_time = λ e. omega (arith, i.in_time e);
  waited_out = λ e. omega (arith, i.waited_out e);
  none_before = early;
}
  where
    early : (j : ℕ) → j < suc w.sleeps → moved before (ts_at (k + j)) ≡ false
    early zero b = subst (λ n. moved before (ts_at n) ≡ false) (omega arith) h
    early (suc j) b =
        subst (λ n. moved before (ts_at n) ≡ false) (omega arith) (i.none_before j (omega arith))

pub wait-IsWait :
    (rounds k : ℕ) (ts_at : ℕ → Option String) (before : Option String)
    → IsWait rounds k ts_at before (wait rounds k ts_at before)
unfolding wait
wait-IsWait zero k ts_at before = record {
  bounded = omega arith;
  found = λ e. absurd (ground arith);
  in_time = λ e. absurd (ground arith);
  waited_out = λ e. refl;
  none_before = λ j b. absurd (omega arith);
}
wait-IsWait (suc rounds) k ts_at before = elim (Bool-cases (moved before (ts_at k))) [
  | inl now ↦ rw now (record {
    bounded = omega arith;
    found = λ e. subst (λ n. moved before (ts_at n) ≡ true) (omega arith) now;
    in_time = λ e. omega arith;
    waited_out = λ e. absurd (ground arith);
    none_before = λ j b. absurd (omega arith);
  })
  | inr later ↦ rw later (
      later-IsWait rounds k ts_at before (wait rounds (suc k) ts_at before) later
        (wait-IsWait rounds (suc k) ts_at before))
]
