-- ===== src/App/Dispatch/Attempts.antt =====
-- How the loop over the attempts ends.
use local_smarthinq.Prelude.{
  ℕ, suc, ◌+◌, ◌≤◌, ◌<◌, ◌≡◌, refl, ap, true, false, none, some, List, [], ◌∷◌, ◌⊎◌, inl, inr,
  arith, Bytes, length, Bool-cases,
}
use local_smarthinq.App.Dispatch.{
  Upstream, answers, breaks, upstream, Bridged, usable, status_left, pass_on, after_sleep, attempt,
}

-- Some attempt from `k` on, the last one at the latest, was answered below 500, and that is the
-- response.
pub record IsDelivered (forwarder : ℕ → Upstream) (k n : ℕ) (b : Bridged) : Type 0 where
  pub at : ℕ
  pub status : ℕ
  pub body : Bytes
  pub from_k : k ≤ at
  pub in_time : at ≤ k + n
  pub answered : forwarder at ≡ answers status body
  pub below_500 : status < 500
  pub response : b.response ≡ some (upstream status body)

-- No attempt was; every delay was waited for, and a 5xx status is left to report.
pub record IsGivenUp (forwarder : ℕ → Upstream) (k : ℕ) (delays : List ℕ) (b : Bridged)
    : Type 0 where
  pub unusable : (j : ℕ) → k ≤ j → j ≤ k + length delays → usable (forwarder j) ≡ false
  pub response : b.response ≡ none
  pub server_error : 500 ≤ b.upstream_status
  pub attempts : b.attempts ≡ suc (length delays)
  pub sleeps : b.sleeps ≡ delays

IsDelivered-now :
    (forwarder : ℕ → Upstream) (k n : ℕ) (u : Upstream)
    → forwarder k ≡ u
    → usable u ≡ true
    → IsDelivered forwarder k n (pass_on u)
unfolding usable pass_on
IsDelivered-now forwarder k n (answers status body) e h = record {
  at = k;
  status = status;
  body = body;
  from_k = omega arith;
  in_time = omega arith;
  answered = e;
  below_500 = ground arith;
  response = refl;
}
IsDelivered-now forwarder k n breaks e h = cc

status_left-le : (u : Upstream) → usable u ≡ false → 500 ≤ status_left u
unfolding usable status_left
status_left-le u h = ground arith

unusable-at :
    (forwarder : ℕ → Upstream) (k j : ℕ)
    → usable (forwarder k) ≡ false
    → j ≡ k
    → usable (forwarder j) ≡ false
unusable-at forwarder k j h e = rw e h

pub attempt-outcome :
    (forwarder : ℕ → Upstream) (k : ℕ) (delays : List ℕ)
    → IsDelivered forwarder k (length delays) (attempt forwarder k delays)
      ⊎ IsGivenUp forwarder k delays (attempt forwarder k delays)
unfolding attempt
attempt-outcome forwarder k [] = elim (Bool-cases (usable (forwarder k))) [
  | inl good ↦ inl (rw good (IsDelivered-now forwarder k 0 (forwarder k) refl good))
  | inr bad ↦ inr (
      rw bad (record {
        unusable = λ j from to. unusable-at forwarder k j bad (omega arith);
        response = refl;
        server_error = status_left-le (forwarder k) bad;
        attempts = refl;
        sleeps = refl;
      }))
]
attempt-outcome forwarder k (delay ∷ delays) = elim (Bool-cases (usable (forwarder k))) [
  | inl good ↦
      inl (rw good (IsDelivered-now forwarder k (suc (length delays)) (forwarder k) refl good))
  | inr bad ↦ rw bad (later bad (attempt-outcome forwarder (suc k) delays))
]
  where
    at_or_later :
        usable (forwarder k) ≡ false
        → ((j : ℕ) → suc k ≤ j → j ≤ suc k + length delays → usable (forwarder j) ≡ false)
        → (j : ℕ) → k ≤ j
        → j ≤ k + suc (length delays)
        → (j ≡ k) ⊎ (suc k ≤ j)
        → usable (forwarder j) ≡ false
    at_or_later bad h j from to (inl e) = unusable-at forwarder k j bad e
    at_or_later bad h j from to (inr more) = h j more (omega arith)

    later :
        usable (forwarder k) ≡ false
        → IsDelivered forwarder (suc k) (length delays) (attempt forwarder (suc k) delays)
          ⊎ IsGivenUp forwarder (suc k) delays (attempt forwarder (suc k) delays)
        → IsDelivered forwarder k
            (suc (length delays))
            (after_sleep delay (attempt forwarder (suc k) delays))
          ⊎ IsGivenUp forwarder k
              (delay ∷ delays)
              (after_sleep delay (attempt forwarder (suc k) delays))
    later bad (inl d) = inl (record {
      at = d.at;
      status = d.status;
      body = d.body;
      from_k = omega arith;
      in_time = omega arith;
      answered = d.answered;
      below_500 = d.below_500;
      response = d.response;
    })
    later bad (inr g) = inr (record {
      unusable = λ j from to. at_or_later bad g.unusable j from to (grind arith);
      response = g.response;
      server_error = g.server_error;
      attempts = omega arith;
      sleeps = ap (◌∷◌ delay) g.sleeps;
    })
