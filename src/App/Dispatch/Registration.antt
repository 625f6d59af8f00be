-- ===== src/App/Dispatch/Registration.antt =====
-- A registration is never acknowledged unless the upstream server saw it.
use local_smarthinq.Prelude.{
  ℕ, ◌≤◌, ◌<◌, ◌≡◌, String, sym, subst, true, false, some, List, ◌⊎◌, [], ◌∷◌, inl, inr, arith,
  Bytes,
}
use local_smarthinq.App.Dispatch.{
  Upstream, answers, Response, upstream, not_delivered, is_registration, Bridged,
  registration_retry_delays, usable, attempt, settle, Server, standalone_response, upstream_of,
  observe, bridged_request, in_mode, dispatch,
}
use local_smarthinq.App.Dispatch.Attempts.{IsDelivered, IsGivenUp, attempt-outcome}

-- The response to a registration is an upstream answer below 500 from one of the three attempts,
-- or, if none of the three got one, the refusal with a 5xx status, after both delays.
pub data IsHonest (forwarder : ℕ → Upstream) (sleeps : List ℕ) : Response → Type 0 where
  from_upstream :
      {k status : ℕ} {body : Bytes}
      → k < 3
      → forwarder k ≡ answers status body
      → status < 500
      → IsHonest forwarder sleeps (upstream status body)
  refused :
      {status : ℕ}
      → ((k : ℕ) → k < 3 → usable (forwarder k) ≡ false)
      → 500 ≤ status
      → sleeps ≡ 500 ∷ 1500 ∷ []
      → IsHonest forwarder sleeps (not_delivered status)

settle-IsHonest :
    (forwarder : ℕ → Upstream) (fallback : Response) (b : Bridged)
    → IsDelivered forwarder 0 2 b ⊎ IsGivenUp forwarder 0 registration_retry_delays b
    → IsHonest forwarder b.sleeps (settle true fallback b.upstream_status b.response)
unfolding settle
settle-IsHonest forwarder fallback b (inl d) =
    subst (λ o. IsHonest forwarder b.sleeps (settle true fallback b.upstream_status o))
      (sym d.response) (from_upstream (omega (arith, d.in_time)) d.answered d.below_500)
settle-IsHonest forwarder fallback b (inr g) =
    subst (λ o. IsHonest forwarder b.sleeps (settle true fallback b.upstream_status o))
      (sym g.response)
      (refused (λ k h. g.unusable k (omega arith) (omega arith)) g.server_error g.sleeps)

module _ {ℓ} {S : Type ℓ} where
  -- In bridge mode the response to a registration is an answer of the upstream server below 500,
  -- given at one of three attempts, or else, if none was, a 5xx refusal after waiting 500 and 1500
  -- milliseconds; a synthetic or a replayed response is never given.
  pub dispatch-IsHonest :
      (srv : Server S) (forwarder : ℕ → Upstream) (path : String) (body : Bytes) (store : S)
      → upstream_of srv ≡ some forwarder
      → is_registration path ≡ true
      → IsHonest forwarder
          (dispatch srv path body store).sleeps
          (dispatch srv path body store).response
  unfolding dispatch
  dispatch-IsHonest srv forwarder path body store up reg =
      let b = attempt forwarder 0 registration_retry_delays in
      let honest =
        settle-IsHonest forwarder (standalone_response srv path body) b
          (attempt-outcome forwarder 0 registration_retry_delays) in
      let handled : IsHonest forwarder
          (bridged_request srv forwarder path body (observe srv path body store)).sleeps
          (bridged_request srv forwarder path body (observe srv path body store)).response =
        rw reg honest in
      subst
        (λ o.
          IsHonest forwarder (in_mode srv path body (observe srv path body store) o).sleeps
            (in_mode srv path body (observe srv path body store) o).response)
        (sym up) handled
