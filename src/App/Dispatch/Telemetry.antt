-- ===== src/App/Dispatch/Telemetry.antt =====
-- Requests that are no registration: one attempt, and the standalone response behind it.
use local_smarthinq.Prelude.{ℕ, ◌<◌, ◌≡◌, refl, sym, subst, String, false, some, [], arith, Bytes}
use local_smarthinq.App.Dispatch.{
  Upstream, answers, upstream, is_registration, usable, attempt, Server, Handled,
  standalone_request, upstream_of, observe, settle, bridged_request, in_mode, dispatch,
}

module _ {ℓ} {S : Type ℓ} where
  -- What is said of a request that is no registration, of its result.
  pub record IsForwardedOnce (srv : Server S) (forwarder : ℕ → Upstream) (path : String)
      (body : Bytes) (store : S) (h : Handled S) : Type ℓ where
    pub attempts : h.attempts ≡ 1
    pub sleeps : h.sleeps ≡ []
    pub observed : h.store ≡ store
    pub passed_on :
        (status : ℕ) (answer : Bytes)
        → forwarder 0 ≡ answers status answer
        → status < 500
        → h.response ≡ upstream status answer
    pub standalone :
        usable (forwarder 0) ≡ false
        → h.response ≡ (standalone_request srv path body store).response

  bridged-IsForwardedOnce :
      (srv : Server S) (forwarder : ℕ → Upstream) (path : String) (body : Bytes) (store : S)
      → is_registration path ≡ false
      → IsForwardedOnce srv forwarder path body store
          (bridged_request srv forwarder path body store)
  unfolding bridged_request standalone_request settle attempt
  bridged-IsForwardedOnce srv forwarder path body store other = rw other (record {
    attempts = ground arith;
    sleeps = ground arith;
    observed = refl;
    passed_on = λ status answer e h. rw e (ground arith);
    standalone = λ h. rw h;
  })

  -- In bridge mode a request that is no registration is forwarded exactly once and nothing is
  -- waited for; an answer below 500 is passed on, and otherwise the response is the one that the
  -- standalone mode gives. The store has observed the request either way.
  pub dispatch_telemetry :
      (srv : Server S) (forwarder : ℕ → Upstream) (path : String) (body : Bytes) (store : S)
      → upstream_of srv ≡ some forwarder
      → is_registration path ≡ false
      → IsForwardedOnce srv forwarder path body
          (observe srv path body store)
          (dispatch srv path body store)
  unfolding dispatch
  dispatch_telemetry srv forwarder path body store up other =
      subst
        (λ o.
          IsForwardedOnce srv forwarder path body (observe srv path body store)
            (in_mode srv path body (observe srv path body store) o))
        (sym up)
        (bridged-IsForwardedOnce srv forwarder path body (observe srv path body store) other)
