-- ===== src/App/Dispatch.antt =====
-- `dispatch` of server/app.py. The state store, the replay store, the upstream server and the
-- query channel are arguments; a body that responses.py builds is named by its constructor.
pub mod Attempts
pub mod Registration
pub mod Telemetry
use local_smarthinq.Prelude.{
  ℕ, zero, suc, ◌+◌, String, Bool, true, false, ◌&&◌, ◌||◌, not, Option, none, some, List, [], ◌∷◌,
  ltb, if◌then◌else◌, str_eq, Bytes,
}
use local_smarthinq.App.Text.{ends_with}

-- What one call of the forwarder gives: a status and a body, or an exception.
pub data Upstream : Type 0 where
  answers : ℕ → Bytes → Upstream
  breaks : Upstream

-- The responses, with the builder of responses.py for a synthetic one.
pub data Response : Type 0 where
  debug_state query_not_wired query_missing_dev : Response
  queried : Bool → Bool → Response
  upstream : ℕ → Bytes → Response
  not_delivered : ℕ → Response
  replayed : ℕ → Bytes → Response
  diagmon contents_ver ok power_saving_info : Response
  total_device_info : Option String → Response

unfoldable pub status_of : Response → ℕ
status_of query_not_wired = 503
status_of query_missing_dev = 400
status_of (upstream status body) = status
status_of (not_delivered status) = status
status_of (replayed status body) = status
status_of _ = 200

-- Milliseconds.
abbrev pub registration_retry_delays : List ℕ
registration_retry_delays = 500 ∷ 1500 ∷ []

unfoldable pub is_registration : String → Bool
is_registration path =
    ends_with "/api/Device/TotalDeviceInfoSvc" path
    || ends_with "/api/Rtos/ContentsVerSvc" path
    || ends_with "/api/Rtos/FWInfoSettingSvc" path
    || ends_with "/api/Grid/PowerSavingInfoSvc" path

-- How the loop over the attempts ends, with the number of calls of the forwarder and the sleeps.
pub record Bridged : Type 0 where
  pub response : Option Response
  pub upstream_status : ℕ
  pub attempts : ℕ
  pub sleeps : List ℕ

unfoldable pub delivered : ℕ → Bytes → Bridged
delivered status body = record {
  response = some (upstream status body);
  upstream_status = 502;
  attempts = 1;
  sleeps = [];
}

unfoldable pub gave_up : ℕ → Bridged
gave_up status = record { response = none; upstream_status = status; attempts = 1; sleeps = [] }

unfoldable pub after_sleep : ℕ → Bridged → Bridged
after_sleep delay later = record later {
  attempts = suc later.attempts;
  sleeps = delay ∷ later.sleeps;
}

-- A status below 500 is passed on; any other outcome leaves the status to report.
unfoldable pub usable : Upstream → Bool
usable (answers status body) = ltb status 500
usable breaks = false

unfoldable pub status_left : Upstream → ℕ
status_left (answers status body) = status
status_left breaks = 502

unfoldable pub pass_on : Upstream → Bridged
unfolding delivered gave_up
pass_on (answers status body) = delivered status body
pass_on breaks = gave_up 502

-- The attempts from number `k` on, with the delays that are left.
unfoldable pub attempt : (ℕ → Upstream) → ℕ → List ℕ → Bridged
unfolding usable status_left pass_on after_sleep gave_up
attempt forwarder k [] =
    if usable (forwarder k) then pass_on (forwarder k) else gave_up (status_left (forwarder k))
attempt forwarder k (delay ∷ delays) =
    if usable (forwarder k)
    then pass_on (forwarder k)
    else after_sleep delay (attempt forwarder (suc k) delays)

-- The observable result of a request.
pub record Handled {ℓ} (S : Type ℓ) : Type ℓ where
  pub response : Response
  pub store : S
  pub attempts : ℕ
  pub sleeps : List ℕ

-- What `dispatch` is given beside the request.
pub record Server {ℓ} (S : Type ℓ) : Type ℓ where
  pub bridge : Bool
  pub forwarder : Option (ℕ → Upstream)
  pub replay : String → Bytes → Option (ℕ × Bytes)
  pub parse_item : Bytes → Option String
  pub ingest_report : Bytes → S → S

-- The synthetic fallback, in the source's order.
unfoldable pub synthetic : (Bytes → Option String) → String → Bytes → Response
synthetic parse_item path body =
    if ends_with "/report/diagmon" path
    then diagmon
    else if ends_with "/api/Device/TotalDeviceInfoSvc" path
    then total_device_info (parse_item body)
    else if ends_with "/api/Rtos/ContentsVerSvc" path
    then contents_ver
    else if ends_with "/api/product/sendPushMessage" path
    then ok
    else if ends_with "/api/Grid/PowerSavingInfoSvc" path
    then power_saving_info
    else ok

unfoldable pub standalone_response {ℓ} : {S : Type ℓ} → Server S → String → Bytes → Response
unfolding synthetic
standalone_response srv path body = elim (srv.replay path body) [
  | some (status, answer) ↦ replayed status answer
  | none ↦ synthetic srv.parse_item path body
]

unfoldable pub observe {ℓ} : {S : Type ℓ} → Server S → String → Bytes → S → S
observe srv path body store =
    if ends_with "/report/diagmon" path then srv.ingest_report body store else store

-- Behind the loop: the response of the upstream server, a refusal for a registration, else the
-- standalone response.
unfoldable pub settle : Bool → Response → ℕ → Option Response → Response
settle registration fallback upstream_status (some r) = r
settle registration fallback upstream_status none =
    if registration then not_delivered upstream_status else fallback

unfoldable pub bridged_request {ℓ} :
    {S : Type ℓ} → Server S → (ℕ → Upstream) → String → Bytes → S → Handled S
bridged_request srv forwarder path body store =
    let registration = is_registration path in
    let b = attempt forwarder 0 (if registration then registration_retry_delays else []) in
    record {
      response =
          settle registration (standalone_response srv path body) b.upstream_status b.response;
      store = store;
      attempts = b.attempts;
      sleeps = b.sleeps;
    }

unfoldable pub standalone_request {ℓ} : {S : Type ℓ} → Server S → String → Bytes → S → Handled S
standalone_request srv path body store = record {
  response = standalone_response srv path body;
  store = store;
  attempts = 0;
  sleeps = [];
}

-- `mode == "bridge" and forwarder is not None`
unfoldable pub upstream_of {ℓ} : {S : Type ℓ} → Server S → Option (ℕ → Upstream)
upstream_of srv = if srv.bridge then srv.forwarder else none

unfoldable pub in_mode {ℓ} :
    {S : Type ℓ} → Server S → String → Bytes → S → Option (ℕ → Upstream) → Handled S
unfolding bridged_request standalone_request
in_mode srv path body store (some forwarder) = bridged_request srv forwarder path body store
in_mode srv path body store none = standalone_request srv path body store

-- `dispatch` behind the debug paths.
unfoldable pub dispatch {ℓ} : {S : Type ℓ} → Server S → String → Bytes → S → Handled S
unfolding in_mode
dispatch srv path body store = in_mode srv path body (observe srv path body store) (upstream_of srv)
