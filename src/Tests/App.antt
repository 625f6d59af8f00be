-- ===== src/Tests/App.antt =====
-- The HTTPS server's routing at concrete requests.
use local_smarthinq.Prelude.{ℕ, zero, suc, ◌≡◌, refl, String, true, false, none, some, []}
use local_smarthinq.App.Text.{ends_with}
use local_smarthinq.App.Dispatch.{
  Upstream, answers, breaks, Server, is_registration, upstream_of, observe, dispatch,
}
use local_smarthinq.App.Dispatch.Registration.{IsHonest, dispatch-IsHonest}
use local_smarthinq.App.Dispatch.Telemetry.{IsForwardedOnce, dispatch_telemetry}
use local_smarthinq.App.Forward.{Connect}

-- An upstream server that is down, then answers 502, then 200.
abbrev recovering : ℕ → Upstream
recovering k = elim k [
  | zero ↦ breaks
  | suc j ↦ elim j [ zero ↦ answers 502 [] | suc i ↦ answers 200 [] ]
]

abbrev server : Server ℕ
server = record {
  bridge = true;
  forwarder = some recovering;
  replay = λ path body. none;
  parse_item = λ body. none;
  ingest_report = λ body n. suc n;
}

abbrev contents : String
contents = "/lgehadm/api/Rtos/ContentsVerSvc"

bridged : upstream_of server ≡ some recovering
unfolding upstream_of
bridged = refl

registers_contents : is_registration contents ≡ true
unfolding is_registration ends_with
registers_contents = refl

dispatch-IsHonest_example :
    IsHonest recovering
      (dispatch server contents [] 0).sleeps
      (dispatch server contents [] 0).response
dispatch-IsHonest_example =
    dispatch-IsHonest server recovering contents [] 0 bridged registers_contents

abbrev diagmon_path : String
diagmon_path = "/lgehadm/report/diagmon"

telemetry_path : is_registration diagmon_path ≡ false
unfolding is_registration ends_with
telemetry_path = refl

dispatch_telemetry_example :
    IsForwardedOnce server recovering diagmon_path []
      (observe server diagmon_path [] 0)
      (dispatch server diagmon_path [] 0)
dispatch_telemetry_example =
    dispatch_telemetry server recovering diagmon_path [] 0 bridged telemetry_path

abbrev last_pinned : Connect
last_pinned host = none
