-- ===== src/App/Health.antt =====
-- The watchdog's health endpoint of server/app.py: `_health_probe` and the answer to a GET. Whether
-- a port completes a TLS handshake, and `str.rstrip`, are arguments.
use local_smarthinq.Prelude.{
  ℕ, ◌≡◌, refl, ◌∙◌, String, Bool, true, false, ◌&&◌, ◌||◌, not, Option, none, some, List, [], ◌∷◌,
  if◌then◌else◌, ◌==◌, arith,
}
use local_smarthinq.App.Text.{ends_with}

abbrev pub control_port : ℕ
control_port = 47878

-- The body of the answer: `ok`, `ok (47878 re-arm active)`, or the ports that are down.
pub data Body : Type 0 where
  ok rearming : Body
  down : List ℕ → Body

pub record Probed : Type 0 where
  pub dead : List ℕ
  pub rearmed : Bool

unfoldable pub probe_one : (ℕ → Bool) → Bool → ℕ → Probed → Probed
probe_one connectable rearm port later =
    if connectable port
    then later
    else if port == control_port && rearm
    then record later { rearmed = true }
    else record later { dead = port ∷ later.dead }

unfoldable pub probe_all : (ℕ → Bool) → Bool → List ℕ → Probed
unfolding probe_one
probe_all connectable rearm [] = record { dead = []; rearmed = false }
probe_all connectable rearm (port ∷ ports) =
    probe_one connectable rearm port (probe_all connectable rearm ports)

unfoldable pub verdict_of : Bool → List ℕ → Bool × Body
verdict_of rearmed [] = (true, if rearmed then rearming else ok)
verdict_of rearmed (d ∷ ds) = (false, down (d ∷ ds))

unfoldable pub verdict : Probed → Bool × Body
unfolding verdict_of
verdict p = verdict_of p.rearmed p.dead

unfoldable pub health_probe : (ℕ → Bool) → Bool → List ℕ → Bool × Body
unfolding verdict probe_all
health_probe connectable rearm targets = verdict (probe_all connectable rearm targets)

-- `do_GET`: the status, and the body if there is one.
unfoldable pub do_get : (String → String) → (ℕ → Bool) → Bool → List ℕ → String → ℕ × Option Body
unfolding health_probe
do_get rstrip connectable rearm targets path =
    let p = health_probe connectable rearm targets in
    if not (ends_with "/health" (rstrip path))
    then (404, none)
    else (if p.0 then 200 else 503, some p.1)

-- The port answers, or it is the control port while that is bound again.
unfoldable pub excused : (ℕ → Bool) → Bool → ℕ → Bool
excused connectable rearm port = connectable port || (port == control_port && rearm)

unfoldable pub all_excused : (ℕ → Bool) → Bool → List ℕ → Bool
unfolding excused
all_excused connectable rearm [] = true
all_excused connectable rearm (port ∷ ports) =
    excused connectable rearm port && all_excused connectable rearm ports

unfoldable pub none_dead : List ℕ → Bool
none_dead [] = true
none_dead (d ∷ ds) = false

none_dead-probe :
    (connectable : ℕ → Bool) (rearm : Bool) (ports : List ℕ)
    → none_dead (probe_all connectable rearm ports).dead ≡ all_excused connectable rearm ports
unfolding probe_all all_excused none_dead
none_dead-probe connectable rearm [] = refl
none_dead-probe connectable rearm (port ∷ ports) =
    ground (arith, none_dead-probe connectable rearm ports)

verdict_of-none_dead : (r : Bool) (ds : List ℕ) → (verdict_of r ds).0 ≡ none_dead ds
unfolding verdict_of none_dead
verdict_of-none_dead r [] = refl
verdict_of-none_dead r (d ∷ ds) = refl

verdict-none_dead : (p : Probed) → (verdict p).0 ≡ none_dead p.dead
unfolding verdict
verdict-none_dead p = verdict_of-none_dead p.rearmed p.dead

-- The probe is healthy just if each port completes a handshake or is the control port while its
-- re-arm is running.
pub health_probe-all_excused :
    (connectable : ℕ → Bool) (rearm : Bool) (ports : List ℕ)
    → (health_probe connectable rearm ports).0 ≡ all_excused connectable rearm ports
unfolding health_probe
health_probe-all_excused connectable rearm ports =
    verdict-none_dead (probe_all connectable rearm ports) ∙ none_dead-probe connectable rearm ports
