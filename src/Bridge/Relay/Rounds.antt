-- ===== src/Bridge/Relay/Rounds.antt =====
-- A round of the standalone relay, against a round of the engine.
use local_smarthinq.Prelude.{
  ℕ, ◌≡◌, refl, sym, ap, ◌∙◌, subst, Bool, true, false, ◌&&◌, List, [], ◌∷◌, if◌then◌else◌,
}
use local_smarthinq.Bridge.Ends.{Net}
use local_smarthinq.Bridge.Engine.{
  Flow, pump, Bridge, Turn, handshakes, pump_up, pump_down, pumps, push_both, turn, any_dead,
  wake_end, wake, wake_all, on_select, Key, on_client, on_up, Select, ready, timeout, round,
}
use local_smarthinq.Bridge.Relay.{
  c_to_u, u_to_c, Log, Leg, relay_pump, Relay, RelayTurn, relay_handshakes, relay_legs, relay_pumps,
  relay_push, relay_turn, relay_dead, relay_wake, relay_select, relay_after, relay_round,
}
use local_smarthinq.Bridge.Relay.Direct.{chunks_of, opposite, pump-IsLegOf}

abbrev pub relay_of : {T K : Type 0} → Log → Bridge T K → Relay T K
relay_of log b = record { client = b.client; up = b.up; log = log }

abbrev pub turn_of : {T K : Type 0} → Log → Turn T K → RelayTurn T K
turn_of log t = record { relay = relay_of log t.bridge; progressed = t.progressed }

-- The log has what the engine took in each direction.
pub record IsLog {T K : Type 0} (log : Log) (b : Bridge T K) : Type 0 where
  pub there : chunks_of c_to_u log ≡ b.client_taken
  pub back : chunks_of u_to_c log ≡ b.up_taken

record IsTurnOf {T K : Type 0} (r : RelayTurn T K) (t : Turn T K) : Type 0 where
  log : Log
  is : r ≡ turn_of log t
  logs : IsLog log t.bridge

-- Whether the loop goes on, and the relay that the engine simulates.
pub record IsRoundOf {T K : Type 0} (p : Bool × Relay T K) (q : Bool × Bridge T K) : Type 0 where
  pub log : Log
  pub is : p ≡ (q.0, relay_of log q.1)
  pub logs : IsLog log q.1

if-IsTurnOf :
    {T K : Type 0} (c : Bool) {r s : RelayTurn T K} {t u : Turn T K}
    → IsTurnOf r t
    → IsTurnOf s u
    → IsTurnOf (if c then r else s) (if c then t else u)
if-IsTurnOf true h k = h
if-IsTurnOf false h k = k

if-IsRoundOf :
    {T K : Type 0} (c : Bool) {r s : Bool × Relay T K} {t u : Bool × Bridge T K}
    → IsRoundOf r t
    → IsRoundOf s u
    → IsRoundOf (if c then r else s) (if c then t else u)
if-IsRoundOf true h k = h
if-IsRoundOf false h k = k

-- The same ends, the other way round.
abbrev flip : {T K : Type 0} → Leg T K → Leg T K
flip l = record { src = l.dst; dst = l.src; log = l.log; progressed = l.progressed }

-- Behind the second pass.
abbrev turn_from : {T K : Type 0} → Leg T K → RelayTurn T K
turn_from l = record {
  relay = record { client = l.dst; up = l.src; log = l.log };
  progressed = l.progressed;
}

legs-IsTurnOf :
    {T K : Type 0} (net : Net T K) (fuel : ℕ) (log : Log) (t : Turn T K)
    → IsLog log t.bridge
    → IsTurnOf (relay_legs net fuel (turn_of log t)) (pump_down net fuel (pump_up net fuel t))
unfolding relay_legs pump_down pump_up opposite
legs-IsTurnOf net fuel log t h =
    let f : Flow _ _ = record {
      src = t.bridge.client;
      dst = t.bridge.up;
      taken = t.bridge.client_taken;
      progressed = t.progressed;
    } in
    let there =
      pump-IsLegOf net c_to_u t.bridge.up_taken fuel log f
        (record { own = h.there; other = h.back }) in
    let f' = pump net fuel f in
    let g : Flow _ _ = record {
      src = f'.dst;
      dst = f'.src;
      taken = t.bridge.up_taken;
      progressed = f'.progressed;
    } in
    let back =
      pump-IsLegOf net u_to_c f'.taken fuel there.log g
        (record { own = there.logs.other; other = there.logs.own }) in
    record {
      log = back.log;
      is =
          ap (λ l. turn_from (relay_pump net u_to_c fuel (flip l))) there.is ∙ ap turn_from back.is;
      logs = record { there = back.logs.other; back = back.logs.own };
    }

pumps-IsTurnOf :
    {T K : Type 0} (net : Net T K) (fuel : ℕ) (log : Log) (t : Turn T K)
    → IsLog log t.bridge
    → IsTurnOf (relay_pumps net fuel (turn_of log t)) (pumps net fuel t)
unfolding relay_pumps pumps
pumps-IsTurnOf net fuel log t h =
    if-IsTurnOf (t.bridge.client.handshaken && t.bridge.up.handshaken)
      (legs-IsTurnOf net fuel log t h) (record { log = log; is = refl; logs = h })

push-IsTurnOf :
    {T K : Type 0} (net : Net T K) {r : RelayTurn T K} {t : Turn T K}
    → IsTurnOf r t
    → IsTurnOf (relay_push net r) (push_both net t)
unfolding relay_push push_both
push-IsTurnOf net {t = t} h = record {
  log = h.log;
  is = ap (relay_push net) h.is;
  logs = record { there = h.logs.there; back = h.logs.back };
}

turn-IsTurnOf :
    {T K : Type 0} (net : Net T K) (fuel : ℕ) (log : Log) (b : Bridge T K)
    → IsLog log b
    → IsTurnOf (relay_turn net fuel (relay_of log b)) (turn net fuel b)
unfolding relay_turn turn relay_handshakes handshakes
turn-IsTurnOf net fuel log b h =
    push-IsTurnOf net
      (pumps-IsTurnOf net fuel log (handshakes net b) (record { there = h.there; back = h.back }))

wake-IsRoundOf :
    {T K : Type 0} (net : Net T K) (ks : List Key) (log : Log) (b : Bridge T K)
    → IsLog log b
    → IsRoundOf (true, relay_wake net ks (relay_of log b)) (true, wake_all net ks b)
unfolding relay_wake wake_all wake
wake-IsRoundOf net [] log b h = record { log = log; is = refl; logs = h }
wake-IsRoundOf net (on_client write read ∷ ks) log b h =
    wake-IsRoundOf net ks log (record b { client = wake_end net write read b.client })
      (record { there = h.there; back = h.back })
wake-IsRoundOf net (on_up write read ∷ ks) log b h =
    wake-IsRoundOf net ks log (record b { up = wake_end net write read b.up })
      (record { there = h.there; back = h.back })

select-IsRoundOf :
    {T K : Type 0} (net : Net T K) (select : Select) (log : Log) (b : Bridge T K)
    → IsLog log b
    → IsRoundOf (relay_select net select (relay_of log b)) (on_select net select b)
unfolding relay_select on_select
select-IsRoundOf net (ready k ks) log b h = wake-IsRoundOf net (k ∷ ks) log b h
select-IsRoundOf net (timeout over) log b h = record { log = log; is = refl; logs = h }

after-IsRoundOf :
    {T K : Type 0} (net : Net T K) (select : Select) {r : RelayTurn T K} (t : Turn T K)
    → IsTurnOf r t
    → IsRoundOf (relay_after net select r) (
        if any_dead t.bridge
        then (false, t.bridge)
        else if t.progressed
        then (true, t.bridge)
        else on_select net select t.bridge)
unfolding relay_after relay_dead any_dead
after-IsRoundOf net select t h =
    subst
      (λ x. IsRoundOf (relay_after net select x) (
        if any_dead t.bridge
        then (false, t.bridge)
        else if t.progressed
        then (true, t.bridge)
        else on_select net select t.bridge))
      (sym h.is)
      (if-IsRoundOf (any_dead t.bridge) (record { log = h.log; is = refl; logs = h.logs })
        (if-IsRoundOf t.progressed (record { log = h.log; is = refl; logs = h.logs })
          (select-IsRoundOf net select h.log t.bridge h.logs)))

pub round-IsRoundOf :
    {T K : Type 0} (net : Net T K) (fuel : ℕ) (select : Select) (log : Log) (b : Bridge T K)
    → IsLog log b
    → IsRoundOf (relay_round net fuel select (relay_of log b)) (round net fuel select b)
unfolding relay_round round relay_dead any_dead
round-IsRoundOf net fuel select log b h =
    if-IsRoundOf (any_dead b) (record { log = log; is = refl; logs = h })
      (after-IsRoundOf net select (turn net fuel b) (turn-IsTurnOf net fuel log b h))
