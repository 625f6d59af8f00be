-- ===== src/Bridge/Relay.antt =====
-- deploy/wm_relay.py: the standalone copy of the engine, which runs on the box. Its steps on one
-- endpoint are copied from server/wm_bridge.py, and the definitions of Bridge.Ends stand for both.
-- The log's lines of data are kept as their direction and bytes, in the order in which they are
-- written.
pub mod Direct
pub mod Rounds
pub mod Copy
use local_smarthinq.Prelude.{
  ℕ, zero, suc, Bool, true, false, ◌||◌, ◌&&◌, not, Option, none, some, List, [], ◌∷◌, ◌++◌,
  if◌then◌else◌, Bytes,
}
use local_smarthinq.Bridge.Ends.{Net, End, new_end, drive_handshake, read_plain}
use local_smarthinq.Bridge.Engine.{
  kill, push_out, wake_end, Key, on_client, on_up, Select, ready, timeout,
}

pub data Direction : Type 0 where
  c_to_u u_to_c : Direction

abbrev pub Log : Type 0
Log = List (Direction × Bytes)

-- One pass of the loop over the two directions.
pub record Leg (T K : Type 0) : Type 0 where
  pub src : End T K
  pub dst : End T K
  pub log : Log
  pub progressed : Bool

unfoldable pub relay_written : {T K : Type 0} → (Leg T K → Leg T K) → Leg T K → Bool × T → Leg T K
unfolding kill
relay_written again l (true, t) =
    again (record l { dst = record l.dst { tls = t }; progressed = true })
relay_written again l (false, t) = record l { dst = kill (record l.dst { tls = t }) }

unfoldable pub relay_pumped :
    {T K : Type 0}
    → Net T K
    → Direction
    → (Leg T K → Leg T K)
    → Leg T K
    → Option Bytes × End T K
    → Leg T K
unfolding relay_written kill
relay_pumped net label again l (none, s) = record l { src = s }
relay_pumped net label again l (some [], s) = record l { src = kill s }
relay_pumped net label again l (some (b ∷ bs), s) =
    relay_written again (record l { src = s; log = l.log ++ (label, b ∷ bs) ∷ [] })
      (net.tls_write (b ∷ bs) l.dst.tls)

unfoldable pub relay_pump_on :
    {T K : Type 0} → Net T K → Direction → (Leg T K → Leg T K) → Leg T K → Bool → Leg T K
unfolding relay_pumped
relay_pump_on net label again l true = l
relay_pump_on net label again l false = relay_pumped net label again l (read_plain net l.src)

-- `while not (src.dead or dst.dead)`
unfoldable pub relay_pump : {T K : Type 0} → Net T K → Direction → ℕ → Leg T K → Leg T K
unfolding relay_pump_on
relay_pump net label zero l = l
relay_pump net label (suc fuel) l =
    relay_pump_on net label (relay_pump net label fuel) l (l.src.dead || l.dst.dead)

pub record Relay (T K : Type 0) : Type 0 where
  pub client : End T K
  pub up : End T K
  pub log : Log

unfoldable pub new_relay : {T K : Type 0} → T × K → T × K → Relay T K
unfolding new_end
new_relay client up = record {
  client = new_end client.0 client.1;
  up = new_end up.0 up.1;
  log = [];
}

pub record RelayTurn (T K : Type 0) : Type 0 where
  pub relay : Relay T K
  pub progressed : Bool

unfoldable pub relay_handshakes : {T K : Type 0} → Net T K → Relay T K → RelayTurn T K
unfolding drive_handshake
relay_handshakes net r =
    let (p, client) = drive_handshake net r.client in
    let (q, up) = drive_handshake net r.up in
    record { relay = record r { client = client; up = up }; progressed = p || q }

-- The two directions, `C->U` first.
unfoldable pub relay_legs : {T K : Type 0} → Net T K → ℕ → RelayTurn T K → RelayTurn T K
unfolding relay_pump
relay_legs net fuel t =
    let there = relay_pump net c_to_u fuel (record {
      src = t.relay.client;
      dst = t.relay.up;
      log = t.relay.log;
      progressed = t.progressed;
    }) in
    let back = relay_pump net u_to_c fuel (record {
      src = there.dst;
      dst = there.src;
      log = there.log;
      progressed = there.progressed;
    }) in
    record {
      relay = record { client = back.dst; up = back.src; log = back.log };
      progressed = back.progressed;
    }

unfoldable pub relay_pumps : {T K : Type 0} → Net T K → ℕ → RelayTurn T K → RelayTurn T K
unfolding relay_legs
relay_pumps net fuel t =
    if t.relay.client.handshaken && t.relay.up.handshaken then relay_legs net fuel t else t

unfoldable pub relay_push : {T K : Type 0} → Net T K → RelayTurn T K → RelayTurn T K
unfolding push_out
relay_push net t =
    let (p, client) = push_out net t.relay.client in
    let (q, up) = push_out net t.relay.up in
    record {
      relay = record t.relay { client = client; up = up };
      progressed = t.progressed || p || q;
    }

unfoldable pub relay_turn : {T K : Type 0} → Net T K → ℕ → Relay T K → RelayTurn T K
unfolding relay_handshakes relay_pumps relay_push
relay_turn net fuel r = relay_push net (relay_pumps net fuel (relay_handshakes net r))

unfoldable pub relay_dead : {T K : Type 0} → Relay T K → Bool
relay_dead r = r.client.dead || r.up.dead

unfoldable pub relay_wake : {T K : Type 0} → Net T K → List Key → Relay T K → Relay T K
unfolding wake_end
relay_wake net [] r = r
relay_wake net (on_client write read ∷ ks) r =
    relay_wake net ks (record r { client = wake_end net write read r.client })
relay_wake net (on_up write read ∷ ks) r =
    relay_wake net ks (record r { up = wake_end net write read r.up })

unfoldable pub relay_select : {T K : Type 0} → Net T K → Select → Relay T K → Bool × Relay T K
unfolding relay_wake
relay_select net (ready k ks) r = (true, relay_wake net (k ∷ ks) r)
relay_select net (timeout over) r = (not over, r)

-- Behind the steps of a round.
unfoldable pub relay_after : {T K : Type 0} → Net T K → Select → RelayTurn T K → Bool × Relay T K
unfolding relay_dead relay_select
relay_after net select t =
    if relay_dead t.relay
    then (false, t.relay)
    else if t.progressed
    then (true, t.relay)
    else relay_select net select t.relay

unfoldable pub relay_round : {T K : Type 0} → Net T K → ℕ → Select → Relay T K → Bool × Relay T K
unfolding relay_turn relay_after relay_dead
relay_round net fuel select r =
    if relay_dead r then (false, r) else relay_after net select (relay_turn net fuel r)

unfoldable pub relay_on : {T K : Type 0} → (Relay T K → Relay T K) → Bool × Relay T K → Relay T K
relay_on rest (true, r) = rest r
relay_on rest (false, r) = r

-- `_bridge`
unfoldable pub relay : {T K : Type 0} → Net T K → List (ℕ × Select) → Relay T K → Relay T K
unfolding relay_round relay_on
relay net [] r = r
relay net ((fuel, select) ∷ rounds) r = relay_on (relay net rounds) (relay_round net fuel select r)

-- `handle_connection`: with no connection to the cloud, the appliance's is closed and nothing is
-- relayed.
unfoldable pub handle_connection :
    {T K : Type 0} → Net T K → List (ℕ × Select) → T × K → Option (T × K) → Option (Relay T K)
unfolding relay new_relay
handle_connection net rounds client none = none
handle_connection net rounds client (some up) = some (relay net rounds (new_relay client up))
