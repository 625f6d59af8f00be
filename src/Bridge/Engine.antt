-- ===== src/Bridge/Engine.antt =====
-- `bridge` of server/wm_bridge.py. What the selector reports, and whether the idle time is over,
-- are inputs, one for each round of the loop. `taken` holds the chunks that the observer is given;
-- what it raises is swallowed.
pub mod Pump
pub mod Stop
pub mod Work
pub mod Faithful
use local_smarthinq.Prelude.{
  ℕ, zero, suc, Bool, true, false, ◌||◌, ◌&&◌, not, Option, none, some, List, [], ◌∷◌, ◌++◌, ltb,
  if◌then◌else◌, Bytes, length,
}
use local_smarthinq.Bridge.Ends.{Net, End, flush, drive_handshake, drain, read_plain, feed_socket}

-- One direction of the bridge.
pub record Flow (T K : Type 0) : Type 0 where
  pub src : End T K
  pub dst : End T K
  pub taken : List Bytes
  pub progressed : Bool

unfoldable pub kill : {T K : Type 0} → End T K → End T K
kill e = record e { dead = true }

unfoldable pub written :
    {T K : Type 0} → (Flow T K → Flow T K) → Flow T K → Bytes → Bool × T → Flow T K
unfolding kill
written again f chunk (true, t) =
    again (record f { dst = record f.dst { tls = t }; progressed = true })
written again f chunk (false, t) = record f { dst = kill (record f.dst { tls = t }) }

unfoldable pub pumped :
    {T K : Type 0} → Net T K → (Flow T K → Flow T K) → Flow T K → Option Bytes × End T K → Flow T K
unfolding written kill
pumped net again f (none, s) = record f { src = s }
pumped net again f (some [], s) = record f { src = kill s }
pumped net again f (some (b ∷ bs), s) =
    written again (record f { src = s; taken = f.taken ++ (b ∷ bs) ∷ [] }) (b ∷ bs)
      (net.tls_write (b ∷ bs) f.dst.tls)

unfoldable pub pump_on :
    {T K : Type 0} → Net T K → (Flow T K → Flow T K) → Flow T K → Bool → Flow T K
unfolding pumped
pump_on net again f true = f
pump_on net again f false = pumped net again f (read_plain net f.src)

-- `while not (client_end.dead or up_end.dead)`; fuel bounds the chunks that are ready at once.
unfoldable pub pump : {T K : Type 0} → Net T K → ℕ → Flow T K → Flow T K
unfolding pump_on
pump net zero f = f
pump net (suc fuel) f = pump_on net (pump net fuel) f (f.src.dead || f.dst.dead)

pub record Bridge (T K : Type 0) : Type 0 where
  pub client : End T K
  pub up : End T K
  pub client_taken : List Bytes
  pub up_taken : List Bytes

unfoldable pub new_bridge : {T K : Type 0} → End T K → End T K → Bridge T K
new_bridge client up = record { client = client; up = up; client_taken = []; up_taken = [] }

-- A bridge, and whether the round made progress.
pub record Turn (T K : Type 0) : Type 0 where
  pub bridge : Bridge T K
  pub progressed : Bool

unfoldable pub handshakes : {T K : Type 0} → Net T K → Bridge T K → Turn T K
handshakes net b =
    let (p, client) = drive_handshake net b.client in
    let (q, up) = drive_handshake net b.up in
    record { bridge = record b { client = client; up = up }; progressed = p || q }

-- The appliance's data to the cloud.
unfoldable pub pump_up : {T K : Type 0} → Net T K → ℕ → Turn T K → Turn T K
pump_up net fuel t =
    let b = t.bridge in
    let f =
      pump net fuel (record {
        src = b.client;
        dst = b.up;
        taken = b.client_taken;
        progressed = t.progressed;
      }) in
    record {
      bridge = record b { client = f.src; up = f.dst; client_taken = f.taken };
      progressed = f.progressed;
    }

-- The cloud's data to the appliance.
unfoldable pub pump_down : {T K : Type 0} → Net T K → ℕ → Turn T K → Turn T K
pump_down net fuel t =
    let b = t.bridge in
    let f =
      pump net fuel
        (record { src = b.up; dst = b.client; taken = b.up_taken; progressed = t.progressed }) in
    record {
      bridge = record b { client = f.dst; up = f.src; up_taken = f.taken };
      progressed = f.progressed;
    }

unfoldable pub pumps : {T K : Type 0} → Net T K → ℕ → Turn T K → Turn T K
unfolding pump_up pump_down
pumps net fuel t =
    if t.bridge.client.handshaken && t.bridge.up.handshaken
    then pump_down net fuel (pump_up net fuel t)
    else t

unfoldable pub alive_or_dead : {T K : Type 0} → Bool × End T K → End T K
unfolding kill
alive_or_dead (true, e) = e
alive_or_dead (false, e) = kill e

-- `drain`, then `flush`: the end, and whether either made progress.
unfoldable pub push_out : {T K : Type 0} → Net T K → End T K → Bool × End T K
unfolding alive_or_dead
push_out net e =
    let (drained, e') = drain net e in
    let out = flush net e' in
    (drained || (out.0 && ltb (length out.1.pending) (length e'.pending)), alive_or_dead out)

unfoldable pub push_both : {T K : Type 0} → Net T K → Turn T K → Turn T K
push_both net t =
    let (p, client) = push_out net t.bridge.client in
    let (q, up) = push_out net t.bridge.up in
    record {
      bridge = record t.bridge { client = client; up = up };
      progressed = t.progressed || p || q;
    }

unfoldable pub turn : {T K : Type 0} → Net T K → ℕ → Bridge T K → Turn T K
unfolding handshakes pumps push_both
turn net fuel b = push_both net (pumps net fuel (handshakes net b))

unfoldable pub any_dead : {T K : Type 0} → Bridge T K → Bool
any_dead b = b.client.dead || b.up.dead

-- A key that is ready: the end, and whether it may be written and read.
pub data Key : Type 0 where
  on_client on_up : Bool → Bool → Key

-- What `select` gives: keys, or none and whether the idle time is over.
pub data Select : Type 0 where
  ready : Key → List Key → Select
  timeout : Bool → Select

unfoldable pub wake_end : {T K : Type 0} → Net T K → Bool → Bool → End T K → End T K
unfolding alive_or_dead
wake_end net write read e =
    let e' = if write then alive_or_dead (flush net e) else e in
    if read then alive_or_dead (feed_socket net e') else e'

unfoldable pub wake : {T K : Type 0} → Net T K → Key → Bridge T K → Bridge T K
unfolding wake_end
wake net (on_client write read) b = record b { client = wake_end net write read b.client }
wake net (on_up write read) b = record b { up = wake_end net write read b.up }

unfoldable pub wake_all : {T K : Type 0} → Net T K → List Key → Bridge T K → Bridge T K
unfolding wake
wake_all net [] b = b
wake_all net (k ∷ ks) b = wake_all net ks (wake net k b)

-- Behind a round with no progress: the bridge, and whether the loop goes on.
unfoldable pub on_select : {T K : Type 0} → Net T K → Select → Bridge T K → Bool × Bridge T K
unfolding wake_all
on_select net (ready k ks) b = (true, wake_all net (k ∷ ks) b)
on_select net (timeout over) b = (not over, b)

-- One round of the loop.
unfoldable pub round : {T K : Type 0} → Net T K → ℕ → Select → Bridge T K → Bool × Bridge T K
unfolding turn any_dead on_select
round net fuel select b =
    let t = turn net fuel b in
    if any_dead b
    then (false, b)
    else if any_dead t.bridge
    then (false, t.bridge)
    else if t.progressed
    then (true, t.bridge)
    else on_select net select t.bridge

unfoldable pub go_on : {T K : Type 0} → (Bridge T K → Bridge T K) → Bool × Bridge T K → Bridge T K
go_on rest (true, b) = rest b
go_on rest (false, b) = b

unfoldable pub bridge : {T K : Type 0} → Net T K → List (ℕ × Select) → Bridge T K → Bridge T K
unfolding round go_on
bridge net [] b = b
bridge net ((fuel, select) ∷ rounds) b = go_on (bridge net rounds) (round net fuel select b)
