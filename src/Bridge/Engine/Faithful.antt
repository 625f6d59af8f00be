-- ===== src/Bridge/Engine/Faithful.antt =====
-- The bridge is a pipe in both directions: what it does to the record of its net.
use local_smarthinq.Prelude.{
  ℕ, ◌≡◌, refl, sym, ◌∙◌, Bool, true, false, ◌&&◌, List, [], ◌∷◌, if◌then◌else◌, if-both, Bytes,
}
use local_smarthinq.Bridge.Ends.{Net, new_end, drive_handshake}
use local_smarthinq.Bridge.Ends.Recorded.{
  Seen, unseen, recorded, Watched, IsOrdered, Follows, Follows-refl, drive_handshake-Follows,
}
use local_smarthinq.Bridge.Engine.{
  new_bridge, Turn, handshakes, pump_up, pump_down, pumps, push_out, push_both, turn, any_dead, Key,
  on_client, on_up, Select, ready, timeout, wake_end, wake, wake_all, on_select, round, go_on,
  bridge,
}
use local_smarthinq.Bridge.Engine.Work.{
  WatchedBridge, push_out-Follows, wake_end-Follows, Works, round-Works,
}
use local_smarthinq.Bridge.Engine.Pump.{Passes, all, Passes-cong, pump-Pumps}

-- Both directions pass, the observer has seen what was read, and the ciphertext of both ends is in
-- order.
pub record IsFaithful {T K : Type 0} (b : WatchedBridge T K) : Type 0 where
  pub up : Passes b.up.dead b.client.tls.1.reads b.up.tls.1.writes
  pub down : Passes b.client.dead b.up.tls.1.reads b.client.tls.1.writes
  pub client_observed : b.client_taken ≡ b.client.tls.1.reads
  pub up_observed : b.up_taken ≡ b.up.tls.1.reads
  pub client_ordered : IsOrdered b.client
  pub up_ordered : IsOrdered b.up

-- Ends that follow keep a faithful bridge faithful.
ends-IsFaithful :
    {T K : Type 0} (b : WatchedBridge T K) (c u : Watched T K)
    → IsFaithful b
    → Follows b.client c
    → Follows b.up u
    → IsFaithful (record b { client = c; up = u })
ends-IsFaithful b c u f h k = record {
  up = Passes-cong k.steps.stays h.reads k.writes f.up;
  down = Passes-cong h.steps.stays k.reads h.writes f.down;
  client_observed = f.client_observed ∙ sym h.reads;
  up_observed = f.up_observed ∙ sym k.reads;
  client_ordered = h.steps.ordered f.client_ordered;
  up_ordered = k.steps.ordered f.up_ordered;
}

handshakes-IsFaithful :
    {T K : Type 0} (net : Net T K) (b : WatchedBridge T K)
    → IsFaithful b
    → IsFaithful (handshakes (recorded net) b).bridge
unfolding handshakes
handshakes-IsFaithful net b f =
    ends-IsFaithful b (drive_handshake (recorded net) b.client).1
      (drive_handshake (recorded net) b.up).1 f (drive_handshake-Follows net b.client)
      (drive_handshake-Follows net b.up)

pump_up-IsFaithful :
    {T K : Type 0} (net : Net T K) (fuel : ℕ) (t : Turn (T × Seen) (K × Bytes))
    → IsFaithful t.bridge
    → IsFaithful (pump_up (recorded net) fuel t).bridge
unfolding pump_up
pump_up-IsFaithful net fuel t f =
    let b = t.bridge in
    let p =
      pump-Pumps net fuel (record {
        src = b.client;
        dst = b.up;
        taken = b.client_taken;
        progressed = t.progressed;
      }) in
    record {
      up = p.passes f.up;
      down = Passes-cong p.src.stays p.dst_reads p.src_writes f.down;
      client_observed = p.observed f.client_observed;
      up_observed = f.up_observed ∙ sym p.dst_reads;
      client_ordered = p.src.ordered f.client_ordered;
      up_ordered = p.dst.ordered f.up_ordered;
    }

pump_down-IsFaithful :
    {T K : Type 0} (net : Net T K) (fuel : ℕ) (t : Turn (T × Seen) (K × Bytes))
    → IsFaithful t.bridge
    → IsFaithful (pump_down (recorded net) fuel t).bridge
unfolding pump_down
pump_down-IsFaithful net fuel t f =
    let b = t.bridge in
    let p =
      pump-Pumps net fuel
        (record { src = b.up; dst = b.client; taken = b.up_taken; progressed = t.progressed }) in
    record {
      up = Passes-cong p.src.stays p.dst_reads p.src_writes f.up;
      down = p.passes f.down;
      client_observed = f.client_observed ∙ sym p.dst_reads;
      up_observed = p.observed f.up_observed;
      client_ordered = p.dst.ordered f.client_ordered;
      up_ordered = p.src.ordered f.up_ordered;
    }

pumps-IsFaithful :
    {T K : Type 0} (net : Net T K) (fuel : ℕ) (t : Turn (T × Seen) (K × Bytes))
    → IsFaithful t.bridge
    → IsFaithful (pumps (recorded net) fuel t).bridge
unfolding pumps
pumps-IsFaithful net fuel t f =
    let up = pump_up (recorded net) fuel t in
    if-both (λ x. IsFaithful x.bridge) (t.bridge.client.handshaken && t.bridge.up.handshaken)
      (pump_down (recorded net) fuel up) t
      (pump_down-IsFaithful net fuel up (pump_up-IsFaithful net fuel t f)) f

turn-IsFaithful :
    {T K : Type 0} (net : Net T K) (fuel : ℕ) (b : WatchedBridge T K)
    → IsFaithful b
    → IsFaithful (turn (recorded net) fuel b).bridge
unfolding turn push_both
turn-IsFaithful net fuel b f =
    let t = pumps (recorded net) fuel (handshakes (recorded net) b) in
    ends-IsFaithful t.bridge (push_out (recorded net) t.bridge.client).1
      (push_out (recorded net) t.bridge.up).1
      (pumps-IsFaithful net fuel (handshakes (recorded net) b) (handshakes-IsFaithful net b f))
      (push_out-Follows net t.bridge.client) (push_out-Follows net t.bridge.up)

wake_all-IsFaithful :
    {T K : Type 0} (net : Net T K) (ks : List Key) (b : WatchedBridge T K)
    → IsFaithful b
    → IsFaithful (wake_all (recorded net) ks b)
unfolding wake_all wake
wake_all-IsFaithful net [] b f = f
wake_all-IsFaithful net (on_client write read ∷ ks) b f =
    wake_all-IsFaithful net ks (record b { client = wake_end (recorded net) write read b.client })
      (ends-IsFaithful b (wake_end (recorded net) write read b.client) b.up f
        (wake_end-Follows net write read b.client) (Follows-refl b.up))
wake_all-IsFaithful net (on_up write read ∷ ks) b f =
    wake_all-IsFaithful net ks (record b { up = wake_end (recorded net) write read b.up })
      (ends-IsFaithful b b.client (wake_end (recorded net) write read b.up) f
        (Follows-refl b.client) (wake_end-Follows net write read b.up))

on_select-IsFaithful :
    {T K : Type 0} (net : Net T K) (s : Select) (b : WatchedBridge T K)
    → IsFaithful b
    → IsFaithful (on_select (recorded net) s b).1
unfolding on_select
on_select-IsFaithful net (ready k ks) b f = wake_all-IsFaithful net (k ∷ ks) b f
on_select-IsFaithful net (timeout over) b f = f

round-IsFaithful :
    {T K : Type 0} (net : Net T K) (fuel : ℕ) (s : Select) (b : WatchedBridge T K)
    → IsFaithful b
    → IsFaithful (round (recorded net) fuel s b).1
unfolding round
round-IsFaithful net fuel s b f =
    let t = turn (recorded net) fuel b in
    let g = turn-IsFaithful net fuel b f in
    let P : Bool × WatchedBridge _ _ → Type 0 = λ r. IsFaithful r.1 in
    if-both P (any_dead b) (false, b)
      (if any_dead t.bridge
        then (false, t.bridge)
        else if t.progressed
        then (true, t.bridge)
        else on_select (recorded net) s t.bridge)
      f
      (if-both P (any_dead t.bridge) (false, t.bridge)
        (if t.progressed then (true, t.bridge) else on_select (recorded net) s t.bridge) g
        (if-both P t.progressed (true, t.bridge) (on_select (recorded net) s t.bridge) g
          (on_select-IsFaithful net s t.bridge g)))

go_on-IsFaithful :
    {T K : Type 0} (rest : WatchedBridge T K → WatchedBridge T K) (r : Bool × WatchedBridge T K)
    → ((b : WatchedBridge T K) → IsFaithful b → IsFaithful (rest b))
    → IsFaithful r.1
    → IsFaithful (go_on rest r)
unfolding go_on
go_on-IsFaithful rest (true, b) h f = h b f
go_on-IsFaithful rest (false, b) h f = f

bridge-keeps :
    {T K : Type 0} (net : Net T K) (rounds : List (ℕ × Select)) (b : WatchedBridge T K)
    → IsFaithful b
    → IsFaithful (bridge (recorded net) rounds b)
unfolding bridge
bridge-keeps net [] b f = f
bridge-keeps net ((fuel, s) ∷ rounds) b f =
    go_on-IsFaithful (bridge (recorded net) rounds) (round (recorded net) fuel s b)
      (bridge-keeps net rounds) (round-IsFaithful net fuel s b f)

-- The bridge between two new ends, over a recorded net, after these rounds.
abbrev pub bridged :
    {T K : Type 0} → Net T K → List (ℕ × Select) → T × K → T × K → WatchedBridge T K
bridged net rounds client up =
    bridge (recorded net) rounds
      (new_bridge (new_end (client.0, unseen) (client.1, [])) (new_end (up.0, unseen) (up.1, [])))

-- Whatever TLS, the sockets and the selector do, and after any number of rounds: by the record of
-- the net, the bridge between two new ends has written to each end's TLS just the chunks that it
-- read from the other's, in their order, of which the last may be missing at an end that is dead;
-- the observer has been given the same chunks; and of the ciphertext that TLS produced at an end,
-- the socket has accepted all but what is pending, in its order. A further round, if no end is dead
-- and the handshakes are over, passes on in both directions until an end is dead, or the source has
-- no data yet, or the round's fuel of chunks is written.
pub bridge-IsFaithful :
    {T K : Type 0} (net : Net T K) (rounds : List (ℕ × Select)) (client up : T × K) (fuel : ℕ)
    (select : Select)
    → IsFaithful (bridged net rounds client up)
      × Works net fuel
          (bridged net rounds client up)
          (round (recorded net) fuel select (bridged net rounds client up)).1
unfolding new_bridge new_end
bridge-IsFaithful net rounds client up fuel select = (
  bridge-keeps net rounds
      (new_bridge (new_end (client.0, unseen) (client.1, [])) (new_end (up.0, unseen) (up.1, [])))
      (record {
        up = all refl;
        down = all refl;
        client_observed = refl;
        up_observed = refl;
        client_ordered = refl;
        up_ordered = refl;
      }),
  round-Works net fuel select (bridged net rounds client up),
)
