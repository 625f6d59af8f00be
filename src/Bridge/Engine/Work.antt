-- ===== src/Bridge/Engine/Work.antt =====
-- What the steps of a round do to the ends over a recorded net, and that a round passes on what it
-- can.
use local_smarthinq.Prelude.{
  ◌||◌, subst, if_true, if_false, Bool-cases, inl, inr, ℕ, ◌≡◌, refl, sym, Bool, true, false, ◌&&◌,
  List, [], ◌∷◌, if◌then◌else◌, if-both, Bytes,
}
use local_smarthinq.Bridge.Ends.{Net, flush, drive_handshake, drain, feed_socket}
use local_smarthinq.Bridge.Ends.Recorded.{
  Seen, recorded, Watched, Follows, Follows-refl, Follows-trans, flush-Follows,
  drive_handshake-Follows, drain-Follows, feed_socket-Follows,
}
use local_smarthinq.Bridge.Engine.{
  Bridge, Turn, handshakes, pump_up, pump_down, pumps, alive_or_dead, push_out, push_both, turn,
  any_dead, Key, on_client, on_up, Select, ready, timeout, wake_end, wake, wake_all, on_select,
  pump, round,
}
use local_smarthinq.Bridge.Engine.Pump.{kill-Follows, WatchedFlow, pump-Pumps}
use local_smarthinq.Bridge.Engine.Stop.{Stops, Stops-between, pump-Stops}

-- A bridge whose net is recorded.
abbrev pub WatchedBridge : Type 0 → Type 0 → Type 0
WatchedBridge T K = Bridge (T × Seen) (K × Bytes)

alive_or_dead-Follows :
    {T K : Type 0} {d : Watched T K} (r : Bool × Watched T K)
    → Follows d r.1
    → Follows d (alive_or_dead r)
unfolding alive_or_dead
alive_or_dead-Follows (true, e) h = h
alive_or_dead-Follows (false, e) h = Follows-trans h (kill-Follows e)

pub push_out-Follows :
    {T K : Type 0} (net : Net T K) (e : Watched T K) → Follows e (push_out (recorded net) e).1
unfolding push_out
push_out-Follows net e =
    let e' = (drain (recorded net) e).1 in
    alive_or_dead-Follows (flush (recorded net) e')
      (Follows-trans (drain-Follows net e) (flush-Follows net e'))

pub wake_end-Follows :
    {T K : Type 0} (net : Net T K) (write read : Bool) (e : Watched T K)
    → Follows e (wake_end (recorded net) write read e)
unfolding wake_end
wake_end-Follows net write read e =
    let e' = if write then alive_or_dead (flush (recorded net) e) else e in
    let h : Follows e e' =
      if-both (Follows e) write (alive_or_dead (flush (recorded net) e)) e
        (alive_or_dead-Follows (flush (recorded net) e) (flush-Follows net e)) (Follows-refl e) in
    if-both (Follows e) read (alive_or_dead (feed_socket (recorded net) e')) e'
      (alive_or_dead-Follows (feed_socket (recorded net) e')
        (Follows-trans h (feed_socket-Follows net e')))
      h

-- Both ends follow.
pub record Leads {T K : Type 0} (b b' : WatchedBridge T K) : Type 0 where
  pub client : Follows b.client b'.client
  pub up : Follows b.up b'.up

wake_all-Leads :
    {T K : Type 0} (net : Net T K) (ks : List Key) (b : WatchedBridge T K)
    → Leads b (wake_all (recorded net) ks b)
unfolding wake_all wake
wake_all-Leads net [] b = record { client = Follows-refl b.client; up = Follows-refl b.up }
wake_all-Leads net (on_client write read ∷ ks) b =
    let e = wake_end (recorded net) write read b.client in
    let later = wake_all-Leads net ks (record b { client = e }) in
    record {
      client = Follows-trans (wake_end-Follows net write read b.client) later.client;
      up = later.up;
    }
wake_all-Leads net (on_up write read ∷ ks) b =
    let e = wake_end (recorded net) write read b.up in
    let later = wake_all-Leads net ks (record b { up = e }) in
    record {
      client = later.client;
      up = Follows-trans (wake_end-Follows net write read b.up) later.up;
    }

on_select-Leads :
    {T K : Type 0} (net : Net T K) (s : Select) (b : WatchedBridge T K)
    → Leads b (on_select (recorded net) s b).1
unfolding on_select
on_select-Leads net (ready k ks) b = wake_all-Leads net (k ∷ ks) b
on_select-Leads net (timeout over) b = record {
  client = Follows-refl b.client;
  up = Follows-refl b.up;
}

-- Each direction stops for one of the three reasons.
pub record Moves {T K : Type 0} (fuel : ℕ) (b b' : WatchedBridge T K) : Type 0 where
  pub up : Stops fuel b.client b.up b'.client b'.up
  pub down : Stops fuel b.up b.client b'.up b'.client

Moves-Leads :
    {T K : Type 0} {fuel : ℕ} {a b c d : WatchedBridge T K}
    → Leads a b
    → Moves fuel b c
    → Leads c d
    → Moves fuel a d
Moves-Leads h m k = record {
  up =
      Stops-between m.up h.client.waits h.up.writes k.client.steps.stays k.up.steps.stays
        k.client.waits k.up.writes;
  down =
      Stops-between m.down h.up.waits h.client.writes k.up.steps.stays k.client.steps.stays
        k.up.waits k.client.writes;
}

legs-Moves :
    {T K : Type 0} (net : Net T K) (fuel : ℕ) (t : Turn (T × Seen) (K × Bytes))
    → Moves fuel t.bridge (pump_down (recorded net) fuel (pump_up (recorded net) fuel t)).bridge
unfolding pump_up pump_down
legs-Moves net fuel t =
    let b = t.bridge in
    let there : WatchedFlow _ _ = record {
      src = b.client;
      dst = b.up;
      taken = b.client_taken;
      progressed = t.progressed;
    } in
    let mid = pump (recorded net) fuel there in
    let back : WatchedFlow _ _ = record {
      src = mid.dst;
      dst = mid.src;
      taken = b.up_taken;
      progressed = mid.progressed;
    } in
    let p = pump-Pumps net fuel there in
    let q = pump-Pumps net fuel back in
    record {
      up =
          Stops-between (pump-Stops net fuel there) refl refl q.dst.stays q.src.stays q.dst_waits
            q.src_writes;
      down =
          Stops-between (pump-Stops net fuel back) p.dst_waits p.src_writes (λ h. h) (λ h. h) refl
            refl;
    }

-- The handshakes of a round are over.
abbrev pub shaken : {T K : Type 0} → Net T K → WatchedBridge T K → Bool
shaken net b =
    (drive_handshake (recorded net) b.client).1.handshaken
    && (drive_handshake (recorded net) b.up).1.handshaken

turn-Moves :
    {T K : Type 0} (net : Net T K) (fuel : ℕ) (b : WatchedBridge T K)
    → shaken net b ≡ true
    → Moves fuel b (turn (recorded net) fuel b).bridge
unfolding turn push_both pumps handshakes
turn-Moves net fuel b h =
    let t = handshakes (recorded net) b in
    let legs = pump_down (recorded net) fuel (pump_up (recorded net) fuel t) in
    let pumped = pumps (recorded net) fuel t in
    let m : Moves fuel t.bridge pumped.bridge =
      subst (λ x. Moves fuel t.bridge x.bridge) (sym (if_true (shaken net b) legs t h))
        (legs-Moves net fuel t) in
    Moves-Leads
      (record {
        client = drive_handshake-Follows net b.client;
        up = drive_handshake-Follows net b.up;
      })
      m
      (record {
        client = push_out-Follows net pumped.bridge.client;
        up = push_out-Follows net pumped.bridge.up;
      })

-- What a round does: an end was dead before it, or the handshakes are not over with it, or each
-- direction was passed on until it stopped.
pub data Works {T K : Type 0} (net : Net T K) (fuel : ℕ) (b b' : WatchedBridge T K) : Type 0 where
  over : (b.client.dead || b.up.dead) ≡ true → Works net fuel b b'
  shaking : shaken net b ≡ false → Works net fuel b b'
  passed : Moves fuel b b' → Works net fuel b b'

round-Moves :
    {T K : Type 0} (net : Net T K) (fuel : ℕ) (s : Select) (b : WatchedBridge T K)
    → (b.client.dead || b.up.dead) ≡ false
    → shaken net b ≡ true
    → Moves fuel b (round (recorded net) fuel s b).1
unfolding round any_dead
round-Moves net fuel s b alive h =
    let t = turn (recorded net) fuel b in
    let m = turn-Moves net fuel b h in
    let P : Bool × WatchedBridge _ _ → Type 0 = λ r. Moves fuel b r.1 in
    let step = if t.progressed then (true, t.bridge) else on_select (recorded net) s t.bridge in
    subst P
      (sym (
        if_false (any_dead b) (false, b) (if any_dead t.bridge then (false, t.bridge) else step)
          alive))
      (if-both P (any_dead t.bridge) (false, t.bridge) step m
        (if-both P t.progressed (true, t.bridge) (on_select (recorded net) s t.bridge) m
          (Moves-Leads (record { client = Follows-refl b.client; up = Follows-refl b.up }) m
            (on_select-Leads net s t.bridge))))

pub round-Works :
    {T K : Type 0} (net : Net T K) (fuel : ℕ) (s : Select) (b : WatchedBridge T K)
    → Works net fuel b (round (recorded net) fuel s b).1
round-Works net fuel s b = elim (Bool-cases (b.client.dead || b.up.dead)) [
  | inl dead ↦ over dead
  | inr alive ↦ elim (Bool-cases (shaken net b)) [
    | inl done ↦ passed (round-Moves net fuel s b alive done)
    | inr unready ↦ shaking unready
  ]
]
