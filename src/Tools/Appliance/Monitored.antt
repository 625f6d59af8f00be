-- ===== src/Tools/Appliance/Monitored.antt =====
-- The virtual appliance against the server: monitoring starts, and the states arrive.
use local_smarthinq.Prelude.{
  ℕ, zero, suc, ◌-◌, ◌%◌, ◌≤◌, ◌≡◌, refl, sym, ap, ◌∙◌, subst, true, false, ◌&&◌, Option, none,
  some, List, [], ◌∷◌, ◌++◌, All, Bytes, leb, if-both, if_true, if_false, arith, length,
}
use local_smarthinq.Json.{Value, str, Fields}
use local_smarthinq.Control.Protocol.{make_message}
use local_smarthinq.Mqtt.View.{truthy}
use local_smarthinq.Tools.Appliance.{
  Settings, FakeAppliance, Said, drawn_id, send, alive_body, pump_body, alive, state_at, rung, pump,
  tick,
}
use local_smarthinq.Tools.Appliance.Served.{
  IsFull, Carries, silence, keepalive_then, state_then, Carries-append,
}

-- Each time is late enough behind the one before it for a state to be sent.
abbrev pub Due : Settings → ℕ → List ℕ → Type 0
Due st last [] = Unit {0}
Due st last (t ∷ ts) = (st.pump_interval ≤ t - last) × Due st t ts

-- The states of so many rounds, from the i-th on.
abbrev pub rungs : Settings → ℕ → List ℕ → List Bytes
rungs st i [] = []
rungs st i (t ∷ ts) = rung st i ∷ rungs st (suc i) ts

-- Rounds in which nothing is received.
unfoldable pub ticks : Settings → List ℕ → FakeAppliance → Said
unfolding tick
ticks st [] a = (a, [])
ticks st (t ∷ ts) a = let (a', m) = tick st t a in let (a'', n) = ticks st ts a' in (a'', m ++ n)

All-state_at :
    (P : Bytes → Type 0) (other : Bytes) (n : ℕ) (states : List Bytes)
    → P other
    → All P states
    → P (state_at other n states)
unfolding state_at
All-state_at P other n [] p h = p
All-state_at P other zero (s ∷ ss) p (h, k) = h
All-state_at P other (suc n) (s ∷ ss) p (h, k) = All-state_at P other n ss p k

rung-IsFull : (st : Settings) (i : ℕ) → All IsFull (st.first ∷ st.others) → IsFull (rung st i)
unfolding rung
rung-IsFull st i h =
    All-state_at IsFull st.first (i % length (st.first ∷ st.others)) (st.first ∷ st.others) h.0 h

-- An id, and a message under it.
pub record Sends (st : Settings) (body : Fields) (a : FakeAppliance) (s : Said) : Type 0 where
  pub wid : Value
  pub is : s.1 ≡ make_message st.device_id wid body ∷ []
  pub started : s.0.mon_start_received ≡ a.mon_start_received
  pub acks : s.0.acks_sent ≡ a.acks_sent
  pub pumped : s.0.pump_i ≡ a.pump_i
  pub at : s.0.last_pump ≡ a.last_pump
  pub kept : s.0.buf ≡ a.buf

pub send-Sends :
    (st : Settings) (o : Option Value) (body : Fields) (a : FakeAppliance)
    → Sends st body a (send st o body a)
unfolding send drawn_id
send-Sends st none body a = record {
  wid = str (st.uuid a.drawn);
  is = refl;
  started = refl;
  acks = refl;
  pumped = refl;
  at = refl;
  kept = refl;
}
send-Sends st (some w) body a =
    if-both (Sends st body a) (truthy w) _ _
      (record {
        wid = w;
        is = refl;
        started = refl;
        acks = refl;
        pumped = refl;
        at = refl;
        kept = refl;
      })
      (record {
        wid = str (st.uuid a.drawn);
        is = refl;
        started = refl;
        acks = refl;
        pumped = refl;
        at = refl;
        kept = refl;
      })

-- What a step sends, and what it leaves: the next state's place, and the time of the last one.
pub record Steps (st : Settings) (a : FakeAppliance) (blobs : List Bytes) (i last : ℕ) (s : Said)
    : Type 0 where
  pub carries : Carries st s.1 blobs
  pub started : s.0.mon_start_received ≡ a.mon_start_received
  pub acks : s.0.acks_sent ≡ a.acks_sent
  pub pumped : s.0.pump_i ≡ i
  pub at : s.0.last_pump ≡ last
  pub kept : s.0.buf ≡ a.buf

pub alive-Steps :
    (st : Settings) (now : ℕ) (a : FakeAppliance)
    → Steps st a [] a.pump_i a.last_pump (alive st now a)
unfolding alive
alive-Steps st now a =
    let p = send-Sends st none alive_body a in
    let said = send st none alive_body a in
    if-both (Steps st a [] a.pump_i a.last_pump) (leb st.alive_interval (now - a.last_alive))
      (record said.0 { last_alive = now }, said.1) (a, [])
      (record {
        carries = subst (λ ms. Carries st ms []) (sym p.is) (keepalive_then p.wid silence);
        started = p.started;
        acks = p.acks;
        pumped = p.pumped;
        at = p.at;
        kept = p.kept;
      })
      (record {
        carries = silence;
        started = refl;
        acks = refl;
        pumped = refl;
        at = refl;
        kept = refl;
      })

-- Before the server has asked for states, none is sent.
pub pump-waiting :
    (st : Settings) (now : ℕ) (a : FakeAppliance)
    → a.mon_start_received ≡ false
    → pump st now a ≡ (a, [])
unfolding pump
pump-waiting st now a h =
    let said = send st a.mon_cmd_w_id (pump_body (st.b64encode (rung st a.pump_i))) a in
    if_false (a.mon_start_received && leb st.pump_interval (now - a.last_pump))
      (record said.0 { pump_i = suc a.pump_i; last_pump = now }, said.1) (a, []) (ground arith)

pump-Steps :
    (st : Settings) (now : ℕ) (a : FakeAppliance)
    → All IsFull (st.first ∷ st.others)
    → a.mon_start_received ≡ true
    → st.pump_interval ≤ now - a.last_pump
    → Steps st a (rung st a.pump_i ∷ []) (suc a.pump_i) now (pump st now a)
unfolding pump
pump-Steps st now a full h due =
    let blob = rung st a.pump_i in
    let p = send-Sends st a.mon_cmd_w_id (pump_body (st.b64encode blob)) a in
    let said = send st a.mon_cmd_w_id (pump_body (st.b64encode blob)) a in
    subst (Steps st a (blob ∷ []) (suc a.pump_i) now)
      (sym (
        if_true (a.mon_start_received && leb st.pump_interval (now - a.last_pump))
          (record said.0 { pump_i = suc a.pump_i; last_pump = now }, said.1) (a, [])
          (ground arith)))
      (record {
        carries =
            subst (λ ms. Carries st ms (blob ∷ [])) (sym p.is)
              (state_then p.wid (rung-IsFull st a.pump_i full) silence);
        started = p.started;
        acks = p.acks;
        pumped = refl;
        at = refl;
        kept = p.kept;
      })

tick-Steps :
    (st : Settings) (now : ℕ) (a : FakeAppliance)
    → All IsFull (st.first ∷ st.others)
    → a.mon_start_received ≡ true
    → st.pump_interval ≤ now - a.last_pump
    → Steps st a (rung st a.pump_i ∷ []) (suc a.pump_i) now (tick st now a)
unfolding tick
tick-Steps st now a full h due =
    let b = (alive st now a).0 in
    let p = alive-Steps st now a in
    let q =
      pump-Steps st now b full (p.started ∙ h)
        (subst (λ t. st.pump_interval ≤ now - t) (sym p.at) due) in
    record {
      carries =
          Carries-append p.carries
            (subst (λ i. Carries st (pump st now b).1 (rung st i ∷ [])) p.pumped q.carries);
      started = q.started ∙ p.started;
      acks = q.acks ∙ p.acks;
      pumped = q.pumped ∙ ap suc p.pumped;
      at = q.at;
      kept = q.kept ∙ p.kept;
    }

-- What rounds with nothing to receive send.
pub record Ticked (st : Settings) (a : FakeAppliance) (blobs : List Bytes) (s : Said) : Type 0 where
  pub carries : Carries st s.1 blobs
  pub acks : s.0.acks_sent ≡ a.acks_sent

-- A state goes out in each round that is due.
pub ticks-Ticked :
    (st : Settings) (ts : List ℕ) (a : FakeAppliance)
    → All IsFull (st.first ∷ st.others)
    → a.mon_start_received ≡ true
    → Due st a.last_pump ts
    → Ticked st a (rungs st a.pump_i ts) (ticks st ts a)
unfolding ticks
ticks-Ticked st [] a full h due = record { carries = silence; acks = refl }
ticks-Ticked st (t ∷ ts) a full h (due, later) =
    let p = tick-Steps st t a full h due in
    let b = (tick st t a).0 in
    let q = ticks-Ticked st ts b full (p.started ∙ h) (subst (λ l. Due st l ts) (sym p.at) later) in
    record {
      carries =
          Carries-append p.carries
            (subst (λ i. Carries st (ticks st ts b).1 (rungs st i ts)) p.pumped q.carries);
      acks = q.acks ∙ p.acks;
    }
