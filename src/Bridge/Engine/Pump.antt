-- ===== src/Bridge/Engine/Pump.antt =====
-- One direction of the bridge over a recorded net: the chunks that are read at one end are written
-- to the other, in their order, and the observer is given the same chunks.
use local_smarthinq.Prelude.{
  ℕ, zero, suc, ◌≡◌, refl, ap, ◌∙◌, sym, Bool, true, false, ◌||◌, Option, none, some, List, [], ◌∷◌,
  ◌++◌, append-nil, arith, Bytes,
}
use local_smarthinq.Bridge.Ends.{Net, read_plain}
use local_smarthinq.Bridge.Ends.Recorded.{
  Seen, recorded, see_write, Watched, Steps, Steps-refl, Steps-trans, Follows, chunk_of, Reads,
  read_plain-Reads,
}
use local_smarthinq.Bridge.Engine.{Flow, kill, written, pumped, pump, pump_on}

-- What is written to an end is what was read for it; where the end is dead, it may be one chunk
-- short.
pub data Passes (dead : Bool) (reads writes : List Bytes) : Type 0 where
  all : reads ≡ writes → Passes dead reads writes
  one_lost : (chunk : Bytes) → reads ≡ writes ++ chunk ∷ [] → dead ≡ true → Passes dead reads writes

pub Passes-cong :
    {dead dead' : Bool} {reads reads' writes writes' : List Bytes}
    → (dead ≡ true → dead' ≡ true)
    → reads' ≡ reads
    → writes' ≡ writes
    → Passes dead reads writes
    → Passes dead' reads' writes'
Passes-cong stays r w (all h) = all (r ∙ h ∙ sym w)
Passes-cong stays r w (one_lost c h k) =
    one_lost c (r ∙ h ∙ ap (λ x. x ++ c ∷ []) (sym w)) (stays k)

pub kill-Follows : {T K : Type 0} (e : Watched T K) → Follows e (kill e)
unfolding kill
kill-Follows e = record {
  steps = record { stays = λ h. refl; ordered = λ h. h };
  reads = refl;
  waits = refl;
  writes = refl;
}

-- A direction of the bridge whose net is recorded.
abbrev pub WatchedFlow : Type 0 → Type 0 → Type 0
WatchedFlow T K = Flow (T × Seen) (K × Bytes)

abbrev pub FlowPasses : {T K : Type 0} → WatchedFlow T K → Type 0
FlowPasses f = Passes f.dst.dead f.src.tls.1.reads f.dst.tls.1.writes

-- What a pump keeps, and what it leaves to the other direction.
pub record Pumps {T K : Type 0} (f g : WatchedFlow T K) : Type 0 where
  pub src : Steps f.src g.src
  pub dst : Steps f.dst g.dst
  pub src_writes : g.src.tls.1.writes ≡ f.src.tls.1.writes
  pub dst_reads : g.dst.tls.1.reads ≡ f.dst.tls.1.reads
  pub dst_waits : g.dst.tls.1.waits ≡ f.dst.tls.1.waits
  pub passes : FlowPasses f → FlowPasses g
  pub observed : f.taken ≡ f.src.tls.1.reads → g.taken ≡ g.src.tls.1.reads

Pumps-refl : {T K : Type 0} (f : WatchedFlow T K) → Pumps f f
Pumps-refl f = record {
  src = Steps-refl f.src;
  dst = Steps-refl f.dst;
  src_writes = refl;
  dst_reads = refl;
  dst_waits = refl;
  passes = λ h. h;
  observed = λ h. h;
}

Pumps-trans : {T K : Type 0} {f g h : WatchedFlow T K} → Pumps f g → Pumps g h → Pumps f h
Pumps-trans p q = record {
  src = Steps-trans p.src q.src;
  dst = Steps-trans p.dst q.dst;
  src_writes = q.src_writes ∙ p.src_writes;
  dst_reads = q.dst_reads ∙ p.dst_reads;
  dst_waits = q.dst_waits ∙ p.dst_waits;
  passes = λ h. q.passes (p.passes h);
  observed = λ h. q.observed (p.observed h);
}

written-Pumps :
    {T K : Type 0} (again : WatchedFlow T K → WatchedFlow T K) (f : WatchedFlow T K)
    (s : Watched T K) (b : ℕ) (bs : Bytes) (ok : Bool) (t : T)
    → ((g : WatchedFlow T K) → Pumps g (again g))
    → Reads f.src (some (b ∷ bs), s)
    → f.dst.dead ≡ false
    → Pumps f (
        written again
          (record f { src = s; taken = f.taken ++ (b ∷ bs) ∷ [] })
          (b ∷ bs)
          (ok, (t, see_write (b ∷ bs) ok f.dst.tls.1)))
unfolding written kill see_write
written-Pumps again f s b bs true t h r d =
    let g : WatchedFlow _ _ = record f {
      src = s;
      taken = f.taken ++ (b ∷ bs) ∷ [];
      dst = record f.dst {
        tls = (t, record f.dst.tls.1 { writes = f.dst.tls.1.writes ++ (b ∷ bs) ∷ [] });
      };
      progressed = true;
    } in
    Pumps-trans
      (record {
        src = r.steps;
        dst = record { stays = λ x. x; ordered = λ x. x };
        src_writes = r.writes;
        dst_reads = refl;
        dst_waits = refl;
        passes = both;
        observed = λ e. ap (λ x. x ++ (b ∷ bs) ∷ []) e ∙ sym r.reads;
      })
      (h g)
  where
    both : FlowPasses f → Passes f.dst.dead s.tls.1.reads (f.dst.tls.1.writes ++ (b ∷ bs) ∷ [])
    both (all e) = all (r.reads ∙ ap (λ x. x ++ (b ∷ bs) ∷ []) e)
    both (one_lost c e dead) = absurd (ground arith)
written-Pumps again f s b bs false t h r d = record {
  src = r.steps;
  dst = record { stays = λ x. refl; ordered = λ x. x };
  src_writes = r.writes;
  dst_reads = refl;
  dst_waits = refl;
  passes = lost_one;
  observed = λ e. ap (λ x. x ++ (b ∷ bs) ∷ []) e ∙ sym r.reads;
}
  where
    lost_one : FlowPasses f → Passes true s.tls.1.reads f.dst.tls.1.writes
    lost_one (all e) = one_lost (b ∷ bs) (r.reads ∙ ap (λ x. x ++ (b ∷ bs) ∷ []) e) refl
    lost_one (one_lost c e dead) = absurd (ground arith)

-- A read with no chunk; the source may die of it.
read-Pumps :
    {T K : Type 0} (f : WatchedFlow T K) (o : Option Bytes) (s : Watched T K) (dead : Bool)
    → Reads f.src (o, s)
    → chunk_of o ≡ []
    → (s.dead ≡ true → dead ≡ true)
    → Pumps f (record f { src = record s { dead = dead } })
read-Pumps f o s dead r none_read stays =
    let same : s.tls.1.reads ≡ f.src.tls.1.reads =
      r.reads ∙ ap (◌++◌ f.src.tls.1.reads) none_read ∙ append-nil f.src.tls.1.reads in
    record {
      src = record { stays = λ h. stays (r.steps.stays h); ordered = r.steps.ordered };
      dst = Steps-refl f.dst;
      src_writes = r.writes;
      dst_reads = refl;
      dst_waits = refl;
      passes = Passes-cong (λ h. h) same refl;
      observed = λ e. e ∙ sym same;
    }

pumped-Pumps :
    {T K : Type 0} (net : Net T K) (again : WatchedFlow T K → WatchedFlow T K) (f : WatchedFlow T K)
    (r : Option Bytes × Watched T K)
    → ((g : WatchedFlow T K) → Pumps g (again g))
    → Reads f.src r
    → f.dst.dead ≡ false
    → Pumps f (pumped (recorded net) again f r)
unfolding pumped recorded kill
pumped-Pumps net again f (none, s) h k d = read-Pumps f none s s.dead k refl (λ x. x)
pumped-Pumps net again f (some [], s) h k d = read-Pumps f (some []) s true k refl (λ x. refl)
pumped-Pumps net again f (some (b ∷ bs), s) h k d =
    written-Pumps again f s b bs (net.tls_write (b ∷ bs) f.dst.tls.0).0
      (net.tls_write (b ∷ bs) f.dst.tls.0).1 h k d

pump_on-Pumps :
    {T K : Type 0} (net : Net T K) (again : WatchedFlow T K → WatchedFlow T K) (f : WatchedFlow T K)
    (b : Bool)
    → (f.src.dead || f.dst.dead) ≡ b
    → ((g : WatchedFlow T K) → Pumps g (again g))
    → Pumps f (pump_on (recorded net) again f b)
unfolding pump_on
pump_on-Pumps net again f true e h = Pumps-refl f
pump_on-Pumps net again f false e h =
    pumped-Pumps net again f (read_plain (recorded net) f.src) h (read_plain-Reads net f.src)
      (ground arith)

pub pump-Pumps :
    {T K : Type 0} (net : Net T K) (fuel : ℕ) (f : WatchedFlow T K)
    → Pumps f (pump (recorded net) fuel f)
unfolding pump
pump-Pumps net zero f = Pumps-refl f
pump-Pumps net (suc fuel) f =
    pump_on-Pumps net (pump (recorded net) fuel) f (f.src.dead || f.dst.dead) refl
      (pump-Pumps net fuel)
