-- ===== src/Bridge/Engine/Stop.antt =====
-- Why one direction of the bridge stops: the pump does not rest while data can be passed.
use local_smarthinq.Prelude.{
  ℕ, zero, suc, ◌+◌, ◌≡◌, refl, ap, ◌∙◌, Bool, true, false, ◌||◌, Option, none, some, [], ◌∷◌, ◌++◌,
  arith, Bytes, length, length-append,
}
use local_smarthinq.Bridge.Ends.{Net, read_plain}
use local_smarthinq.Bridge.Ends.Recorded.{recorded, see_write, Watched, Reads, read_plain-Reads}
use local_smarthinq.Bridge.Engine.{kill, written, pumped, pump, pump_on}
use local_smarthinq.Bridge.Engine.Pump.{WatchedFlow}

-- One of the two ends is dead, or the source was asked once more and has no data yet, or as many
-- chunks were written as there is fuel.
pub data Stops {T K : Type 0} (fuel : ℕ) (src dst src' dst' : Watched T K) : Type 0 where
  died : (src'.dead || dst'.dead) ≡ true → Stops fuel src dst src' dst'
  waited : src'.tls.1.waits ≡ suc src.tls.1.waits → Stops fuel src dst src' dst'
  busy : length dst'.tls.1.writes ≡ length dst.tls.1.writes + fuel → Stops fuel src dst src' dst'

abbrev FlowStops : {T K : Type 0} → ℕ → WatchedFlow T K → WatchedFlow T K → Type 0
FlowStops fuel f g = Stops fuel f.src f.dst g.src g.dst

written-Stops :
    {T K : Type 0} (again : WatchedFlow T K → WatchedFlow T K) (fuel : ℕ) (f : WatchedFlow T K)
    (s : Watched T K) (b : ℕ) (bs : Bytes) (ok : Bool) (t : T)
    → ((g : WatchedFlow T K) → FlowStops fuel g (again g))
    → Reads f.src (some (b ∷ bs), s)
    → FlowStops (suc fuel) f (
        written again
          (record f { src = s; taken = f.taken ++ (b ∷ bs) ∷ [] })
          (b ∷ bs)
          (ok, (t, see_write (b ∷ bs) ok f.dst.tls.1)))
unfolding written kill see_write
written-Stops again fuel f s b bs true t h r =
    let g : WatchedFlow _ _ = record f {
      src = s;
      taken = f.taken ++ (b ∷ bs) ∷ [];
      dst = record f.dst {
        tls = (t, record f.dst.tls.1 { writes = f.dst.tls.1.writes ++ (b ∷ bs) ∷ [] });
      };
      progressed = true;
    } in
    elim (h g) [
      | died d ↦ died d
      | waited w ↦ waited (omega (arith, w, r.waits))
      | busy e ↦ busy (omega (arith, e, length-append {0} f.dst.tls.1.writes ((b ∷ bs) ∷ [])))
    ]
written-Stops again fuel f s b bs false t h r = died (ground arith)

pumped-Stops :
    {T K : Type 0} (net : Net T K) (again : WatchedFlow T K → WatchedFlow T K) (fuel : ℕ)
    (f : WatchedFlow T K) (r : Option Bytes × Watched T K)
    → ((g : WatchedFlow T K) → FlowStops fuel g (again g))
    → Reads f.src r
    → FlowStops (suc fuel) f (pumped (recorded net) again f r)
unfolding pumped recorded kill
pumped-Stops net again fuel f (none, s) h k = waited (omega (arith, k.waits))
pumped-Stops net again fuel f (some [], s) h k = died refl
pumped-Stops net again fuel f (some (b ∷ bs), s) h k =
    written-Stops again fuel f s b bs (net.tls_write (b ∷ bs) f.dst.tls.0).0
      (net.tls_write (b ∷ bs) f.dst.tls.0).1 h k

pump_on-Stops :
    {T K : Type 0} (net : Net T K) (again : WatchedFlow T K → WatchedFlow T K) (fuel : ℕ)
    (f : WatchedFlow T K) (b : Bool)
    → (f.src.dead || f.dst.dead) ≡ b
    → ((g : WatchedFlow T K) → FlowStops fuel g (again g))
    → FlowStops (suc fuel) f (pump_on (recorded net) again f b)
unfolding pump_on
pump_on-Stops net again fuel f true e h = died e
pump_on-Stops net again fuel f false e h =
    pumped-Stops net again fuel f (read_plain (recorded net) f.src) h (read_plain-Reads net f.src)

pub pump-Stops :
    {T K : Type 0} (net : Net T K) (fuel : ℕ) (f : WatchedFlow T K)
    → FlowStops fuel f (pump (recorded net) fuel f)
unfolding pump
pump-Stops net zero f = busy (omega arith)
pump-Stops net (suc fuel) f =
    pump_on-Stops net (pump (recorded net) fuel) fuel f (f.src.dead || f.dst.dead) refl
      (pump-Stops net fuel)

-- What follows on both sides.
pub Stops-between :
    {T K : Type 0} {fuel : ℕ} {a b c d a' b' c' d' : Watched T K}
    → Stops fuel b c b' c'
    → b.tls.1.waits ≡ a.tls.1.waits
    → c.tls.1.writes ≡ d.tls.1.writes
    → (b'.dead ≡ true → a'.dead ≡ true)
    → (c'.dead ≡ true → d'.dead ≡ true)
    → a'.tls.1.waits ≡ b'.tls.1.waits
    → d'.tls.1.writes ≡ c'.tls.1.writes
    → Stops fuel a d a' d'
Stops-between (died h) w x s t y z = died (ground (arith, s, t))
Stops-between (waited h) w x s t y z = waited (y ∙ h ∙ ap suc w)
Stops-between {fuel = fuel} (busy h) w x s t y z =
    busy (ap length z ∙ h ∙ ap (λ l. length l + fuel) x)
