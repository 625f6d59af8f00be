-- ===== src/Bridge/Relay/Direct.antt =====
-- One direction of the standalone relay, against the engine's.
use local_smarthinq.Prelude.{
  ℕ, zero, suc, ◌≡◌, refl, ap, ◌∙◌, Bool, true, false, ◌||◌, Option, none, some, List, [], ◌∷◌,
  ◌++◌, Bytes,
}
use local_smarthinq.Bridge.Ends.{Net, End, read_plain}
use local_smarthinq.Bridge.Engine.{kill, Flow, written, pumped, pump_on, pump}
use local_smarthinq.Bridge.Relay.{
  Direction, c_to_u, u_to_c, Log, Leg, relay_written, relay_pumped, relay_pump_on, relay_pump,
}

-- The log's chunks of one direction.
unfoldable pub chunks_of : Direction → Log → List Bytes
chunks_of dir [] = []
chunks_of c_to_u ((c_to_u, chunk) ∷ log) = chunk ∷ chunks_of c_to_u log
chunks_of c_to_u ((u_to_c, chunk) ∷ log) = chunks_of c_to_u log
chunks_of u_to_c ((c_to_u, chunk) ∷ log) = chunks_of u_to_c log
chunks_of u_to_c ((u_to_c, chunk) ∷ log) = chunk ∷ chunks_of u_to_c log

unfoldable pub opposite : Direction → Direction
opposite c_to_u = u_to_c
opposite u_to_c = c_to_u

chunks_of-same :
    (dir : Direction) (log : Log) (chunk : Bytes)
    → chunks_of dir (log ++ (dir, chunk) ∷ []) ≡ chunks_of dir log ++ chunk ∷ []
unfolding chunks_of
chunks_of-same c_to_u [] chunk = refl
chunks_of-same u_to_c [] chunk = refl
chunks_of-same c_to_u ((c_to_u, x) ∷ log) chunk =
    ap (λ xs. x ∷ xs) (chunks_of-same c_to_u log chunk)
chunks_of-same c_to_u ((u_to_c, x) ∷ log) chunk = chunks_of-same c_to_u log chunk
chunks_of-same u_to_c ((c_to_u, x) ∷ log) chunk = chunks_of-same u_to_c log chunk
chunks_of-same u_to_c ((u_to_c, x) ∷ log) chunk =
    ap (λ xs. x ∷ xs) (chunks_of-same u_to_c log chunk)

chunks_of-opposite :
    (dir : Direction) (log : Log) (chunk : Bytes)
    → chunks_of (opposite dir) (log ++ (dir, chunk) ∷ []) ≡ chunks_of (opposite dir) log
unfolding chunks_of opposite
chunks_of-opposite c_to_u [] chunk = refl
chunks_of-opposite u_to_c [] chunk = refl
chunks_of-opposite c_to_u ((c_to_u, x) ∷ log) chunk = chunks_of-opposite c_to_u log chunk
chunks_of-opposite c_to_u ((u_to_c, x) ∷ log) chunk =
    ap (λ xs. x ∷ xs) (chunks_of-opposite c_to_u log chunk)
chunks_of-opposite u_to_c ((c_to_u, x) ∷ log) chunk =
    ap (λ xs. x ∷ xs) (chunks_of-opposite u_to_c log chunk)
chunks_of-opposite u_to_c ((u_to_c, x) ∷ log) chunk = chunks_of-opposite u_to_c log chunk

-- A pass of the relay with this log, for a flow of the engine.
abbrev pub leg_of : {T K : Type 0} → Log → Flow T K → Leg T K
leg_of log f = record { src = f.src; dst = f.dst; log = log; progressed = f.progressed }

-- The log's chunks are those of the flow in this direction, and these in the other.
pub record IsLogOf {T K : Type 0} (dir : Direction) (others : List Bytes) (log : Log) (f : Flow T K)
    : Type 0 where
  pub own : chunks_of dir log ≡ f.taken
  pub other : chunks_of (opposite dir) log ≡ others

-- The pass is a flow with such a log.
pub record IsLegOf {T K : Type 0} (dir : Direction) (others : List Bytes) (l : Leg T K)
    (f : Flow T K) : Type 0 where
  pub log : Log
  pub is : l ≡ leg_of log f
  pub logs : IsLogOf dir others log f

Simulates :
    {T K : Type 0} → Direction → List Bytes → (Leg T K → Leg T K) → (Flow T K → Flow T K) → Type 0
Simulates dir others rest again =
    (log : Log) (f : Flow _ _)
    → IsLogOf dir others log f
    → IsLegOf dir others (rest (leg_of log f)) (again f)

written-IsLegOf :
    {T K : Type 0} (dir : Direction) (others : List Bytes) (rest : Leg T K → Leg T K)
    (again : Flow T K → Flow T K) (log : Log) (f : Flow T K) (chunk : Bytes) (r : Bool × T)
    → Simulates dir others rest again
    → IsLogOf dir others log f
    → IsLegOf dir others (relay_written rest (leg_of log f) r) (written again f chunk r)
unfolding Simulates relay_written written kill
written-IsLegOf dir others rest again log f chunk (true, t) h k =
    h log (record f { dst = record f.dst { tls = t }; progressed = true })
      (record { own = k.own; other = k.other })
written-IsLegOf dir others rest again log f chunk (false, t) h k = record {
  log = log;
  is = refl;
  logs = record { own = k.own; other = k.other };
}

pumped-IsLegOf :
    {T K : Type 0} (net : Net T K) (dir : Direction) (others : List Bytes)
    (rest : Leg T K → Leg T K) (again : Flow T K → Flow T K) (log : Log) (f : Flow T K)
    (r : Option Bytes × End T K)
    → Simulates dir others rest again
    → IsLogOf dir others log f
    → IsLegOf dir others (relay_pumped net dir rest (leg_of log f) r) (pumped net again f r)
unfolding relay_pumped pumped
pumped-IsLegOf net dir others rest again log f (none, s) h k = record {
  log = log;
  is = refl;
  logs = record { own = k.own; other = k.other };
}
pumped-IsLegOf net dir others rest again log f (some [], s) h k = record {
  log = log;
  is = refl;
  logs = record { own = k.own; other = k.other };
}
pumped-IsLegOf net dir others rest again log f (some (b ∷ bs), s) h k =
    written-IsLegOf dir others rest again (log ++ (dir, b ∷ bs) ∷ [])
      (record f { src = s; taken = f.taken ++ (b ∷ bs) ∷ [] }) (b ∷ bs)
      (net.tls_write (b ∷ bs) f.dst.tls) h
      (record {
        own = chunks_of-same dir log (b ∷ bs) ∙ ap (λ xs. xs ++ (b ∷ bs) ∷ []) k.own;
        other = chunks_of-opposite dir log (b ∷ bs) ∙ k.other;
      })

pump_on-IsLegOf :
    {T K : Type 0} (net : Net T K) (dir : Direction) (others : List Bytes)
    (rest : Leg T K → Leg T K) (again : Flow T K → Flow T K) (log : Log) (f : Flow T K)
    (dead : Bool)
    → Simulates dir others rest again
    → IsLogOf dir others log f
    → IsLegOf dir others (relay_pump_on net dir rest (leg_of log f) dead) (pump_on net again f dead)
unfolding relay_pump_on pump_on
pump_on-IsLegOf net dir others rest again log f true h k = record { log = log; is = refl; logs = k }
pump_on-IsLegOf net dir others rest again log f false h k =
    pumped-IsLegOf net dir others rest again log f (read_plain net f.src) h k

pub pump-IsLegOf :
    {T K : Type 0} (net : Net T K) (dir : Direction) (others : List Bytes) (fuel : ℕ) (log : Log)
    (f : Flow T K)
    → IsLogOf dir others log f
    → IsLegOf dir others (relay_pump net dir fuel (leg_of log f)) (pump net fuel f)
unfolding relay_pump pump Simulates
pump-IsLegOf net dir others zero log f k = record { log = log; is = refl; logs = k }
pump-IsLegOf net dir others (suc fuel) log f k =
    pump_on-IsLegOf net dir others (relay_pump net dir fuel) (pump net fuel) log f
      (f.src.dead || f.dst.dead) (pump-IsLegOf net dir others fuel) k
