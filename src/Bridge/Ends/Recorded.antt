-- ===== src/Bridge/Ends/Recorded.antt =====
-- A net that records what passes through TLS and the sockets, and what the steps on an endpoint do
-- to these records.
use local_smarthinq.Prelude.{
  arith, ◌+◌, ℕ, zero, suc, ◌≡◌, refl, sym, ap, ◌∙◌, Bool, true, false, ◌||◌, Option, none, some,
  List, [], ◌∷◌, ◌++◌, append_assoc, append-nil, if-both, Bytes, take, drop, length,
  take-append-drop,
}
use local_smarthinq.Bridge.Ends.{
  Handshake, finished, wants, failed, Plain, plain, wants_read, closed, broken, Sending, accepted,
  blocks, refused, Receiving, received, no_data, lost, Net, End, flushed, flush_pending, flush_loop,
  flush, shaken, drive_handshake, drained_into, drain, read_result, read_plain, fed, feed_socket,
}

-- What an end's TLS was seen to do: the chunks of plain data that it gave, how often it had none
-- yet, the chunks that it took, and the ciphertext that it produced.
pub record Seen : Type 0 where
  pub reads : List Bytes
  pub waits : ℕ
  pub writes : List Bytes
  pub produced : Bytes

abbrev pub unseen : Seen
unseen = record { reads = []; waits = 0; writes = []; produced = [] }

-- An empty chunk is the end of the data.
unfoldable see_read : Plain → Seen → Seen
see_read (plain []) seen = seen
see_read (plain (b ∷ bs)) seen = record seen { reads = seen.reads ++ (b ∷ bs) ∷ [] }
see_read wants_read seen = record seen { waits = suc seen.waits }
see_read closed seen = seen
see_read broken seen = seen

unfoldable pub see_write : Bytes → Bool → Seen → Seen
see_write chunk true seen = record seen { writes = seen.writes ++ chunk ∷ [] }
see_write chunk false seen = seen

unfoldable see_sent : Bytes → Sending → Bytes → Bytes
see_sent p (accepted n) log = log ++ take n p
see_sent p blocks log = log
see_sent p refused log = log

-- The net, with a record beside each TLS object, and beside each socket the bytes that it accepted.
unfoldable pub recorded : {T K : Type 0} → Net T K → Net (T × Seen) (K × Bytes)
unfolding see_read see_write see_sent
recorded net = record {
  do_handshake = λ t. ((net.do_handshake t.0).0, ((net.do_handshake t.0).1, t.1));
  tls_read = λ t. ((net.tls_read t.0).0, ((net.tls_read t.0).1, see_read (net.tls_read t.0).0 t.1));
  tls_write = λ p t.
      ((net.tls_write p t.0).0, ((net.tls_write p t.0).1, see_write p (net.tls_write p t.0).0 t.1));
  outb_read = λ t. (
    (net.outb_read t.0).0,
    ((net.outb_read t.0).1, record t.1 { produced = t.1.produced ++ (net.outb_read t.0).0 }),
  );
  inb_write = λ p t. (net.inb_write p t.0, t.1);
  write_eof = λ t. (net.write_eof t.0, t.1);
  send = λ p k. ((net.send p k.0).0, ((net.send p k.0).1, see_sent p (net.send p k.0).0 k.1));
  recv = λ k. ((net.recv k.0).0, ((net.recv k.0).1, k.1));
}

-- An end whose TLS and socket are recorded.
abbrev pub Watched : Type 0 → Type 0 → Type 0
Watched T K = End (T × Seen) (K × Bytes)

-- What the socket accepted, and what it has yet to, is what TLS produced.
abbrev pub IsOrdered : {T K : Type 0} → Watched T K → Type 0
IsOrdered e = e.sock.1 ++ e.pending ≡ e.tls.1.produced

-- A dead end stays dead, and the ciphertext stays in order.
pub record Steps {T K : Type 0} (e e' : Watched T K) : Type 0 where
  pub stays : e.dead ≡ true → e'.dead ≡ true
  pub ordered : IsOrdered e → IsOrdered e'

pub Steps-refl : {T K : Type 0} (e : Watched T K) → Steps e e
Steps-refl e = record { stays = λ h. h; ordered = λ h. h }

pub Steps-trans : {T K : Type 0} {d e f : Watched T K} → Steps d e → Steps e f → Steps d f
Steps-trans p q = record {
  stays = λ h. q.stays (p.stays h);
  ordered = λ h. q.ordered (p.ordered h);
}

-- A step that passes no plain data.
pub record Follows {T K : Type 0} (e e' : Watched T K) : Type 0 where
  pub steps : Steps e e'
  pub reads : e'.tls.1.reads ≡ e.tls.1.reads
  pub waits : e'.tls.1.waits ≡ e.tls.1.waits
  pub writes : e'.tls.1.writes ≡ e.tls.1.writes

pub Follows-refl : {T K : Type 0} (e : Watched T K) → Follows e e
Follows-refl e = record { steps = Steps-refl e; reads = refl; waits = refl; writes = refl }

pub Follows-trans : {T K : Type 0} {d e f : Watched T K} → Follows d e → Follows e f → Follows d f
Follows-trans p q = record {
  steps = Steps-trans p.steps q.steps;
  reads = q.reads ∙ p.reads;
  waits = q.waits ∙ p.waits;
  writes = q.writes ∙ p.writes;
}

-- A step that leaves the records and the pending bytes as they are.
unmoved :
    {T K : Type 0} {e e' : Watched T K}
    → (e.dead ≡ true → e'.dead ≡ true)
    → e'.sock.1 ≡ e.sock.1
    → e'.pending ≡ e.pending
    → e'.tls.1 ≡ e.tls.1
    → Follows e e'
unmoved {T} {K} {e} {e'} stays sock pending seen = record {
  steps = record {
    stays = stays;
    ordered = λ o.
        ap (λ x. x ++ e'.pending) sock
        ∙ ap (◌++◌ e.sock.1) pending
        ∙ o
        ∙ ap (λ x. x.produced) (sym seen);
  };
  reads = ap (λ x. x.reads) seen;
  waits = ap (λ x. x.waits) seen;
  writes = ap (λ x. x.writes) seen;
}

flushed-Follows :
    {T K : Type 0} (again : Watched T K → Bool × Watched T K) (e : Watched T K) (p : Bytes)
    (o : Sending) (k : K)
    → e.pending ≡ p
    → ((d : Watched T K) → Follows d (again d).1)
    → Follows e (flushed again e (o, (k, see_sent p o e.sock.1))).1
unfolding flushed see_sent
flushed-Follows again e p (accepted n) k q h =
    let d : Watched _ _ = record e {
      sock = (k, e.sock.1 ++ take n p);
      pending = drop n e.pending;
    } in
    Follows-trans
      (record {
        steps = record {
          stays = λ s. s;
          ordered = λ o.
              ap (λ x. (e.sock.1 ++ take n p) ++ drop n x) q
              ∙ append_assoc e.sock.1 (take n p) (drop n p)
              ∙ ap (◌++◌ e.sock.1) (take-append-drop n p ∙ sym q)
              ∙ o;
        };
        reads = refl;
        waits = refl;
        writes = refl;
      })
      (h d)
flushed-Follows again e p blocks k q h = unmoved (λ s. s) refl refl refl
flushed-Follows again e p refused k q h = unmoved (λ s. s) refl refl refl

module _ {T K : Type 0} (net : Net T K) where
  flush_pending-Follows :
      (again : Watched T K → Bool × Watched T K) (e : Watched T K) (p : Bytes)
      → e.pending ≡ p
      → ((d : Watched T K) → Follows d (again d).1)
      → Follows e (flush_pending (recorded net) again e p).1
  unfolding flush_pending recorded
  flush_pending-Follows again e [] q h = Follows-refl e
  flush_pending-Follows again e (b ∷ bs) q h =
      flushed-Follows again e (b ∷ bs) (net.send (b ∷ bs) e.sock.0).0 (net.send (b ∷ bs) e.sock.0).1
        q h

  flush_loop-Follows : (fuel : ℕ) (e : Watched T K) → Follows e (flush_loop (recorded net) fuel e).1
  unfolding flush_loop
  flush_loop-Follows zero e = Follows-refl e
  flush_loop-Follows (suc fuel) e =
      flush_pending-Follows (flush_loop (recorded net) fuel) e e.pending refl
        (flush_loop-Follows fuel)

  pub flush-Follows : (e : Watched T K) → Follows e (flush (recorded net) e).1
  unfolding flush
  flush-Follows e = flush_loop-Follows (length e.pending) e

  shaken-Follows :
      (e : Watched T K) (h : Handshake) (t : T) → Follows e (shaken e (h, (t, e.tls.1))).1
  unfolding shaken
  shaken-Follows e finished t = unmoved (λ s. s) refl refl refl
  shaken-Follows e wants t = unmoved (λ s. s) refl refl refl
  shaken-Follows e failed t = unmoved (λ s. refl) refl refl refl

  pub drive_handshake-Follows : (e : Watched T K) → Follows e (drive_handshake (recorded net) e).1
  unfolding drive_handshake recorded
  drive_handshake-Follows e =
      if-both (λ x. Follows e x.1) (e.handshaken || e.dead) (false, e)
        (shaken e ((net.do_handshake e.tls.0).0, ((net.do_handshake e.tls.0).1, e.tls.1)))
        (Follows-refl e)
        (shaken-Follows e (net.do_handshake e.tls.0).0 (net.do_handshake e.tls.0).1)

  drained_into-Follows :
      (e : Watched T K) (bs : Bytes) (t : T)
      → Follows e (drained_into e (bs, (t, record e.tls.1 { produced = e.tls.1.produced ++ bs }))).1
  unfolding drained_into
  drained_into-Follows e [] t = record {
    steps = record { stays = λ s. s; ordered = λ o. o ∙ sym (append-nil e.tls.1.produced) };
    reads = refl;
    waits = refl;
    writes = refl;
  }
  drained_into-Follows e (b ∷ bs) t = record {
    steps = record {
      stays = λ s. s;
      ordered = λ o. sym (append_assoc e.sock.1 e.pending (b ∷ bs)) ∙ ap (λ x. x ++ b ∷ bs) o;
    };
    reads = refl;
    waits = refl;
    writes = refl;
  }

  pub drain-Follows : (e : Watched T K) → Follows e (drain (recorded net) e).1
  unfolding drain recorded
  drain-Follows e = drained_into-Follows e (net.outb_read e.tls.0).0 (net.outb_read e.tls.0).1

  fed-Follows :
      (e : Watched T K) (r : Receiving) (k : K)
      → Follows e (fed (recorded net) e (r, (k, e.sock.1))).1
  unfolding fed recorded
  fed-Follows e (received []) k = unmoved (λ s. s) refl refl refl
  fed-Follows e (received (b ∷ bs)) k = unmoved (λ s. s) refl refl refl
  fed-Follows e no_data k = unmoved (λ s. s) refl refl refl
  fed-Follows e lost k = unmoved (λ s. s) refl refl refl

  pub feed_socket-Follows : (e : Watched T K) → Follows e (feed_socket (recorded net) e).1
  unfolding feed_socket recorded
  feed_socket-Follows e = fed-Follows e (net.recv e.sock.0).0 (net.recv e.sock.0).1

-- The chunk of a result of `read_plain`, if there is one.
abbrev pub chunk_of : Option Bytes → List Bytes
chunk_of none = []
chunk_of (some []) = []
chunk_of (some (b ∷ bs)) = (b ∷ bs) ∷ []

-- Whether there is no data yet.
abbrev pub waits_of : Option Bytes → ℕ
waits_of none = 1
waits_of (some bs) = 0

-- What a read of plain data does.
pub record Reads {T K : Type 0} (e : Watched T K) (r : Option Bytes × Watched T K) : Type 0 where
  pub steps : Steps e r.1
  pub reads : r.1.tls.1.reads ≡ e.tls.1.reads ++ chunk_of r.0
  pub waits : r.1.tls.1.waits ≡ e.tls.1.waits + waits_of r.0
  pub writes : r.1.tls.1.writes ≡ e.tls.1.writes

-- The end of the data.
no_chunk :
    {T K : Type 0} (e : Watched T K) (t : T) (dead : Bool)
    → (e.dead ≡ true → dead ≡ true)
    → Reads e (some [], record e { tls = (t, e.tls.1); dead = dead })
no_chunk e t dead stays = record {
  steps = record { stays = stays; ordered = λ o. o };
  reads = sym (append-nil e.tls.1.reads);
  waits = omega arith;
  writes = refl;
}

read_result-Reads :
    {T K : Type 0} (e : Watched T K) (p : Plain) (t : T)
    → Reads e (read_result e (p, (t, see_read p e.tls.1)))
unfolding read_result see_read
read_result-Reads e (plain []) t = no_chunk e t e.dead (λ s. s)
read_result-Reads e (plain (b ∷ bs)) t = record {
  steps = record { stays = λ s. s; ordered = λ o. o };
  reads = refl;
  waits = omega arith;
  writes = refl;
}
read_result-Reads e wants_read t = record {
  steps = record { stays = λ s. s; ordered = λ o. o };
  reads = sym (append-nil e.tls.1.reads);
  waits = omega arith;
  writes = refl;
}
read_result-Reads e closed t = no_chunk e t e.dead (λ s. s)
read_result-Reads e broken t = no_chunk e t true (λ s. refl)

pub read_plain-Reads :
    {T K : Type 0} (net : Net T K) (e : Watched T K) → Reads e (read_plain (recorded net) e)
unfolding read_plain recorded
read_plain-Reads net e = read_result-Reads e (net.tls_read e.tls.0).0 (net.tls_read e.tls.0).1
