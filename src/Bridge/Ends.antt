-- ===== src/Bridge/Ends.antt =====
-- One TLS endpoint of server/wm_bridge.py: `End` and the steps on it. The TLS object with its two
-- memory buffers, and the socket, are states of any kind with the operations that are called on
-- them.
pub mod Flush
pub mod Recorded
use local_smarthinq.Prelude.{
  ℕ, zero, suc, Bool, true, false, ◌||◌, Option, none, some, List, [], ◌∷◌, ◌++◌, if◌then◌else◌,
  Bytes, take, drop, length,
}

pub data Handshake : Type 0 where
  finished wants failed : Handshake

-- `tls.read`: data, want-read, a clean end, or an error.
pub data Plain : Type 0 where
  plain : Bytes → Plain
  wants_read closed broken : Plain

pub data Sending : Type 0 where
  accepted : ℕ → Sending
  blocks refused : Sending

-- `sock.recv`: data (none at the peer's end), would block, or an error.
pub data Receiving : Type 0 where
  received : Bytes → Receiving
  no_data lost : Receiving

-- The operations of OpenSSL and of the socket.
pub record Net (T K : Type 0) : Type 0 where
  pub do_handshake : T → Handshake × T
  pub tls_read : T → Plain × T
  pub tls_write : Bytes → T → Bool × T
  pub outb_read : T → Bytes × T
  pub inb_write : Bytes → T → T
  pub write_eof : T → T
  pub send : Bytes → K → Sending × K
  pub recv : K → Receiving × K

pub record End (T K : Type 0) : Type 0 where
  pub tls : T
  pub sock : K
  pub pending : Bytes
  pub handshaken : Bool
  pub dead : Bool

unfoldable pub new_end : {T K : Type 0} → T → K → End T K
new_end tls sock = record { tls = tls; sock = sock; pending = []; handshaken = false; dead = false }

unfoldable pub flushed :
    {T K : Type 0} → (End T K → Bool × End T K) → End T K → Sending × K → Bool × End T K
flushed again e (accepted n, k) = again (record e { sock = k; pending = drop n e.pending })
flushed again e (blocks, k) = (true, record e { sock = k })
flushed again e (refused, k) = (false, record e { sock = k })

unfoldable pub flush_pending :
    {T K : Type 0} → Net T K → (End T K → Bool × End T K) → End T K → Bytes → Bool × End T K
unfolding flushed
flush_pending net again e [] = (true, e)
flush_pending net again e (b ∷ bs) = flushed again e (net.send (b ∷ bs) e.sock)

-- The loop of `flush`; a send that is accepted takes a byte at least.
unfoldable pub flush_loop : {T K : Type 0} → Net T K → ℕ → End T K → Bool × End T K
unfolding flush_pending
flush_loop net zero e = (true, e)
flush_loop net (suc fuel) e = flush_pending net (flush_loop net fuel) e e.pending

unfoldable pub flush : {T K : Type 0} → Net T K → End T K → Bool × End T K
unfolding flush_loop
flush net e = flush_loop net (length e.pending) e

unfoldable pub shaken : {T K : Type 0} → End T K → Handshake × T → Bool × End T K
shaken e (finished, t) = (true, record e { tls = t; handshaken = true })
shaken e (wants, t) = (false, record e { tls = t })
shaken e (failed, t) = (false, record e { tls = t; dead = true })

unfoldable pub drive_handshake : {T K : Type 0} → Net T K → End T K → Bool × End T K
unfolding shaken
drive_handshake net e =
    if e.handshaken || e.dead then (false, e) else shaken e (net.do_handshake e.tls)

unfoldable pub drained_into : {T K : Type 0} → End T K → Bytes × T → Bool × End T K
drained_into e ([], t) = (false, record e { tls = t })
drained_into e (b ∷ bs, t) = (true, record e { tls = t; pending = e.pending ++ b ∷ bs })

unfoldable pub drain : {T K : Type 0} → Net T K → End T K → Bool × End T K
unfolding drained_into
drain net e = drained_into e (net.outb_read e.tls)

unfoldable pub read_result : {T K : Type 0} → End T K → Plain × T → Option Bytes × End T K
read_result e (plain bytes, t) = (some bytes, record e { tls = t })
read_result e (wants_read, t) = (none, record e { tls = t })
read_result e (closed, t) = (some [], record e { tls = t })
read_result e (broken, t) = (some [], record e { tls = t; dead = true })

unfoldable pub read_plain : {T K : Type 0} → Net T K → End T K → Option Bytes × End T K
unfolding read_result
read_plain net e = read_result e (net.tls_read e.tls)

unfoldable pub fed : {T K : Type 0} → Net T K → End T K → Receiving × K → Bool × End T K
fed net e (received [], k) = (true, record e { sock = k; tls = net.write_eof e.tls })
fed net e (received (b ∷ bs), k) = (true, record e { sock = k; tls = net.inb_write (b ∷ bs) e.tls })
fed net e (no_data, k) = (true, record e { sock = k })
fed net e (lost, k) = (false, record e { sock = k })

unfoldable pub feed_socket : {T K : Type 0} → Net T K → End T K → Bool × End T K
unfolding fed
feed_socket net e = fed net e (net.recv e.sock)
