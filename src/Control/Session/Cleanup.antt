-- ===== src/Control/Session/Cleanup.antt =====
-- What the end of a connection leaves in the channel.
use local_smarthinq.Prelude.{
  ℕ, String, ◌≡◌, Bool, false, ◌&&◌, not, Option, none, some, arith, ◌==◌, if◌then◌else◌, str_eq,
  refl, Bool-cases, inl, inr, find, find-pop,
}
use local_smarthinq.Control.Channel.{Connection, ControlChannel, drop_own, unregister}
use local_smarthinq.Control.Session.{Session, disconnect}

abbrev pub held_by : ℕ → Option Connection → Bool
held_by sock none = false
held_by sock (some conn) = conn.sock == sock

find-drop_own_self :
    (dev j : String) (sock : ℕ) (c : ControlChannel) (o : Option Connection)
    → find dev c.connections ≡ o
    → find j (drop_own dev sock c o).connections
      ≡ (if held_by sock o && str_eq dev j then none else find j c.connections)
unfolding drop_own
find-drop_own_self dev j sock c o e = ground (arith, find-pop dev j c.connections)

-- After a connection ends, the device under its last id is forgotten exactly if the id is known
-- and its registration is still held by this socket; every other device is as before.
pub find-disconnect :
    (s : Session) (j : String) (c : ControlChannel)
    → find j (disconnect s c).connections ≡ (
        if not (str_eq s.dev_id "unknown")
          && (held_by s.sock (find s.dev_id c.connections) && str_eq s.dev_id j)
        then none
        else find j c.connections)
unfolding disconnect unregister
find-disconnect s j c = elim (Bool-cases (str_eq s.dev_id "unknown")) [
  | inl unknown ↦ rw unknown
  | inr known ↦ rw known (find-drop_own_self s.dev_id j s.sock c (find s.dev_id c.connections) refl)
]
