-- ===== src/Control/Channel/Events.antt =====
-- Interleavings of what the handlers, the polling and the command threads do to the channel.
use local_smarthinq.Prelude.{
  ℕ, ◌≡◌, ◌≢◌, ◌⊎◌, String, Option, none, some, List, [], ◌∷◌, arith, All, find, eq_iff, find-put,
  find-pop,
}
use local_smarthinq.Control.Channel.{
  Connection, ControlChannel, register, unregister, send_failed, drop_own, WidText, next_wid,
}

pub data Event : Type 0 where
  registers : String → Connection → Event
  unregisters : String → Option ℕ → Event
  fails : String → ℕ → Event
  mints : String → Event

unfoldable pub apply : WidText → Event → ControlChannel → ControlChannel
unfolding register unregister send_failed next_wid
apply wid (registers dev conn) c = register dev conn c
apply wid (unregisters dev sock) c = unregister dev sock c
apply wid (fails dev sock) c = send_failed dev sock c
apply wid (mints dev) c = (next_wid wid dev c).1

unfoldable pub run : WidText → List Event → ControlChannel → ControlChannel
unfolding apply
run wid [] c = c
run wid (e ∷ es) c = run wid es (apply wid e c)

-- The event is no new registration of `dev`, no removal of `dev` without a socket, and none by
-- the handler or a failed send of socket `sock` itself.
abbrev pub Spares : String → ℕ → Event → Type 0
Spares dev sock (registers d conn) = d ≢ dev
Spares dev sock (unregisters d none) = d ≢ dev
Spares dev sock (unregisters d (some s)) = (d ≢ dev) ⊎ (s ≢ sock)
Spares dev sock (fails d s) = (d ≢ dev) ⊎ (s ≢ sock)
Spares dev sock (mints d) = Unit

-- Dropping an entry for a socket leaves each entry of another device or another socket.
find-drop_own :
    (d dev : String) (s : ℕ) (c : ControlChannel) (conn : Connection)
    → (d ≢ dev) ⊎ (s ≢ conn.sock)
    → find dev c.connections ≡ some conn
    → find dev (drop_own d s c (find d c.connections)).connections ≡ some conn
unfolding drop_own
find-drop_own d dev s c conn other h = ground (arith, eq_iff d dev, find-pop d dev c.connections)

find-apply :
    (wid : WidText) (e : Event) (dev : String) (c : ControlChannel) (conn : Connection)
    → Spares dev conn.sock e
    → find dev c.connections ≡ some conn
    → find dev (apply wid e c).connections ≡ some conn
unfolding apply
find-apply wid (registers d k) dev c conn sp h =
    ground (arith, eq_iff d dev, find-put d dev k c.connections)
find-apply wid (unregisters d none) dev c conn sp h =
    ground (arith, eq_iff d dev, find-pop d dev c.connections)
find-apply wid (unregisters d (some s)) dev c conn sp h = find-drop_own d dev s c conn sp h
find-apply wid (fails d s) dev c conn sp h = find-drop_own d dev s c conn sp h
find-apply wid (mints d) dev c conn sp h = h

-- A registration survives every interleaving in which its device is not registered again, not
-- removed without a socket, and in which neither its own handler nor a failed send on its own
-- socket removes it: a handler or a send of a superseded socket never drops a newer connection.
pub find-run :
    (wid : WidText) (events : List Event) (dev : String) (c : ControlChannel) (conn : Connection)
    → All (Spares dev conn.sock) events
    → find dev c.connections ≡ some conn
    → find dev (run wid events c).connections ≡ some conn
unfolding run
find-run wid [] dev c conn sp h = h
find-run wid (e ∷ es) dev c conn (now, later) h =
    find-run wid es dev (apply wid e c) conn later (find-apply wid e dev c conn now h)
