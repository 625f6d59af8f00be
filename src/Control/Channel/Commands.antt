-- ===== src/Control/Channel/Commands.antt =====
-- What the commands and the queries send, and to which socket.
use local_smarthinq.Prelude.{
  ℕ, ◌+◌, ◌≤◌, ◌<◌, ◌≡◌, refl, inl, inr, String, Bool, true, false, Option, none, some, List, [],
  ◌∷◌, arith, Option-cases, if◌then◌else◌, str_eq, find, eq_iff, find-pop,
}
use local_smarthinq.Json.{Value, Fields}
use local_smarthinq.Control.Channel.{
  Connection, ControlChannel, drop_own, WidText, next_wid, Sent, push_to, push, send_command,
  command_message,
}
use local_smarthinq.Control.Channel.Events.{Event, registers, unregisters, fails, mints, apply, run}

-- The connection is registered under the id, and `s` goes to its socket in its framing.
pub record GoesTo (c : ControlChannel) (dev : String) (msg : Fields) (s : Sent) : Type 0 where
  pub conn : Connection
  pub registered : find dev c.connections ≡ some conn
  pub to_socket : s.sock ≡ conn.sock
  pub in_framing : s.family ≡ conn.family
  pub carries : s.message ≡ msg

push_to-sent :
    (accepts : Bool) (dev : String) (msg : Fields) (c : ControlChannel) (o : Option Connection)
    (s : Sent) (ss : List Sent)
    → find dev c.connections ≡ o
    → (push_to accepts dev msg c o).sent ≡ s ∷ ss
    → GoesTo c dev msg s × (ss ≡ [])
unfolding push_to
push_to-sent accepts dev msg c none s ss e h = absurd (ground arith)
push_to-sent false dev msg c (some conn) s ss e h = absurd (ground arith)
push_to-sent true dev msg c (some conn) s ss e h = (
  record {
    conn = conn;
    registered = e;
    to_socket = ground arith;
    in_framing = ground arith;
    carries = ground arith;
  },
  ground arith,
)

-- If `send_command` sends anything, control is allowed, and it is just the one command, with the
-- next message id, to the socket that is registered for the device and in that family's framing.
pub send_command-sent :
    (allow : Bool) (wid : WidText) (accepts : Bool) (dev : String) (value : Value)
    (cmd cmd_opt : String) (c : ControlChannel) (s : Sent) (ss : List Sent)
    → (send_command allow wid accepts dev value cmd cmd_opt c).sent ≡ s ∷ ss
    → (allow ≡ true)
      × GoesTo c dev (command_message dev (wid dev (c.cmd_counter + 1)) value cmd cmd_opt) s
      × (ss ≡ [])
unfolding send_command push
send_command-sent false wid accepts dev value cmd cmd_opt c s ss h = absurd (ground arith)
send_command-sent true wid accepts dev value cmd cmd_opt c s ss h =
    let c' = (next_wid wid dev c).1 in
    let r =
      push_to-sent accepts dev (command_message dev (wid dev (c.cmd_counter + 1)) value cmd cmd_opt)
        (unfold next_wid in c') (find dev c.connections) s ss refl h in
    (
      refl,
      record {
        conn = r.0.conn;
        registered = r.0.registered;
        to_socket = r.0.to_socket;
        in_framing = r.0.in_framing;
        carries = r.0.carries;
      },
      r.1,
    )

-- A push that the socket refuses forgets the device, and leaves every other device as it was.
pub find-push_refused :
    (dev j : String) (msg : Fields) (c : ControlChannel)
    → find j (push false dev msg c).channel.connections
      ≡ (if str_eq dev j then none else find j c.connections)
unfolding push drop_own
find-push_refused dev j msg c = elim (Option-cases (find dev c.connections)) [
  | inl absent ↦ rw absent (ground (arith, eq_iff dev j))
  | inr (conn, e) ↦ rw (e, push_to, e) (ground (arith, eq_iff dev j, find-pop dev j c.connections))
]

drop_own-counter :
    (dev : String) (s : ℕ) (c : ControlChannel) (o : Option Connection)
    → (drop_own dev s c o).cmd_counter ≡ c.cmd_counter
unfolding drop_own
drop_own-counter dev s c o = ground arith

counter-apply :
    (wid : WidText) (e : Event) (c : ControlChannel) → c.cmd_counter ≤ (apply wid e c).cmd_counter
unfolding apply
counter-apply wid (registers d k) c = omega arith
counter-apply wid (unregisters d none) c = omega arith
counter-apply wid (unregisters d (some s)) c =
    omega (arith, drop_own-counter d s c (find d c.connections))
counter-apply wid (fails d s) c = omega (arith, drop_own-counter d s c (find d c.connections))
counter-apply wid (mints d) c = omega arith

counter-run :
    (wid : WidText) (es : List Event) (c : ControlChannel)
    → c.cmd_counter ≤ (run wid es c).cmd_counter
unfolding run
counter-run wid [] c = omega arith
counter-run wid (e ∷ es) c =
    omega (arith, counter-apply wid e c, counter-run wid es (apply wid e c))

-- Whatever happens between two message ids, the number in the second is larger.
pub next_wid-increases :
    (wid : WidText) (dev : String) (es : List Event) (c : ControlChannel)
    → (next_wid wid dev c).1.cmd_counter
      < (next_wid wid dev (run wid es (next_wid wid dev c).1)).1.cmd_counter
unfolding next_wid
next_wid-increases wid dev es c =
    omega (arith, counter-run wid es (record c { cmd_counter = c.cmd_counter + 1 }))
