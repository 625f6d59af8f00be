-- ===== src/Tests/Bridge.antt =====
-- The bridge with a cipher that leaves the text as it is.
use local_smarthinq.Prelude.{ℕ, ◌≡◌, refl, true, false, List, [], ◌∷◌, ◌++◌, Bytes, arith}
use local_smarthinq.Bridge.Ends.{
  finished, Plain, plain, wants_read, accepted, no_data, Net, End, new_end, flush, drain,
  drive_handshake, read_plain, flush_loop,
}
use local_smarthinq.Bridge.Ends.Flush.{Takes, flush_loop-flush}
use local_smarthinq.Bridge.Ends.Recorded.{recorded}
use local_smarthinq.Bridge.Engine.{round, push_out, pump, new_bridge, Select, timeout, bridge}
use local_smarthinq.Bridge.Relay.{c_to_u, new_relay, relay}
use local_smarthinq.Bridge.Relay.Copy.{IsRelayOf, relay-bridge}
use local_smarthinq.Bridge.Engine.Work.{Works}
use local_smarthinq.Bridge.Engine.Faithful.{IsFaithful, bridged, bridge-IsFaithful}

-- What is left to read, and what was written.
abbrev read_all : Bytes × Bytes → Plain × (Bytes × Bytes)
read_all ([], o) = (wants_read, ([], o))
read_all (b ∷ bs, o) = (plain (b ∷ bs), ([], o))

-- The socket takes one byte at a time, as its state counts.
abbrev net : Net (Bytes × Bytes) Bytes
net = record {
  do_handshake = λ t. (finished, t);
  tls_read = read_all;
  tls_write = λ p t. (true, (t.0, t.1 ++ p));
  outb_read = λ t. (t.1, (t.0, []));
  inb_write = λ p t. (t.0 ++ p, t.1);
  write_eof = λ t. t;
  send = λ p k. (accepted 1, k);
  recv = λ k. (no_data, k);
}

abbrev rounds : List (ℕ × Select)
rounds = (4, timeout true) ∷ (4, timeout true) ∷ []

forwarded : (bridged net rounds ((1 ∷ 2 ∷ [], []), []) (([], []), [])).up.sock.1 ≡ 1 ∷ 2 ∷ []
unfolding recorded bridge new_bridge new_end push_out flush drain drive_handshake pump read_plain
forwarded = refl

bridge-IsFaithful_example :
    IsFaithful (bridged net rounds ((1 ∷ 2 ∷ [], []), []) (([], []), []))
    × Works net 4
        (bridged net rounds ((1 ∷ 2 ∷ [], []), []) (([], []), []))
        (round
          (recorded net)
          4
          (timeout true)
          (bridged net rounds ((1 ∷ 2 ∷ [], []), []) (([], []), []))).1
bridge-IsFaithful_example =
    bridge-IsFaithful net rounds ((1 ∷ 2 ∷ [], []), []) (([], []), []) 4 (timeout true)

abbrev end : End (Bytes × Bytes) Bytes
end = record { tls = ([], []); sock = []; pending = 7 ∷ 8 ∷ []; handshaken = true; dead = false }

net-Takes : Takes net
unfolding Takes
net-Takes p k k' n h = ground arith

flush_loop-flush_example : flush_loop net 9 end ≡ flush net end
flush_loop-flush_example = flush_loop-flush net 9 end net-Takes (omega arith)

relay-bridge_example :
    IsRelayOf
      (relay net rounds (new_relay ((1 ∷ 2 ∷ [], []), []) (([], []), [])))
      (bridge net rounds (new_bridge (new_end (1 ∷ 2 ∷ [], []) []) (new_end ([], []) [])))
relay-bridge_example = relay-bridge net rounds ((1 ∷ 2 ∷ [], []), []) (([], []), [])

relayed :
    (relay net rounds (new_relay ((1 ∷ 2 ∷ [], []), []) (([], []), []))).log
    ≡ (c_to_u, 1 ∷ 2 ∷ []) ∷ []
unfolding relay new_relay flush drain read_plain
relayed = refl
