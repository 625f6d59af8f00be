-- ===== src/Bridge/Relay/Copy.antt =====
-- The standalone relay does what the engine does, in all rounds.
use local_smarthinq.Prelude.{ℕ, ◌≡◌, refl, sym, subst, Bool, true, false, List, [], ◌∷◌}
use local_smarthinq.Bridge.Ends.{Net, new_end}
use local_smarthinq.Bridge.Engine.{Bridge, new_bridge, Select, round, go_on, bridge}
use local_smarthinq.Bridge.Relay.{
  c_to_u, u_to_c, Log, Relay, new_relay, relay_round, relay_on, relay,
}
use local_smarthinq.Bridge.Relay.Direct.{chunks_of}
use local_smarthinq.Bridge.Relay.Rounds.{relay_of, IsLog, IsRoundOf, round-IsRoundOf}

-- The relay's ends are those of the engine, and its log has, in each direction, what the engine
-- took.
pub record IsRelayOf {T K : Type 0} (r : Relay T K) (b : Bridge T K) : Type 0 where
  pub client : r.client ≡ b.client
  pub up : r.up ≡ b.up
  pub there : chunks_of c_to_u r.log ≡ b.client_taken
  pub back : chunks_of u_to_c r.log ≡ b.up_taken

on-IsRelayOf :
    {T K : Type 0} (rest : Relay T K → Relay T K) (again : Bridge T K → Bridge T K)
    (p : Bool × Relay T K) (q : Bool × Bridge T K)
    → ((log : Log) (b : Bridge T K) → IsLog log b → IsRelayOf (rest (relay_of log b)) (again b))
    → IsRoundOf p q
    → IsRelayOf (relay_on rest p) (go_on again q)
unfolding relay_on go_on
on-IsRelayOf rest again p (true, b) h k =
    subst (λ x. IsRelayOf (relay_on rest x) (again b)) (sym k.is) (h k.log b k.logs)
on-IsRelayOf rest again p (false, b) h k =
    subst (λ x. IsRelayOf (relay_on rest x) b) (sym k.is)
      (record { client = refl; up = refl; there = k.logs.there; back = k.logs.back })

relay-IsRelayOf :
    {T K : Type 0} (net : Net T K) (rounds : List (ℕ × Select)) (log : Log) (b : Bridge T K)
    → IsLog log b
    → IsRelayOf (relay net rounds (relay_of log b)) (bridge net rounds b)
unfolding relay bridge
relay-IsRelayOf net [] log b h = record { client = refl; up = refl; there = h.there; back = h.back }
relay-IsRelayOf net ((fuel, select) ∷ rounds) log b h =
    on-IsRelayOf (relay net rounds) (bridge net rounds)
      (relay_round net fuel select (relay_of log b)) (round net fuel select b)
      (relay-IsRelayOf net rounds) (round-IsRoundOf net fuel select log b h)

-- The standalone copy of the relay does what the server's engine does: whatever TLS, the sockets
-- and the selector do, after any number of rounds its two ends are in the same state, and the log
-- that it has written holds, in each direction, just the chunks that the engine's observers see, in
-- their order.
pub relay-bridge :
    {T K : Type 0} (net : Net T K) (rounds : List (ℕ × Select)) (client up : T × K)
    → IsRelayOf
        (relay net rounds (new_relay client up))
        (bridge net rounds (new_bridge (new_end client.0 client.1) (new_end up.0 up.1)))
unfolding new_relay new_bridge chunks_of
relay-bridge net rounds client up =
    relay-IsRelayOf net rounds [] (new_bridge (new_end client.0 client.1) (new_end up.0 up.1))
      (record { there = refl; back = refl })
