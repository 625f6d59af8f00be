-- ===== src/Bridge/Ends/Flush.antt =====
-- The loop of `flush` ends by itself.
use local_smarthinq.Prelude.{
  ℕ, zero, suc, ◌≤◌, ◌≡◌, refl, ap, Bool, [], ◌∷◌, arith, Bytes, drop, length, length-drop,
}
use local_smarthinq.Bridge.Ends.{
  Sending, accepted, blocks, refused, Net, End, flushed, flush_pending, flush_loop, flush,
}

-- A send that is accepted takes a byte at least, which is what a socket does.
unfoldable pub Takes : {T K : Type 0} → Net T K → Type 0
Takes {T} {K} net = (p : Bytes) (k k' : K) (n : ℕ) → net.send p k ≡ (accepted n, k') → 1 ≤ n

flushed-agree :
    {T K : Type 0} (f g : End T K → Bool × End T K) (e : End T K) (b : ℕ) (bs : Bytes)
    (r : Sending × K)
    → e.pending ≡ b ∷ bs
    → ((n : ℕ) (d : End T K) → r.0 ≡ accepted n → d.pending ≡ drop n (b ∷ bs) → f d ≡ g d)
    → flushed f e r ≡ flushed g e r
unfolding flushed
flushed-agree f g e b bs (accepted n, k) p h =
    h n (record e { sock = k; pending = drop n e.pending }) refl (ap (drop n) p)
flushed-agree f g e b bs (blocks, k) p h = refl
flushed-agree f g e b bs (refused, k) p h = refl

drop-shorter :
    (n b f : ℕ) (bs : Bytes) → 1 ≤ n → length (b ∷ bs) ≤ suc f → length (drop n (b ∷ bs)) ≤ f
drop-shorter n b f bs h k = omega (arith, length-drop n (b ∷ bs))

flush_loop-agree :
    {T K : Type 0} (net : Net T K)
    → Takes net
    → (f g : ℕ) (e : End T K) (p : Bytes) → e.pending ≡ p
    → length p ≤ f
    → length p ≤ g
    → flush_loop net f e ≡ flush_loop net g e
unfolding flush_loop flush_pending Takes
flush_loop-agree net takes zero zero e p h k l = refl
flush_loop-agree net takes zero (suc g) e [] h k l = rw h refl
flush_loop-agree net takes (suc f) zero e [] h k l = rw h refl
flush_loop-agree net takes (suc f) (suc g) e [] h k l = rw h refl
flush_loop-agree net takes zero _ e (b ∷ bs) h k l = absurd (omega arith)
flush_loop-agree net takes _ zero e (b ∷ bs) h k l = absurd (omega arith)
flush_loop-agree net takes (suc f) (suc g) e (b ∷ bs) h k l =
    let r = net.send (b ∷ bs) e.sock in
    rw h (
      flushed-agree (flush_loop net f) (flush_loop net g) (record e { pending = b ∷ bs }) b bs r
        refl
        λ n d q w.
          let one = takes (b ∷ bs) e.sock r.1 n (ap (λ x. (x, r.1)) q) in
          flush_loop-agree net takes f g d (drop n (b ∷ bs)) w (drop-shorter n b f bs one k)
            (drop-shorter n b g bs one l))

-- With a socket that takes a byte at least at each accepted send, the loop of `flush` ends by
-- itself: more rounds than there are pending bytes change nothing.
pub flush_loop-flush :
    {T K : Type 0} (net : Net T K) (fuel : ℕ) (e : End T K)
    → Takes net
    → length e.pending ≤ fuel
    → flush_loop net fuel e ≡ flush net e
unfolding flush
flush_loop-flush net fuel e takes h =
    flush_loop-agree net takes fuel (length e.pending) e e.pending refl h (omega arith)
