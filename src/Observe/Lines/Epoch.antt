-- ===== src/Observe/Lines/Epoch.antt =====
-- The time of a line's stamp, which has no date.
use local_smarthinq.Prelude.{
  ℕ, ◌+◌, ◌*◌, ◌/◌, ◌%◌, ◌≤◌, ◌<◌, ◌≡◌, ◌&&◌, some, ltb, arith, subst, Bool-cases, inl, inr,
}
use local_smarthinq.Observe.Lines.{candidate, not_ahead, sighting_epoch}

not_ahead-last :
    (x now : ℕ)
    → 86400 ≤ now
    → x < 86400
    → let t = not_ahead ((now / 86400) * 86400 + x) now in
      (t ≤ now + 300) × (now < t + 86400) × (t % 86400 ≡ x)
unfolding not_ahead
not_ahead-last x now h k = ground arith

time_of_day : (hh mm ss : ℕ) → hh < 24 → mm < 60 → ss < 60 → hh * 3600 + mm * 60 + ss < 86400
time_of_day hh mm ss a b c = omega arith

-- A stamp that is read is a time of day, and is taken for the last such time that is at most five
-- minutes ahead of now.
pub sighting_epoch-last :
    (hh mm ss now t : ℕ)
    → 86400 ≤ now
    → sighting_epoch (hh, mm, ss) now ≡ some t
    → (t ≤ now + 300) × (now < t + 86400) × (t % 86400 ≡ hh * 3600 + mm * 60 + ss)
unfolding sighting_epoch candidate
sighting_epoch-last hh mm ss now t h e = elim (Bool-cases (ltb hh 24 && ltb mm 60 && ltb ss 60)) [
  | inl valid ↦
      let below = time_of_day hh mm ss (ground arith) (ground arith) (ground arith) in
      subst (λ n. (n ≤ now + 300) × (now < n + 86400) × (n % 86400 ≡ hh * 3600 + mm * 60 + ss))
        (ground arith) (not_ahead-last (hh * 3600 + mm * 60 + ss) now h below)
  | inr invalid ↦ absurd (ground arith)
]
