-- ===== src/App/Forward.antt =====
-- `forward` of server/app.py: the primary upstream host, then the pinned addresses.
use local_smarthinq.Prelude.{
  ℕ, String, ◌≡◌, refl, not, Option, none, some, List, [], ◌∷◌, if◌then◌else◌, str_eq, eq_iff,
  Bytes, arith, Option-cases, inl, inr,
}

abbrev pub pinned_upstream_ips : List String
pinned_upstream_ips = "52.158.121.103" ∷ "52.158.31.24" ∷ []

unfoldable pub without : String → List String → List String
without host [] = []
without host (ip ∷ ips) =
    let rest = without host ips in if not (str_eq ip host) then ip ∷ rest else rest

-- A target answers with a status and a body, or its name or its connection fails.
abbrev pub Connect : Type 0
Connect = String → Option (ℕ × Bytes)

unfoldable pub or_else : Option (ℕ × Bytes) → Option (ℕ × Bytes) → Option (ℕ × Bytes)
or_else (some r) later = some r
or_else none later = later

-- The loop over the targets; `none` raises the last error.
unfoldable pub first_answer : Connect → List String → Option (ℕ × Bytes)
unfolding or_else
first_answer connect [] = none
first_answer connect (target ∷ targets) = or_else (connect target) (first_answer connect targets)

unfoldable pub forward : Connect → String → Option (ℕ × Bytes)
unfolding without first_answer
forward connect host = first_answer connect (host ∷ without host pinned_upstream_ips)

first_answer-without :
    (connect : Connect) (host : String) (ips : List String)
    → connect host ≡ none
    → first_answer connect (without host ips) ≡ first_answer connect ips
unfolding first_answer without
first_answer-without connect host [] down = refl
first_answer-without connect host (ip ∷ ips) down =
    ground (arith, eq_iff ip host, first_answer-without connect host ips down)

-- The answer is that of the first among the host and all the pinned addresses that answers, and
-- the call fails only if none of them does: leaving out a pinned host loses nothing.
pub forward-first_answer :
    (connect : Connect) (host : String)
    → forward connect host ≡ first_answer connect (host ∷ pinned_upstream_ips)
unfolding forward
forward-first_answer connect host = elim (Option-cases (connect host)) [
  | inl down ↦ rw (first_answer, down) (first_answer-without connect host pinned_upstream_ips down)
  | inr (r, up) ↦ rw (first_answer, up)
]
