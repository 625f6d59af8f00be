-- ===== src/Logcap/Kept.antt =====
-- What the cap keeps of a log.
use local_smarthinq.Prelude.{
  length-take, ℕ, ◌-◌, ◌≤◌, ◌<◌, ◌≡◌, refl, sym, ap, subst, ◌/◌, if◌then◌else◌, ◌⊎◌, false,
  Option-cases, length-append, inl, inr, Bool-cases, Option, none, some, List, [], ◌∷◌, ◌++◌, arith,
  ◌==◌, Bytes, length, length-drop, take, drop, take-append-drop, All, String,
}
use local_smarthinq.Logcap.{
  after_newline, whole_lines, kept_bytes, truncate, File, written, truncate_file,
  truncate_oversized,
}

-- No byte of them is a newline.
abbrev pub NoNewline : Bytes → Type 0
NoNewline = All (λ b. (b == b'\n') ≡ false)

after_newline-splits :
    (bs rest : Bytes)
    → after_newline bs ≡ some rest
    → (line : Bytes) × NoNewline line × (bs ≡ line ++ b'\n' ∷ rest)
unfolding after_newline
after_newline-splits [] rest h = absurd (ground arith)
after_newline-splits (b ∷ bs) rest h = elim (Bool-cases (b == b'\n')) [
  | inl newline ↦ ([], tt, ground arith)
  | inr other ↦
      let (line, clean, e) = after_newline-splits bs rest (rw other at h) in
      (b ∷ line, (other, clean), ap (◌∷◌ b) e)
]

after_newline-NoNewline : (bs : Bytes) → after_newline bs ≡ none → NoNewline bs
unfolding after_newline
after_newline-NoNewline [] h = tt
after_newline-NoNewline (b ∷ bs) h = elim (Bool-cases (b == b'\n')) [
  | inl newline ↦ absurd (ground arith)
  | inr other ↦ (other, after_newline-NoNewline bs (rw other at h))
]

-- What is kept of a tail: all behind its first newline, or the whole of one that has none.
abbrev pub Cuts : Bytes → Bytes → Type 0
Cuts tail kept =
    ((line : Bytes) × NoNewline line × (tail ≡ line ++ b'\n' ∷ kept))
    ⊎ (NoNewline tail × (kept ≡ tail))

whole_lines-Cuts : (bs : Bytes) → Cuts bs (whole_lines bs)
unfolding whole_lines
whole_lines-Cuts bs = elim (Option-cases (after_newline bs)) [
  | inl e ↦ rw e (inr (after_newline-NoNewline bs e, refl))
  | inr (rest, e) ↦ rw e (inl (after_newline-splits bs rest e))
]

-- The content was above the cap. `tail` is its last bytes, as many as there are to keep, by
-- default a quarter of the cap; the new content is cut from it behind its first newline.
pub record KeepsLines (cap keep : ℕ) (content kept : Bytes) : Type 0 where
  pub above : cap < length content
  pub front : Bytes
  pub tail : Bytes
  pub splits : content ≡ front ++ tail
  pub front_size : length front ≡ length content - (if keep == 0 then cap / 4 else keep)
  pub cut : Cuts tail kept

truncate-some :
    (cap keep : ℕ) (content kept : Bytes)
    → truncate cap keep content ≡ some kept
    → (cap < length content)
      × (kept ≡ whole_lines (drop (length content - kept_bytes cap keep) content))
unfolding truncate
truncate-some cap keep content kept h = (ground arith, ground arith)

length-Cuts : (tail kept : Bytes) → Cuts tail kept → length kept ≤ length tail
length-Cuts tail kept (inl (line, clean, e)) =
    omega (arith, ap length e, length-append {0} line (b'\n' ∷ kept))
length-Cuts tail kept (inr (clean, e)) = omega (arith, ap length e)

-- A log is truncated only above the cap, and then holds at most the bytes to keep.
pub length-truncate :
    (cap keep : ℕ) (content kept : Bytes)
    → truncate cap keep content ≡ some kept
    → (cap < length content) × (length kept ≤ kept_bytes cap keep)
length-truncate cap keep content kept h =
    let (above, e) = truncate-some cap keep content kept h in
    let n = length content - kept_bytes cap keep in
    let tail = drop n content in
    (
      above,
      rw e (
          omega (
            arith,
            length-Cuts tail (whole_lines tail) (whole_lines-Cuts tail),
            length-drop {0} n content,
          )),
    )

-- A log that is truncated was above the cap, and its new content is cut from its last bytes, as
-- many as there are to keep: all behind the first newline there, or the whole where there is none.
pub truncate-KeepsLines :
    (cap keep : ℕ) (content kept : Bytes)
    → truncate cap keep content ≡ some kept
    → KeepsLines cap keep content kept
unfolding kept_bytes
truncate-KeepsLines cap keep content kept h =
    let (above, e) = truncate-some cap keep content kept h in
    let n = length content - kept_bytes cap keep in
    record {
      above = above;
      front = take n content;
      tail = drop n content;
      splits = sym (take-append-drop n content);
      front_size = length-take n content (omega arith);
      cut = subst (Cuts (drop n content)) (sym e) (whole_lines-Cuts (drop n content));
    }

-- Each log that can be opened is at most as large as the cap.
abbrev pub Capped : ℕ → File → Type 0
Capped cap (path, none) = Unit
Capped cap (path, some content) = length content ≤ cap

truncate-none :
    (cap keep : ℕ) (content : Bytes) → truncate cap keep content ≡ none → length content ≤ cap
unfolding truncate
truncate-none cap keep content h = ground arith

written-Capped :
    (cap : ℕ) (path : String) (content : Bytes) (o : Option Bytes)
    → (o ≡ none → length content ≤ cap)
    → ((kept : Bytes) → o ≡ some kept → length kept ≤ cap)
    → Capped cap (written path content o)
unfolding written
written-Capped cap path content none whole cut = whole refl
written-Capped cap path content (some kept) whole cut = cut kept refl

truncate_file-Capped :
    (cap keep : ℕ) (file : File)
    → kept_bytes cap keep ≤ cap
    → Capped cap (truncate_file cap keep file)
unfolding truncate_file
truncate_file-Capped cap keep (path, none) h = tt
truncate_file-Capped cap keep (path, some content) h =
    written-Capped cap path content (truncate cap keep content) (truncate-none cap keep content)
      (λ kept e. omega (arith, (length-truncate cap keep content kept e).1))

-- After a call with a cap above 0 and no more bytes to keep than the cap, every log that can be
-- opened is within the cap.
pub truncate_oversized-Capped :
    (cap keep : ℕ) (files : List File)
    → 0 < cap
    → kept_bytes cap keep ≤ cap
    → All (Capped cap) (truncate_oversized cap keep files)
unfolding truncate_oversized
truncate_oversized-Capped cap keep [] pos h = tt
truncate_oversized-Capped cap keep (file ∷ files) pos h =
    let on : (cap == 0) ≡ false = ground arith in
    rw on (truncate_file-Capped cap keep file h, truncate_oversized-Capped cap keep files pos h)
