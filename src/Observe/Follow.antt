-- ===== src/Observe/Follow.antt =====
-- `RelayWatcher.poll` of server/observability.py, for one log: the offset and the bytes that are
-- read. The size is asked first and the file is read to its end later, so the content at the read
-- is an argument of its own. Reading and parsing the lines is not modelled.
use local_smarthinq.Prelude.{
  ℕ, ◌≡◌, refl, ap, ◌∙◌, false, Option, none, some, List, [], ◌∷◌, ◌++◌, arith, ltb, ◌==◌,
  if◌then◌else◌, Bytes, length, drop, length-append, drop-append, append-nil,
}

-- The offset that is kept for the log, and the bytes that this poll reads.
pub record Polled : Type 0 where
  pub offset : Option ℕ
  pub blob : Bytes

-- A log smaller than the offset was cut: it is read from its top.
unfoldable pub from_top : ℕ → ℕ → ℕ
from_top off size = if ltb size off then 0 else off

unfoldable pub poll_path : Option ℕ → ℕ → Bytes → Polled
unfolding from_top
poll_path none size content = record { offset = some size; blob = [] }
poll_path (some off) size content =
    if size == from_top off size
    then record { offset = some off; blob = [] }
    else record { offset = some size; blob = drop (from_top off size) content }

-- One poll behind each chunk that is appended to a log that holds `file`: all that is read.
unfoldable pub follow : Option ℕ → Bytes → List Bytes → Bytes
unfolding poll_path
follow off file [] = []
follow off file (chunk ∷ chunks) =
    let now = file ++ chunk in
    let p = poll_path off (length now) now in p.blob ++ follow p.offset now chunks

unfoldable pub joined : List Bytes → Bytes
joined [] = []
joined (c ∷ cs) = c ++ joined cs

from_top-append :
    (file chunk : Bytes) → from_top (length file) (length (file ++ chunk)) ≡ length file
unfolding from_top
from_top-append file chunk = ground (arith, length-append file chunk)

poll_path-still :
    (file content : Bytes)
    → poll_path (some (length file)) (length (file ++ [])) content
      ≡ record { offset = some (length file); blob = [] }
unfolding poll_path
poll_path-still file content = rw (from_top-append file [], append-nil) (ground arith)

grown : (file : Bytes) (c : ℕ) (cs : Bytes) → (length (file ++ c ∷ cs) == length file) ≡ false
grown file c cs = ground (arith, length-append file (c ∷ cs))

-- A poll of a log that has grown reads all that stands behind the offset at the read.
poll_path-grown :
    (file : Bytes) (c : ℕ) (cs rest : Bytes)
    → poll_path (some (length file)) (length (file ++ c ∷ cs)) (file ++ rest)
      ≡ record { offset = some (length (file ++ c ∷ cs)); blob = rest }
unfolding poll_path
poll_path-grown file c cs rest =
    rw (from_top-append file (c ∷ cs), grown file c cs, drop-append file rest) refl

-- Where nothing is appended between the size and the read, polls behind each chunk that is
-- appended read just what was appended, each byte once and in its order.
pub follow-joined :
    (file : Bytes) (chunks : List Bytes) → follow (some (length file)) file chunks ≡ joined chunks
unfolding follow joined
follow-joined file [] = refl
follow-joined file ([] ∷ chunks) =
    rw (poll_path-still file (file ++ []), append-nil) (follow-joined file chunks)
follow-joined file ((c ∷ cs) ∷ chunks) =
    let now = file ++ c ∷ cs in
    ap (λ p. p.blob ++ follow p.offset now chunks) (poll_path-grown file c cs (c ∷ cs))
    ∙ ap (◌++◌ (c ∷ cs)) (follow-joined now chunks)

-- A log that grows, by `more`, between the size and the read of a poll, is read twice there: the
-- next poll reads `more` again, in front of the next chunk.
pub poll_path-twice :
    (file : Bytes) (c : ℕ) (cs : Bytes) (d : ℕ) (more next : Bytes)
    → let first =
        poll_path (some (length file)) (length (file ++ c ∷ cs)) (file ++ (c ∷ cs ++ d ∷ more)) in
      (first.blob ≡ c ∷ cs ++ d ∷ more)
      × ((poll_path first.offset
            (length ((file ++ c ∷ cs) ++ d ∷ (more ++ next)))
            ((file ++ c ∷ cs) ++ d ∷ (more ++ next))).blob
          ≡ d ∷ (more ++ next))
poll_path-twice file c cs d more next =
    let now = file ++ c ∷ cs in
    let e = poll_path-grown file c cs (c ∷ cs ++ d ∷ more) in
    (
      ap (λ p. p.blob) e,
      ap
            (λ p.
              (poll_path p.offset (length (now ++ d ∷ (more ++ next)))
                (now ++ d ∷ (more ++ next))).blob)
            e
          ∙ ap (λ p. p.blob) (poll_path-grown now d (more ++ next) (d ∷ (more ++ next))),
    )
