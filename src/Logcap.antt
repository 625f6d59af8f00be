-- ===== src/Logcap.antt =====
-- The size cap of the relay logs: `truncate_oversized` of server/logcap.py. A file is its bytes, or
-- `none` where opening, reading or writing it raises `OSError`.
pub mod Kept
use local_smarthinq.Prelude.{
  ℕ, ◌-◌, ◌/◌, String, Option, none, some, List, [], ◌∷◌, leb, ◌==◌, if◌then◌else◌, Bytes, length,
  drop,
}

-- `tail[nl + 1:]` for the first newline, if there is one
unfoldable pub after_newline : Bytes → Option Bytes
after_newline [] = none
after_newline (b ∷ bs) = let later = after_newline bs in if b == b'\n' then some bs else later

-- Drop the partial first line; a tail with no newline is kept whole.
unfoldable pub rest_or : Bytes → Option Bytes → Bytes
rest_or tail none = tail
rest_or tail (some rest) = rest

unfoldable pub whole_lines : Bytes → Bytes
unfolding after_newline rest_or
whole_lines tail = rest_or tail (after_newline tail)

-- `keep_bytes`, by default a quarter of the cap
unfoldable pub kept_bytes : ℕ → ℕ → ℕ
kept_bytes cap keep = if keep == 0 then cap / 4 else keep

-- One file: `none` where it is left as it is.
unfoldable pub truncate : ℕ → ℕ → Bytes → Option Bytes
unfolding whole_lines kept_bytes
truncate cap keep content =
    if leb (length content) cap
    then none
    else some (whole_lines (drop (length content - kept_bytes cap keep) content))

abbrev pub File : Type 0
File = String × Option Bytes

unfoldable pub written : String → Bytes → Option Bytes → File
written path content none = (path, some content)
written path content (some tail) = (path, some tail)

unfoldable pub truncate_file : ℕ → ℕ → File → File
unfolding truncate written
truncate_file cap keep (path, none) = (path, none)
truncate_file cap keep (path, some content) = written path content (truncate cap keep content)

-- The files after the call; a cap of 0 turns it off.
unfoldable pub truncate_oversized : ℕ → ℕ → List File → List File
unfolding truncate_file
truncate_oversized cap keep [] = []
truncate_oversized cap keep (file ∷ files) =
    let rest = truncate_oversized cap keep files in
    if cap == 0 then file ∷ rest else truncate_file cap keep file ∷ rest
