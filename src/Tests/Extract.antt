-- ===== src/Tests/Extract.antt =====
-- A relay's log with a request in two chunks and a response in two.
use local_smarthinq.Prelude.{
  ◌≡◌, refl, none, some, List, [], ◌∷◌, ◌++◌, Bytes, find, ◌==◌, if◌then◌else◌,
}
use local_smarthinq.App.Replay.{Reading, Replayed, replay_response}
use local_smarthinq.Tools.Extract.{Line, Parsing, parse_response, on_lines, extract}
use local_smarthinq.Tools.Extract.Joined.{answer_line, close_line, extract-joined}
use local_smarthinq.Tools.Extract.First.{captures, replay-extract}
use local_smarthinq.Tools.Extract.Late.{open_line, request_line, late_item-lost}

abbrev parsing : Parsing
parsing = record {
  post = λ bs. some "svc";
  item = λ bs. elim bs [ [] ↦ none | b ∷ rest ↦ if b == b'i' then some "A" else none ];
  content_length = λ bs. some 2;
  utf8 = λ bs. "text";
}

-- "HTTP", an empty line, and two bytes; the cut is in the separator.
abbrev head : Bytes
head = b'H' ∷ b'T' ∷ b'T' ∷ b'P' ∷ 13 ∷ 10 ∷ []

abbrev rest : Bytes
rest = 13 ∷ 10 ∷ b'o' ∷ b'k' ∷ []

extract-joined_example :
    on_lines parsing (answer_line head ∷ answer_line rest ∷ close_line ∷ []) (record {
      conn = some (record { endpoint = some "svc"; item = some ""; response = none; up_buf = [] });
      pairs = [];
    })
    ≡ on_lines parsing (answer_line (head ++ rest) ∷ close_line ∷ []) (record {
      conn = some (record { endpoint = some "svc"; item = some ""; response = none; up_buf = [] });
      pairs = [];
    })
extract-joined_example = extract-joined parsing (some "svc") (some "") [] (head ∷ rest ∷ [])

-- The request's item comes in its second chunk.
abbrev log : List Line
log =
    open_line
    ∷ request_line (b'P' ∷ [])
    ∷ request_line (b'i' ∷ [])
    ∷ answer_line (head ++ rest)
    ∷ []

whole : parse_response parsing (head ++ rest) ≡ some ("text", "text")
unfolding parse_response
whole = refl

late_item-lost_example : find "svc|" (extract parsing log) ≡ some ("text", "text")
late_item-lost_example =
    late_item-lost parsing (b'P' ∷ []) ((b'i' ∷ []) ∷ []) "svc" (head ++ rest) ("text", "text") refl
      refl whole

abbrev reading : Reading
reading = record {
  segments = λ s. s ∷ [];
  partition = λ s. ("svc", "");
  content_type = λ s. none;
  status = λ s. none;
  update_dynamic = λ s. s;
}

abbrev answer : Replayed
answer = record { status = 200; content_type = "text/xml;charset=utf-8"; body = "text" }

replayed : replay_response reading (captures (extract parsing log)) "svc" none ≡ some answer
unfolding replay_response extract
replayed = refl

replay-extract_example :
    replay_response reading (captures (extract parsing (log ++ close_line ∷ []))) "svc" none
    ≡ some answer
replay-extract_example =
    replay-extract parsing log (close_line ∷ []) reading "svc" none answer replayed
