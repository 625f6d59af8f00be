-- ===== src/Tools/Extract/Joined.antt =====
-- What is extracted does not depend on how the relay's reads cut a response.
use local_smarthinq.Prelude.{
  ◌≡◌, refl, sym, ap, ◌∙◌, String, true, false, Option, none, some, List, [], ◌∷◌, ◌++◌,
  append_assoc, append-nil, map, Bytes, find, put, find-put, if_true, str_eq, eq_refl,
}
use local_smarthinq.Control.Stream.Joined.{joined}
use local_smarthinq.Tools.Extract.{
  Line, Parsing, Answer, Pairs, Conn, Extraction, parse_response, key_of, put_first, keep_at, keep,
  finish, close, on_bytes, on_request, answered, take_answer, on_answer, on_line, on_lines,
}
use local_smarthinq.Tools.Extract.Chunks.{parse_response-append}

-- The line of a chunk of the response, and that of the connection's end.
abbrev pub answer_line : Bytes → Line
answer_line bytes = record {
  opens = false;
  closes = false;
  to_cloud = none;
  from_cloud = some bytes;
}

abbrev pub close_line : Line
close_line = record { opens = false; closes = true; to_cloud = none; from_cloud = none }

put_first-again :
    (key : String) (r : Answer) (o : Option Answer) (pairs : Pairs)
    → find key pairs ≡ o
    → put_first key r (find key (put_first key r o pairs)) (put_first key r o pairs)
      ≡ put_first key r o pairs
unfolding put_first
put_first-again key r none pairs h =
    ap (λ o. put_first key r o (put key r pairs))
      (find-put key key r pairs ∙ if_true (str_eq key key) (some r) (find key pairs) (eq_refl key))
put_first-again key r (some old) pairs h = ap (λ o. put_first key r o pairs) h

-- A response that was kept is not kept twice.
keep_at-again :
    (endpoint item : Option String) (response : Option Answer) (pairs : Pairs)
    → keep_at endpoint item response (keep_at endpoint item response pairs)
      ≡ keep_at endpoint item response pairs
unfolding keep_at
keep_at-again none item response pairs = refl
keep_at-again (some ep) item none pairs = refl
keep_at-again (some ep) item (some r) pairs =
    put_first-again (key_of ep item) r (find (key_of ep item) pairs) pairs refl

-- The connection with these bytes of a response that is not complete.
abbrev filled : Conn → Bytes → Conn
filled c buf = record c { response = none; up_buf = buf }

abbrev complete : Conn → Bytes → Answer → Conn
complete c buf r = record c { response = some r; up_buf = buf }

module _ (p : Parsing) (c : Conn) where
  -- Where the response is complete, later chunks are not looked at.
  complete-lines :
      (buf : Bytes) (r : Answer) (chunks : List Bytes) (pairs : Pairs)
      → on_lines p
          (map answer_line chunks ++ close_line ∷ [])
          (record { conn = some (complete c buf r); pairs = pairs })
        ≡ record { conn = none; pairs = keep_at c.endpoint c.item (some r) pairs }
  unfolding on_lines on_line close finish keep on_bytes on_request on_answer take_answer
  complete-lines buf r [] pairs = refl
  complete-lines buf r (chunk ∷ chunks) pairs = complete-lines buf r chunks pairs

  -- The rest of the connection behind a chunk.
  abbrev behind_chunk : List Bytes → Bytes → Pairs → Option Answer → Extraction
  behind_chunk chunks buf pairs o =
      on_lines p (map answer_line chunks ++ close_line ∷ []) (answered (filled c buf) pairs o)

  completed :
      (chunks : List Bytes) (buf : Bytes) (pairs : Pairs) (r : Answer)
      → behind_chunk chunks buf pairs (some r)
        ≡ record { conn = none; pairs = keep_at c.endpoint c.item (some r) pairs }
  unfolding answered keep
  completed chunks buf pairs r =
      complete-lines buf r chunks (keep_at c.endpoint c.item (some r) pairs)
      ∙ ap (λ ps. record { conn = none; pairs = ps })
          (keep_at-again c.endpoint c.item (some r) pairs)

  module _ (pairs : Pairs) where
    -- The connection up to its end, with these bytes and these chunks to come.
    abbrev rest_of : Bytes → List Bytes → Extraction
    rest_of buf chunks =
        on_lines p (map answer_line chunks ++ close_line ∷ [])
          (record { conn = some (filled c buf); pairs = pairs })

    rest_of-first :
        (buf chunk : Bytes) (chunks : List Bytes)
        → rest_of buf (chunk ∷ chunks)
          ≡ behind_chunk chunks (buf ++ chunk) pairs (parse_response p (buf ++ chunk))
    unfolding on_lines on_line on_bytes on_request on_answer take_answer
    rest_of-first buf chunk chunks = refl

    unfinished :
        (chunks : List Bytes) (buf : Bytes) (o : Option Answer)
        → parse_response p buf ≡ o
        → (parse_response p buf ≡ none → rest_of buf chunks ≡ rest_of buf (joined chunks ∷ []))
        → behind_chunk chunks buf pairs o
          ≡ behind_chunk [] (buf ++ joined chunks) pairs (parse_response p (buf ++ joined chunks))
    unfolding answered
    unfinished chunks buf none h later = later h ∙ rest_of-first buf (joined chunks) []
    unfinished chunks buf (some r) h later =
        completed chunks buf pairs r
        ∙ sym (completed [] (buf ++ joined chunks) pairs r)
        ∙ ap (behind_chunk [] (buf ++ joined chunks) pairs)
            (sym (parse_response-append p buf (joined chunks) r h))

    rest_of-joined :
        (chunks : List Bytes) (buf : Bytes)
        → parse_response p buf ≡ none
        → rest_of buf chunks ≡ rest_of buf (joined chunks ∷ [])
    unfolding answered
    rest_of-joined [] buf h = sym (
        rest_of-first buf [] []
        ∙ ap (λ b. behind_chunk [] b pairs (parse_response p b)) (append-nil buf)
        ∙ ap (behind_chunk [] buf pairs) h)
    rest_of-joined (chunk ∷ chunks) buf h =
        rest_of-first buf chunk chunks
        ∙ unfinished chunks (buf ++ chunk) (parse_response p (buf ++ chunk)) refl
            (rest_of-joined chunks (buf ++ chunk))
        ∙ ap (λ b. behind_chunk [] b pairs (parse_response p b))
            (append_assoc buf chunk (joined chunks))
        ∙ sym (rest_of-first buf (chunk ++ joined chunks) [])

-- From any connection whose request was read and whose response has not begun, the relay's log of a
-- response, cut into chunks in any way, and of the connection's end gives the same store as the
-- whole response in one chunk does.
pub extract-joined :
    (p : Parsing) (endpoint item : Option String) (pairs : Pairs) (chunks : List Bytes)
    → let c : Conn = record { endpoint = endpoint; item = item; response = none; up_buf = [] } in
      let x : Extraction = record { conn = some c; pairs = pairs } in
      on_lines p (map answer_line chunks ++ close_line ∷ []) x
      ≡ on_lines p (answer_line (joined chunks) ∷ close_line ∷ []) x
unfolding parse_response
extract-joined p endpoint item pairs chunks =
    rest_of-joined p (record { endpoint = endpoint; item = item; response = none; up_buf = [] })
      pairs chunks [] refl
