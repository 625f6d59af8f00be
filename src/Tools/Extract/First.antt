-- ===== src/Tools/Extract/First.antt =====
-- The first complete response of a service and an item is the one that is replayed.
use local_smarthinq.Prelude.{
  ◌≡◌, refl, sym, ap, ◌∙◌, String, Option, none, some, List, [], ◌∷◌, ◌++◌, append_assoc,
  append-nil, if-both, Bytes, find, put, arith, str_eq, Bool-cases, inl, inr, if_true, if_false,
}
use local_smarthinq.App.Replay.{
  Capture, Reading, Replayed, matches, replayed_of, first_match, item_or_empty, replay_response,
}
use local_smarthinq.Tools.Extract.{
  Line, Parsing, Answer, Pairs, Conn, Extraction, new_conn, parse_response, key_of, put_first,
  keep_at, keep, finish, close, on_bytes, on_request, answered, take_answer, on_answer, on_line,
  on_lines, extract,
}

-- A store with pairs behind those of another.
abbrev Extends : Pairs → Pairs → Type 0
Extends pairs later = (more : Pairs) × (later ≡ pairs ++ more)

same : (pairs : Pairs) → Extends pairs pairs
same pairs = ([], sym (append-nil pairs))

further : (a b c : Pairs) → Extends a b → Extends b c → Extends a c
further a b c (xs, e) (ys, h) = (xs ++ ys, h ∙ ap (λ d. d ++ ys) e ∙ append_assoc a xs ys)

put-new : (k : String) (v : Answer) (d : Pairs) → find k d ≡ none → put k v d ≡ d ++ (k, v) ∷ []
unfolding find put
put-new k v [] h = refl
put-new k v ((j, w) ∷ d) h = elim (Bool-cases (str_eq j k)) [
  | inl hit ↦ absurd (ground arith)
  | inr miss ↦
      if_false (str_eq j k) ((j, v) ∷ d) ((j, w) ∷ put k v d) miss
      ∙ ap (λ e. (j, w) ∷ e)
          (put-new k v d (sym (if_false (str_eq j k) (some w) (find k d) miss) ∙ h))
]

put_first-Extends :
    (k : String) (v : Answer) (o : Option Answer) (pairs : Pairs)
    → find k pairs ≡ o
    → Extends pairs (put_first k v o pairs)
unfolding put_first
put_first-Extends k v none pairs h = ((k, v) ∷ [], put-new k v pairs h)
put_first-Extends k v (some old) pairs h = same pairs

keep_at-Extends :
    (endpoint item : Option String) (response : Option Answer) (pairs : Pairs)
    → Extends pairs (keep_at endpoint item response pairs)
unfolding keep_at
keep_at-Extends none item response pairs = same pairs
keep_at-Extends (some ep) item none pairs = same pairs
keep_at-Extends (some ep) item (some r) pairs =
    put_first-Extends (key_of ep item) r (find (key_of ep item) pairs) pairs refl

close-Extends :
    (p : Parsing) (pairs : Pairs) (c : Option Conn) → Extends pairs (close p pairs c).pairs
unfolding close keep
close-Extends p pairs none = same pairs
close-Extends p pairs (some c) =
    let d = finish p c c.response in keep_at-Extends d.endpoint d.item d.response pairs

answered-Extends :
    (c : Conn) (pairs : Pairs) (o : Option Answer) → Extends pairs (answered c pairs o).pairs
unfolding answered keep
answered-Extends c pairs none = same pairs
answered-Extends c pairs (some r) = keep_at-Extends c.endpoint c.item (some r) pairs

take_answer-Extends :
    (p : Parsing) (bytes : Bytes) (c : Conn) (pairs : Pairs) (o : Option Answer)
    → Extends pairs (take_answer p bytes c pairs o).pairs
unfolding take_answer
take_answer-Extends p bytes c pairs (some r) = same pairs
take_answer-Extends p bytes c pairs none =
    let buf = c.up_buf ++ bytes in
    answered-Extends (record c { up_buf = buf }) pairs (parse_response p buf)

on_answer-Extends :
    (p : Parsing) (o : Option Bytes) (c : Conn) (pairs : Pairs)
    → Extends pairs (on_answer p o c pairs).pairs
unfolding on_answer
on_answer-Extends p none c pairs = same pairs
on_answer-Extends p (some bytes) c pairs = take_answer-Extends p bytes c pairs c.response

on_bytes-Extends :
    (p : Parsing) (l : Line) (pairs : Pairs) (c : Option Conn)
    → Extends pairs (on_bytes p l pairs c).pairs
unfolding on_bytes
on_bytes-Extends p l pairs none = same pairs
on_bytes-Extends p l pairs (some c) =
    on_answer-Extends p l.from_cloud (on_request p l.to_cloud c) pairs

on_line-Extends : (p : Parsing) (l : Line) (x : Extraction) → Extends x.pairs (on_line p l x).pairs
unfolding on_line
on_line-Extends p l x =
    if-both (λ (y : Extraction). Extends x.pairs y.pairs) l.opens
      (record { conn = some new_conn; pairs = x.pairs }) _ (same x.pairs)
      (if-both (λ (y : Extraction). Extends x.pairs y.pairs) l.closes (close p x.pairs x.conn)
        (on_bytes p l x.pairs x.conn) (close-Extends p x.pairs x.conn)
        (on_bytes-Extends p l x.pairs x.conn))

on_lines-Extends :
    (p : Parsing) (ls : List Line) (x : Extraction) → Extends x.pairs (on_lines p ls x).pairs
unfolding on_lines
on_lines-Extends p [] x = same x.pairs
on_lines-Extends p (l ∷ ls) x =
    further x.pairs (on_line p l x).pairs (on_lines p ls (on_line p l x)).pairs
      (on_line-Extends p l x) (on_lines-Extends p ls (on_line p l x))

pub on_lines-append :
    (p : Parsing) (ls more : List Line) (x : Extraction)
    → on_lines p (ls ++ more) x ≡ on_lines p more (on_lines p ls x)
unfolding on_lines
on_lines-append p [] more x = refl
on_lines-append p (l ∷ ls) more x = on_lines-append p ls more (on_line p l x)

-- The store as the server reads it back from the file.
abbrev pub captures : Pairs → List Capture
captures [] = []
captures ((key, (headers, body)) ∷ pairs) =
    record { key = key; body = body; headers = headers } ∷ captures pairs

captures-append : (xs ys : Pairs) → captures (xs ++ ys) ≡ captures xs ++ captures ys
captures-append [] ys = refl
captures-append ((key, (headers, body)) ∷ xs) ys =
    ap (λ cs. record { key = key; body = body; headers = headers } ∷ cs) (captures-append xs ys)

first_match-append :
    (r : Reading) (segments : List String) (want : String) (xs ys : List Capture) (a : Replayed)
    → first_match r segments want xs ≡ some a
    → first_match r segments want (xs ++ ys) ≡ some a
unfolding first_match
first_match-append r segments want [] ys a h = absurd (ground arith)
first_match-append r segments want (c ∷ xs) ys a h = elim (Bool-cases (matches r segments want c)) [
  | inl hit ↦
      if_true (matches r segments want c) (some (replayed_of r c)) _ hit
      ∙ sym (
          if_true (matches r segments want c) (some (replayed_of r c))
            (first_match r segments want xs) hit)
      ∙ h
  | inr miss ↦
      if_false (matches r segments want c) (some (replayed_of r c)) _ miss
      ∙ first_match-append r segments want xs ys a (
          sym (
            if_false (matches r segments want c) (some (replayed_of r c))
              (first_match r segments want xs) miss)
          ∙ h)
]

-- What the store of a log answers to a request, the store of a longer log answers too: later
-- responses, which are retries or belong to other requests, do not change it.
pub replay-extract :
    (p : Parsing) (before after : List Line) (r : Reading) (path : String) (item : Option String)
    (a : Replayed)
    → replay_response r (captures (extract p before)) path item ≡ some a
    → replay_response r (captures (extract p (before ++ after))) path item ≡ some a
unfolding replay_response extract
replay-extract p before after r path item a h =
    let start : Extraction = record { conn = none; pairs = [] } in
    let x = on_lines p before start in
    let (more, longer) = on_lines-Extends p after x in
    ap (λ (y : Extraction). first_match r (r.segments path) (item_or_empty item) (captures y.pairs))
      (on_lines-append p before after start)
    ∙ ap (λ ps. first_match r (r.segments path) (item_or_empty item) (captures ps)) longer
    ∙ ap (first_match r (r.segments path) (item_or_empty item)) (captures-append x.pairs more)
    ∙ first_match-append r (r.segments path) (item_or_empty item) (captures x.pairs) (captures more)
        a h
