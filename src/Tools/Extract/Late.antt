-- ===== src/Tools/Extract/Late.antt =====
-- A request that comes in several chunks is read from the first one alone.
use Prim.Native.String.{◌++◌ as join}
use local_smarthinq.Prelude.{
  ◌≡◌, refl, ap, ◌∙◌, String, true, false, Option, none, some, List, [], ◌∷◌, ◌++◌, map, Bytes,
  find, put, eq_refl, if_true, str_eq,
}
use local_smarthinq.Tools.Extract.{
  Line, Parsing, Answer, Conn, Extraction, parse_response, item_or_empty, key_of, put_first,
  keep_at, keep, on_bytes, on_request, take_request, answered, take_answer, on_answer, on_line,
  on_lines, extract,
}
use local_smarthinq.Tools.Extract.Joined.{answer_line}
use local_smarthinq.Tools.Extract.First.{on_lines-append}

abbrev pub open_line : Line
open_line = record { opens = true; closes = false; to_cloud = none; from_cloud = none }

-- A line with a chunk of the request.
abbrev pub request_line : Bytes → Line
request_line bytes = record {
  opens = false;
  closes = false;
  to_cloud = some bytes;
  from_cloud = none;
}

-- The connection of a request with these two, before its response.
abbrev asked : Option String → String → Extraction
asked endpoint item = record {
  conn = some (record { endpoint = endpoint; item = some item; response = none; up_buf = [] });
  pairs = [];
}

later-ignored :
    (p : Parsing) (later : List Bytes) (endpoint item : String)
    → on_lines p (map request_line later) (asked (some endpoint) item) ≡ asked (some endpoint) item
unfolding on_lines on_line on_bytes on_request take_request on_answer
later-ignored p [] endpoint item = refl
later-ignored p (bytes ∷ later) endpoint item = later-ignored p later endpoint item

kept :
    (endpoint : String) (bytes : Bytes) (r : Answer) (o : Option Answer)
    → o ≡ some r
    → find
        (join endpoint "|")
        (answered
          (record { endpoint = some endpoint; item = some ""; response = none; up_buf = bytes })
          []
          o).pairs
      ≡ some r
unfolding answered keep keep_at put_first key_of item_or_empty find put
kept endpoint bytes r o h =
    let c : Conn = record {
      endpoint = some endpoint;
      item = some "";
      response = none;
      up_buf = bytes;
    } in
    let key = join endpoint "|" in
    ap (λ a. find key (answered c [] a).pairs) h
    ∙ if_true (str_eq key key) (some r) none (eq_refl key)

-- A request whose first chunk names the endpoint, but not yet the item, is taken for one without an
-- item, whatever its later chunks say: its response is kept under the endpoint and the empty item.
pub late_item-lost :
    (p : Parsing) (first : Bytes) (later : List Bytes) (endpoint : String) (bytes : Bytes)
    (r : Answer)
    → p.post first ≡ some endpoint
    → p.item first ≡ none
    → parse_response p bytes ≡ some r
    → find (join endpoint "|") (
        extract p
          (open_line ∷ request_line first ∷ (map request_line later ++ answer_line bytes ∷ [])))
      ≡ some r
unfolding extract on_lines on_line on_bytes on_request take_request on_answer take_answer
late_item-lost p first later endpoint bytes r h k complete =
    let lines = map request_line later in
    let found = λ (x : Extraction). find (join endpoint "|") x.pairs in
    ap
      (λ o.
        found
          (on_lines p (lines ++ answer_line bytes ∷ []) (asked o (item_or_empty (p.item first)))))
      h
    ∙ ap
        (λ o.
          found (
            on_lines p (lines ++ answer_line bytes ∷ []) (asked (some endpoint) (item_or_empty o))))
        k
    ∙ ap found (on_lines-append p lines (answer_line bytes ∷ []) (asked (some endpoint) ""))
    ∙ ap (λ x. found (on_lines p (answer_line bytes ∷ []) x)) (later-ignored p later endpoint "")
    ∙ kept endpoint bytes r (parse_response p bytes) complete
