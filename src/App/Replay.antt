-- ===== src/App/Replay.antt =====
-- server/replay.py: captured answers of the LG cloud. Splitting at slashes and at a bar, the
-- regular expressions on the headers, and the update of the time stamp are arguments.
use local_smarthinq.Prelude.{
  ℕ, ◌≡◌, refl, String, Bool, true, ◌&&◌, not, Option, none, some, List, [], ◌∷◌, if◌then◌else◌,
  str_eq, eq_iff, Bool-cases, inl, inr, arith,
}
use local_smarthinq.Mqtt.View.{one_of}

-- An entry of the store.
pub record Capture : Type 0 where
  pub key : String
  pub body : String
  pub headers : String

pub record Reading : Type 0 where
  pub segments : String → List String
  pub partition : String → String × String
  pub content_type : String → Option String
  pub status : String → Option ℕ
  pub update_dynamic : String → String

pub record Replayed : Type 0 where
  pub status : ℕ
  pub content_type : String
  pub body : String

-- `split("/")[-1]`
unfoldable pub last_segment : List String → String
last_segment [] = ""
last_segment (s ∷ []) = s
last_segment (s ∷ t ∷ ts) = last_segment (t ∷ ts)

unfoldable pub item_or_empty : Option String → String
item_or_empty none = ""
item_or_empty (some item) = item

-- The service is a segment of the path, and the item is the request's.
unfoldable pub matches : Reading → List String → String → Capture → Bool
unfolding last_segment one_of
matches r path_segments want c =
    let (ep_path, ep_item) = r.partition c.key in
    let service = last_segment (r.segments ep_path) in
    not (str_eq service "") && one_of service path_segments && str_eq ep_item want

unfoldable pub or_type : Option String → String
or_type none = "text/xml;charset=utf-8"
or_type (some ct) = ct

unfoldable pub or_ok : Option ℕ → ℕ
or_ok none = 200
or_ok (some status) = status

unfoldable pub replayed_of : Reading → Capture → Replayed
unfolding or_type or_ok
replayed_of r c = record {
  status = or_ok (r.status c.headers);
  content_type = or_type (r.content_type c.headers);
  body = r.update_dynamic c.body;
}

unfoldable pub first_match : Reading → List String → String → List Capture → Option Replayed
unfolding matches replayed_of
first_match r path_segments want [] = none
first_match r path_segments want (c ∷ cs) =
    let later = first_match r path_segments want cs in
    if matches r path_segments want c then some (replayed_of r c) else later

unfoldable pub replay_response : Reading → List Capture → String → Option String → Option Replayed
unfolding first_match item_or_empty
replay_response r store path item = first_match r (r.segments path) (item_or_empty item) store

-- The module's `_store` and `_loaded`.
pub record Loading : Type 0 where
  pub loaded : Bool
  pub store : List Capture

unfoldable pub or_empty : Option (List Capture) → List Capture
or_empty none = []
or_empty (some store) = store

-- `_load`, with what the file gives: `none` where it is missing or cannot be read.
unfoldable pub load : Option (List Capture) → Loading → Loading
unfolding or_empty
load file l = if l.loaded then l else record { loaded = true; store = or_empty file }

-- The store is read once: what the file gives later, a failure or not, is not looked at.
pub load-load :
    (first later : Option (List Capture)) (l : Loading) → load later (load first l) ≡ load first l
unfolding load
load-load first later l = ground arith

-- The capture is in the store.
pub data IsCaptured (c : Capture) : List Capture → Type 0 where
  here : {d : Capture} {cs : List Capture} → d ≡ c → IsCaptured c (d ∷ cs)
  there : {d : Capture} {cs : List Capture} → IsCaptured c cs → IsCaptured c (d ∷ cs)

-- The answer is that of a capture of the store, for the service of one of these segments and for
-- this item.
pub record IsReplayOf (r : Reading) (segments : List String) (want : String) (store : List Capture)
    (a : Replayed) : Type 0 where
  pub capture : Capture
  pub captured : IsCaptured capture store
  pub service : one_of (last_segment (r.segments (r.partition capture.key).0)) segments ≡ true
  pub item : (r.partition capture.key).1 ≡ want
  pub answer : a ≡ replayed_of r capture

matches-item :
    (r : Reading) (segments : List String) (want : String) (c : Capture)
    → matches r segments want c ≡ true
    → (one_of (last_segment (r.segments (r.partition c.key).0)) segments ≡ true)
      × ((r.partition c.key).1 ≡ want)
unfolding matches
matches-item r segments want c h = (ground arith, ground (arith, eq_iff (r.partition c.key).1 want))

first_match-IsReplayOf :
    (r : Reading) (segments : List String) (want : String) (store : List Capture) (a : Replayed)
    → first_match r segments want store ≡ some a
    → IsReplayOf r segments want store a
unfolding first_match
first_match-IsReplayOf r segments want [] a h = absurd (ground arith)
first_match-IsReplayOf r segments want (c ∷ cs) a h =
    elim (Bool-cases (matches r segments want c)) [
      | inl hit ↦
          let m = matches-item r segments want c hit in
          record {
            capture = c;
            captured = here refl;
            service = m.0;
            item = m.1;
            answer = ground arith;
          }
      | inr miss ↦
          let later = first_match-IsReplayOf r segments want cs a (ground arith) in
          record {
            capture = later.capture;
            captured = there later.captured;
            service = later.service;
            item = later.item;
            answer = later.answer;
          }
    ]
