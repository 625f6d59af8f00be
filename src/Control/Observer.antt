-- ===== src/Control/Observer.antt =====
-- `_passthrough_observer` and `ingest_snapshot` of server/control_channel.py: what is decoded of a
-- connection that is bridged to the cloud.
use local_smarthinq.Prelude.{
  ◌≡◌, refl, ◌∙◌, ap, sym, subst, Bool, true, false, ◌&&◌, not, Option, none, some, List, [], ◌∷◌,
  ◌++◌, append_assoc, Bool-cases, if_false, inl, inr, arith, if◌then◌else◌, Bytes,
}
use local_smarthinq.Json.{Value, null, bool, num, str, arr, obj, Fields, get, Loads}
use local_smarthinq.Wire.Len4.{decode_messages_len4}
use local_smarthinq.Wire.Len4.Chunks.{decode-append}
use local_smarthinq.Control.Protocol.{get_object, is_text, get_text, has, B64decode}
use local_smarthinq.Mqtt.View.{truthy}

-- The device that was named last, the bytes of an incomplete frame, the snapshots for the state
-- store, and whether a message of the last chunk raised.
pub record Observed : Type 0 where
  pub dev : Option Value
  pub buf : Bytes
  pub ingested : List (Value × Bytes)
  pub raised : Bool

-- A blob that is not empty goes to the state store; what is no base64 is dropped. Where there is
-- something to log or to store, `dev_id[:8]` raises for a device id that is no text, and for a list
-- the store does.
unfoldable pub ingest_snapshot : Value → Option Bytes → Observed → Observed
ingest_snapshot dev (some []) o = o
ingest_snapshot (str id) none o = o
ingest_snapshot (arr vs) none o = o
ingest_snapshot dev none o = record o { raised = true }
ingest_snapshot (str id) (some (b ∷ bs)) o = record o {
  ingested = o.ingested ++ (str id, b ∷ bs) ∷ [];
}
ingest_snapshot dev (some (b ∷ bs)) o = record o { raised = true }

-- `if dev: dev_box["dev"] = dev`
unfoldable pub track : Option Value → Observed → Observed
unfolding truthy
track none o = o
track (some v) o = if truthy v then record o { dev = some v } else o

unfoldable pub ingest_for : B64decode → Fields → Option Value → Observed → Observed
unfolding ingest_snapshot
ingest_for b64decode body none o = o
ingest_for b64decode body (some dev) o = ingest_snapshot dev (b64decode (get_text "Data" body)) o

unfoldable pub on_body : B64decode → Option Fields → Observed → Observed
unfolding ingest_for
on_body b64decode none o = record o { raised = true }
on_body b64decode (some body) o =
    if is_text "B64" (get_text "Format" body) && has "Data" body && not (has "Cmd" body)
    then ingest_for b64decode body o.dev o
    else o

unfoldable pub on_header : B64decode → Fields → Option Fields → Observed → Observed
unfolding track on_body
on_header b64decode msg none o = record o { raised = true }
on_header b64decode msg (some header) o =
    on_body b64decode (get_object "Body" msg) (track (get "x-lgedm-deviceId" header) o)

-- The messages of a chunk, up to one that raises.
unfoldable pub on_messages : B64decode → List Fields → Observed → Observed
unfolding on_header
on_messages b64decode [] o = o
on_messages b64decode (msg ∷ msgs) o =
    let next = on_header b64decode msg (get_object "Header" msg) o in
    let later = on_messages b64decode msgs next in if next.raised then next else later

-- `observe`
unfoldable pub observe : Loads → B64decode → Bytes → Observed → Observed
unfolding on_messages
observe loads b64decode chunk o =
    let (msgs, rest) = decode_messages_len4 loads (o.buf ++ chunk) in
    on_messages b64decode msgs (record o { buf = rest; raised = false })

abbrev with_buf : Bytes → Observed → Observed
with_buf b o = record o { buf = b }

if-with_buf :
    (b : Bytes) (c : Bool) (x y : Observed)
    → (if c then with_buf b x else with_buf b y) ≡ with_buf b (if c then x else y)
if-with_buf b true x y = refl
if-with_buf b false x y = refl

ingest_snapshot-with_buf :
    (b : Bytes) (dev : Value) (o : Option Bytes) (s : Observed)
    → ingest_snapshot dev o (with_buf b s) ≡ with_buf b (ingest_snapshot dev o s)
unfolding ingest_snapshot
ingest_snapshot-with_buf b dev (some []) s = refl
ingest_snapshot-with_buf b (str id) none s = refl
ingest_snapshot-with_buf b (arr vs) none s = refl
ingest_snapshot-with_buf b (num n) none s = refl
ingest_snapshot-with_buf b (bool v) none s = refl
ingest_snapshot-with_buf b (obj fs) none s = refl
ingest_snapshot-with_buf b null none s = refl
ingest_snapshot-with_buf b (str id) (some (x ∷ xs)) s = refl
ingest_snapshot-with_buf b (arr vs) (some (x ∷ xs)) s = refl
ingest_snapshot-with_buf b (num n) (some (x ∷ xs)) s = refl
ingest_snapshot-with_buf b (bool v) (some (x ∷ xs)) s = refl
ingest_snapshot-with_buf b (obj fs) (some (x ∷ xs)) s = refl
ingest_snapshot-with_buf b null (some (x ∷ xs)) s = refl

ingest_for-with_buf :
    (b64decode : B64decode) (b : Bytes) (body : Fields) (dev : Option Value) (s : Observed)
    → ingest_for b64decode body dev (with_buf b s) ≡ with_buf b (ingest_for b64decode body dev s)
unfolding ingest_for
ingest_for-with_buf b64decode b body none s = refl
ingest_for-with_buf b64decode b body (some dev) s =
    ingest_snapshot-with_buf b dev (b64decode (get_text "Data" body)) s

track-with_buf :
    (b : Bytes) (o : Option Value) (s : Observed) → track o (with_buf b s) ≡ with_buf b (track o s)
unfolding track
track-with_buf b none s = refl
track-with_buf b (some v) s = if-with_buf b (truthy v) (record s { dev = some v }) s

on_body-with_buf :
    (b64decode : B64decode) (b : Bytes) (body : Option Fields) (s : Observed)
    → on_body b64decode body (with_buf b s) ≡ with_buf b (on_body b64decode body s)
unfolding on_body
on_body-with_buf b64decode b none s = refl
on_body-with_buf b64decode b (some body) s =
    let wanted =
      is_text "B64" (get_text "Format" body) && has "Data" body && not (has "Cmd" body) in
    ap (λ x. if wanted then x else with_buf b s) (ingest_for-with_buf b64decode b body s.dev s)
    ∙ if-with_buf b wanted (ingest_for b64decode body s.dev s) s

on_header-with_buf :
    (b64decode : B64decode) (b : Bytes) (msg : Fields) (header : Option Fields) (s : Observed)
    → on_header b64decode msg header (with_buf b s) ≡ with_buf b (on_header b64decode msg header s)
unfolding on_header
on_header-with_buf b64decode b msg none s = refl
on_header-with_buf b64decode b msg (some header) s =
    ap (on_body b64decode (get_object "Body" msg))
      (track-with_buf b (get "x-lgedm-deviceId" header) s)
    ∙ on_body-with_buf b64decode b (get_object "Body" msg) (track (get "x-lgedm-deviceId" header) s)

on_messages-with_buf :
    (b64decode : B64decode) (b : Bytes) (msgs : List Fields) (s : Observed)
    → on_messages b64decode msgs (with_buf b s) ≡ with_buf b (on_messages b64decode msgs s)
unfolding on_messages
on_messages-with_buf b64decode b [] s = refl
on_messages-with_buf b64decode b (msg ∷ msgs) s =
    let next = on_header b64decode msg (get_object "Header" msg) s in
    ap (λ n. if n.raised then n else on_messages b64decode msgs n)
      (on_header-with_buf b64decode b msg (get_object "Header" msg) s)
    ∙ ap (λ x. if next.raised then with_buf b next else x)
        (on_messages-with_buf b64decode b msgs next)
    ∙ if-with_buf b next.raised next (on_messages b64decode msgs next)

raised_first : (x y : Observed) → x.raised ≡ true → (if x.raised then x else y).raised ≡ false → ⊥
raised_first x y h k = ground arith

-- Messages that do not raise, and then others, are one run over both.
on_messages-append :
    (b64decode : B64decode) (ms ns : List Fields) (s : Observed)
    → (on_messages b64decode ms s).raised ≡ false
    → on_messages b64decode (ms ++ ns) s ≡ on_messages b64decode ns (on_messages b64decode ms s)
unfolding on_messages
on_messages-append b64decode [] ns s h = refl
on_messages-append b64decode (msg ∷ ms) ns s h =
    elim (Bool-cases (on_header b64decode msg (get_object "Header" msg) s).raised) [
      | inl bad ↦ absurd (
          raised_first (on_header b64decode msg (get_object "Header" msg) s)
            (on_messages b64decode ms (on_header b64decode msg (get_object "Header" msg) s)) bad h)
      | inr fine ↦
          let next = on_header b64decode msg (get_object "Header" msg) s in
          let e = if_false next.raised next (on_messages b64decode ms next) fine in
          if_false next.raised next (on_messages b64decode (ms ++ ns) next) fine
          ∙ on_messages-append b64decode ms ns next (subst (λ x. x.raised ≡ false) e h)
          ∙ ap (on_messages b64decode ns) (sym e)
    ]

-- The messages and the rest that were decoded.
abbrev take_decoded : B64decode → List Fields × Bytes → Observed → Observed
take_decoded b64decode d o = on_messages b64decode d.0 (record o { buf = d.1; raised = false })

-- Cutting the bridged stream elsewhere changes nothing: if no message of the first chunk raises,
-- two chunks are observed as one.
pub observe-append :
    (loads : Loads) (b64decode : B64decode) (xs ys : Bytes) (o : Observed)
    → (observe loads b64decode xs o).raised ≡ false
    → observe loads b64decode ys (observe loads b64decode xs o)
      ≡ observe loads b64decode (xs ++ ys) o
unfolding observe
observe-append loads b64decode xs ys o h =
    let d = decode_messages_len4 loads (o.buf ++ xs) in
    let e = decode_messages_len4 loads (d.1 ++ ys) in
    let s : Observed = record o { buf = d.1; raised = false } in
    let a = on_messages b64decode d.0 s in
    let swap = on_messages-with_buf b64decode e.1 d.0 s in
    ap (λ b. take_decoded b64decode (decode_messages_len4 loads (b ++ ys)) a)
      (ap (λ x. x.buf) (on_messages-with_buf b64decode d.1 d.0 s))
    ∙ ap (λ r. on_messages b64decode e.0 (record a { buf = e.1; raised = r })) (sym h)
    ∙ ap (on_messages b64decode e.0) (sym swap)
    ∙ sym (on_messages-append b64decode d.0 e.0 (with_buf e.1 s) (ap (λ x. x.raised) swap ∙ h))
    ∙ ap (λ p. take_decoded b64decode p o) (sym (decode-append loads (o.buf ++ xs) ys))
    ∙ ap (λ b. take_decoded b64decode (decode_messages_len4 loads b) o) (append_assoc o.buf xs ys)
