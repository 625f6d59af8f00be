-- ===== src/Control/Stream/Joined.antt =====
-- How the network cuts an appliance's stream does not change what the server does.
use local_smarthinq.Prelude.{
  ℕ, suc, ◌≡◌, refl, sym, ap, ◌∙◌, String, Bool, true, false, List, [], ◌∷◌, ◌++◌, append_assoc,
  append-nil, map, if◌then◌else◌, Bytes, Bool-cases, if_true, if_false, inl, inr,
}
use local_smarthinq.Json.{Fields}
use local_smarthinq.Wire.Framing.{IsStreaming, len4-IsStreaming}
use local_smarthinq.Control.Protocol.{B64decode}
use local_smarthinq.Control.Channel.{Family, wm, ControlChannel}
use local_smarthinq.Control.Session.{Session, Effect, Round, join, on_message, serve, disconnect}
use local_smarthinq.Control.Session.Safety.{serve-IsSafe}
use local_smarthinq.Control.Stream.{Codec, decode_as, flagged, go_on, receive, connection}

-- All sends are accepted.
abbrev pub all_go : ℕ → ℕ → Bool
all_go m n = true

abbrev pub accepted : List Fields → List (Bool × Fields)
accepted = map (λ msg. (true, msg))

-- All that came, in one piece.
abbrev pub joined : List Bytes → Bytes
joined [] = []
joined (chunk ∷ chunks) = chunk ++ joined chunks

flagged-accepted : (n : ℕ) (msgs : List Fields) → flagged (λ k. true) n msgs ≡ accepted msgs
unfolding flagged
flagged-accepted n [] = refl
flagged-accepted n (msg ∷ msgs) = ap (λ ms. (true, msg) ∷ ms) (flagged-accepted (suc n) msgs)

accepted-append : (xs ys : List Fields) → accepted (xs ++ ys) ≡ accepted xs ++ accepted ys
accepted-append [] ys = refl
accepted-append (x ∷ xs) ys = ap (λ ms. (true, x) ∷ ms) (accepted-append xs ys)

-- The effects of a round behind others.
abbrev prefixed : List Effect → Round → Round
prefixed es r = record r { effects = es ++ r.effects }

prefixed-if :
    (b : Bool) (es : List Effect) (r later : Round)
    → prefixed es (if b then r else prefixed r.effects later)
      ≡ (if b then prefixed es r else prefixed (es ++ r.effects) later)
prefixed-if true es r later = refl
prefixed-if false es r later =
    ap (λ xs. record later { effects = xs }) (sym (append_assoc es r.effects later.effects))

prefixed-join :
    (es : List Effect) (r later : Round) → prefixed es (join r later) ≡ join (prefixed es r) later
unfolding join
prefixed-join es r later = prefixed-if r.ended es r later

join-ended : (r later : Round) → r.ended ≡ true → join r later ≡ r
unfolding join
join-ended r later h = if_true r.ended r (prefixed r.effects later) h

pub join-going : (r later : Round) → r.ended ≡ false → join r later ≡ prefixed r.effects later
unfolding join
join-going r later h = if_false r.ended r (prefixed r.effects later) h

-- A round, a second, and what comes behind them.
join-join :
    (r later : Round) (k : Session → ControlChannel → Round)
    → join r (join later (k later.session later.channel))
      ≡ join (join r later) (k (join r later).session (join r later).channel)
join-join r later k = elim (Bool-cases r.ended) [
  | inl over ↦
      join-ended r (join later (k later.session later.channel)) over
      ∙ sym (join-ended r (k r.session r.channel) over)
      ∙ ap (λ x. join x (k x.session x.channel)) (sym (join-ended r later over))
  | inr going ↦
      join-going r (join later (k later.session later.channel)) going
      ∙ prefixed-join r.effects later (k later.session later.channel)
      ∙ ap (λ x. join x (k x.session x.channel)) (sym (join-going r later going))
]

module _ (b64decode : B64decode) (mon_wid : String → String) where
  serve-append :
      (xs ys : List (Bool × Fields)) (s : Session) (c : ControlChannel)
      → let r = serve b64decode mon_wid xs s c in
        serve b64decode mon_wid (xs ++ ys) s c
        ≡ join r (serve b64decode mon_wid ys r.session r.channel)
  unfolding serve join
  serve-append [] ys s c = refl
  serve-append (x ∷ xs) ys s c =
      let r = on_message b64decode mon_wid x.0 s c x.1 in
      ap (join r) (serve-append xs ys r.session r.channel)
      ∙ join-join r (serve b64decode mon_wid xs r.session r.channel)
          (λ t d. serve b64decode mon_wid ys t d)

-- What a connection does, its end aside: the session, the channel and the effects.
abbrev pub done : Round → Session × ControlChannel × List Effect
done r = (r.session, r.channel, r.effects)

go_on-join : (r x y : Round) → done x ≡ done y → done (go_on r x) ≡ done (join r y)
unfolding go_on join
go_on-join r x y h = by r.ended
  where
    by :
        (b : Bool)
        → done (if b then r else prefixed r.effects x)
          ≡ done (if b then r else prefixed r.effects y)
    by true = refl
    by false = ap {B = Session × ControlChannel × List Effect} (λ d. (d.0, d.1, r.effects ++ d.2)) h

serve-same_family :
    (b64decode : B64decode) (mon_wid : String → String) (msgs : List (Bool × Fields)) (s : Session)
    (c : ControlChannel)
    → (serve b64decode mon_wid msgs s c).session.family ≡ s.family
serve-same_family b64decode mon_wid msgs s c = (serve-IsSafe b64decode mon_wid msgs s c).same_family

module _ (codec : Codec) (b64decode : B64decode) (mon_wid : String → String) (family : Family)
    (streaming : IsStreaming (decode_as codec family)) where
  -- The messages of a buffer, served.
  abbrev pub served : Bytes → Session → ControlChannel → Round
  served buf s c = serve b64decode mon_wid (accepted (decode_as codec family buf).0) s c

  abbrev behind_all :
      List Bytes
      → List (Bool × Fields)
      → Bytes
      → Session
      → ControlChannel
      → Session × ControlChannel × List Effect
  behind_all chunks msgs rest s c =
      let r = serve b64decode mon_wid msgs s c in
      done (go_on r (receive codec b64decode mon_wid all_go chunks rest r.session r.channel))

  abbrev behind :
      List Bytes
      → List Fields × Bytes
      → Session
      → ControlChannel
      → Session × ControlChannel × List Effect
  behind chunks d s c = behind_all chunks (flagged (all_go 0) 0 d.0) d.1 s c

  -- The loop over the chunks does what serving all messages of the stream does.
  pub receive-served :
      (chunks : List Bytes) (buf : Bytes) (s : Session) (c : ControlChannel)
      → s.family ≡ family
      → decode_as codec family buf ≡ ([], buf)
      → done (receive codec b64decode mon_wid all_go chunks buf s c)
        ≡ done (served (buf ++ joined chunks) s c)
  unfolding receive serve
  receive-served [] buf s c f parked = sym (
      ap (λ b. done (serve b64decode mon_wid (accepted (decode_as codec family b).0) s c))
        (append-nil buf)
      ∙ ap (λ p. done (serve b64decode mon_wid (accepted p.0) s c)) parked)
  receive-served (chunk ∷ chunks) buf s c f parked =
      let d = decode_as codec family (buf ++ chunk) in
      let e = decode_as codec family (d.1 ++ joined chunks) in
      let r = serve b64decode mon_wid (accepted d.0) s c in
      ap (λ fam. behind chunks (decode_as codec fam (buf ++ chunk)) s c) f
      ∙ ap (λ msgs. behind_all chunks msgs d.1 s c) (flagged-accepted 0 d.0)
      ∙ go_on-join r (receive codec b64decode mon_wid all_go chunks d.1 r.session r.channel)
          (served (d.1 ++ joined chunks) r.session r.channel)
          (receive-served chunks d.1 r.session r.channel
            (serve-same_family b64decode mon_wid (accepted d.0) s c ∙ f)
            (streaming.parked (buf ++ chunk)))
      ∙ ap done (sym (serve-append b64decode mon_wid (accepted d.0) (accepted e.0) s c))
      ∙ ap (λ msgs. done (serve b64decode mon_wid msgs s c)) (sym (accepted-append d.0 e.0))
      ∙ ap (λ p. done (serve b64decode mon_wid (accepted p.0) s c))
          (sym (streaming.append (buf ++ chunk) (joined chunks)))
      ∙ ap (λ b. done (served b s c)) (append_assoc buf chunk (joined chunks))

pub wm-IsStreaming : (codec : Codec) → IsStreaming (decode_as codec wm)
unfolding decode_as
wm-IsStreaming codec =
    let law = len4-IsStreaming codec.loads in
    record { append = law.append; parked = law.parked; empty = law.empty }

-- The channel behind a connection, and its effects, from what the loop did.
abbrev pub at_end : Session × ControlChannel × List Effect → ControlChannel × List Effect
at_end d = (disconnect d.0 d.1, d.2)

-- While the appliance takes all that is sent to it, a washer's or dryer's connection does the same
-- however the network cuts the stream into chunks: what is answered and stored, in its order, and
-- the registrations it leaves are those of the whole stream in one piece.
pub connection-joined :
    (codec : Codec) (b64decode : B64decode) (mon_wid : String → String) (sock : ℕ)
    (chunks : List Bytes) (c : ControlChannel)
    → connection codec b64decode mon_wid all_go wm sock chunks c
      ≡ connection codec b64decode mon_wid all_go wm sock (joined chunks ∷ []) c
unfolding connection
connection-joined codec b64decode mon_wid sock chunks c =
    let s : Session = record { dev_id = "unknown"; sock = sock; family = wm } in
    let law = wm-IsStreaming codec in
    let through = receive-served codec b64decode mon_wid wm law in
    ap at_end (
      through chunks [] s c refl law.empty
      ∙ ap (λ b. done (served codec b64decode mon_wid wm law b s c))
          (sym (append-nil (joined chunks)))
      ∙ sym (through (joined chunks ∷ []) [] s c refl law.empty))
