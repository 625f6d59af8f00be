-- ===== src/Tools/Appliance/Served.antt =====
-- What the server makes of the messages that the virtual appliance sends.
use local_smarthinq.Prelude.{
  ◌≡◌, refl, ap, ◌∙◌, String, true, false, some, List, [], ◌∷◌, ◌++◌, map, Bytes,
}
use local_smarthinq.Json.{Value, str, Fields, get}
use local_smarthinq.Control.Protocol.{
  make_message, get_object, is_text, get_text, has, B64decode, snapshot, handle_body, ack,
  mon_start_message,
}
use local_smarthinq.Control.Channel.{ControlChannel}
use local_smarthinq.Control.Session.{
  Session, Effect, sends, ingests, device_in, perform, ask_to_monitor, answer, with_body,
  on_message, serve, to_appliance,
}
use local_smarthinq.Control.Stream.Joined.{accepted, join-going}
use local_smarthinq.Tools.Appliance.{Settings, alive_body, ack_body, pump_body, dev_info_body}

-- The snapshots that went to the state store, and the messages that went to the appliance.
abbrev pub ingested : List Effect → List (String × Bytes)
ingested [] = []
ingested (sends s ∷ es) = ingested es
ingested (ingests d blob ∷ es) = (d, blob) ∷ ingested es

abbrev pub sent_of : List Effect → List Fields
sent_of [] = []
sent_of (sends s ∷ es) = s.message ∷ sent_of es
sent_of (ingests d blob ∷ es) = sent_of es

pub ingested-append : (xs ys : List Effect) → ingested (xs ++ ys) ≡ ingested xs ++ ingested ys
ingested-append [] ys = refl
ingested-append (sends s ∷ xs) ys = ingested-append xs ys
ingested-append (ingests d blob ∷ xs) ys = ap (λ es. (d, blob) ∷ es) (ingested-append xs ys)

abbrev pub IsFull : Bytes → Type 0
IsFull [] = ⊥
IsFull (b ∷ bs) = Unit {0}

-- Messages of an appliance that is monitored, and the states that they carry.
pub data Carries (st : Settings) : List Fields → List Bytes → Type 0 where
  silence : Carries st [] []
  hello_then :
      (w : Value) (data64 : String) {ms : List Fields} {bs : List Bytes}
      → Carries st ms bs
      → Carries st (make_message st.device_id w (dev_info_body data64) ∷ ms) bs
  keepalive_then :
      (w : Value) {ms : List Fields} {bs : List Bytes}
      → Carries st ms bs
      → Carries st (make_message st.device_id w alive_body ∷ ms) bs
  ack_then :
      (w : Value) {ms : List Fields} {bs : List Bytes}
      → Carries st ms bs
      → Carries st (make_message st.device_id w ack_body ∷ ms) bs
  state_then :
      (w : Value) {blob : Bytes} {ms : List Fields} {bs : List Bytes}
      → IsFull blob
      → Carries st ms bs
      → Carries st (make_message st.device_id w (pump_body (st.b64encode blob)) ∷ ms) (blob ∷ bs)

pub Carries-append :
    {st : Settings} {xs ys : List Fields} {cs bs : List Bytes}
    → Carries st xs cs
    → Carries st ys bs
    → Carries st (xs ++ ys) (cs ++ bs)
Carries-append silence k = k
Carries-append (hello_then w data64 h) k = hello_then w data64 (Carries-append h k)
Carries-append (keepalive_then w h) k = keepalive_then w (Carries-append h k)
Carries-append (ack_then w h) k = ack_then w (Carries-append h k)
Carries-append (state_then w f h) k = state_then w f (Carries-append h k)

-- base64 is read back.
abbrev pub ReadsBack : Settings → B64decode → Type 0
ReadsBack st b64decode = (blob : Bytes) → b64decode (str (st.b64encode blob)) ≡ some blob

module _ (st : Settings) (b64decode : B64decode) (mon_wid : String → String) where
  -- The effects of a message that leaves the connection open.
  abbrev pub HasEffects : Session → ControlChannel → Fields → List Effect → Type 0
  HasEffects s c m es =
      let r = on_message b64decode mon_wid true s c m in (r.effects ≡ es) × (r.ended ≡ false)

  pub hello-HasEffects :
      (s : Session) (c : ControlChannel) (w : Value) (data64 : String)
      → HasEffects s c (make_message st.device_id w (dev_info_body data64)) (
          to_appliance (record s { dev_id = st.device_id }) (ack st.device_id w)
          ∷ to_appliance
              (record s { dev_id = st.device_id })
              (mon_start_message st.device_id (str (mon_wid st.device_id)))
          ∷ [])
  unfolding on_message device_in with_body perform answer ask_to_monitor handle_body
      mon_start_message make_message get_object is_text get_text get
  hello-HasEffects s c w data64 = (refl, refl)

  keepalive-HasEffects :
      (s : Session) (c : ControlChannel) (w : Value)
      → HasEffects s c
          (make_message st.device_id w alive_body)
          (to_appliance (record s { dev_id = st.device_id }) (ack st.device_id w) ∷ [])
  unfolding on_message device_in with_body perform answer ask_to_monitor handle_body make_message
      get_object is_text get_text get
  keepalive-HasEffects s c w = (refl, refl)

  ack-HasEffects :
      (s : Session) (c : ControlChannel) (w : Value)
      → HasEffects s c (make_message st.device_id w ack_body) []
  unfolding on_message device_in with_body perform answer ask_to_monitor handle_body make_message
      get_object is_text get_text get has
  ack-HasEffects s c w = (refl, refl)

  state-HasEffects :
      (s : Session) (c : ControlChannel) (w : Value) (blob : Bytes)
      → ReadsBack st b64decode
      → IsFull blob
      → HasEffects s c
          (make_message st.device_id w (pump_body (st.b64encode blob)))
          (ingests st.device_id blob ∷ [])
  unfolding on_message device_in with_body perform answer ask_to_monitor handle_body make_message
      get_object is_text get_text get has snapshot
  state-HasEffects s c w [] back full = absurd full
  state-HasEffects s c w (b ∷ bs) back full = rw (back (b ∷ bs)) (refl, refl)

  -- One message in front of others.
  serve-first :
      (s : Session) (c : ControlChannel) (m : Fields) (ms : List Fields) (es : List Effect)
      → HasEffects s c m es
      → let r = on_message b64decode mon_wid true s c m in
        ingested (serve b64decode mon_wid (accepted (m ∷ ms)) s c).effects
        ≡ ingested es
          ++ ingested (serve b64decode mon_wid (accepted ms) r.session r.channel).effects
  unfolding serve
  serve-first s c m ms es (h, going) =
      let r = on_message b64decode mon_wid true s c m in
      let later = serve b64decode mon_wid (accepted ms) r.session r.channel in
      ap (λ x. ingested x.effects) (join-going r later going)
      ∙ ap (λ x. ingested (x ++ later.effects)) h
      ∙ ingested-append es later.effects

  -- The server stores just the states that the messages carry, in their order.
  pub serve-Carries :
      {ms : List Fields} {bs : List Bytes} (s : Session) (c : ControlChannel)
      → ReadsBack st b64decode
      → Carries st ms bs
      → ingested (serve b64decode mon_wid (accepted ms) s c).effects
        ≡ map (λ b. (st.device_id, b)) bs
  serve-Carries s c back silence = unfold serve in refl
  serve-Carries s c back (hello_then w data64 {ms} h) =
      let m = make_message st.device_id w (dev_info_body data64) in
      let r = on_message b64decode mon_wid true s c m in
      serve-first s c m ms _ (hello-HasEffects s c w data64)
      ∙ serve-Carries r.session r.channel back h
  serve-Carries s c back (keepalive_then w {ms} h) =
      let m = make_message st.device_id w alive_body in
      let r = on_message b64decode mon_wid true s c m in
      serve-first s c m ms _ (keepalive-HasEffects s c w) ∙ serve-Carries r.session r.channel back h
  serve-Carries s c back (ack_then w {ms} h) =
      let m = make_message st.device_id w ack_body in
      let r = on_message b64decode mon_wid true s c m in
      serve-first s c m ms _ (ack-HasEffects s c w) ∙ serve-Carries r.session r.channel back h
  serve-Carries s c back (state_then w {blob} {ms} f h) =
      let m = make_message st.device_id w (pump_body (st.b64encode blob)) in
      let r = on_message b64decode mon_wid true s c m in
      serve-first s c m ms _ (state-HasEffects s c w blob back f)
      ∙ ap (λ es. (st.device_id, blob) ∷ es) (serve-Carries r.session r.channel back h)
