-- ===== src/Tools/Appliance/Conversation.antt =====
-- The virtual appliance against the server, over the wire: monitoring starts, and the states
-- arrive.
use local_smarthinq.Prelude.{
  ℕ, suc, ◌≡◌, refl, sym, ap, ◌∙◌, subst, String, true, false, Option, none, some, List, [], ◌∷◌,
  ◌++◌, map, All, Bytes, arith,
}
use local_smarthinq.Json.{Value, str, Fields, get, Loads}
use local_smarthinq.Wire.Len4.{decode_messages_len4}
use local_smarthinq.Control.Protocol.{
  make_message, B64decode, ack, mon_start_message, get_object, is_text, get_text, has,
}
use local_smarthinq.Control.Channel.{ControlChannel, wm}
use local_smarthinq.Control.Session.{Session, on_message, serve}
use local_smarthinq.Control.Stream.{Codec, decode_as, connection}
use local_smarthinq.Control.Stream.Joined.{
  accepted, joined, all_go, wm-IsStreaming, receive-served, join-going,
}
use local_smarthinq.Tools.Appliance.{
  Settings, FakeAppliance, new_appliance, Said, drawn_id, send, ack_body, dev_info_body, connect,
  alive, tick, acked, hear_body, hear, and_said, and_hear, heard, Incoming, timed_out, chunk,
  on_incoming, expired, run,
}
use local_smarthinq.Tools.Appliance.Served.{
  ingested, sent_of, IsFull, Carries, silence, hello_then, ack_then, Carries-append, ReadsBack,
  serve-Carries, hello-HasEffects,
}
use local_smarthinq.Tools.Appliance.Monitored.{
  Due, rungs, ticks, ticks-Ticked, alive-Steps, pump-waiting, send-Sends,
}

-- The server's first answers, to the appliance's hello under this id.
abbrev answers : Settings → Value → (String → String) → List Fields
answers st w mon_wid =
    ack st.device_id w ∷ mon_start_message st.device_id (str (mon_wid st.device_id)) ∷ []

-- The appliance that was asked for states, and its acknowledgement.
record Asked (st : Settings) (a : FakeAppliance) (o : Option Said) : Type 0 where
  said : Said
  is : o ≡ some said
  carries : Carries st said.1 []
  started : said.0.mon_start_received ≡ true
  acks : said.0.acks_sent ≡ suc a.acks_sent
  pumped : said.0.pump_i ≡ a.pump_i
  at : said.0.last_pump ≡ a.last_pump

hear-answers :
    (st : Settings) (w : Value) (mon_wid : String → String) (a : FakeAppliance)
    → Asked st a (hear st (answers st w mon_wid) a)
unfolding hear hear_body and_hear and_said get_object get is_text get_text has acked make_message
    ack mon_start_message
hear-answers st w mon_wid a =
    let wid = some (str (mon_wid st.device_id)) in
    let b : FakeAppliance = record a { mon_start_received = true; mon_cmd_w_id = wid } in
    let p = send-Sends st wid ack_body b in
    record {
      said = (
        record (send st wid ack_body b).0 { acks_sent = suc (send st wid ack_body b).0.acks_sent },
        (send st wid ack_body b).1 ++ [],
      );
      is = refl;
      carries = subst (λ ms. Carries st (ms ++ []) []) (sym p.is) (ack_then p.wid silence);
      started = p.started;
      acks = ap suc p.acks;
      pumped = p.pumped;
      at = p.at;
    }

-- The rounds in which nothing is received.
abbrev pub quiet : List ℕ → List (ℕ × Incoming)
quiet = map (λ t. (t, timed_out))

run-quiet :
    (loads : Loads) (st : Settings) (started : ℕ) (ts : List ℕ) (a : FakeAppliance)
    → run loads st none started (quiet ts) a ≡ some (ticks st ts a)
unfolding run on_incoming expired ticks and_said
run-quiet loads st started [] a = refl
run-quiet loads st started (t ∷ ts) a =
    ap (and_said (tick st t a).1) (run-quiet loads st started ts (tick st t a).0)

-- What a run has sent.
abbrev pub said_by : Option Said → List Fields
said_by none = []
said_by (some said) = said.1

-- The round in which the server's answers come, and the quiet ones behind it.
record Runs (st : Settings) (a : FakeAppliance) (ts : List ℕ) (o : Option Said) : Type 0 where
  said : Said
  is : o ≡ some said
  carries : Carries st said.1 (rungs st a.pump_i ts)
  acks : said.0.acks_sent ≡ suc a.acks_sent

heard-Runs :
    (loads : Loads) (st : Settings) (w : Value) (mon_wid : String → String) (started : ℕ)
    (ts : List ℕ) (msgs : List Fields) (a : FakeAppliance)
    → All IsFull (st.first ∷ st.others)
    → Due st a.last_pump ts
    → Carries st msgs []
    → Runs st a ts (
        and_said msgs
          (and_hear (run loads st none started (quiet ts)) (hear st (answers st w mon_wid) a)))
unfolding and_said and_hear
heard-Runs loads st w mon_wid started ts msgs a full due carries =
    let q = hear-answers st w mon_wid a in
    let b = q.said.0 in
    let t = ticks-Ticked st ts b full q.started (subst (λ l. Due st l ts) (sym q.at) due) in
    record {
      said = ((ticks st ts b).0, msgs ++ (q.said.1 ++ (ticks st ts b).1));
      is =
          ap (λ o. and_said msgs (and_hear (run loads st none started (quiet ts)) o)) q.is
          ∙ ap (λ o. and_said msgs (and_said q.said.1 o)) (run-quiet loads st started ts b);
      carries = Carries-append carries (
          Carries-append q.carries
            (subst (λ i. Carries st (ticks st ts b).1 (rungs st i ts)) q.pumped t.carries));
      acks = t.acks ∙ q.acks;
    }

tick-waiting :
    (st : Settings) (now : ℕ) (a : FakeAppliance)
    → a.mon_start_received ≡ false
    → tick st now a ≡ ((alive st now a).0, (alive st now a).1 ++ [])
unfolding tick
tick-waiting st now a h =
    let b = (alive st now a).0 in
    ap {B = Said} (λ p. (p.0, (alive st now a).1 ++ p.1))
      (pump-waiting st now b ((alive-Steps st now a).started ∙ h))

-- The bytes in which the answers come, whatever the tick before them says.
answered : Loads → Settings → ℕ → List ℕ → Bytes → Said → Option Said
answered loads st started ts reply p = and_said p.1 (
    and_hear (run loads st none started (quiet ts))
      (heard st p.0 (decode_messages_len4 loads (p.0.buf ++ reply))))

answered-Runs :
    (loads : Loads) (st : Settings) (w : Value) (mon_wid : String → String) (started : ℕ)
    (ts : List ℕ) (reply : Bytes) (now : ℕ) (a : FakeAppliance)
    → All IsFull (st.first ∷ st.others)
    → Due st a.last_pump ts
    → a.mon_start_received ≡ false
    → a.buf ≡ []
    → decode_messages_len4 loads reply ≡ (answers st w mon_wid, [])
    → Runs st a ts (answered loads st started ts reply (tick st now a))
unfolding answered heard
answered-Runs loads st w mon_wid started ts reply now a full due waiting empty reads =
    let (b, msgs) = alive st now a in
    let p = alive-Steps st now a in
    let read : decode_messages_len4 loads (b.buf ++ reply) ≡ (answers st w mon_wid, []) =
      ap (λ x. decode_messages_len4 loads (x ++ reply)) (p.kept ∙ empty) ∙ reads in
    let r =
      heard-Runs loads st w mon_wid started ts (msgs ++ []) (record b { buf = [] }) full
        (subst (λ l. Due st l ts) (sym p.at) due) (Carries-append p.carries silence) in
    record {
      said = r.said;
      is =
          ap (answered loads st started ts reply) (tick-waiting st now a waiting)
          ∙ ap
              (λ d.
                and_said (msgs ++ [])
                  (and_hear (run loads st none started (quiet ts)) (heard st b d)))
              read
          ∙ r.is;
      carries = subst (λ i. Carries st r.said.1 (rungs st i ts)) p.pumped r.carries;
      acks = r.acks ∙ ap suc p.acks;
    }

run-answered :
    (loads : Loads) (st : Settings) (started : ℕ) (ts : List ℕ) (reply : Bytes) (now : ℕ)
    (a : FakeAppliance) (m : Fields) (ms : List Fields)
    → decode_messages_len4 loads reply ≡ (m ∷ ms, [])
    → run loads st none started ((now, chunk reply) ∷ quiet ts) a
      ≡ answered loads st started ts reply (tick st now a)
unfolding run on_incoming expired answered decode_messages_len4
run-answered loads st started ts [] now a m ms reads = absurd (ground arith)
run-answered loads st started ts (b ∷ bs) now a m ms reads = refl

-- The connection that the appliance opens.
abbrev pub opened : ℕ → Session
opened sock = record { dev_id = "unknown"; sock = sock; family = wm }

-- The server's answers to the first message of an appliance.
abbrev pub greeted : Settings → B64decode → (String → String) → ℕ → ControlChannel → List Fields
greeted st b64decode mon_wid sock c =
    sent_of
      (serve b64decode mon_wid (accepted (connect st new_appliance).1) (opened sock) c).effects

greeted-answers :
    (st : Settings) (b64decode : B64decode) (mon_wid : String → String) (sock : ℕ)
    (c : ControlChannel)
    → greeted st b64decode mon_wid sock c ≡ answers st (str (st.uuid 0)) mon_wid
unfolding connect new_appliance send drawn_id serve
greeted-answers st b64decode mon_wid sock c =
    let w = str (st.uuid 0) in
    let data64 = st.b64encode st.identity in
    let m = make_message st.device_id w (dev_info_body data64) in
    let r = on_message b64decode mon_wid true (opened sock) c m in
    let h = hello-HasEffects st b64decode mon_wid (opened sock) c w data64 in
    ap (λ x. sent_of x.effects) (join-going r (serve b64decode mon_wid [] r.session r.channel) h.1)
    ∙ ap (λ es. sent_of (es ++ [])) h.0

-- The conversation went well: the appliance's run ends, it has acknowledged one request for
-- states, and what is stored is its states, one for each round behind the request.
pub record IsMonitored (st : Settings) (ts : List ℕ) (o : Option Said)
    (stored : List (String × Bytes)) : Type 0 where
  pub said : Said
  pub ends : o ≡ some said
  pub acked_once : said.0.acks_sent ≡ 1
  pub is_stored : stored ≡ map (λ b. (st.device_id, b)) (rungs st 0 ts)

-- The virtual appliance and the server, over the wire: the appliance connects, reads the server's
-- answers, of which one asks for its states, and then has quiet rounds that are each due. With
-- base64 that is read back and no empty state, and however the network cuts what it sends, the
-- state store gets just its states, one for each of these rounds, in the order of the ladder.
pub connection-IsMonitored :
    (codec : Codec) (st : Settings) (b64decode : B64decode) (mon_wid : String → String) (sock : ℕ)
    (c : ControlChannel) (started now : ℕ) (ts : List ℕ) (reply : Bytes) (chunks : List Bytes)
    → ReadsBack st b64decode
    → All IsFull (st.first ∷ st.others)
    → Due st 0 ts
    → decode_messages_len4 codec.loads reply ≡ (greeted st b64decode mon_wid sock c, [])
    → decode_messages_len4 codec.loads (joined chunks) ≡ (
      (connect st new_appliance).1
          ++ said_by (
              run codec.loads st none started
                ((now, chunk reply) ∷ quiet ts)
                (connect st new_appliance).0),
      [],
    )
    → IsMonitored st ts
        (run codec.loads st none started
          ((now, chunk reply) ∷ quiet ts)
          (connect st new_appliance).0)
        (ingested (connection codec b64decode mon_wid all_go wm sock chunks c).1)
unfolding connection connect new_appliance send drawn_id decode_as
connection-IsMonitored codec st b64decode mon_wid sock c started now ts reply chunks back full due
      answer wire =
    let hello = connect st new_appliance in
    let w = str (st.uuid 0) in
    let reads =
      answer
      ∙ ap {B = List Fields × Bytes} (λ ms. (ms, []))
          (greeted-answers st b64decode mon_wid sock c) in
    let r =
      answered-Runs codec.loads st w mon_wid started ts reply now hello.0 full due refl refl
        reads in
    let ends =
      run-answered codec.loads st started ts reply now hello.0 (ack st.device_id w)
        (mon_start_message st.device_id (str (mon_wid st.device_id)) ∷ []) reads
      ∙ r.is in
    let law = wm-IsStreaming codec in
    record {
      said = r.said;
      ends = ends;
      acked_once = r.acks;
      is_stored =
          ap (λ d. ingested d.2)
            (receive-served codec b64decode mon_wid wm law chunks [] (opened sock) c refl law.empty)
          ∙ ap (λ p. ingested (serve b64decode mon_wid (accepted p.0) (opened sock) c).effects) wire
          ∙ ap
              (λ o.
                ingested
                  (serve b64decode mon_wid (accepted (hello.1 ++ said_by o)) (opened sock)
                    c).effects)
              ends
          ∙ serve-Carries st b64decode mon_wid (opened sock) c back
              (hello_then w (st.b64encode st.identity) r.carries);
    }
