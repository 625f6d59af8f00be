-- ===== src/Control/Session/Safety.antt =====
-- A connection never commands the appliance by itself.
use local_smarthinq.Prelude.{
  ℕ, String, ◌≡◌, refl, subst, ◌∙◌, if-both, Bool, true, false, Option, none, some, List, [], ◌∷◌,
  ◌++◌, All, if◌then◌else◌,
}
use local_smarthinq.Json.{Value, str, Fields}
use local_smarthinq.Control.Protocol.{
  ack, mon_start_message, get_object, is_text, get_text, Action, reply, ingest, silent, B64decode,
  handle_body,
}
use local_smarthinq.Control.Protocol.Replies.{handle_body-reply}
use local_smarthinq.Control.Channel.{Family, ControlChannel, register}
use local_smarthinq.Control.Session.{
  Session, Effect, sends, ingests, Round, device_in, perform, ask_to_monitor, answer, with_body,
  on_message, join, serve,
}

-- An acknowledgement, or a request for state.
pub data IsReadOnly : Fields → Type 0 where
  acknowledges : (d : String) (w : Value) → IsReadOnly (ack d w)
  monitors : (d : String) (w : Value) → IsReadOnly (mon_start_message d w)

-- What is sent is read-only, and goes to this socket in this framing.
abbrev pub IsSafe : ℕ → Family → Effect → Type 0
IsSafe sock family (sends s) = IsReadOnly s.message × (s.sock ≡ sock) × (s.family ≡ family)
IsSafe sock family (ingests d blob) = Unit

All-append-IsSafe :
    (sock : ℕ) (family : Family) (xs ys : List Effect)
    → All (IsSafe sock family) xs
    → All (IsSafe sock family) ys
    → All (IsSafe sock family) (xs ++ ys)
All-append-IsSafe sock family [] ys p q = q
All-append-IsSafe sock family (x ∷ xs) ys (a, p) q = (a, All-append-IsSafe sock family xs ys p q)

-- The same effects, seen from a session with the same socket and framing.
IsSafe-as :
    (k sock : ℕ) (f family : Family) (es : List Effect)
    → k ≡ sock
    → f ≡ family
    → All (IsSafe k f) es
    → All (IsSafe sock family) es
IsSafe-as k sock f family [] p q h = tt
IsSafe-as k sock f family (sends s ∷ es) p q (a, h) =
    ((a.0, a.1 ∙ p, a.2 ∙ q), IsSafe-as k sock f family es p q h)
IsSafe-as k sock f family (ingests d blob ∷ es) p q (a, h) =
    (tt, IsSafe-as k sock f family es p q h)

pub record IsSafeRound (s : Session) (r : Round) : Type 0 where
  pub safe : All (IsSafe s.sock s.family) r.effects
  pub same_sock : r.session.sock ≡ s.sock
  pub same_family : r.session.family ≡ s.family

reply-injective : (m n : Fields) → reply m ≡ reply n → m ≡ n
reply-injective m n h = cc

handle_body-IsReadOnly :
    (b64decode : B64decode) (d : String) (body : Fields) (m : Fields)
    → handle_body b64decode d body ≡ reply m
    → IsReadOnly m
handle_body-IsReadOnly b64decode d body m h =
    let (forward, backward) = handle_body-reply b64decode d body in
    let a = ack d (get_text "CmdWId" body) in
    subst IsReadOnly (reply-injective a m (cc (forward (backward m h)))) (acknowledges d _)

perform-IsSafe :
    (accepts : Bool) (s : Session) (a : Action)
    → ((m : Fields) → a ≡ reply m → IsReadOnly m)
    → All (IsSafe s.sock s.family) (perform accepts s a).0
unfolding perform
perform-IsSafe true s (reply m) h = ((h m refl, refl, refl), tt)
perform-IsSafe false s (reply m) h = tt
perform-IsSafe true s (ingest blob) h = (tt, tt)
perform-IsSafe false s (ingest blob) h = (tt, tt)
perform-IsSafe true s silent h = tt
perform-IsSafe false s silent h = tt

ask_to_monitor-IsSafe :
    (mon_wid : String → String) (s : Session) (body : Fields)
    → All (IsSafe s.sock s.family) (ask_to_monitor mon_wid s body)
unfolding ask_to_monitor
ask_to_monitor-IsSafe mon_wid s body = when (is_text "DevInfo" (get_text "Cmd" body))
  where
    when :
        (b : Bool)
        → All (IsSafe s.sock s.family) (
            if b
            then sends (record {
              sock = s.sock;
              family = s.family;
              message = mon_start_message s.dev_id (str (mon_wid s.dev_id));
            })
              ∷ []
            else [])
    when true = ((monitors s.dev_id _, refl, refl), tt)
    when false = tt

answer-IsSafe :
    (mon_wid : String → String) (s : Session) (c : ControlChannel) (body : Fields)
    (done : List Effect × Bool)
    → All (IsSafe s.sock s.family) done.0
    → IsSafeRound s (answer mon_wid s c body done)
unfolding answer
answer-IsSafe mon_wid s c body (effects, true) h = record {
  safe = h;
  same_sock = refl;
  same_family = refl;
}
answer-IsSafe mon_wid s c body (effects, false) h = record {
  safe = All-append-IsSafe s.sock s.family effects _ h (ask_to_monitor-IsSafe mon_wid s body);
  same_sock = refl;
  same_family = refl;
}

join-IsSafe :
    (s : Session) (r later : Round)
    → IsSafeRound s r
    → IsSafeRound r.session later
    → IsSafeRound s (join r later)
unfolding join
join-IsSafe s r later now then' =
    if-both (IsSafeRound s) r.ended r (record later { effects = r.effects ++ later.effects }) now
      (record {
        safe = All-append-IsSafe s.sock s.family r.effects later.effects now.safe (
            IsSafe-as r.session.sock s.sock r.session.family s.family later.effects now.same_sock
              now.same_family then'.safe);
        same_sock = then'.same_sock ∙ now.same_sock;
        same_family = then'.same_family ∙ now.same_family;
      })

module _ (b64decode : B64decode) (mon_wid : String → String) where
  with_body-IsSafe :
      (accepts : Bool) (s : Session) (c : ControlChannel) (o : Option Fields)
      → IsSafeRound s (with_body b64decode mon_wid accepts s c o)
  unfolding with_body
  with_body-IsSafe accepts s c none = record { safe = tt; same_sock = refl; same_family = refl }
  with_body-IsSafe accepts s c (some body) =
      answer-IsSafe mon_wid s c body _
        (perform-IsSafe accepts s _ (handle_body-IsReadOnly b64decode s.dev_id body))

  on_message-IsSafe :
      (accepts : Bool) (s : Session) (c : ControlChannel) (msg : Fields)
      → IsSafeRound s (on_message b64decode mon_wid accepts s c msg)
  unfolding on_message
  on_message-IsSafe accepts s c msg = from (device_in s.dev_id (get_object "Header" msg))
    where
      from :
          (o : Option String)
          → IsSafeRound s (elim o [
            | none ↦ record { session = s; channel = c; effects = []; ended = true }
            | some dev ↦
                with_body b64decode mon_wid accepts
                  (record s { dev_id = dev })
                  (register dev (record { sock = s.sock; family = s.family }) c)
                  (get_object "Body" msg)
          ])
      from none = record { safe = tt; same_sock = refl; same_family = refl }
      from (some dev) =
          let r =
            with_body-IsSafe accepts (record s { dev_id = dev })
              (register dev (record { sock = s.sock; family = s.family }) c)
              (get_object "Body" msg) in
          record { safe = r.safe; same_sock = r.same_sock; same_family = r.same_family }

  -- Whatever an appliance sends on its connection, each message that goes back is an
  -- acknowledgement or a request for state, on this connection's socket and in its framing.
  pub serve-IsSafe :
      (msgs : List (Bool × Fields)) (s : Session) (c : ControlChannel)
      → IsSafeRound s (serve b64decode mon_wid msgs s c)
  unfolding serve
  serve-IsSafe [] s c = record { safe = tt; same_sock = refl; same_family = refl }
  serve-IsSafe ((accepts, msg) ∷ msgs) s c =
      let r = on_message b64decode mon_wid accepts s c msg in
      join-IsSafe s r _ (on_message-IsSafe accepts s c msg) (serve-IsSafe msgs r.session r.channel)
