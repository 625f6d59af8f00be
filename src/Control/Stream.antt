-- ===== src/Control/Stream.antt =====
-- `_ControlHandler.handle` of server/control_channel.py from the first byte on: which codec a
-- connection speaks, and the loop over the chunks that it receives. TLS gives plain chunks; that
-- the peer closed, or that a receive fails or times out, ends the list of chunks.
pub mod Joined
use local_smarthinq.Prelude.{
  ℕ, suc, String, Bool, true, Option, none, some, List, [], ◌∷◌, ◌++◌, if◌then◌else◌, ◌==◌, Bytes,
}
use local_smarthinq.Json.{Fields, Loads, Text}
use local_smarthinq.Wire.Len4.{decode_messages_len4}
use local_smarthinq.Wire.Msgpack.{decode_messages}
use local_smarthinq.Control.Protocol.{B64decode}
use local_smarthinq.Control.Channel.{Family, fridge, wm, ControlChannel}
use local_smarthinq.Control.Session.{Session, Effect, Round, serve, disconnect}

-- What becomes of a connection: it is left at once, it is bridged to the cloud, or it is served.
pub data Accepted : Type 0 where
  left_at_once bridged : Accepted
  served : Family → Accepted

-- The first byte, whether an upstream is set, and whether it can be reached.
unfoldable pub accept : Option ℕ → Bool → Bool → Accepted
accept none passthrough reachable = left_at_once
accept (some first) passthrough reachable =
    if first == 22
    then if passthrough then if reachable then bridged else served wm else served wm
    else served fridge

-- The text functions and the JSON reader that the codecs call.
pub record Codec : Type 0 where
  pub text : Text
  pub loads : Loads

unfoldable pub decode_as : Codec → Family → Bytes → List Fields × Bytes
unfolding decode_messages decode_messages_len4
decode_as c fridge buf = decode_messages c.text buf
decode_as c wm buf = decode_messages_len4 c.loads buf

-- Each message with whether its answer goes out.
unfoldable pub flagged : (ℕ → Bool) → ℕ → List Fields → List (Bool × Fields)
flagged goes n [] = []
flagged goes n (msg ∷ msgs) = (goes n, msg) ∷ flagged goes (suc n) msgs

unfoldable pub go_on : Round → Round → Round
go_on r later = if r.ended then r else record later { effects = r.effects ++ later.effects }

-- The loop over the received chunks, with what the last decoding left; `goes` tells it of the n-th
-- message of the m-th chunk.
unfoldable pub receive :
    Codec
    → B64decode
    → (String → String)
    → (ℕ → ℕ → Bool)
    → List Bytes
    → Bytes
    → Session
    → ControlChannel
    → Round
unfolding decode_as flagged go_on
receive codec b64decode mon_wid goes [] buf s c = record {
  session = s;
  channel = c;
  effects = [];
  ended = true;
}
receive codec b64decode mon_wid goes (chunk ∷ chunks) buf s c =
    let (msgs, rest) = decode_as codec s.family (buf ++ chunk) in
    let r = serve b64decode mon_wid (flagged (goes 0) 0 msgs) s c in
    go_on r (receive codec b64decode mon_wid (λ n. goes (suc n)) chunks rest r.session r.channel)

-- A served connection, to its end: the channel behind the `finally`, and all that was done.
unfoldable pub connection :
    Codec
    → B64decode
    → (String → String)
    → (ℕ → ℕ → Bool)
    → Family
    → ℕ
    → List Bytes
    → ControlChannel
    → ControlChannel × List Effect
unfolding receive
connection codec b64decode mon_wid goes family sock chunks c =
    let s : Session = record { dev_id = "unknown"; sock = sock; family = family } in
    let r = receive codec b64decode mon_wid goes chunks [] s c in
    (disconnect r.session r.channel, r.effects)
