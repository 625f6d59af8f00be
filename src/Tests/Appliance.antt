-- ===== src/Tests/Appliance.antt =====
-- The virtual appliance with two states, and base64 replaced by counting on one's fingers.
use Prim.Native.Char.{Char, code}
use text.Mathlib.TextBridge.{of_list, to_list, to_list-of_list}
use local_smarthinq.Prelude.{
  ℕ, zero, suc, ◌+◌, ◌≡◌, refl, sym, ap, ◌∙◌, String, true, false, ◌&&◌, none, some, List, [], ◌∷◌,
  ◌++◌, ◌==◌, if◌then◌else◌, Bytes, arith,
}
use local_smarthinq.Json.{str, obj, Fields, Loads}
use local_smarthinq.Wire.Len4.{decode_messages_len4}
use local_smarthinq.Control.Protocol.{
  make_message, get_object, handle_body, B64decode, ack, mon_start_message,
}
use local_smarthinq.Control.Channel.{ControlChannel, wm}
use local_smarthinq.Control.Session.{serve, on_message}
use local_smarthinq.Control.Stream.{Codec, connection}
use local_smarthinq.Control.Stream.Joined.{all_go, joined, connection-joined}
use local_smarthinq.Tools.Appliance.{
  Settings, new_appliance, connect, ack_body, pump_body, dev_info_body, chunk, run,
}
use local_smarthinq.Tools.Appliance.Served.{ingested, ReadsBack}
use local_smarthinq.Tools.Appliance.Conversation.{
  IsMonitored, quiet, greeted, said_by, connection-IsMonitored,
}

counted : ℕ → List Char → List Char
counted zero cs = "." ∷ cs
counted (suc n) cs = "x" ∷ counted n cs

all_counted : Bytes → List Char
all_counted [] = []
all_counted (b ∷ bs) = counted b (all_counted bs)

read : ℕ → List Char → Bytes
read n [] = []
read n (c ∷ cs) = elim (code c == 46) [ true ↦ n ∷ read 0 cs | false ↦ read (suc n) cs ]

read-counted : (n k : ℕ) (cs : List Char) → read k (counted n cs) ≡ (k + n) ∷ read 0 cs
unfolding read counted
read-counted zero k cs = ap (λ m. m ∷ read 0 cs) (omega arith)
read-counted (suc n) k cs = read-counted n (suc k) cs ∙ ap (λ m. m ∷ read 0 cs) (omega arith)

read-all_counted : (bs : Bytes) → read 0 (all_counted bs) ≡ bs
unfolding read all_counted
read-all_counted [] = refl
read-all_counted (b ∷ bs) =
    read-counted b 0 (all_counted bs)
    ∙ ap (λ n. n ∷ read 0 (all_counted bs)) (omega arith)
    ∙ ap (λ cs. b ∷ cs) (read-all_counted bs)

abbrev b64decode : B64decode
b64decode (str s) = some (read 0 (to_list s))
b64decode _ = none

abbrev settings : Settings
settings = record {
  device_id = "w1";
  first = 6 ∷ 0 ∷ [];
  others = (7 ∷ []) ∷ [];
  pump_interval = 100;
  alive_interval = 60000;
  b64encode = λ bs. of_list (all_counted bs);
  identity = [];
  uuid = λ n. "u";
}

base64_back : ReadsBack settings b64decode
base64_back blob =
    ap (λ cs. some (read 0 cs)) (to_list-of_list (all_counted blob))
    ∙ ap some (read-all_counted blob)

abbrev mon_wid : String → String
mon_wid d = "m"

abbrev hello : Fields
hello = make_message "w1" (str "u") (dev_info_body "")

abbrev mon_ack : Fields
mon_ack = make_message "w1" (str "m") ack_body

abbrev pumped : Bytes → Fields
pumped b = make_message "w1" (str "m") (pump_body (of_list (all_counted b)))

-- A digit in braces stands for the text of a message.
numbered : ℕ → Fields
numbered zero = ack "w1" (str "u")
numbered (suc zero) = mon_start_message "w1" (str "m")
numbered (suc (suc zero)) = hello
numbered (suc (suc (suc zero))) = mon_ack
numbered (suc (suc (suc (suc zero)))) = pumped (6 ∷ 0 ∷ [])
numbered (suc (suc (suc (suc (suc n))))) = pumped (7 ∷ [])

abbrev loads : Loads
loads (a ∷ n ∷ b ∷ []) = if a == b'{' && b == b'}' then some (obj (numbered n)) else none
loads _ = none

abbrev codec : Codec
codec = record {
  text = record { utf8 = λ bs. ""; encode = λ t. []; show = λ v. ""; loads = λ t. none };
  loads = loads;
}

abbrev frame : ℕ → Bytes
frame n = 0 ∷ 0 ∷ 0 ∷ 3 ∷ b'{' ∷ n ∷ b'}' ∷ []

abbrev reply : Bytes
reply = frame 0 ++ frame 1

-- The appliance's stream, cut inside its second frame.
abbrev chunks : List Bytes
chunks = (frame 2 ++ 0 ∷ 0 ∷ []) ∷ (0 ∷ 3 ∷ b'{' ∷ 3 ∷ b'}' ∷ frame 4 ++ frame 5) ∷ []

abbrev nobody : ControlChannel
nobody = record { connections = []; cmd_counter = 0 }

greeting : decode_messages_len4 loads reply ≡ (greeted settings b64decode mon_wid 5 nobody, [])
unfolding decode_messages_len4 serve connect on_message get_object handle_body numbered
    mon_start_message
greeting = refl

-- All that the appliance says.
abbrev spoken : List Fields
spoken =
    (connect settings new_appliance).1
    ++ said_by (
        run loads settings none 0 ((10, chunk reply) ∷ quiet (1000 ∷ 1100 ∷ []))
          (connect settings new_appliance).0)

says : spoken ≡ hello ∷ mon_ack ∷ pumped (6 ∷ 0 ∷ []) ∷ pumped (7 ∷ []) ∷ []
unfolding connect all_counted run new_appliance numbered ack mon_start_message
says = refl

wire : decode_messages_len4 loads (joined chunks) ≡ (spoken, [])
unfolding decode_messages_len4 make_message numbered
wire = ap (λ ms. (ms, [])) (sym says)

connection-IsMonitored_example :
    IsMonitored settings
      (1000 ∷ 1100 ∷ [])
      (run loads settings none 0
        ((10, chunk reply) ∷ quiet (1000 ∷ 1100 ∷ []))
        (connect settings new_appliance).0)
      (ingested (connection codec b64decode mon_wid all_go wm 5 chunks nobody).1)
connection-IsMonitored_example =
    connection-IsMonitored codec settings b64decode mon_wid 5 nobody 0 10 (1000 ∷ 1100 ∷ []) reply
      chunks base64_back (tt, (tt, tt)) (omega arith, (omega arith, tt)) greeting wire

connection-joined_example :
    connection codec b64decode mon_wid all_go wm 5 chunks nobody
    ≡ connection codec b64decode mon_wid all_go wm 5 (joined chunks ∷ []) nobody
connection-joined_example = connection-joined codec b64decode mon_wid 5 chunks nobody
