-- ===== src/Mqtt/Topics/Legitimate.antt =====
-- What a message from Home Assistant can make the server send, whatever its topic.
use local_smarthinq.Prelude.{◌≡◌, String, Bool, some, List, []}
use local_smarthinq.Control.Channel.{ControlChannel, WidText, Sent}
use local_smarthinq.Mqtt.Sink.{Setup, Sink}
use local_smarthinq.Mqtt.Sink.Routing.{IsLegitimate}
use local_smarthinq.Mqtt.Topics.{Classes, Parsed, parse_command_topic}

-- The one message of a command topic.
pub record IsCommanded (cl : Classes) (su : Setup) (allow : Bool) (wid : WidText)
    (topic payload : String) (s : Sink) (c : ControlChannel) (m : Sent) (ms : List Sent)
    : Type 0 where
  pub about : Parsed
  pub is_command : parse_command_topic cl topic ≡ some about
  pub legitimate : IsLegitimate su allow wid about.device_id about.slug payload s c m
  pub alone : ms ≡ []
