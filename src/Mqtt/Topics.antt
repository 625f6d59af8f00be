-- ===== src/Mqtt/Topics.antt =====
-- server/ha_mqtt.py, `parse_command_topic`, and `_on_message` of server/mqtt_bridge.py with the
-- topic as it comes. The classes `\w` and `\S` are arguments; the prefix is the one the sink uses.
pub mod RoundTrip
pub mod Routed
pub mod Legitimate
use Prim.Native.Char.{Char, code}
use text.Mathlib.TextBridge.{to_list, of_list}
use local_smarthinq.Prelude.{
  ℕ, String, Bool, true, false, Option, none, some, List, [], ◌∷◌, map, if◌then◌else◌, ◌==◌,
}
use local_smarthinq.Regex.{Piece, letter, several, line_end, Groups, match, fixed}
use local_smarthinq.Control.Channel.{ControlChannel, WidText, Outcome}
use local_smarthinq.Mqtt.Sink.{Sink, on_message}

pub record Classes : Type 0 where
  pub is_word : Char → Bool
  pub is_not_space : Char → Bool

abbrev pub prefix : List Char
prefix = "h" ∷ "o" ∷ "m" ∷ "e" ∷ "a" ∷ "s" ∷ "s" ∷ "i" ∷ "s" ∷ "t" ∷ "a" ∷ "n" ∷ "t" ∷ "/" ∷ []

abbrev pub node_prefix : List Char
node_prefix = "l" ∷ "g" ∷ "t" ∷ "h" ∷ "i" ∷ "n" ∷ "q" ∷ "_" ∷ []

abbrev pub suffix : List Char
suffix = "/" ∷ "c" ∷ "m" ∷ "d" ∷ []

abbrev pub topic_pattern : Classes → List Piece
topic_pattern cl = fixed prefix (
    several cl.is_word
    ∷ letter "/"
    ∷ fixed node_prefix
        (several cl.is_not_space ∷ letter "/" ∷ several cl.is_word ∷ fixed suffix (line_end ∷ [])))

pub record Parsed : Type 0 where
  pub device_id : String
  pub component : String
  pub slug : String

unfoldable pub parsed_of : Option Groups → Option Parsed
parsed_of (some (c ∷ d ∷ s ∷ [])) =
    some (record { device_id = of_list d; component = of_list c; slug = of_list s })
parsed_of _ = none

unfoldable pub parse_command_topic : Classes → String → Option Parsed
unfolding match parsed_of
parse_command_topic cl topic = parsed_of (match (topic_pattern cl) (to_list topic))

-- `_on_message`, with the topic as it comes.
unfoldable pub on_parsed :
    Bool → WidText → Bool → String → Sink → ControlChannel → Option Parsed → Outcome
unfolding on_message
on_parsed allow wid accepts payload s c none = record { result = false; channel = c; sent = [] }
on_parsed allow wid accepts payload s c (some p) =
    on_message allow wid accepts p.device_id p.slug payload s c

unfoldable pub on_topic :
    Classes → Bool → WidText → Bool → String → String → Sink → ControlChannel → Outcome
unfolding on_parsed parse_command_topic
on_topic cl allow wid accepts topic payload s c =
    on_parsed allow wid accepts payload s c (parse_command_topic cl topic)
