-- ===== src/Lib.antt =====
-- Local control for LG ThinQ1 appliances: a server that stands in for the LG cloud on the
-- appliances' two channels, :46030 (HTTPS reports) and :47878 (a persistent control channel),
-- decodes their state and hands it on to Home Assistant.
--
-- The parts, and the files that model them (paths from the repository's root):
--   Wire.Len4      server/control_channel.py: frames of a 4-byte length and JSON (washer, dryer)
--   Wire.Msgpack   server/control_channel.py: JSON inside msgpack strings (fridge)
--   Wire.Framing   what a framing promises to the code that uses it
--   Control        server/control_channel.py: the messages (Protocol), the registered connections
--                  and commands (Channel), one connection's loop (Session, Stream), what is observed
--                  of a bridged connection (Observer), the bind and the polling (Start)
--   Bridge         server/wm_bridge.py: one TLS endpoint (Ends), the loop between two (Engine);
--                  deploy/wm_relay.py: the loop of the standalone copy (Relay)
--   App            server/app.py: `dispatch` and `forward`, the debug paths (Debug), the health probe
--                  (Health); server/replay.py (Replay)
--   Cloud          server/thinq_events.py: the events of the cloud (Events); server/app.py: what is
--                  stored of one, `_on_cloud_event` (View)
--   State          server/state.py: `DeviceStateStore`
--   Model          server/models: the binary decoder and the friendly names of model_json.py (Binary,
--                  Friendly); registry.py: `decode_mondata` (Registry), `decode_report` (Report), the
--                  search for a modelJson (Resolve); wm_envelope.py (Envelope), washer_wtwn3.py (Washer),
--                  the registered models (Modules)
--   Model.Vocabulary  server/models/control_vocab.py: command entities and wire commands
--   Mqtt           server/mqtt_bridge.py: the published view (View), `_Sink` (Sink), `_LazySink`
--                  (Lazy); server/ha_mqtt.py: the messages to Home Assistant (Discovery), the topics
--                  of commands, as they are parsed and routed (Topics)
--   Observe        server/observability.py: the offsets of `RelayWatcher` (Follow), a line of the
--                  relay's log (Lines), the published ages (Ages), the passes (Loop);
--                  server/wm_local_bridge.py: the
--                  records of a line (Records), the follower of the washer (Washer)
--   Logcap         server/logcap.py: `truncate_oversized`
--   Tools          tools/fake_appliance.py: the virtual washer (Appliance), and what it makes the server
--                  do; tools/extract_replay_store.py: the replay store from a relay's log (Extract), and
--                  the lines of that log, as tools/wm47878_tls_relay.py writes them (RelayLog)
--   Regex          what is used of Python's `re` where a pattern is spelled out
--   Json           the values that messages and decoded states are made of
--   Prelude        shared names, lists, dictionaries
--   Tests          runs at concrete inputs
-- A connection's bytes go through Wire into messages, Control answers them and hands snapshots to
-- State, which decodes them by Model; reports reach State through App, and events through Cloud. A
-- bridged connection goes through Bridge, and Control.Observer decodes what it forwards. State calls
-- the sink of Mqtt, which publishes, and turns Home Assistant's commands into messages that Control
-- sends. Observe reads what the relay process logs.
--
-- State is passed explicitly: a method takes the object's record and returns the new one, and what
-- it writes to sockets or files stands in the result as a list. Threads are sequences of events
-- (Control.Channel.Events). Numbers are natural numbers; masks and shifts are written as % and /;
-- clocks are whole seconds, in Tools.Appliance milliseconds. `json`, UTF-8, base64, `str` of a number,
-- the regular expressions but those of Mqtt.Topics and Tools.RelayLog, the XML
-- parser, OpenSSL, the selector, the upstream server and the sockets are arguments; a theorem that
-- needs more of them than their type states it as a hypothesis.
--
-- Fuel: the two decoders' loops take the buffer's length, and a round takes a byte at least
-- (Wire.Len4.Fuel, Wire.Msgpack.Fuel); the msgpack reader's nesting takes one more than that. The
-- split of a line in Observe.Records takes the line's length. The loop that writes to a socket takes
-- the number of pending bytes (Bridge.Ends.Flush). The loops of the bridge, which depend on what the
-- network does, and the threads run for any number of rounds.
--
-- Not modelled: log lines, TLS contexts, timeouts and locks, the bodies of the synthetic responses,
-- the MQTT client, the listener of the standalone relay, the registration and the failed sends of the
-- virtual washer, and the other tools. A state log that cannot be written (State), and a socket that
-- takes the answer to a DevInfo but not the Mon Start behind it (Control.Session), are not modelled.
-- Device ids are texts: a message whose id is another JSON value ends the modelled connection, and
-- raises in the observer of a bridged one where there is a snapshot to store.
--
-- Bridge.Engine.Faithful runs the bridge over a recorded net (Bridge.Ends.Recorded): any net, with a
-- record beside each TLS object and each socket of what went through it.
mod Prelude
pub mod Json
pub mod Regex
pub mod Wire
pub mod Control
pub mod App
pub mod Bridge
pub mod Cloud
pub mod Logcap
pub mod Model
pub mod Mqtt
pub mod Observe
pub mod State
pub mod Tools
mod Tests
