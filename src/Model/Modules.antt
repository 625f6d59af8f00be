-- ===== src/Model/Modules.antt =====
-- The registered models (server/models/registry.py `_MODULES`) and how each decodes a report:
-- washer_wtwn3.py, dryer_rc90u2.py, fridge_1reb1glpx1.py.
use local_smarthinq.Prelude.{String, Option, none, some, List, [], ◌∷◌, map, if◌then◌else◌, str_eq}
use local_smarthinq.Model.Registry.{Payload}
use local_smarthinq.Model.Resolve.{Decoder}
use local_smarthinq.Model.Envelope.{Field, Coding, decode_diagmon_payload, decode_envelope}
use local_smarthinq.Model.Washer.{apply_washer_reads}

abbrev pub washer_wtwn3 : Decoder
washer_wtwn3 = record {
  model_name = "WTWN3";
  device_type = 201;
  fixture = some "washer_wtwn3.model.json";
}

abbrev pub dryer_rc90u2 : Decoder
dryer_rc90u2 = record {
  model_name = "RC90U2_WW";
  device_type = 202;
  fixture = some "dryer_rc90u2.model.json";
}

abbrev pub fridge_1reb1glpx1 : Decoder
fridge_1reb1glpx1 = record {
  model_name = "1REB1GLPX1___";
  device_type = 101;
  fixture = some "fridge_1REB1GLPX1.model.json";
}

abbrev pub modules : List Decoder
modules = washer_wtwn3 ∷ dryer_rc90u2 ∷ fridge_1reb1glpx1 ∷ []

abbrev pub confirmed_mondata_fields : List Field
confirmed_mondata_fields =
    record { offset = 0; name = "state_byte" }
    ∷ record { offset = 5; name = "course" }
    ∷ record { offset = 18; name = "cycle_active" }
    ∷ record { offset = 19; name = "phase_step" }
    ∷ []

abbrev pub confirmed_diagdata_fields : List Field
confirmed_diagdata_fields = record { offset = 51; name = "course" } ∷ []

unfoldable pub read_washer : Option Payload → Option Payload
unfolding apply_washer_reads
read_washer none = none
read_washer (some p) = some (apply_washer_reads p)

-- `washer_wtwn3.decode_diagmon_payload`
unfoldable pub washer_payload : Coding → String → String → Option Payload
unfolding read_washer decode_diagmon_payload
washer_payload c diag_type data_b64 =
    read_washer (
      decode_diagmon_payload c confirmed_mondata_fields confirmed_diagdata_fields diag_type
        data_b64)

unfoldable pub read_washers : Option (List Payload) → Option (List Payload)
unfolding apply_washer_reads
read_washers none = none
read_washers (some ps) = some (map apply_washer_reads ps)

-- `washer_wtwn3.decode_report`
unfoldable pub washer_report : Coding → String → String → Option (List Payload)
unfolding read_washers decode_envelope
washer_report c diag_type body =
    read_washers
      (decode_envelope c confirmed_mondata_fields confirmed_diagdata_fields diag_type body)

-- `STATE_FIELDS` of a module
unfoldable pub state_fields : Decoder → List String
state_fields d =
    if str_eq d.model_name "1REB1GLPX1___" then "monData" ∷ [] else "monData" ∷ "option" ∷ []

-- `decode_report` of a module: the dryer and the fridge pass no fields.
unfoldable pub module_report : Coding → String → String → Decoder → Option (List Payload)
unfolding washer_report decode_envelope
module_report c diag_type body d =
    if str_eq d.model_name "WTWN3"
    then washer_report c diag_type body
    else decode_envelope c [] [] diag_type body
