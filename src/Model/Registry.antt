-- ===== src/Model/Registry.antt =====
-- `decode_mondata` of server/models/registry.py: a blob of the :47878 pump becomes a payload. How
-- a modelJson is found, and its decoder with the model's own post-processing, are arguments; the
-- latter gives the exception's text where it raises.
use Prim.Native.String.{◌++◌ as join}
use local_smarthinq.Prelude.{String, ◌⊎◌, inl, inr, Option, none, some, [], ◌∷◌, Bytes, Dict}
use local_smarthinq.Json.{Value, str}

pub record Models {ℓ} (M : Type ℓ) : Type ℓ where
  pub model_json_for : String → Option M
  pub decode : Bytes → M → String ⊎ Value

abbrev pub Payload : Type 0
Payload = Dict Value

unfoldable pub note : String → String → Payload
note model_name text =
    ("diagMonType", str "PUMP_47878") ∷ ("modelName", str model_name) ∷ ("note", str text) ∷ []

unfoldable pub pump_payload : String → String ⊎ Value → Payload
unfolding note
pump_payload model_name (inl e) = note model_name (join "monData decode failed: " e)
pump_payload model_name (inr decoded) =
    ("diagMonType", str "PUMP_47878") ∷ ("monData_decoded", decoded) ∷ []

unfoldable pub decode_with {ℓ} : {M : Type ℓ} → Models M → Bytes → String → Option M → Payload
unfolding pump_payload note
decode_with models blob model_name none = note model_name "no modelJson available; decode skipped"
decode_with models blob model_name (some m) = pump_payload model_name (models.decode blob m)

unfoldable pub decode_mondata {ℓ} : {M : Type ℓ} → Models M → Bytes → String → Payload
unfolding decode_with
decode_mondata models blob model_name =
    decode_with models blob model_name (models.model_json_for model_name)
