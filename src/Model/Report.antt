-- ===== src/Model/Report.antt =====
-- `decode_report` of server/models/registry.py: a report goes to the decoder of its model or of its
-- type, and the modelJson's names are added to what it decodes. The report's identity comes parsed.
use local_smarthinq.Prelude.{
  ℕ, ◌≡◌, refl, String, Option, none, some, List, [], ◌∷◌, map, if◌then◌else◌, str_eq, Bytes, find,
  put, subst, arith,
}
use Prim.Native.String.{◌++◌ as join}
use local_smarthinq.Json.{Value, null, num, str, obj, Fields, get, set_field}
use local_smarthinq.Model.Registry.{Payload}
use local_smarthinq.Model.Resolve.{Decoder, decoder_for}
use local_smarthinq.State.{DeviceStateStore, stamp, is_unknown, learn, ingest_report}

-- What a decoder and a modelJson do: the payloads of a report (`none`: the parser raises), the
-- state of raw bytes with the model's own post-processing (`none`: it raises), the keys of the
-- states, and the label of a course (`none`: it raises).
pub record Decodes {ℓ} (M : Type ℓ) : Type ℓ where
  pub decode_report : Decoder → Option (List Payload)
  pub state_fields : Decoder → List String
  pub from_hex : String → Option Bytes
  pub decode : Decoder → M → Bytes → Option Fields
  pub course_label : M → Value → Option (Option String)

unfoldable pub put_decoded : String → Option Fields → Payload → Payload
put_decoded key none p = p
put_decoded key (some state) p = put (join key "_decoded") (obj state) p

unfoldable pub decode_hex {ℓ} :
    {M : Type ℓ} → Decodes M → Decoder → M → Option Bytes → Option Fields
decode_hex ds d m none = none
decode_hex ds d m (some blob) = ds.decode d m blob

unfoldable pub decode_raw {ℓ} :
    {M : Type ℓ} → Decodes M → Decoder → M → String → Option Value → Payload → Payload
unfolding put_decoded decode_hex
decode_raw ds d m key (some (str raw)) p =
    if str_eq raw "" then p else put_decoded key (decode_hex ds d m (ds.from_hex raw)) p
decode_raw ds d m key _ p = p

unfoldable pub decode_node {ℓ} :
    {M : Type ℓ} → Decodes M → Decoder → M → String → Option Value → Payload → Payload
unfolding decode_raw
decode_node ds d m key (some (obj node)) p = decode_raw ds d m key (get "raw" node) p
decode_node ds d m key _ p = p

unfoldable pub decode_nodes {ℓ} :
    {M : Type ℓ} → Decodes M → Decoder → M → List String → Payload → Payload
unfolding decode_node
decode_nodes ds d m [] p = p
decode_nodes ds d m (key ∷ keys) p =
    decode_nodes ds d m keys (decode_node ds d m key (find key p) p)

-- `... or None`
unfoldable pub label_value : Option String → Value
label_value none = null
label_value (some label) = if str_eq label "" then null else str label

unfoldable pub put_label : Fields → Option (Option String) → Payload → Payload
unfolding label_value
put_label diag none p = p
put_label diag (some label) p =
    put "diagData" (obj (set_field "course_label" (label_value label) diag)) p

unfoldable pub label_with {ℓ} :
    {M : Type ℓ} → Decodes M → M → Fields → Option Value → Payload → Payload
unfolding put_label
label_with ds m diag none p = p
label_with ds m diag (some course) p = put_label diag (ds.course_label m course) p

unfoldable pub label_course {ℓ} : {M : Type ℓ} → Decodes M → M → Option Value → Payload → Payload
unfolding label_with
label_course ds m (some (obj diag)) p = label_with ds m diag (get "course" diag) p
label_course ds m _ p = p

-- `_apply_model_json`
unfoldable pub apply_model_json {ℓ} : {M : Type ℓ} → Decodes M → Decoder → M → Payload → Payload
unfolding decode_nodes label_course
apply_model_json ds d m p =
    let p' = decode_nodes ds d m (ds.state_fields d) p in label_course ds m (find "diagData" p') p'

-- `None` reads null.
unfoldable pub type_value : Option ℕ → Value
type_value none = null
type_value (some n) = num n

unfoldable pub unknown_payload : String → Option ℕ → Payload
unfolding type_value
unknown_payload model_name device_type =
    ("diagMonType", str "UNKNOWN")
    ∷ ("modelName", str model_name)
    ∷ ("devType", type_value device_type)
    ∷ ("note", str "no decoder registered; capture the device and add a module to decode")
    ∷ []

unfoldable pub with_model {ℓ} :
    {M : Type ℓ} → Decodes M → Decoder → Option M → Option (List Payload) → Option (List Payload)
unfolding apply_model_json
with_model ds d m none = none
with_model ds d none (some ps) = some ps
with_model ds d (some m) (some ps) = some (map (apply_model_json ds d m) ps)

-- What a report decodes to, with the decoder and the modelJson that are found.
unfoldable pub decode_found {ℓ} :
    {M : Type ℓ}
    → Decodes M
    → (Decoder → Option M)
    → String
    → Option ℕ
    → Option Decoder
    → Option (List Payload)
unfolding unknown_payload with_model
decode_found ds load model_name device_type none =
    some (unknown_payload model_name device_type ∷ [])
decode_found ds load model_name device_type (some d) = with_model ds d (load d) (ds.decode_report d)

-- `decode_report`, for a model's name and a type that were read from the report
unfoldable pub decode_report {ℓ} :
    {M : Type ℓ}
    → Decodes M
    → (String → Decoder → Option M)
    → (String → String)
    → List Decoder
    → String
    → Option ℕ
    → Option (List Payload)
unfolding decode_found decoder_for
decode_report ds load strip modules model_name device_type =
    decode_found ds (load model_name) model_name device_type
      (decoder_for modules (strip model_name) device_type)

ingest-unknown :
    (dev model_name ts : String) (device_type : Option ℕ) (s : DeviceStateStore)
    → ingest_report
        (record {
          dev_id = dev;
          model_name = model_name;
          payloads = unknown_payload model_name device_type ∷ [];
        })
        ts
        s
      ≡ learn dev model_name s
unfolding ingest_report stamp is_unknown find put unknown_payload
ingest-unknown dev model_name ts device_type s = refl

unknown_alone {ℓ} :
    {M : Type ℓ} (ds : Decodes M) (load : Decoder → Option M) (model_name : String)
    (device_type : Option ℕ) (o : Option Decoder) (ps : List Payload)
    → o ≡ none
    → decode_found ds load model_name device_type o ≡ some ps
    → unknown_payload model_name device_type ∷ [] ≡ ps
unfolding decode_found
unknown_alone ds load model_name device_type none ps h e = ground arith
unknown_alone ds load model_name device_type (some d) ps h e = absurd (ground arith)

-- A report of a device for which there is no decoder decodes to one payload, which the state store
-- does not keep: it only learns the model of the device.
pub decode_report-unknown {ℓ} :
    {M : Type ℓ} (ds : Decodes M) (load : String → Decoder → Option M) (strip : String → String)
    (modules : List Decoder) (dev model_name : String) (device_type : Option ℕ) (ts : String)
    (ps : List Payload) (s : DeviceStateStore)
    → decoder_for modules (strip model_name) device_type ≡ none
    → decode_report ds load strip modules model_name device_type ≡ some ps
    → ingest_report (record { dev_id = dev; model_name = model_name; payloads = ps }) ts s
      ≡ learn dev model_name s
unfolding decode_report
decode_report-unknown ds load strip modules dev model_name device_type ts ps s h e =
    subst
      (λ qs.
        ingest_report (record { dev_id = dev; model_name = model_name; payloads = qs }) ts s
        ≡ learn dev model_name s)
      (unknown_alone ds (load model_name) model_name device_type
        (decoder_for modules (strip model_name) device_type) ps h e)
      (ingest-unknown dev model_name ts device_type s)
