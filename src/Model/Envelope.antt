-- ===== src/Model/Envelope.antt =====
-- server/models/wm_envelope.py: the diagmon envelope of the washer family. The XML parser and
-- base64 are arguments; `none` is an exception.
use local_smarthinq.Prelude.{
  ℕ, zero, suc, String, ◌||◌, Option, none, some, List, [], ◌∷◌, if◌then◌else◌, str_eq, Bytes,
  length, put,
}
use local_smarthinq.Json.{num, str, obj, Fields, end, field, set_field}
use local_smarthinq.Model.Registry.{Payload}

-- `Field`: its offset and its name
pub record Field : Type 0 where
  pub offset : ℕ
  pub name : String

abbrev pub text_tags : List String
text_tags =
    "eventType" ∷ "event" ∷ "course" ∷ "power" ∷ "energyWater" ∷ "useDate" ∷ "dlCourse" ∷ "count"
    ∷ "maxCount" ∷ []

unfoldable pub byte_at : ℕ → Bytes → Option ℕ
byte_at n [] = none
byte_at zero (b ∷ bs) = some b
byte_at (suc n) (b ∷ bs) = byte_at n bs

unfoldable pub set_byte : String → Option ℕ → Fields → Fields
set_byte name none out = out
set_byte name (some b) out = set_field name (num b) out

-- `if f.offset < len(b): out[f.name] = b[f.offset]`
unfoldable pub set_bytes : Bytes → List Field → Fields → Fields
unfolding byte_at set_byte
set_bytes blob [] out = out
set_bytes blob (f ∷ fs) out = set_bytes blob fs (set_byte f.name (byte_at f.offset blob) out)

unfoldable pub decode_fields : (Bytes → String) → Bytes → List Field → Fields
unfolding set_bytes
decode_fields hex blob fields =
    set_bytes blob fields (field "raw" (str (hex blob)) (field "len" (num (length blob)) end))

-- The inner XML: the text of the first element with a tag, stripped, if it is not empty.
abbrev pub Root : Type 0
Root = String → Option String

unfoldable pub put_text : String → Option String → Payload → Payload
put_text tag none p = p
put_text tag (some text) p = put tag (str text) p

unfoldable pub put_texts : Root → List String → Payload → Payload
unfolding put_text
put_texts root [] p = p
put_texts root (tag ∷ tags) p = put_texts root tags (put_text tag (root tag) p)

-- What the envelope calls: base64, UTF-8 text, the hex digits, the XML parser.
pub record Coding : Type 0 where
  pub b64decode : String → Option Bytes
  pub utf8 : Bytes → String
  pub hex : Bytes → String
  pub fromstring : String → Option Root

unfoldable pub put_blob : Coding → String → List Field → Payload → Option Bytes → Option Payload
unfolding decode_fields
put_blob c name fields p none = none
put_blob c name fields p (some blob) = some (put name (obj (decode_fields c.hex blob fields)) p)

unfoldable pub put_binary :
    Coding → String → List Field → Option String → Option Payload → Option Payload
unfolding put_blob
put_binary c name fields text none = none
put_binary c name fields none (some p) = some p
put_binary c name fields (some text) (some p) = put_blob c name fields p (c.b64decode text)

unfoldable pub of_root : Coding → List Field → List Field → String → Root → Option Payload
unfolding put_texts put_binary
of_root c mondata_fields diagdata_fields diag_type root =
    put_binary c "option" mondata_fields (root "option") (
      put_binary c "diagData" diagdata_fields (root "diagData") (
        put_binary c "monData" mondata_fields (root "monData")
          (some (put_texts root text_tags (("diagMonType", str diag_type) ∷ [])))))

unfoldable pub of_xml :
    Coding → List Field → List Field → String → String → Option Root → Option Payload
unfolding of_root
of_xml c mondata_fields diagdata_fields diag_type text none =
    some (("diagMonType", str diag_type) ∷ ("raw_text", str text) ∷ [])
of_xml c mondata_fields diagdata_fields diag_type text (some root) =
    of_root c mondata_fields diagdata_fields diag_type root

unfoldable pub of_blob : Coding → List Field → List Field → String → Option Bytes → Option Payload
unfolding of_xml
of_blob c mondata_fields diagdata_fields diag_type none = none
of_blob c mondata_fields diagdata_fields diag_type (some raw) =
    of_xml c mondata_fields diagdata_fields diag_type (c.utf8 raw) (c.fromstring (c.utf8 raw))

unfoldable pub decode_diagmon_payload :
    Coding → List Field → List Field → String → String → Option Payload
unfolding of_blob
decode_diagmon_payload c mondata_fields diagdata_fields diag_type data_b64 =
    of_blob c mondata_fields diagdata_fields diag_type (c.b64decode data_b64)

unfoldable pub one_payload : Option Payload → Option (List Payload)
one_payload none = none
one_payload (some p) = some (p ∷ [])

-- `decode_report`, from the stripped texts of `diagMonType` and `diagMonData`
unfoldable pub decode_envelope :
    Coding → List Field → List Field → String → String → Option (List Payload)
unfolding decode_diagmon_payload one_payload
decode_envelope c mondata_fields diagdata_fields diag_type body =
    if str_eq diag_type "" || str_eq body ""
    then some []
    else one_payload (decode_diagmon_payload c mondata_fields diagdata_fields diag_type body)
