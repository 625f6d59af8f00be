-- ===== src/State.antt =====
-- The state store of server/state.py. A report comes parsed, with the payloads that the registry
-- decodes from it. `log` is the JSONL file, `published` the calls of the sink (what the sink raises
-- is swallowed), and `warned` the keys of the warnings in the order in which they were written. The
-- file can always be written: the `OSError` of a full disk, which `_commit` lets through between
-- the new latest view and the sink, is not modelled.
pub mod Replay
pub mod Pump
use Prim.Native.String.{◌++◌ as join}
use local_smarthinq.Prelude.{
  ℕ, String, Bool, true, false, ◌&&◌, ◌||◌, not, Option, none, some, List, [], ◌∷◌, ◌++◌,
  if◌then◌else◌, str_eq, Bytes, Dict, find, put,
}
use local_smarthinq.Json.{Value, str}
use local_smarthinq.Model.Registry.{Payload, Models, decode_mondata}

pub record DeviceStateStore : Type 0 where
  pub latest : Dict Payload
  pub model_by_devid : Dict String
  pub warned : List (String × String)
  pub has_sink : Bool
  pub log : List Payload
  pub published : List (String × Payload)

-- `p["devId"] = ...; p["modelName"] = ...; p["ts"] = ...`
unfoldable pub stamp : String → String → String → Payload → Payload
stamp dev_id model_name ts p =
    put "ts" (str ts) (put "modelName" (str model_name) (put "devId" (str dev_id) p))

-- `_commit`
unfoldable pub commit : String → Payload → DeviceStateStore → DeviceStateStore
commit dev_id p s = record s {
  latest = put dev_id p s.latest;
  log = s.log ++ p ∷ [];
  published = if s.has_sink then s.published ++ (dev_id, p) ∷ [] else s.published;
}

abbrev pub same_key : String × String → String × String → Bool
same_key (d, r) (e, q) = str_eq d e && str_eq r q

unfoldable pub already : String × String → List (String × String) → Bool
already key [] = false
already key (k ∷ ks) = same_key k key || already key ks

-- `_warn_once`
unfoldable pub warn_once : String → String → DeviceStateStore → DeviceStateStore
unfolding already
warn_once dev_id reason s =
    if already (dev_id, reason) s.warned
    then s
    else record s { warned = s.warned ++ (dev_id, reason) ∷ [] }

-- A `<Report>`, with what the registry decodes from it.
pub record Report : Type 0 where
  pub dev_id : String
  pub model_name : String
  pub payloads : List Payload

unfoldable pub is_str : String → Option Value → Bool
is_str s (some (str t)) = str_eq t s
is_str s _ = false

-- `p.get("diagMonType") == "UNKNOWN"`
unfoldable pub is_unknown : Payload → Bool
unfolding is_str
is_unknown p = is_str "UNKNOWN" (find "diagMonType" p)

-- `if dev_id and model_name: self.model_by_devid[dev_id] = model_name`
unfoldable pub learn : String → String → DeviceStateStore → DeviceStateStore
learn dev_id model_name s =
    if not (str_eq dev_id "") && not (str_eq model_name "")
    then record s { model_by_devid = put dev_id model_name s.model_by_devid }
    else s

unfoldable pub ingest_payload : String → Payload → DeviceStateStore → DeviceStateStore
ingest_payload dev_id p s = if is_unknown p then s else commit dev_id p s

unfoldable pub ingest_payloads :
    String → String → String → List Payload → DeviceStateStore → DeviceStateStore
unfolding ingest_payload
ingest_payloads dev_id model_name ts [] s = s
ingest_payloads dev_id model_name ts (p ∷ ps) s =
    ingest_payloads dev_id model_name ts ps (ingest_payload dev_id (stamp dev_id model_name ts p) s)

unfoldable pub ingest_report : Report → String → DeviceStateStore → DeviceStateStore
unfolding learn ingest_payloads
ingest_report r ts s =
    ingest_payloads r.dev_id r.model_name ts r.payloads (learn r.dev_id r.model_name s)

-- `f"note:{p.get('note')}"`; the registry's notes are texts.
unfoldable pub note_reason : Option Value → String
note_reason (some (str text)) = join "note:" text
note_reason _ = "note:None"

-- A decoded pump payload is committed, any other is warned about once.
unfoldable pub take_pump :
    String → String → String → Payload → Option Value → DeviceStateStore → DeviceStateStore
unfolding note_reason
take_pump dev_id model_name ts p (some decoded) s = commit dev_id (stamp dev_id model_name ts p) s
take_pump dev_id model_name ts p none s = warn_once dev_id (note_reason (find "note" p)) s

unfoldable pub mapped : Option String → Option String
mapped none = none
mapped (some model_name) = if str_eq model_name "" then none else some model_name

unfoldable pub ingest_mapped {ℓ} :
    {M : Type ℓ}
    → Models M
    → String
    → Bytes
    → String
    → Option String
    → DeviceStateStore
    → DeviceStateStore
unfolding take_pump
ingest_mapped models dev_id blob ts none s = warn_once dev_id "unmapped" s
ingest_mapped models dev_id blob ts (some model_name) s =
    let p = decode_mondata models blob model_name in
    take_pump dev_id model_name ts p (find "monData_decoded" p) s

unfoldable pub ingest_mondata {ℓ} :
    {M : Type ℓ} → Models M → String → Bytes → String → DeviceStateStore → DeviceStateStore
unfolding mapped ingest_mapped
ingest_mondata models dev_id blob ts s =
    ingest_mapped models dev_id blob ts (mapped (find dev_id s.model_by_devid)) s
