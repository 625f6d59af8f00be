-- ===== src/State/Replay.antt =====
-- The state held in memory is what replaying the JSONL log gives.
use mathlib.Core.List.{foldl, foldl-append}
use local_smarthinq.Prelude.{
  ◌≡◌, refl, String, false, Bool-cases, ◌⊎◌, inl, inr, Option, none, some, List, [], ◌∷◌, ◌++◌,
  if-both, Bytes, All, Dict, find, put, find-put,
}
use local_smarthinq.Json.{Value, str}
use local_smarthinq.Model.Registry.{Payload, Models, pump_payload, decode_with, decode_mondata}
use local_smarthinq.State.{
  DeviceStateStore, stamp, commit, warn_once, Report, is_unknown, learn, ingest_payload,
  ingest_payloads, ingest_report, take_pump, mapped, ingest_mapped, ingest_mondata,
}

-- The device that a logged payload names.
text_of : Option Value → String
text_of (some (str d)) = d
text_of _ = ""

pub device_of : Payload → String
unfolding text_of
device_of p = text_of (find "devId" p)

-- One line of the log, put under its device.
pub replay_line : Dict Payload → Payload → Dict Payload
unfolding device_of
replay_line latest p = put (device_of p) p latest

unfoldable pub replay : List Payload → Dict Payload
unfolding replay_line
replay = foldl replay_line []

-- The memory is the log's replay, and the log holds no payload that is marked as unknown.
pub record IsValid (s : DeviceStateStore) : Type 0 where
  pub replayed : s.latest ≡ replay s.log
  pub known : All (λ p. is_unknown p ≡ false) s.log

device_of-stamp : (d m ts : String) (p : Payload) → device_of (stamp d m ts p) ≡ d
unfolding device_of stamp
device_of-stamp d m ts p = simp find-put

All-concat :
    (p : Payload) (ps : List Payload)
    → All (λ q. is_unknown q ≡ false) ps
    → is_unknown p ≡ false
    → All (λ q. is_unknown q ≡ false) (ps ++ p ∷ [])
All-concat p [] h k = (k, tt)
All-concat p (q ∷ ps) (now, h) k = (now, All-concat p ps h k)

commit-IsValid :
    (d : String) (p : Payload) (s : DeviceStateStore)
    → IsValid s
    → device_of p ≡ d
    → is_unknown p ≡ false
    → IsValid (commit d p s)
unfolding commit replay replay_line
commit-IsValid d p s v e known = record {
  replayed = rw (foldl-append, ← v.replayed, e);
  known = All-concat p s.log v.known known;
}

ingest_payload-IsValid :
    (d : String) (p : Payload) (s : DeviceStateStore)
    → IsValid s
    → device_of p ≡ d
    → IsValid (ingest_payload d p s)
unfolding ingest_payload
ingest_payload-IsValid d p s v e = elim (Bool-cases (is_unknown p)) [
  | inl unknown ↦ rw unknown v
  | inr known ↦ rw known (commit-IsValid d p s v e known)
]

ingest_payloads-IsValid :
    (d m ts : String) (ps : List Payload) (s : DeviceStateStore)
    → IsValid s
    → IsValid (ingest_payloads d m ts ps s)
unfolding ingest_payloads
ingest_payloads-IsValid d m ts [] s v = v
ingest_payloads-IsValid d m ts (p ∷ ps) s v =
    ingest_payloads-IsValid d m ts ps _
      (ingest_payload-IsValid d (stamp d m ts p) s v (device_of-stamp d m ts p))

learn-IsValid : (d m : String) (s : DeviceStateStore) → IsValid s → IsValid (learn d m s)
unfolding learn
learn-IsValid d m s v = if-both IsValid _ _ s (record { replayed = v.replayed; known = v.known }) v

warn_once-IsValid : (d r : String) (s : DeviceStateStore) → IsValid s → IsValid (warn_once d r s)
unfolding warn_once
warn_once-IsValid d r s v =
    if-both IsValid _ s _ v (record { replayed = v.replayed; known = v.known })

module _ {ℓ} {M : Type ℓ} (models : Models M) where
  stamped_sum-known :
      (d m ts : String) (r : String ⊎ Value) → is_unknown (stamp d m ts (pump_payload m r)) ≡ false
  unfolding is_unknown stamp pump_payload find put
  stamped_sum-known d m ts (inl e) = refl
  stamped_sum-known d m ts (inr decoded) = refl

  stamped_with-known :
      (blob : Bytes) (d m ts : String) (o : Option M)
      → is_unknown (stamp d m ts (decode_with models blob m o)) ≡ false
  unfolding is_unknown stamp decode_with find put
  stamped_with-known blob d m ts none = refl
  stamped_with-known blob d m ts (some j) = stamped_sum-known d m ts (models.decode blob j)

  stamped_pump-known :
      (blob : Bytes) (d m ts : String)
      → is_unknown (stamp d m ts (decode_mondata models blob m)) ≡ false
  unfolding decode_mondata
  stamped_pump-known blob d m ts = stamped_with-known blob d m ts (models.model_json_for m)

  ingest_mapped-IsValid :
      (d : String) (blob : Bytes) (ts : String) (o : Option String) (s : DeviceStateStore)
      → IsValid s
      → IsValid (ingest_mapped models d blob ts o s)
  unfolding ingest_mapped
  ingest_mapped-IsValid d blob ts none s v = warn_once-IsValid d "unmapped" s v
  ingest_mapped-IsValid d blob ts (some m) s v =
      take (decode_mondata models blob m) (find "monData_decoded" (decode_mondata models blob m))
        (stamped_pump-known blob d m ts)
    where
      take :
          (p : Payload) (o : Option Value)
          → is_unknown (stamp d m ts p) ≡ false
          → IsValid (take_pump d m ts p o s)
      take p none known = warn_once-IsValid d _ s v
      take p (some decoded) known =
          commit-IsValid d (stamp d m ts p) s v (device_of-stamp d m ts p) known

-- What the channels hand to the store.
pub data Input {ℓ} (M : Type ℓ) : Type ℓ where
  report : Report → String → Input M
  pump : Models M → String → Bytes → String → Input M

pub ingest {ℓ} : {M : Type ℓ} → Input M → DeviceStateStore → DeviceStateStore
ingest (report r ts) s = ingest_report r ts s
ingest (pump models d blob ts) s = ingest_mondata models d blob ts s

pub ingest_all {ℓ} : {M : Type ℓ} → List (Input M) → DeviceStateStore → DeviceStateStore
unfolding ingest
ingest_all [] s = s
ingest_all (i ∷ is) s = ingest_all is (ingest i s)

-- After any reports and pump snapshots, from a store that meets it, the state in memory is what
-- replaying the log gives, device by device, and no payload of an unknown device is logged.
pub ingest_all-IsValid {ℓ} :
    {M : Type ℓ} (is : List (Input M)) (s : DeviceStateStore)
    → IsValid s
    → IsValid (ingest_all is s)
unfolding ingest_all ingest_report ingest_mondata
ingest_all-IsValid [] s v = v
ingest_all-IsValid (report r ts ∷ is) s v = ingest_all-IsValid is _ (
    ingest_payloads-IsValid r.dev_id r.model_name ts r.payloads _
      (learn-IsValid r.dev_id r.model_name s v))
ingest_all-IsValid (pump models d blob ts ∷ is) s v =
    ingest_all-IsValid is _
      (ingest_mapped-IsValid models d blob ts (mapped (find d s.model_by_devid)) s v)
