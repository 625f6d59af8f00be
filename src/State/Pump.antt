-- ===== src/State/Pump.antt =====
-- A pump snapshot that cannot be decoded is warned about once, and changes nothing else.
use Prim.Native.String.{◌++◌ as join}
use mathlib.Core.List.{Memᴰ}
use mathlib.Core.List.Memᴰ
use mathlib.Core.List.Memᴰ.{head, tail}
use local_smarthinq.Prelude.{
  ◌≡◌, refl, ◌∙◌, sym, subst, String, true, false, Bool-cases, ◌⊎◌, inl, inr, none, some, List, [],
  ◌∷◌, ◌++◌, arith, ap, eq_refl, eq_iff, str_eq, Bytes, find,
}
use local_smarthinq.Model.Registry.{Models, decode_mondata, decode_with, pump_payload}
use local_smarthinq.State.{
  DeviceStateStore, same_key, already, warn_once, take_pump, note_reason, mapped, ingest_mondata,
  ingest_mapped,
}

same_key_refl : (k : String × String) → same_key k k ≡ true
same_key_refl (d, r) = rw (eq_refl d, eq_refl r)

same_pair :
    (d e r q : String) → same_key (d, r) (e, q) ≡ true → ◌≡◌ {A = String × String} (d, r) (e, q)
same_pair d e r q h =
    let first : d ≡ e = ground (arith, eq_iff d e, eq_iff r q) in
    let second : r ≡ q = ground (arith, eq_iff d e, eq_iff r q) in
    ap (λ x. (x, r)) first ∙ ap (λ x. (e, x)) second

already-Mem :
    (d r : String) (ks : List (String × String)) → already (d, r) ks ≡ true → Memᴰ (d, r) ks
unfolding already
already-Mem d r [] h = absurd (ground arith)
already-Mem d r ((e, q) ∷ ks) h = elim (Bool-cases (same_key (e, q) (d, r))) [
  | inl same ↦ head (sym (same_pair e d q r same))
  | inr other ↦ tail (already-Mem d r ks (ground arith))
]

Mem-already :
    (d r : String) (ks : List (String × String)) → Memᴰ (d, r) ks → already (d, r) ks ≡ true
unfolding already
Mem-already d r [] h = elim h [ ]
Mem-already d r (k ∷ ks) h = elim (Memᴰ.cases_cons h) [
  | inl same ↦ subst (λ x. already (d, r) (x ∷ ks) ≡ true) same (rw (same_key_refl (d, r)) refl)
  | inr later ↦ ground (arith, Mem-already d r ks later)
]

Mem-last {ℓ} : {A : Type ℓ} (x : A) (xs : List A) → Memᴰ x (xs ++ x ∷ [])
Mem-last x [] = head refl
Mem-last x (y ∷ ys) = tail (Mem-last x ys)

-- Why a snapshot is not decoded, and the reason of the warning: no model is known for the device,
-- there is no layout for its model, or the decoder raises.
pub data IsDegraded {ℓ} {M : Type ℓ} (models : Models M) (d : String) (blob : Bytes)
    (s : DeviceStateStore) : String → Type ℓ where
  no_model : find d s.model_by_devid ≡ none → IsDegraded models d blob s "unmapped"
  empty_model : find d s.model_by_devid ≡ some "" → IsDegraded models d blob s "unmapped"
  no_layout :
      (m : String)
      → find d s.model_by_devid ≡ some m
      → str_eq m "" ≡ false
      → models.model_json_for m ≡ none
      → IsDegraded models d blob s (join "note:" "no modelJson available; decode skipped")
  undecoded :
      (m : String) (j : M) (e : String)
      → find d s.model_by_devid ≡ some m
      → str_eq m "" ≡ false
      → models.model_json_for m ≡ some j
      → models.decode blob j ≡ inl e
      → IsDegraded models d blob s (join "note:" (join "monData decode failed: " e))

ingest-no_layout {ℓ} :
    {M : Type ℓ} (models : Models M) (d : String) (blob : Bytes) (ts : String)
    (s : DeviceStateStore) (m : String)
    → models.model_json_for m ≡ none
    → ingest_mapped models d blob ts (some m) s
      ≡ warn_once d (join "note:" "no modelJson available; decode skipped") s
unfolding ingest_mapped decode_mondata decode_with take_pump note_reason find
ingest-no_layout models d blob ts s m h = rw h refl

ingest-undecoded {ℓ} :
    {M : Type ℓ} (models : Models M) (d : String) (blob : Bytes) (ts : String)
    (s : DeviceStateStore) (m : String) (j : M) (e : String)
    → models.model_json_for m ≡ some j
    → models.decode blob j ≡ inl e
    → ingest_mapped models d blob ts (some m) s
      ≡ warn_once d (join "note:" (join "monData decode failed: " e)) s
unfolding ingest_mapped decode_mondata decode_with pump_payload take_pump note_reason find
ingest-undecoded models d blob ts s m j e h k = rw (h, k) refl

-- The store with any warnings.
degraded-warn_once {ℓ} :
    {M : Type ℓ} (models : Models M) (d : String) (blob : Bytes) (ts r : String)
    (s : DeviceStateStore)
    → IsDegraded models d blob s r
    → ingest_mondata models d blob ts s ≡ warn_once d r s
unfolding ingest_mondata mapped
degraded-warn_once models d blob ts r s (no_model e) = unfold ingest_mapped in (rw e refl)
degraded-warn_once models d blob ts r s (empty_model e) = unfold ingest_mapped in (rw e refl)
degraded-warn_once models d blob ts r s (no_layout m e n h) =
    rw (e, n) (ingest-no_layout models d blob ts s m h)
degraded-warn_once models d blob ts r s (undecoded m j err e n h k) =
    rw (e, n) (ingest-undecoded models d blob ts s m j err h k)

-- The second store is the first one but for the warning: it is there once more if it was there
-- already, and behind all others if it was not.
pub record IsWarned (d r : String) (s s' : DeviceStateStore) : Type 0 where
  pub latest : s'.latest ≡ s.latest
  pub model_by_devid : s'.model_by_devid ≡ s.model_by_devid
  pub has_sink : s'.has_sink ≡ s.has_sink
  pub log : s'.log ≡ s.log
  pub published : s'.published ≡ s.published
  pub warned :
      (Memᴰ (d, r) s.warned × (s'.warned ≡ s.warned))
      ⊎ (¬ Memᴰ (d, r) s.warned × (s'.warned ≡ s.warned ++ (d, r) ∷ []))

warn_once-IsWarned : (d r : String) (s : DeviceStateStore) → IsWarned d r s (warn_once d r s)
unfolding warn_once
warn_once-IsWarned d r s = elim (Bool-cases (already (d, r) s.warned)) [
  | inl known ↦ rw known (record {
    latest = refl;
    model_by_devid = refl;
    has_sink = refl;
    log = refl;
    published = refl;
    warned = inl (already-Mem d r s.warned known, refl);
  })
  | inr new ↦ rw new (record {
    latest = refl;
    model_by_devid = refl;
    has_sink = refl;
    log = refl;
    published = refl;
    warned = inr (λ m. ground (arith, Mem-already d r s.warned m), refl);
  })
]

warned-Mem : (d r : String) (s s' : DeviceStateStore) → IsWarned d r s s' → Memᴰ (d, r) s'.warned
warned-Mem d r s s' w = elim w.warned [
  | inl (old, e) ↦ subst (Memᴰ (d, r)) (sym e) old
  | inr (new, e) ↦ subst (Memᴰ (d, r)) (sym e) (Mem-last (d, r) s.warned)
]

warn_once-known : (d r : String) (s : DeviceStateStore) → Memᴰ (d, r) s.warned → warn_once d r s ≡ s
unfolding warn_once
warn_once-known d r s m = rw (Mem-already d r s.warned m) refl

still-IsDegraded {ℓ} :
    {M : Type ℓ} (models : Models M) (d : String) (blob : Bytes) (r : String)
    (s s' : DeviceStateStore)
    → s'.model_by_devid ≡ s.model_by_devid
    → IsDegraded models d blob s r
    → IsDegraded models d blob s' r
still-IsDegraded models d blob r s s' h (no_model e) = no_model (ap (find d) h ∙ e)
still-IsDegraded models d blob r s s' h (empty_model e) = empty_model (ap (find d) h ∙ e)
still-IsDegraded models d blob r s s' h (no_layout m e n j) = no_layout m (ap (find d) h ∙ e) n j
still-IsDegraded models d blob r s s' h (undecoded m j x e n k l) =
    undecoded m j x (ap (find d) h ∙ e) n k l

-- A snapshot whose device has no model, whose model has no layout, or whose decoding raises leaves
-- the latest views, the models, the log and the sink as they were. It adds the warning with just
-- this reason behind the others, unless this was given before; and the same snapshot, whenever it
-- comes next, changes nothing at all.
pub ingest_mondata-degraded {ℓ} :
    {M : Type ℓ} (models : Models M) (d : String) (blob : Bytes) (ts ts' r : String)
    (s : DeviceStateStore)
    → IsDegraded models d blob s r
    → IsWarned d r s (ingest_mondata models d blob ts s)
      × (ingest_mondata models d blob ts' (ingest_mondata models d blob ts s)
          ≡ ingest_mondata models d blob ts s)
ingest_mondata-degraded models d blob ts ts' r s h =
    let s' = ingest_mondata models d blob ts s in
    let w : IsWarned d r s s' =
      subst (IsWarned d r s) (sym (degraded-warn_once models d blob ts r s h))
        (warn_once-IsWarned d r s) in
    (
      w,
      degraded-warn_once models d blob ts' r s'
            (still-IsDegraded models d blob r s s' w.model_by_devid h)
          ∙ warn_once-known d r s' (warned-Mem d r s s' w),
    )
