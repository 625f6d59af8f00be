-- ===== src/Model/Resolve.antt =====
-- How server/models/registry.py finds a model's modelJson: `_decoder_for`, `load_model_json` with
-- its memory, `model_json_for`. The files are two functions, `none` where a file is missing or
-- broken.
pub mod Own
use local_smarthinq.Prelude.{
  ℕ, String, Bool, ◌&&◌, not, Option, none, some, List, [], ◌∷◌, if◌then◌else◌, str_eq, ◌==◌, Dict,
  find, put,
}

-- A registered module: `MODEL_NAME`, `DEVICE_TYPE`, `MODEL_JSON_FIXTURE`.
pub record Decoder : Type 0 where
  pub model_name : String
  pub device_type : ℕ
  pub fixture : Option String

-- `str.strip`, `_SAFE_NAME`, and `_read_json` behind `cache_path` and in the fixtures' directory.
pub record Files {ℓ} (M : Type ℓ) : Type ℓ where
  pub strip : String → String
  pub safe_name : String → Bool
  pub cached : String → Option M
  pub committed : String → Option M

-- `_BY_MODEL` and `_BY_TYPE`: the last module counts.
unfoldable pub by_model : String → Option Decoder → List Decoder → Option Decoder
by_model name found [] = found
by_model name found (d ∷ ds) = by_model name (if str_eq d.model_name name then some d else found) ds

unfoldable pub by_type : ℕ → Option Decoder → List Decoder → Option Decoder
by_type type found [] = found
by_type type found (d ∷ ds) = by_type type (if d.device_type == type then some d else found) ds

unfoldable pub or_by_type : List Decoder → Option ℕ → Option Decoder → Option Decoder
unfolding by_type
or_by_type modules type (some d) = some d
or_by_type modules none none = none
or_by_type modules (some type) none = by_type type none modules

unfoldable pub decoder_for : List Decoder → String → Option ℕ → Option Decoder
unfolding by_model or_by_type
decoder_for modules name device_type = or_by_type modules device_type (by_model name none modules)

unfoldable pub read_fixture {ℓ} : {M : Type ℓ} → Files M → Option String → Option M
read_fixture files none = none
read_fixture files (some name) = if str_eq name "" then none else files.committed name

-- A fixture is applied to the decoder's own model only.
unfoldable pub from_fixture {ℓ} : {M : Type ℓ} → Files M → String → Option Decoder → Option M
unfolding read_fixture
from_fixture files name none = none
from_fixture files name (some d) =
    if str_eq name d.model_name then read_fixture files d.fixture else none

unfoldable pub or_fixture {ℓ} : {M : Type ℓ} → Option M → Option M → Option M
or_fixture (some m) fixture = some m
or_fixture none fixture = fixture

unfoldable pub from_cache {ℓ} : {M : Type ℓ} → Files M → String → Option M
from_cache files name =
    if not (str_eq name "") && files.safe_name name then files.cached name else none

unfoldable pub remembered {ℓ} :
    {M : Type ℓ}
    → Files M
    → String
    → Option Decoder
    → Dict (Option M)
    → Option (Option M)
    → Option M × Dict (Option M)
unfolding or_fixture from_fixture from_cache
remembered files name decoder memory (some hit) = (hit, memory)
remembered files name decoder memory none =
    let found = or_fixture (from_cache files name) (from_fixture files name decoder) in
    (found, put name found memory)

unfoldable pub load_model_json {ℓ} :
    {M : Type ℓ} → Files M → String → Option Decoder → Dict (Option M) → Option M × Dict (Option M)
unfolding remembered
load_model_json files model_name decoder memory =
    let name = files.strip model_name in remembered files name decoder memory (find name memory)

unfoldable pub model_json_for {ℓ} :
    {M : Type ℓ}
    → Files M
    → List Decoder
    → String
    → Option ℕ
    → Dict (Option M)
    → Option M × Dict (Option M)
unfolding decoder_for load_model_json
model_json_for files modules model_name device_type memory =
    load_model_json files model_name (decoder_for modules (files.strip model_name) device_type)
      memory

-- The memory after some requests.
unfoldable pub requests {ℓ} :
    {M : Type ℓ}
    → Files M
    → List Decoder
    → List (String × Option ℕ)
    → Dict (Option M)
    → Dict (Option M)
unfolding model_json_for
requests files modules [] memory = memory
requests files modules ((name, type) ∷ rs) memory =
    requests files modules rs (model_json_for files modules name type memory).1
