-- ===== src/Tests/Model.antt =====
-- The binary decoder on a small blob, and the search for a modelJson.
use local_smarthinq.Prelude.{
  put, true, List, ℕ, ◌≡◌, refl, String, none, some, [], ◌∷◌, ◌++◌, arith, find,
}
use local_smarthinq.Model.Binary.{Item, decode_item, decode_monitor_binary}
use local_smarthinq.Model.Resolve.{
  Decoder, Files, decoder_for, load_model_json, model_json_for, requests,
}
use local_smarthinq.Model.Resolve.Own.{IsOwn, model_json_for-IsOwn}
use local_smarthinq.Model.Binary.Values.{big_endian, decode-big_endian}

abbrev minutes : Item
minutes = record { value = "Remain"; start_byte = 1; length = 2 }

decode_minutes : decode_item (9 ∷ 1 ∷ 44 ∷ []) minutes ≡ some 300
unfolding decode_item
decode_minutes = refl

abbrev show : ℕ → String
show n = "300"

decode-big_endian_example :
    find "Remain"
      (decode_monitor_binary show ((9 ∷ []) ++ (big_endian 2 300 ++ [])) ([] ++ minutes ∷ []))
    ≡ some "300"
decode-big_endian_example = decode-big_endian show (9 ∷ []) [] [] [] "Remain" 2 300 (omega arith) tt

-- No cached files, and the washer's fixture.
abbrev files : Files ℕ
files = record {
  strip = λ s. s;
  safe_name = λ s. true;
  cached = λ s. none;
  committed = λ s. some 201;
}

abbrev modules : List Decoder
modules =
    record { model_name = "WTWN3"; device_type = 201; fixture = some "washer_wtwn3.model.json" }
    ∷ []

washer_found :
    (model_json_for files modules "WTWN3" none (requests files modules (("F", some 201) ∷ []) [])).0
    ≡ some 201
unfolding model_json_for decoder_for load_model_json requests find put
washer_found = refl

-- Another model of the washer's type has the washer's decoder, and no modelJson.
other_washer : (model_json_for files modules "F" (some 201) []).0 ≡ none
unfolding model_json_for decoder_for load_model_json find
other_washer = refl

model_json_for-IsOwn_example : IsOwn files modules "WTWN3" 201
model_json_for-IsOwn_example =
    model_json_for-IsOwn files modules (("F", some 201) ∷ []) "WTWN3" none 201 washer_found
