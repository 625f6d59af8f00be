-- ===== src/Tests/Modules.antt =====
-- A report of the washer, whose state has the byte of an active cycle.
use local_smarthinq.Prelude.{
  ◌≡◌, refl, String, true, Option, none, some, [], ◌∷◌, Bytes, str_eq, if◌then◌else◌, find, put,
}
use local_smarthinq.Json.{bool, num, str, obj, end, field, get, set_field}
use local_smarthinq.Model.Envelope.{Coding}
use local_smarthinq.Model.Resolve.{decoder_for}
use local_smarthinq.Model.Modules.{washer_wtwn3, dryer_rc90u2, modules, module_report}

abbrev state : Bytes
state = 6 ∷ 0 ∷ 0 ∷ 0 ∷ 0 ∷ 7 ∷ 0 ∷ 0 ∷ 0 ∷ 0 ∷ 0 ∷ 0 ∷ 0 ∷ 0 ∷ 0 ∷ 0 ∷ 0 ∷ 0 ∷ 1 ∷ []

abbrev root : String → Option String
root tag = if str_eq tag "monData" then some "state" else none

abbrev coding : Coding
coding = record {
  b64decode = λ s. some state;
  utf8 = λ b. "xml";
  hex = λ b. "06";
  fromstring = λ s. some root;
}

washer_active :
    module_report coding "WM_STATE" "data" washer_wtwn3
    ≡ some (
        (("diagMonType", str "WM_STATE")
          ∷ (
            "monData",
            obj (
                field "raw" (str "06") (
                  field "len" (num 19) (
                    field "state_byte"
                      (num 6)
                      (field "course" (num 7) (field "cycle_active" (bool true) end))))),
          )
          ∷ [])
        ∷ [])
unfolding module_report find put get set_field
washer_active = refl

-- By the type, where the name is of no module.
by_type_found : decoder_for modules "OTHER" (some 202) ≡ some dryer_rc90u2
unfolding decoder_for
by_type_found = refl
