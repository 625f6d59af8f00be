-- ===== src/Json.antt =====
-- The JSON values that the protocol's messages, the modelJson files and the decoded states are
-- made of. `json.loads` and `json.dumps` are arguments of the definitions that call them.
use local_smarthinq.Prelude.{ℕ, String, Bool, Option, none, some, if◌then◌else◌, str_eq, Bytes}

mutual
  -- The members of an object, in their order.
  pub data Fields : Type 0 where
    end : Fields
    field : String → Value → Fields → Fields

  pub data Value : Type 0 where
    obj : Fields → Value
    arr : Elements → Value
    str : String → Value
    num : ℕ → Value
    bool : Bool → Value
    null : Value

  pub data Elements : Type 0 where
    no_elements : Elements
    element : (head : Value) (rest : Elements) → Elements

-- `d.get(k)`; a parsed object holds each key once.
unfoldable pub get : String → Fields → Option Value
get k end = none
get k (field j v fs) = let later = get k fs in if str_eq j k then some v else later

-- `json.loads` over UTF-8 bytes: `none` is a `ValueError`.
abbrev pub Loads : Type 0
Loads = Bytes → Option Value

-- `json.dumps(..., separators=(",", ":")).encode()` of an object.
abbrev pub Dumps : Type 0
Dumps = Fields → Bytes

-- `d[k] = v`
unfoldable pub set_field : String → Value → Fields → Fields
set_field k v end = field k v end
set_field k v (field j w fs) =
    let later = set_field k v fs in if str_eq j k then field j v fs else field j w later

-- What Python's text functions give: `b.decode("utf-8", "replace")`, `s.encode("utf-8")`,
-- `str(v)`, and `json.loads` of a text.
pub record Text : Type 0 where
  pub utf8 : Bytes → String
  pub encode : String → Bytes
  pub show : Value → String
  pub loads : String → Option Value
