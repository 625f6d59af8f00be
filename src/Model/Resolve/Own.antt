-- ===== src/Model/Resolve/Own.antt =====
-- A layout never crosses model names.
use mathlib.Core.List.{Memᴰ}
use mathlib.Core.List.Memᴰ.{head, tail}
use local_smarthinq.Prelude.{
  ◌==◌, ℕ, ◌≡◌, refl, ◌∙◌, ap, subst, String, Bool, true, false, ◌&&◌, not, Option, none, some,
  List, [], ◌∷◌, Bool-cases, inl, inr, str_eq, eq_iff, arith, if◌then◌else◌, Dict, find, put,
  find-put,
}
use local_smarthinq.Model.Resolve.{
  Decoder, Files, by_model, by_type, or_by_type, decoder_for, read_fixture, from_fixture,
  or_fixture, from_cache, remembered, load_model_json, model_json_for, requests,
}

-- The modelJson is the cached file of this name, which is safe as a file name, or the fixture of a
-- registered decoder that has this name.
pub data IsOwn {ℓ} {M : Type ℓ} (files : Files M) (modules : List Decoder) (name : String) (m : M)
    : Type ℓ where
  in_cache : files.safe_name name ≡ true → files.cached name ≡ some m → IsOwn files modules name m
  in_fixture :
      (d : Decoder) (file : String)
      → Memᴰ d modules
      → d.model_name ≡ name
      → d.fixture ≡ some file
      → files.committed file ≡ some m
      → IsOwn files modules name m

same_text : (s t : String) → str_eq s t ≡ true → s ≡ t
same_text s t h = ground (arith, eq_iff s t)

-- A decoder that is found is a registered one.
abbrev IsRegistered : List Decoder → Option Decoder → Type 0
IsRegistered modules none = Unit
IsRegistered modules (some d) = Memᴰ d modules

found_or :
    (b : Bool) (d : Decoder) (ds modules : List Decoder) (found : Option Decoder)
    → ((x : Decoder) → Memᴰ x (d ∷ ds) → Memᴰ x modules)
    → IsRegistered modules found
    → IsRegistered modules (if b then some d else found)
found_or true d ds modules found h r = h d (head refl)
found_or false d ds modules found h r = r

by_model-IsRegistered :
    (modules : List Decoder) (name : String) (found : Option Decoder) (ds : List Decoder)
    → ((x : Decoder) → Memᴰ x ds → Memᴰ x modules)
    → IsRegistered modules found
    → IsRegistered modules (by_model name found ds)
unfolding by_model
by_model-IsRegistered modules name found [] h r = r
by_model-IsRegistered modules name found (d ∷ ds) h r =
    by_model-IsRegistered modules name (if str_eq d.model_name name then some d else found) ds
      (λ x m. h x (tail m)) (found_or (str_eq d.model_name name) d ds modules found h r)

by_type-IsRegistered :
    (modules : List Decoder) (type : ℕ) (found : Option Decoder) (ds : List Decoder)
    → ((x : Decoder) → Memᴰ x ds → Memᴰ x modules)
    → IsRegistered modules found
    → IsRegistered modules (by_type type found ds)
unfolding by_type
by_type-IsRegistered modules type found [] h r = r
by_type-IsRegistered modules type found (d ∷ ds) h r =
    by_type-IsRegistered modules type (if d.device_type == type then some d else found) ds
      (λ x m. h x (tail m)) (found_or (d.device_type == type) d ds modules found h r)

or_by_type-IsRegistered :
    (modules : List Decoder) (type : Option ℕ) (o : Option Decoder)
    → IsRegistered modules o
    → IsRegistered modules (or_by_type modules type o)
unfolding or_by_type
or_by_type-IsRegistered modules type (some d) r = r
or_by_type-IsRegistered modules none none r = tt
or_by_type-IsRegistered modules (some type) none r =
    by_type-IsRegistered modules type none modules (λ x m. m) tt

decoder_for-IsRegistered :
    (modules : List Decoder) (name : String) (type : Option ℕ)
    → IsRegistered modules (decoder_for modules name type)
unfolding decoder_for
decoder_for-IsRegistered modules name type =
    or_by_type-IsRegistered modules type (by_model name none modules)
      (by_model-IsRegistered modules name none modules (λ x m. m) tt)

module _ {ℓ} {M : Type ℓ} (files : Files M) (modules : List Decoder) where
  -- What is found under the name is its own.
  Owns : String → Option M → Type ℓ
  Owns name o = (m : M) → o ≡ some m → IsOwn files modules name m

  -- So is all that is remembered.
  OwnMemory : Dict (Option M) → Type ℓ
  OwnMemory memory =
      (name : String) (m : M) → find name memory ≡ some (some m) → IsOwn files modules name m

  from_cache-Owns : (name : String) → Owns name (from_cache files name)
  unfolding Owns from_cache
  from_cache-Owns name m h = elim (Bool-cases (not (str_eq name "") && files.safe_name name)) [
    | inl safe ↦ in_cache (ground arith) (ground arith)
    | inr unsafe ↦ absurd (ground arith)
  ]

  read_fixture-Owns :
      (d : Decoder) (name : String) (o : Option String)
      → Memᴰ d modules
      → d.model_name ≡ name
      → d.fixture ≡ o
      → Owns name (read_fixture files o)
  unfolding Owns read_fixture
  read_fixture-Owns d name none r e f m h = absurd (ground arith)
  read_fixture-Owns d name (some file) r e f m h = elim (Bool-cases (str_eq file "")) [
    | inl empty ↦ absurd (ground arith)
    | inr named ↦ in_fixture d file r e f (ground arith)
  ]

  from_fixture-Owns :
      (name : String) (o : Option Decoder)
      → IsRegistered modules o
      → Owns name (from_fixture files name o)
  unfolding Owns from_fixture
  from_fixture-Owns name none r m h = absurd (ground arith)
  from_fixture-Owns name (some d) r m h = elim (Bool-cases (str_eq name d.model_name)) [
    | inl own ↦
        read_fixture-Owns d name d.fixture r (ground (arith, eq_iff name d.model_name)) refl m
          (ground arith)
    | inr other ↦ absurd (ground arith)
  ]

  or_fixture-Owns :
      (name : String) (o p : Option M) → Owns name o → Owns name p → Owns name (or_fixture o p)
  unfolding or_fixture
  or_fixture-Owns name none p i j = j
  or_fixture-Owns name (some m) p i j = i

  either-Own :
      (name : String) (b : Bool) (o : Option M) (p : Option (Option M)) (m : M)
      → (b ≡ true → Owns name o)
      → (p ≡ some (some m) → IsOwn files modules name m)
      → (if b then some o else p) ≡ some (some m)
      → IsOwn files modules name m
  unfolding Owns
  either-Own name true o p m i j h = i refl m (ground arith)
  either-Own name false o p m i j h = j h

  put-OwnMemory :
      (name : String) (o : Option M) (memory : Dict (Option M))
      → Owns name o
      → OwnMemory memory
      → OwnMemory (put name o memory)
  unfolding OwnMemory
  put-OwnMemory name o memory i a other m h =
      either-Own other (str_eq name other) o (find other memory) m
        (λ e. subst (λ x. Owns x o) (same_text name other e) i) (a other m)
        (subst (λ x. x ≡ some (some m)) (find-put name other o memory) h)

  hit-Owns :
      (name : String) (o : Option M) (memory : Dict (Option M))
      → find name memory ≡ some o
      → OwnMemory memory
      → Owns name o
  unfolding Owns OwnMemory
  hit-Owns name o memory e a m h = a name m (e ∙ ap some h)

  remembered-Own :
      (name : String) (d : Option Decoder) (memory : Dict (Option M)) (hit : Option (Option M))
      → IsRegistered modules d
      → find name memory ≡ hit
      → OwnMemory memory
      → Owns name (remembered files name d memory hit).0
        × OwnMemory (remembered files name d memory hit).1
  unfolding remembered
  remembered-Own name d memory (some o) r e a = (hit-Owns name o memory e a, a)
  remembered-Own name d memory none r e a =
      let found = or_fixture (from_cache files name) (from_fixture files name d) in
      let i =
        or_fixture-Owns name (from_cache files name) (from_fixture files name d)
          (from_cache-Owns name) (from_fixture-Owns name d r) in
      (i, put-OwnMemory name found memory i a)

  requests-Own :
      (rs : List (String × Option ℕ)) (memory : Dict (Option M))
      → OwnMemory memory
      → OwnMemory (requests files modules rs memory)
  unfolding requests model_json_for load_model_json
  requests-Own [] memory a = a
  requests-Own ((name, type) ∷ rs) memory a =
      let n = files.strip name in
      let d = decoder_for modules n type in
      requests-Own rs (model_json_for files modules name type memory).1
        (remembered-Own n d memory (find n memory) (decoder_for-IsRegistered modules n type) refl
          a).1

  nothing-Own : OwnMemory []
  unfolding OwnMemory find
  nothing-Own name m h = absurd (ground arith)

  -- Whatever was asked for before, a modelJson that is found for a name is the cached file of this
  -- very name, which is safe as a file name, or the fixture of a registered decoder for this very
  -- model: a decoder that a device's type selects never lends its layout to another model.
  pub model_json_for-IsOwn :
      (rs : List (String × Option ℕ)) (name : String) (type : Option ℕ) (m : M)
      → (model_json_for files modules name type (requests files modules rs [])).0 ≡ some m
      → IsOwn files modules (files.strip name) m
  unfolding model_json_for load_model_json Owns
  model_json_for-IsOwn rs name type m h =
      let n = files.strip name in
      let memory = requests files modules rs [] in
      (remembered-Own n (decoder_for modules n type) memory (find n memory)
          (decoder_for-IsRegistered modules n type) refl (requests-Own rs [] nothing-Own)).0
        m h
