-- ===== src/Types/Json.antt =====
-- What the program uses of nlohmann::json, which is not part of the repository: an interface with
-- the documented behaviour as laws.
use apf_ue4ss.Prelude.{String, Bool, true, ◌≡◌, Option, none, some, List, [], if◌then◌else◌}
use apf_ue4ss.Prelude.Int.{ℤ}
use apf_ue4ss.Prelude.Dict.{lookup, string_eq}

-- `member` is `none` on a key that is absent and on a value that is no object; the `as_…` readers
-- are `none` where `get` throws a type error.
pub record JsonOps (J : Type 0) : Type 0 where
  pub null : J
  pub object : List (String × J) → J
  pub array : List J → J
  pub text : String → J
  pub integer : ℤ → J
  pub boolean : Bool → J
  pub is_object : J → Bool
  pub member : J → String → Option J
  pub as_text : J → Option String
  pub as_integer : J → Option ℤ
  pub as_boolean : J → Option Bool
  pub as_array : J → Option (List J)

-- The behaviour that the round trips of the program rely on. `member-object` is stated for the
-- initializer lists of the program, whose keys are distinct.
pub record JsonLaws {J : Type 0} (ops : JsonOps J) : Type 0 where
  pub is_object-object : (fields : List (String × J)) → ops.is_object (ops.object fields) ≡ true
  pub member-object :
      (fields : List (String × J)) (key : String)
      → ops.member (ops.object fields) key ≡ lookup key fields
  pub as_text-text : (s : String) → ops.as_text (ops.text s) ≡ some s
  pub as_text-integer : (n : ℤ) → ops.as_text (ops.integer n) ≡ none
  pub as_integer-integer : (n : ℤ) → ops.as_integer (ops.integer n) ≡ some n
  pub as_boolean-boolean : (b : Bool) → ops.as_boolean (ops.boolean b) ≡ some b
  pub as_array-text : (s : String) → ops.as_array (ops.text s) ≡ none
  pub as_array-array : (l : List J) → ops.as_array (ops.array l) ≡ some l

module _ {J : Type 0} ⦃ops : JsonOps J⦄ where
  -- `j.value(key, fallback)`: the member read at its type, or the fallback if the key is absent;
  -- `none` (a throw) if `j` is no object or the member has another type.
  unfoldable pub value {ℓ} : {A : Type ℓ} → (J → Option A) → J → String → A → Option A
  value read j key fallback =
      if ops.is_object j
      then (elim (ops.member j key) [ none ↦ some fallback | some v ↦ read v ])
      else none

  unfoldable pub value_text : J → String → String → Option String
  unfolding value
  value_text = value ops.as_text

  unfoldable pub value_integer : J → String → ℤ → Option ℤ
  unfolding value
  value_integer = value ops.as_integer

  unfoldable pub value_boolean : J → String → Bool → Option Bool
  unfolding value
  value_boolean = value ops.as_boolean

  -- `j.contains(key) && j[key].is_array()`, with the elements.
  unfoldable pub array_at : J → String → List J
  array_at j key = elim (ops.member j key) [
    | none ↦ []
    | some v ↦ elim (ops.as_array v) [ none ↦ [] | some l ↦ l ]
  ]
