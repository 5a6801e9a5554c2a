-- ===== src/Registry/Parse/Laws.antt =====
-- What `parse_manifest` accepts and what its results are like.
use mathlib.Core.Option.{some-injective}
use apf_ue4ss.Prelude.{
  String, Bool, true, Option, none, some, List, [], ◌∷◌, map, filter, ◌>>=◌, ◌≡◌, refl, All,
  Bool-cases, inl, inr, subst,
}
use apf_ue4ss.Prelude.Dict.{lookup, string_eq}
use apf_ue4ss.Types.{ActionArg, LocationDef, ItemDef, IncompatibilityRule, Manifest}
use apf_ue4ss.Types.Enums.{
  item_type_from_string-to_string, arg_type_from_string-to_string, item_type_to_string,
  arg_type_to_string,
}
use apf_ue4ss.Types.Json.{
  JsonOps, JsonLaws, value, value_text, value_integer, value_boolean, array_at,
}
use apf_ue4ss.Registry.Parse.{
  each, parse_rule, parse_location, parse_arg, parse_item, named_location, named_item,
  capability_array, required_id, read_manifest,
}

each-map :
    {A B : Type 0} (print : A → B) (read : B → Option A) (xs : List A)
    → ((x : A) → read (print x) ≡ some x)
    → each read (map print xs) ≡ some xs
unfolding each
each-map print read [] h = refl
each-map print read (x ∷ xs) h = rw (each, h x, each-map print read xs h) refl

-- The forms of an incompatibility rule in the documentation: with a list of versions, with one text
-- such as "<=0.1.0", and without.
pub data RuleForm : Type 0 where
  listed : String → List String → RuleForm
  single : String → String → RuleForm
  any_version : String → RuleForm

-- What the program makes of them: the versions of a list only; no versions stand for all.
unfoldable pub understood : RuleForm → IncompatibilityRule
understood (listed id versions) = record { id = id; versions = versions }
understood (single id version) = record { id = id; versions = [] }
understood (any_version id) = record { id = id; versions = [] }

-- The format of manifest.json, as the documentation of the mods describes it, with the rules of a
-- manifest in their forms.
module _ {J : Type 0} ⦃ops : JsonOps J⦄ where
  unfoldable pub rule_json : RuleForm → J
  rule_json (listed id versions) =
      ops.object
        (("id", ops.text id) ∷ ("versions", ops.array (map (λ v. ops.text v) versions)) ∷ [])
  rule_json (single id version) =
      ops.object (("id", ops.text id) ∷ ("versions", ops.text version) ∷ [])
  rule_json (any_version id) = ops.object (("id", ops.text id) ∷ [])

  unfoldable pub location_json : LocationDef → J
  location_json def = ops.object (
      ("name", ops.text def.name)
      ∷ ("amount", ops.integer def.amount)
      ∷ ("unique", ops.boolean def.unique)
      ∷ [])

  unfoldable pub arg_json : ActionArg J → J
  arg_json arg = ops.object (
      ("name", ops.text arg.name)
      ∷ ("type", ops.text (arg_type_to_string arg.type))
      ∷ ("value", arg.value)
      ∷ [])

  unfoldable pub item_json : ItemDef J → J
  unfolding arg_json
  item_json def = ops.object (
      ("name", ops.text def.name)
      ∷ ("type", ops.text (item_type_to_string def.type))
      ∷ ("amount", ops.integer def.amount)
      ∷ ("action", ops.text def.action)
      ∷ ("args", ops.array (map arg_json def.args))
      ∷ [])

  unfoldable pub capabilities_json : Manifest J → J
  unfolding location_json item_json
  capabilities_json m = ops.object (
      ("locations", ops.array (map location_json m.locations))
      ∷ ("items", ops.array (map item_json m.items))
      ∷ [])

  unfoldable pub manifest_json : Manifest J → List RuleForm → J
  unfolding rule_json capabilities_json
  manifest_json m rules = ops.object (
      ("mod_id", ops.text m.mod_id)
      ∷ ("name", ops.text m.name)
      ∷ ("version", ops.text m.version)
      ∷ ("enabled", ops.boolean m.enabled)
      ∷ ("description", ops.text m.description)
      ∷ ("incompatible", ops.array (map rule_json rules))
      ∷ ("capabilities", capabilities_json m)
      ∷ [])

module _ {J : Type 0} ⦃ops : JsonOps J⦄ (laws : JsonLaws ops) where
  value-object :
      {A : Type 0} (read : J → Option A) (fields : List (String × J)) (key : String) (fallback : A)
      → value read (ops.object fields) key fallback
        ≡ (elim (lookup key fields) [ none ↦ some fallback | some v ↦ read v ])
  unfolding value
  value-object read fields key fallback =
      rw (value, laws.is_object-object fields, laws.member-object fields key) refl

  array-object :
      (fields : List (String × J)) (key : String)
      → array_at (ops.object fields) key ≡ (elim (lookup key fields) [
        | none ↦ []
        | some v ↦ elim (ops.as_array v) [ none ↦ [] | some l ↦ l ]
      ])
  unfolding array_at
  array-object fields key = rw (array_at, laws.member-object fields key) refl

  rule_back : (rule : RuleForm) → parse_rule (rule_json {J = J} rule) ≡ some (understood rule)
  unfolding parse_rule rule_json understood lookup value_text each
  rule_back (listed id versions) = simp (
    parse_rule,
    value-object,
    laws.as_text-text,
    array-object,
    laws.as_array-array,
    each-map (λ (v : String). ops.text v) ops.as_text versions laws.as_text-text,
  )
  rule_back (single id version) =
      simp (parse_rule, value-object, laws.as_text-text, array-object, laws.as_array-text)
  rule_back (any_version id) = simp (parse_rule, value-object, laws.as_text-text, array-object)

  location_back : (def : LocationDef) → parse_location (location_json {J = J} def) ≡ some def
  unfolding parse_location location_json lookup value_text value_integer value_boolean
  location_back def = simp (
    parse_location, value-object, laws.as_text-text, laws.as_integer-integer,
    laws.as_boolean-boolean,
  )

  arg_back : (arg : ActionArg J) → parse_arg (arg_json arg) ≡ some arg
  unfolding parse_arg arg_json lookup value_text
  arg_back arg = simp (
    parse_arg, value, laws.is_object-object, laws.as_text-text, laws.member-object,
    arg_type_from_string-to_string,
  )

  item_back : (def : ItemDef J) → parse_item (item_json def) ≡ some def
  unfolding parse_item item_json lookup value_text value_integer
  item_back def = simp (
    parse_item,
    value-object,
    laws.as_text-text,
    laws.as_integer-integer,
    array-object,
    laws.as_array-array,
    item_type_from_string-to_string,
    each-map arg_json parse_arg def.args arg_back,
  )

  capability-locations :
      (m : Manifest J) (rules : List RuleForm)
      → capability_array (manifest_json m rules) "locations" ≡ map location_json m.locations
  unfolding capability_array manifest_json capabilities_json lookup
  capability-locations m rules =
      rw
        (
          capability_array, laws.member-object, laws.is_object-object, array-object,
          laws.as_array-array,
        )
        refl

  capability-items :
      (m : Manifest J) (rules : List RuleForm)
      → capability_array (manifest_json m rules) "items" ≡ map item_json m.items
  unfolding capability_array manifest_json capabilities_json lookup
  capability-items m rules =
      rw
        (
          capability_array, laws.member-object, laws.is_object-object, array-object,
          laws.as_array-array,
        )
        refl

  each-rule :
      (rules : List RuleForm)
      → each (parse_rule {J = J}) (map rule_json rules) ≡ some (map understood rules)
  unfolding each
  each-rule [] = refl
  each-rule (rule ∷ rules) = rw (each, rule_back rule, each-rule rules) refl

  required_id_back :
      (m : Manifest J) (rules : List RuleForm) → required_id (manifest_json m rules) ≡ some m.mod_id
  unfolding required_id manifest_json lookup
  required_id_back m rules = rw (required_id, laws.member-object, laws.as_text-text) refl

  -- A manifest in the documented format is read back whole, but for the locations and items without
  -- a name, which are dropped, and for versions that an incompatibility rule gives as one text: such
  -- a rule is read as one without versions.
  pub read_manifest-manifest_json :
      (m : Manifest J) (rules : List RuleForm)
      → read_manifest (manifest_json m rules)
        ≡ some (record m {
          incompatible = map understood rules;
          locations = filter named_location m.locations;
          items = filter named_item m.items;
        })
  unfolding read_manifest manifest_json lookup value_text value_boolean
  read_manifest-manifest_json m rules = simp (
    read_manifest,
    required_id_back,
    value-object,
    laws.as_text-text,
    laws.as_boolean-boolean,
    array-object,
    laws.as_array-array,
    capability-locations,
    capability-items,
    each-rule rules,
    each-map location_json (parse_location {J = J}) m.locations location_back,
    each-map item_json parse_item m.items item_back,
  )

named-All : {A : Type 0} (keep : A → Bool) (xs : List A) → All (λ x. keep x ≡ true) (filter keep xs)
unfolding filter
named-All keep [] = tt
named-All keep (x ∷ xs) = elim (Bool-cases (keep x)) [
  | inl e ↦ rw e (e, named-All keep xs)
  | inr e ↦ rw e (named-All keep xs)
]

-- What a manifest that was accepted is like, for a document.
unfoldable pub Accepted : {J : Type 0} ⦃ops : JsonOps J⦄ → J → Manifest J → Type 0
Accepted j m =
    (required_id j ≡ some m.mod_id)
    × All (λ def. named_location def ≡ true) m.locations
    × All (λ def. named_item def ≡ true) m.items
    × (value_text j "name" m.mod_id ≡ some m.name)

bind-some :
    {A B : Type 0} (o : Option A) (f : A → Option B) (b : B)
    → (o >>= f) ≡ some b
    → (a : A) × (o ≡ some a) × (f a ≡ some b)
bind-some none f b h = absurd (cc h)
bind-some (some a) f b h = (a, refl, h)

module _ {J : Type 0} ⦃ops : JsonOps J⦄ where
  -- A document that is accepted has a text as `mod_id`, which is the id and the name of a manifest
  -- without a name, and every location and item of the manifest has a name.
  pub read_manifest-Accepted : (j : J) (m : Manifest J) → read_manifest j ≡ some m → Accepted j m
  unfolding read_manifest Accepted
  read_manifest-Accepted j m h =
      let (mod_id, e0, h0) = bind-some (required_id j) _ m h in
      let (name, e1, h1) = bind-some (value_text j "name" mod_id) _ m h0 in
      let (version, e2, h2) = bind-some (value_text j "version" "1.0.0") _ m h1 in
      let (enabled, e3, h3) = bind-some (value_boolean j "enabled" true) _ m h2 in
      let (description, e4, h4) = bind-some (value_text j "description" "") _ m h3 in
      let (incompatible, e5, h5) = bind-some (each parse_rule (array_at j "incompatible")) _ m h4 in
      let (locations, e6, h6) =
        bind-some (each parse_location (capability_array j "locations")) _ m h5 in
      let (items, e7, h7) = bind-some (each parse_item (capability_array j "items")) _ m h6 in
      subst (λ x. Accepted j x) (some-injective _ m h7)
        (e0, named-All named_location locations, named-All named_item items, e1)
