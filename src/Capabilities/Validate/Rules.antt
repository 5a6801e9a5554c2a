-- ===== src/Capabilities/Validate/Rules.antt =====
-- What `validate` promises: which sets of mods pass, and that the verdict and the list of conflicts
-- say the same.
use Prim.Native.String.{◌++◌ as append_text}
use apf_ue4ss.Prelude.{
  String, true, false, ◌||◌, ◌≡◌, ◌≢◌, refl, ◌∙◌, ap, ◌↔◌, some, List, [], ◌∷◌, fold, any, All,
  arith, eq_iff, Option-cases, Bool-cases, inl, inr,
}
use apf_ue4ss.Prelude.Text.{str_eq}
use apf_ue4ss.Prelude.Dict.{OrdMap, find_key}
use apf_ue4ss.Types.{Manifest, IncompatibilityRule, ValidationResult}
use apf_ue4ss.Capabilities.{Capabilities}
use apf_ue4ss.Capabilities.Validate.{
  report, version_matches, check_rule, check_rules, location_key, check_locations, check_items,
  validate,
}
use apf_ue4ss.Capabilities.Validate.Owners.{OneOwner, claims_valid_iff}

-- The rule does not speak of this version: it lists versions, and neither this one nor "*".
abbrev pub Spares : List String → String → Type 0
Spares versions version = (versions ≢ []) × All (λ v. (v ≢ version) × (v ≢ "*")) versions

any_spares :
    (versions : List String) (version : String)
    → (any (λ ver. str_eq ver version || str_eq ver "*") versions ≡ false)
      ↔ All (λ v. (v ≢ version) × (v ≢ "*")) versions
unfolding any
any_spares [] version = (λ _. tt, λ _. refl)
any_spares (v ∷ vs) version = (
  λ h. ground (arith, eq_iff v version, eq_iff v "*", any_spares vs version),
  λ h. ground (arith, eq_iff v version, eq_iff v "*", any_spares vs version),
)

version_matches_iff :
    (versions : List String) (version : String)
    → (version_matches versions version ≡ false) ↔ Spares versions version
unfolding version_matches
version_matches_iff [] version = (λ h. cc, λ h. absurd (h.0 refl))
version_matches_iff (v ∷ vs) version =
    (λ h. (λ e. cc, (any_spares (v ∷ vs) version).0 h), λ h. (any_spares (v ∷ vs) version).1 h.1)

module _ {J : Type 0} (manifests : OrdMap (Manifest J)) where
  -- A rule is respected if the mod that it names is absent or has a version that it spares.
  abbrev pub Respected : IncompatibilityRule → Type 0
  Respected rule =
      (other : Manifest J)
      → find_key rule.id manifests ≡ some other
      → Spares rule.versions other.version

  check_rule_hit :
      (mod_id : String) (r : ValidationResult) (rule : IncompatibilityRule) (other : Manifest J)
      → find_key rule.id manifests ≡ some other
      → version_matches rule.versions other.version ≡ true
      → (check_rule manifests mod_id r rule).valid ≡ false
  unfolding check_rule report
  check_rule_hit mod_id r rule other e m = rw (e, check_rule) (rw m)

  check_rule_pass :
      (mod_id : String) (r : ValidationResult) (rule : IncompatibilityRule)
      → Respected rule
      → check_rule manifests mod_id r rule ≡ r
  unfolding check_rule
  check_rule_pass mod_id r rule h = elim (Option-cases (find_key rule.id manifests)) [
    | inl absent ↦ rw (absent, check_rule)
    | inr (m, e) ↦ rw (e, check_rule) (rw ((version_matches_iff rule.versions m.version).1 (h m e)))
  ]

  check_rule_monotone :
      (mod_id : String) (r : ValidationResult) (rule : IncompatibilityRule)
      → (check_rule manifests mod_id r rule).valid ≡ true
      → r.valid ≡ true
  unfolding check_rule report
  check_rule_monotone mod_id r rule h = ground arith

  check_rule-Respected :
      (mod_id : String) (r : ValidationResult) (rule : IncompatibilityRule)
      → (check_rule manifests mod_id r rule).valid ≡ true
      → Respected rule
  check_rule-Respected mod_id r rule h other e =
      elim (Bool-cases (version_matches rule.versions other.version)) [
        | inl hit ↦ cc (check_rule_hit mod_id r rule other e hit, h)
        | inr miss ↦ (version_matches_iff rule.versions other.version).0 miss
      ]

  fold_rules :
      (mod_id : String) (r : ValidationResult) (rules : List IncompatibilityRule)
      → ((fold (check_rule manifests mod_id) r rules).valid ≡ true)
        ↔ ((r.valid ≡ true) × All Respected rules)
  fold_rules mod_id r [] = (λ h. (h, tt), λ h. h.0)
  fold_rules mod_id r (rule ∷ rules) =
      let ih = fold_rules mod_id (check_rule manifests mod_id r rule) rules in
      (
        λ h. (
          check_rule_monotone mod_id r rule (ih.0 h).0,
          (check_rule-Respected mod_id r rule (ih.0 h).0, (ih.0 h).1),
        ),
        λ h. ih.1 (ap (λ q. q.valid) (check_rule_pass mod_id r rule h.1.0) ∙ h.0, h.1.1),
      )

  check_rules_valid :
      (r : ValidationResult) (rest : OrdMap (Manifest J))
      → ((check_rules manifests rest r).valid ≡ true)
        ↔ ((r.valid ≡ true) × All (λ entry. All Respected entry.1.incompatible) rest)
  unfolding check_rules
  check_rules_valid r [] = (λ h. (h, tt), λ h. h.0)
  check_rules_valid r ((mod_id, manifest) ∷ rest) =
      let inner = fold_rules mod_id r manifest.incompatible in
      let ih =
        check_rules_valid (fold (check_rule manifests mod_id) r manifest.incompatible) rest in
      (
        λ h. ((inner.0 (ih.0 h).0).0, ((inner.0 (ih.0 h).0).1, (ih.0 h).1)),
        λ h. ih.1 (inner.1 (h.0, h.1.0), h.1.1),
      )

module _ {J : Type 0} where
  -- `validate` accepts exactly the sets of mods in which every incompatibility rule is respected, no
  -- two mods have a location of one name and instance, and no two mods have an item of one name.
  pub validate_iff :
      (s : Capabilities J)
      → ((validate s).valid ≡ true) ↔ (
          All (λ entry. All (Respected s.manifests) entry.1.incompatible) s.manifests
          × OneOwner location_key (λ loc. loc.mod_id) s.locations
          × OneOwner (λ item. item.item_name) (λ item. item.mod_id) s.items)
  unfolding validate check_locations check_items
  validate_iff s =
      let start : ValidationResult = record { valid = true; conflicts = []; warnings = [] } in
      let ruled = check_rules s.manifests s.manifests start in
      let placed = check_locations ruled s.locations in
      let rules = check_rules_valid s.manifests start s.manifests in
      let places =
        claims_valid_iff "location_conflict" location_key (λ loc. loc.mod_id)
          (λ loc. append_text "Duplicate location: " loc.location_name) ruled s.locations in
      let things =
        claims_valid_iff "item_conflict" (λ item. item.item_name) (λ item. item.mod_id)
          (λ item. append_text "Duplicate item: " item.item_name) placed s.items in
      (
        λ h. let t = things.0 h in let p = places.0 t.0 in ((rules.0 p.0).1, p.1, t.1),
        λ h. things.1 (places.1 (rules.1 (refl, h.0), h.1), h.2),
      )
