-- ===== src/Capabilities/Validate/Owners.antt =====
-- The two loops of `validate` that look for one name under two mods.
use mathlib.Core.Bool.{false≢true}
use apf_ue4ss.Prelude.{
  String, true, false, ◌≡◌, refl, sym, ◌∙◌, ap, ◌↔◌, none, some, List, [], ◌∷◌, fold, In, here,
  there, arith, eq_iff, Option-cases, Bool-cases, inl, inr,
}
use apf_ue4ss.Prelude.Text.{str_eq, str_eq_refl}
use apf_ue4ss.Prelude.Dict.{OrdMap, insert, find_key, find_key-insert}
use apf_ue4ss.Types.{ValidationResult}
use apf_ue4ss.Capabilities.Validate.{report, claim}

-- What the claim of `key` by `mod_id` leaves, case by case.
claim_free :
    (capability key mod_id text : String) (r : ValidationResult) (owners : OrdMap String)
    → find_key key owners ≡ none
    → claim capability key mod_id text (r, owners) ≡ (r, insert key mod_id owners)
unfolding claim
claim_free capability key mod_id text r owners h = rw (h, claim)

claim_own :
    (capability key mod_id text : String) (r : ValidationResult) (owners : OrdMap String)
    → find_key key owners ≡ some mod_id
    → claim capability key mod_id text (r, owners) ≡ (r, insert key mod_id owners)
unfolding claim
claim_own capability key mod_id text r owners h = rw (h, claim) (rw (str_eq_refl mod_id))

claim_clash :
    (capability key mod_id text owner : String) (r : ValidationResult) (owners : OrdMap String)
    → find_key key owners ≡ some owner
    → str_eq owner mod_id ≡ false
    → (claim capability key mod_id text (r, owners)).0.valid ≡ false
unfolding claim report
claim_clash capability key mod_id text owner r owners h e = rw (h, claim) (rw e)

-- A claim never makes the result valid again.
claim_monotone :
    (capability key mod_id text : String) (st : ValidationResult × OrdMap String)
    → (claim capability key mod_id text st).0.valid ≡ true
    → st.0.valid ≡ true
unfolding claim report
claim_monotone capability key mod_id text st h = ground arith

-- Elements with one key have one owner.
abbrev pub OneOwner : {A : Type 0} → (A → String) → (A → String) → List A → Type 0
OneOwner {A} key owner xs = (x y : A) → In x xs → In y xs → key x ≡ key y → owner x ≡ owner y

module _ {A : Type 0} (capability : String) (key owner describe : A → String) where
  abbrev pub claims : ValidationResult × OrdMap String → List A → ValidationResult × OrdMap String
  claims = fold (λ st a. claim capability (key a) (owner a) (describe a) st)

  -- Every holder of a key is the one that the table names.
  abbrev Agrees : OrdMap String → List A → Type 0
  Agrees owners xs =
      (x : A) → In x xs → (o : String) → find_key (key x) owners ≡ some o → owner x ≡ o

  claims_monotone :
      (st : ValidationResult × OrdMap String) (xs : List A)
      → (claims st xs).0.valid ≡ true
      → st.0.valid ≡ true
  claims_monotone st [] h = h
  claims_monotone st (x ∷ xs) h =
      claim_monotone capability (key x) (owner x) (describe x) st
        (claims_monotone (claim capability (key x) (owner x) (describe x) st) xs h)

  -- A claim that leaves the result valid found no other owner, and enters its own.
  claim_valid :
      (r : ValidationResult) (owners : OrdMap String) (x : A)
      → (claim capability (key x) (owner x) (describe x) (r, owners)).0.valid ≡ true
      → ((o : String) → find_key (key x) owners ≡ some o → owner x ≡ o)
        × (claim capability (key x) (owner x) (describe x) (r, owners)
            ≡ (r, insert (key x) (owner x) owners))
  claim_valid r owners x h = elim (Option-cases (find_key (key x) owners)) [
    | inl free ↦
        (λ o e. cc (free, e), claim_free capability (key x) (owner x) (describe x) r owners free)
    | inr (p, e) ↦ elim (Bool-cases (str_eq p (owner x))) [
      | inl own ↦
          let same : p ≡ owner x = (eq_iff p (owner x)).0 own in
          (
            λ o q. cc (e, q, same),
            claim_own capability (key x) (owner x) (describe x) r owners (e ∙ ap some same),
          )
      | inr other ↦ absurd (
          false≢true
            (sym (claim_clash capability (key x) (owner x) (describe x) p r owners e other) ∙ h))
    ]
  ]

  claim_agrees :
      (r : ValidationResult) (owners : OrdMap String) (x : A)
      → ((o : String) → find_key (key x) owners ≡ some o → owner x ≡ o)
      → claim capability (key x) (owner x) (describe x) (r, owners)
        ≡ (r, insert (key x) (owner x) owners)
  claim_agrees r owners x h = elim (Option-cases (find_key (key x) owners)) [
    | inl free ↦ claim_free capability (key x) (owner x) (describe x) r owners free
    | inr (p, e) ↦
        claim_own capability (key x) (owner x) (describe x) r owners (e ∙ ap some (sym (h p e)))
  ]

  Agrees-insert :
      (owners : OrdMap String) (x : A) (xs : List A)
      → Agrees owners (x ∷ xs)
      → OneOwner key owner (x ∷ xs)
      → Agrees (insert (key x) (owner x) owners) xs
  Agrees-insert owners x xs agrees one y i o e = elim (Bool-cases (str_eq (key x) (key y))) [
    | inl same ↦
        let eq : key x ≡ key y = (eq_iff (key x) (key y)).0 same in
        let hit : some (owner x) ≡ some o =
          rw (find_key-insert (key x) (key y) (owner x) owners, same) at e in
        cc (one x y here (there i) eq, hit)
    | inr other ↦
        agrees y (there i) o (rw (find_key-insert (key x) (key y) (owner x) owners, other) at e)
  ]

  -- With one owner to a key the loop reports nothing.
  claims-OneOwner :
      (r : ValidationResult) (owners : OrdMap String) (xs : List A)
      → Agrees owners xs
      → OneOwner key owner xs
      → (claims (r, owners) xs).0 ≡ r
  claims-OneOwner r owners [] agrees one = refl
  claims-OneOwner r owners (x ∷ xs) agrees one =
      ap (λ st. (claims st xs).0) (claim_agrees r owners x (agrees x here))
      ∙ (claims-OneOwner r (insert (key x) (owner x) owners) xs
          (Agrees-insert owners x xs agrees one) (λ y z i j. one y z (there i) (there j)))

  -- What the table says of `y` once `x` is entered in it.
  find_key_entered :
      (owners : OrdMap String) (x y : A)
      → key x ≡ key y
      → find_key (key y) (insert (key x) (owner x) owners) ≡ some (owner x)
  find_key_entered owners x y e =
      rw (find_key-insert (key x) (key y) (owner x) owners, (eq_iff (key x) (key y)).1 e)

  find_key_kept :
      (owners : OrdMap String) (x y : A)
      → str_eq (key x) (key y) ≡ false
      → find_key (key y) (insert (key x) (owner x) owners) ≡ find_key (key y) owners
  find_key_kept owners x y e = rw (find_key-insert (key x) (key y) (owner x) owners, e)

  -- After a turn that reports nothing the loop goes on with `x` entered.
  claims_turn :
      (r : ValidationResult) (owners : OrdMap String) (x : A) (xs : List A)
      → (claims (r, owners) (x ∷ xs)).0.valid ≡ true
      → (claims (r, insert (key x) (owner x) owners) xs).0.valid ≡ true
  claims_turn r owners x xs h =
      let first = (claim_valid r owners x (claims_monotone _ xs h)).1 in
      sym (ap (λ st. (claims st xs).0.valid) first) ∙ h

  -- If the loop leaves the result valid, the rest agrees with the table it started from.
  claims-Agrees :
      (r : ValidationResult) (owners : OrdMap String) (xs : List A)
      → (claims (r, owners) xs).0.valid ≡ true
      → Agrees owners xs
  claims-Agrees r owners [] h y i o e = elim i [ ]
  claims-Agrees r owners (x ∷ xs) h y here o e =
      (claim_valid r owners x (claims_monotone _ xs h)).0 o e
  claims-Agrees r owners (x ∷ xs) h y (there i) o e =
      let next = insert (key x) (owner x) owners in
      let ih = claims-Agrees r next xs (claims_turn r owners x xs h) y i in
      let mine = (claim_valid r owners x (claims_monotone _ xs h)).0 in
      elim (Bool-cases (str_eq (key x) (key y))) [
        | inl same ↦
            let eq : key x ≡ key y = (eq_iff (key x) (key y)).0 same in
            ih (owner x) (find_key_entered owners x y eq)
            ∙ mine o (ap (λ k. find_key k owners) eq ∙ e)
        | inr other ↦ ih o (find_key_kept owners x y other ∙ e)
      ]

  claims_one :
      (r : ValidationResult) (owners : OrdMap String) (xs : List A)
      → (claims (r, owners) xs).0.valid ≡ true
      → OneOwner key owner xs
  claims_one r owners [] h y z i j e = elim i [ ]
  claims_one r owners (x ∷ xs) h y z here here e = refl
  claims_one r owners (x ∷ xs) h y z here (there j) e = sym (
      claims-Agrees r (insert (key x) (owner x) owners) xs (claims_turn r owners x xs h) z j
        (owner x) (find_key_entered owners x z e))
  claims_one r owners (x ∷ xs) h y z (there i) here e =
      claims-Agrees r (insert (key x) (owner x) owners) xs (claims_turn r owners x xs h) y i
        (owner x) (find_key_entered owners x y (sym e))
  claims_one r owners (x ∷ xs) h y z (there i) (there j) e =
      claims_one r (insert (key x) (owner x) owners) xs (claims_turn r owners x xs h) y z i j e

  -- A loop that starts with an empty table ends valid exactly if it was valid and no key has two
  -- owners.
  pub claims_valid_iff :
      (r : ValidationResult) (xs : List A)
      → ((claims (r, []) xs).0.valid ≡ true) ↔ ((r.valid ≡ true) × OneOwner key owner xs)
  unfolding find_key
  claims_valid_iff r xs = (
    λ h. (claims_monotone (r, []) xs h, claims_one r [] xs h),
    λ h. ap (λ q. q.valid) (claims-OneOwner r [] xs (λ y i o e. cc e) h.1) ∙ h.0,
  )
