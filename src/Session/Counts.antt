-- ===== src/Session/Counts.antt =====
-- The counters, the set of checked locations and the checksum of the session.
use apf_ue4ss.Prelude.{
  ℕ, suc, String, true, ◌≡◌, ◌↔◌, ◌⊎◌, sym, ◌∙◌, ap, List, [], ◌∷◌, arith, if◌then◌else◌, eq_iff,
  inl, inr, Bool-cases,
}
use apf_ue4ss.Prelude.Int.{ℤ, pos, ◌+ℤ◌, eqb_ℤ, eqb_ℤ_iff, +ℤ-suc, +ℤ-zero}
use apf_ue4ss.Prelude.Text.{is_empty, is_empty_eq}
use apf_ue4ss.Prelude.Dict.{int_eq, lookup-put, contains-add}
use apf_ue4ss.Session.{
  StateManager, increment_item_progression_count, get_item_progression_count, add_checked_location,
  is_location_checked, validate_checksum,
}

-- A checksum passes exactly if none is stored or it is the stored one.
pub validate_checksum_iff :
    (s : StateManager) (current : String)
    → (validate_checksum s current ≡ true)
      ↔ ((s.state.checksum ≡ "") ⊎ (s.state.checksum ≡ current))
unfolding validate_checksum
validate_checksum_iff s current = (
  λ h. elim (Bool-cases (is_empty s.state.checksum)) [
    | inl e ↦ inl (is_empty_eq s.state.checksum e)
    | inr e ↦ inr ((eq_iff s.state.checksum current).0 (rw e at h))
  ],
  λ h. elim h [ inl e ↦ rw e | inr e ↦ ground (arith, eq_iff s.state.checksum current) ],
)

-- One increment raises the count of its item and leaves the others.
pub get-increment :
    (s : StateManager) (id j : ℤ)
    → get_item_progression_count (increment_item_progression_count s id).0 j ≡ (
        if eqb_ℤ id j
        then get_item_progression_count s j +ℤ pos 1
        else get_item_progression_count s j)
unfolding increment_item_progression_count get_item_progression_count
get-increment s id j = ground (
  arith,
  eqb_ℤ_iff id j,
  lookup-put id j (get_item_progression_count s id +ℤ pos 1) s.state.item_progression_counts,
)

-- `increment_item_progression_count` for each id of a list.
unfoldable pub increment_all : StateManager → List ℤ → StateManager
increment_all s [] = s
increment_all s (id ∷ ids) = increment_all (increment_item_progression_count s id).0 ids

abbrev pub occurrences : ℤ → List ℤ → ℕ
occurrences j [] = 0
occurrences j (id ∷ ids) = if eqb_ℤ id j then suc (occurrences j ids) else occurrences j ids

-- The progression count of an item grows by one for each increment of that item and for no other.
pub get-increment_all :
    (s : StateManager) (ids : List ℤ) (j : ℤ)
    → get_item_progression_count (increment_all s ids) j
      ≡ get_item_progression_count s j +ℤ pos (occurrences j ids)
unfolding increment_all
get-increment_all s [] j = sym (+ℤ-zero _)
get-increment_all s (id ∷ ids) j =
    let next = (increment_item_progression_count s id).0 in
    let ih = get-increment_all next ids j in
    let one = get-increment s id j in
    elim (Bool-cases (eqb_ℤ id j)) [
      | inl hit ↦ rw hit (
          ih
          ∙ ap (λ c. c +ℤ pos (occurrences j ids)) (rw hit at one)
          ∙ sym (+ℤ-suc (get_item_progression_count s j) (occurrences j ids)))
      | inr miss ↦ rw miss (ih ∙ ap (λ c. c +ℤ pos (occurrences j ids)) (rw miss at one))
    ]

-- A location is checked after `add_checked_location` if it is the one added or was checked before.
pub is_location_checked-add :
    (s : StateManager) (id j : ℤ)
    → is_location_checked (add_checked_location s id) j
      ≡ (if eqb_ℤ id j then true else is_location_checked s j)
unfolding is_location_checked add_checked_location
is_location_checked-add s id j = contains-add id j s.state.checked_locations
