-- ===== src/Prelude/Dict.antt =====
-- The standard maps and sets of the program. An `Assoc` is an unordered_map, in the order in which
-- its keys came in (the program's own order is unspecified); a set is a list without order. An
-- `OrdMap` is a std::map with string keys, ascending.
mod Ordered
unfoldable pub use Ordered.*
use Prim.Native.String.{String}
use mathlib.Core.Path.{◌≡◌, refl}
use mathlib.Core.Logic.{◌↔◌}
use mathlib.Core.Bool.{Bool, true, false}
use mathlib.Core.Option.{Option, none, some}
use mathlib.Core.List.{List, [], ◌∷◌}
use native.Mathlib.Omega.{arith}
use text.Mathlib.TextEquality.{eq_iff}
use apf_ue4ss.Prelude.Tests.{if◌then◌else◌}
use apf_ue4ss.Prelude.Int.{ℤ, eqb_ℤ, eqb_ℤ_iff}
use apf_ue4ss.Prelude.Text.{str_eq}

-- Equality of keys.
pub record Eq {ℓ} (A : Type ℓ) : Type ℓ where
  pub beq : A → A → Bool
  pub beq_iff : (a b : A) → (beq a b ≡ true) ↔ (a ≡ b)

instance abbrev pub string_eq : Eq String
string_eq = record { beq = str_eq; beq_iff = eq_iff }

instance abbrev pub int_eq : Eq ℤ
int_eq = record { beq = eqb_ℤ; beq_iff = eqb_ℤ_iff }

module _ {ℓ κ} {K : Type ℓ} {V : Type κ} ⦃e : Eq K⦄ where
  -- `map.find(k)`.
  unfoldable pub lookup : K → List (K × V) → Option V
  lookup k [] = none
  lookup k ((j, v) ∷ m) = if e.beq j k then some v else lookup k m

  -- `map[k] = v`.
  unfoldable pub put : K → V → List (K × V) → List (K × V)
  put k v [] = (k, v) ∷ []
  put k v ((j, w) ∷ m) = if e.beq j k then (j, v) ∷ m else (j, w) ∷ put k v m

  -- `map.erase(k)`.
  unfoldable pub erase : K → List (K × V) → List (K × V)
  erase k [] = []
  erase k ((j, v) ∷ m) = if e.beq j k then m else (j, v) ∷ erase k m

  pub lookup-put :
      (k j : K) (v : V) (m : List (K × V))
      → lookup j (put k v m) ≡ (if e.beq k j then some v else lookup j m)
  unfolding lookup put
  lookup-put k j v [] = refl
  lookup-put k j v ((i, w) ∷ m) =
      ground (arith, e.beq_iff k j, e.beq_iff i k, e.beq_iff i j, lookup-put k j v m)

  pub lookup-put_self : (k : K) (v : V) (m : List (K × V)) → lookup k (put k v m) ≡ some v
  lookup-put_self k v m = rw (lookup-put k k v m, (e.beq_iff k k).1 refl) refl

module _ {ℓ} {K : Type ℓ} ⦃e : Eq K⦄ where
  -- `set.find(k) != set.end()`.
  unfoldable pub contains : K → List K → Bool
  contains k [] = false
  contains k (j ∷ s) = if e.beq j k then true else contains k s

  -- `set.insert(k)`.
  unfoldable pub add : K → List K → List K
  add k s = if contains k s then s else k ∷ s

  pub contains-add :
      (k j : K) (s : List K) → contains j (add k s) ≡ (if e.beq k j then true else contains j s)
  unfolding add contains
  contains-add k j s = ground (arith, e.beq_iff k j)
