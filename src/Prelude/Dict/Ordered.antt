-- ===== src/Prelude/Dict/Ordered.antt =====
-- std::map<std::string, V>: the entries in ascending order of their keys.
use Prim.Native.Nat.{Ordering}
use Prim.Native.String.{String, compare}
use mathlib.Core.Path.{◌≡◌, refl}
use mathlib.Core.Logic.{◌≢◌}
use mathlib.Core.Option.{Option, none, some}
use mathlib.Core.List.{List, [], ◌∷◌}
use native.Mathlib.Omega.{arith}
use text.Mathlib.TextEquality.{eq_iff}
use apf_ue4ss.Prelude.Tests.{if◌then◌else◌}
use apf_ue4ss.Prelude.Text.{
  str_eq, compare_eq, compare_flip, compare_flip_gt, compare_trans, compare_self,
}

abbrev pub OrdMap {ℓ} : Type ℓ → Type ℓ
OrdMap V = List (String × V)

module _ {ℓ} {V : Type ℓ} where
  -- `map[k] = v`.
  unfoldable pub insert : String → V → OrdMap V → OrdMap V
  insert k v [] = (k, v) ∷ []
  insert k v ((j, w) ∷ m) =
      let further = (j, w) ∷ insert k v m in
      elim (compare k j) [
        | Ordering.lt ↦ (k, v) ∷ (j, w) ∷ m
        | Ordering.eq ↦ (k, v) ∷ m
        | Ordering.gt ↦ further
      ]

  -- `map.find(k)`.
  unfoldable pub find_key : String → OrdMap V → Option V
  find_key k [] = none
  find_key k ((j, w) ∷ m) = if str_eq j k then some w else find_key k m

  pub find_key-insert :
      (k j : String) (v : V) (m : OrdMap V)
      → find_key j (insert k v m) ≡ (if str_eq k j then some v else find_key j m)
  unfolding insert find_key
  find_key-insert k j v [] = refl
  find_key-insert k j v ((i, w) ∷ m) =
      ground (arith, eq_iff k j, eq_iff i k, eq_iff i j, compare_eq k i, find_key-insert k j v m)

  insert_lt :
      (j k : String) (v w : V) (m : OrdMap V)
      → compare j k ≡ Ordering.lt
      → insert j v (insert k w m) ≡ insert k w (insert j v m)
  unfolding insert
  insert_lt j k v w [] h = ground (arith, compare_flip j k)
  insert_lt j k v w ((i, u) ∷ m) h = ground (
    arith,
    compare_flip j k,
    compare_self k,
    compare_self j,
    compare_eq j i,
    compare_eq k i,
    compare_flip_gt j i,
    compare_flip_gt k i,
    compare_flip j i,
    compare_trans j k i,
    compare_trans i j k,
    insert_lt j k v w m h,
  )

  -- Two different keys may be inserted in either order.
  pub insert_comm :
      (j k : String) (v w : V) (m : OrdMap V)
      → j ≢ k
      → insert j v (insert k w m) ≡ insert k w (insert j v m)
  insert_comm j k v w m h =
      ground (arith, compare_eq j k, compare_flip_gt j k, insert_lt j k v w m, insert_lt k j w v m)
