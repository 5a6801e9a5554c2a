-- ===== src/Prelude/Int.antt =====
-- Signed integers over the native numbers, under the library's names (its ℤ stands on the unary ℕ).
-- `int` and `int64_t` of the program are modelled by them: signed overflow has no meaning in C++.
use Prim.Native.Nat.{ℕ, suc, ◌+◌, ◌-◌, ◌≤◌}
use mathlib.Core.Path.{◌≡◌}
use mathlib.Core.Logic.{◌↔◌, ◌≢◌}
use mathlib.Core.Bool.{Bool, true, false}
use native.Mathlib.Omega.{arith}
use apf_ue4ss.Prelude.Tests.{ltb, leb, ◌==◌, if◌then◌else◌}

-- `negsuc n` is -(n + 1).
pub data ℤ : Type 0 where
  pos : ℕ → ℤ
  negsuc : ℕ → ℤ

abbrev pub pos_part : ℤ → ℕ
pos_part (pos n) = n
pos_part (negsuc n) = 0

abbrev pub neg_part : ℤ → ℕ
neg_part (pos n) = 0
neg_part (negsuc n) = suc n

-- a - b, as an integer.
abbrev pub sub_ℕ : ℕ → ℕ → ℤ
sub_ℕ a b = if leb b a then pos (a - b) else negsuc (b - a - 1)

infixl 65 ◌+ℤ◌
infix 50 ◌≤ℤ◌
unfoldable pub ◌+ℤ◌ : ℤ → ℤ → ℤ
a +ℤ b = sub_ℕ (pos_part a + pos_part b) (neg_part a + neg_part b)

abbrev pub ◌≤ℤ◌ : ℤ → ℤ → Type 0
a ≤ℤ b = pos_part a + neg_part b ≤ pos_part b + neg_part a

-- The tests `a < b`, `a <= b` and `a == b` on integers.
abbrev pub ltb_ℤ : ℤ → ℤ → Bool
ltb_ℤ a b = ltb (pos_part a + neg_part b) (pos_part b + neg_part a)

abbrev pub leb_ℤ : ℤ → ℤ → Bool
leb_ℤ a b = leb (pos_part a + neg_part b) (pos_part b + neg_part a)

abbrev pub eqb_ℤ : ℤ → ℤ → Bool
eqb_ℤ a b = (pos_part a + neg_part b) == (pos_part b + neg_part a)

pub +ℤ_parts :
    (a b : ℤ)
    → pos_part (a +ℤ b) + neg_part a + neg_part b ≡ neg_part (a +ℤ b) + pos_part a + pos_part b
unfolding ◌+ℤ◌
+ℤ_parts a b = ground arith

pub eq_of_parts : (a b : ℤ) → pos_part a + neg_part b ≡ pos_part b + neg_part a → a ≡ b
eq_of_parts a b h = ground arith

pub eqb_ℤ_iff : (a b : ℤ) → (eqb_ℤ a b ≡ true) ↔ (a ≡ b)
eqb_ℤ_iff a b = ground arith

pub eqb_ℤ_refl : (a : ℤ) → eqb_ℤ a a ≡ true
eqb_ℤ_refl a = ground arith

pub +ℤ_assoc : (a b c : ℤ) → a +ℤ b +ℤ c ≡ a +ℤ (b +ℤ c)
unfolding ◌+ℤ◌
+ℤ_assoc a b c = ground arith

pub +ℤ-pos_inj : (a : ℤ) (m n : ℕ) → a +ℤ pos m ≡ a +ℤ pos n → m ≡ n
unfolding ◌+ℤ◌
+ℤ-pos_inj a m n h = ground arith

pub +ℤ-suc : (c : ℤ) (k : ℕ) → c +ℤ pos (suc k) ≡ c +ℤ pos 1 +ℤ pos k
unfolding ◌+ℤ◌
+ℤ-suc c k = ground arith

pub +ℤ-zero : (c : ℤ) → c +ℤ pos 0 ≡ c
unfolding ◌+ℤ◌
+ℤ-zero c = ground arith

-- A number is not its own later successor.
pub eqb_ℤ-later : (c : ℤ) (k : ℕ) → eqb_ℤ c (c +ℤ pos (suc k)) ≡ false
unfolding ◌+ℤ◌
eqb_ℤ-later c k = ground arith

pub +ℤ-pos : (c : ℤ) (m n : ℕ) → c +ℤ pos m +ℤ pos n ≡ c +ℤ pos (m + n)
unfolding ◌+ℤ◌
+ℤ-pos c m n = ground arith

pub eqb_ℤ-offset : (c : ℤ) (m n : ℕ) → m ≢ n → eqb_ℤ (c +ℤ pos m) (c +ℤ pos n) ≡ false
unfolding ◌+ℤ◌
eqb_ℤ-offset c m n h = ground arith

pub ruleset int_laws = (arith, +ℤ_parts, eq_of_parts)
