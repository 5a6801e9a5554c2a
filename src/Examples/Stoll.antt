-- ===== src/Examples/Stoll.antt =====
-- A function that can stand for `std::stoll`: it reads an optional minus and digits.
use Prim.Native.Char.{code}
use Prim.Native.String.{◌++◌ as append_text}
use Prim.Native.String.append
use apf_ue4ss.Prelude.{
  ℕ, zero, suc, ◌+◌, ◌-◌, ◌*◌, ◌/◌, ◌%◌, ◌<◌, ◌≤◌, ltb, leb, ltb→lt, ◌==◌, String, Bool, true,
  false, not, ◌&&◌, ◌≡◌, refl, ap, ◌∙◌, Option, none, some, if◌then◌else◌, arith, Bool-cases, inl,
  inr,
}
use apf_ue4ss.Prelude.Int.{ℤ, pos, negsuc}
use apf_ue4ss.Prelude.Text.{digit, decimal, to_string, is_empty}

abbrev digits : String → Bool
digits String.[] = true
digits (String.◌∷◌ c s) = leb 48 (code c) && leb (code c) 57 && digits s

abbrev value_of : String → ℕ → ℕ
value_of String.[] n = n
value_of (String.◌∷◌ c s) n = value_of s (n * 10 + (code c - 48))

abbrev number_of : String → Option ℕ
number_of s = if digits s && not (is_empty s) then some (value_of s 0) else none

abbrev pub stoll : String → Option ℤ
stoll String.[] = none
stoll (String.◌∷◌ c s) =
    if code c == 45
    then elim (number_of s) [ none ↦ none | some n ↦ some (negsuc (n - 1)) ]
    else elim (number_of (String.◌∷◌ c s)) [ none ↦ none | some n ↦ some (pos n) ]

digit-value : (d n : ℕ) → d < 10 → value_of (digit d) n ≡ n * 10 + d
digit-value zero n h = refl
digit-value (suc zero) n h = refl
digit-value (suc (suc zero)) n h = refl
digit-value (suc (suc (suc zero))) n h = refl
digit-value (suc (suc (suc (suc zero)))) n h = refl
digit-value (suc (suc (suc (suc (suc zero))))) n h = refl
digit-value (suc (suc (suc (suc (suc (suc zero)))))) n h = refl
digit-value (suc (suc (suc (suc (suc (suc (suc zero))))))) n h = refl
digit-value (suc (suc (suc (suc (suc (suc (suc (suc zero)))))))) n h = refl
digit-value (suc (suc (suc (suc (suc (suc (suc (suc (suc zero))))))))) n h = refl
digit-value (suc (suc (suc (suc (suc (suc (suc (suc (suc (suc d)))))))))) n h =
    absurd (omega (arith, h))

digit-full : (d : ℕ) → d < 10 → is_empty (digit d) ≡ false
digit-full zero h = refl
digit-full (suc zero) h = refl
digit-full (suc (suc zero)) h = refl
digit-full (suc (suc (suc zero))) h = refl
digit-full (suc (suc (suc (suc zero)))) h = refl
digit-full (suc (suc (suc (suc (suc zero))))) h = refl
digit-full (suc (suc (suc (suc (suc (suc zero)))))) h = refl
digit-full (suc (suc (suc (suc (suc (suc (suc zero))))))) h = refl
digit-full (suc (suc (suc (suc (suc (suc (suc (suc zero)))))))) h = refl
digit-full (suc (suc (suc (suc (suc (suc (suc (suc (suc zero))))))))) h = refl
digit-full (suc (suc (suc (suc (suc (suc (suc (suc (suc (suc d)))))))))) h =
    absurd (omega (arith, h))

digit-digits : (d : ℕ) → d < 10 → digits (digit d) ≡ true
digit-digits zero h = refl
digit-digits (suc zero) h = refl
digit-digits (suc (suc zero)) h = refl
digit-digits (suc (suc (suc zero))) h = refl
digit-digits (suc (suc (suc (suc zero)))) h = refl
digit-digits (suc (suc (suc (suc (suc zero))))) h = refl
digit-digits (suc (suc (suc (suc (suc (suc zero)))))) h = refl
digit-digits (suc (suc (suc (suc (suc (suc (suc zero))))))) h = refl
digit-digits (suc (suc (suc (suc (suc (suc (suc (suc zero)))))))) h = refl
digit-digits (suc (suc (suc (suc (suc (suc (suc (suc (suc zero))))))))) h = refl
digit-digits (suc (suc (suc (suc (suc (suc (suc (suc (suc (suc d)))))))))) h =
    absurd (omega (arith, h))

value-append : (s t : String) (n : ℕ) → value_of (append_text s t) n ≡ value_of t (value_of s n)
value-append String.[] t n = rw (append.nil t) refl
value-append (String.◌∷◌ c s) t n =
    rw (append.cons c s t) (value-append s t (n * 10 + (code c - 48)))

decimal-value : (f n : ℕ) → n ≤ f → value_of (decimal f n) 0 ≡ n
unfolding decimal
decimal-value zero n h = digit-value (n % 10) 0 (omega arith) ∙ omega (arith, h)
decimal-value (suc f) n h = elim (Bool-cases (ltb n 10)) [
  | inl small ↦ rw small (digit-value n 0 (ltb→lt n 10 small) ∙ omega arith)
  | inr large ↦ rw large (
      value-append (decimal f (n / 10)) (digit (n % 10)) 0
      ∙ (digit-value (n % 10) (value_of (decimal f (n / 10)) 0) (omega arith)
          ∙ (ap (λ v. v * 10 + n % 10) (decimal-value f (n / 10) (omega (arith, h)))
              ∙ omega arith)))
]

digits-append : (s t : String) → digits s ≡ true → digits t ≡ true → digits (append_text s t) ≡ true
digits-append String.[] t h k = rw (append.nil t) k
digits-append (String.◌∷◌ c s) t h k =
    rw (append.cons c s t) (ground (arith, h, k, digits-append s t))

decimal-digits : (f n : ℕ) → digits (decimal f n) ≡ true
unfolding decimal
decimal-digits zero n = digit-digits (n % 10) (omega arith)
decimal-digits (suc f) n = elim (Bool-cases (ltb n 10)) [
  | inl small ↦ rw small (digit-digits n (ltb→lt n 10 small))
  | inr large ↦ rw large (
      digits-append (decimal f (n / 10)) (digit (n % 10)) (decimal-digits f (n / 10))
        (digit-digits (n % 10) (omega arith)))
]

append-full : (s t : String) → is_empty t ≡ false → is_empty (append_text s t) ≡ false
append-full String.[] t h = rw (append.nil t) h
append-full (String.◌∷◌ c s) t h = rw (append.cons c s t) refl

decimal-full : (f n : ℕ) → is_empty (decimal f n) ≡ false
unfolding decimal
decimal-full zero n = digit-full (n % 10) (omega arith)
decimal-full (suc f) n = elim (Bool-cases (ltb n 10)) [
  | inl small ↦ rw small (digit-full n (ltb→lt n 10 small))
  | inr large ↦
      rw large
        (append-full (decimal f (n / 10)) (digit (n % 10)) (digit-full (n % 10) (omega arith)))
]

number_of-decimal : (n : ℕ) → number_of (decimal n n) ≡ some n
number_of-decimal n =
    rw (decimal-digits n n, decimal-full n n, decimal-value n n (omega arith)) refl

-- A text of digits has no minus in front.
stoll-number : (s : String) (n : ℕ) → number_of s ≡ some n → stoll s ≡ some (pos n)
stoll-number String.[] n h = absurd (cc h)
stoll-number (String.◌∷◌ c s) n h = elim (Bool-cases (code c == 45)) [
  | inl minus ↦ absurd (ground (arith, h, minus))
  | inr plain ↦ rw (plain, h) refl
]

pub stoll-to_string : (n : ℤ) → stoll (to_string n) ≡ some n
unfolding to_string
stoll-to_string (pos n) = stoll-number (decimal n n) n (number_of-decimal n)
stoll-to_string (negsuc n) =
    rw
      (
        append.cons _ "" (decimal (n + 1) (n + 1)),
        append.nil (decimal (n + 1) (n + 1)),
        number_of-decimal (n + 1),
      )
      (ap (λ (m : ℕ). some (negsuc m)) (omega arith))
