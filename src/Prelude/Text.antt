-- ===== src/Prelude/Text.antt =====
-- std::string as the native text: equality, the order of std::map's keys, and decimal numbers.
use Prim.Native.Nat.{ℕ, zero, suc, ◌+◌, ◌/◌, ◌%◌, Ordering}
use Prim.Native.Char.{code}
use Prim.Native.String.{String, compare, ◌++◌ as append_text}
use Prim.Native.String.append
use Prim.Native.String.compare
use mathlib.Core.Path.{◌≡◌, refl, sym, ap}
use mathlib.Core.Bool.{Bool, true, false}
use mathlib.Core.List.{List, [], ◌∷◌, ◌++◌, append_assoc}
use native.Mathlib.Omega.{arith}
use text.Mathlib.Text.{◌==◌ as text_eq}
use text.Mathlib.TextEquality.{path_by_compare}
use text.Mathlib.TextPositions.{eq_refl, compare_refl}
use apf_ue4ss.Prelude.Tests.{ltb, ◌==◌, if◌then◌else◌}
use apf_ue4ss.Prelude.Int.{ℤ, pos, negsuc}

-- `s == t` on std::string.
abbrev pub str_eq : String → String → Bool
str_eq s t = text_eq s t

pub str_eq_refl : (s : String) → str_eq s s ≡ true
str_eq_refl s = eq_refl s

-- `s.empty()`.
abbrev pub is_empty : String → Bool
is_empty String.[] = true
is_empty (String.◌∷◌ c s) = false

pub is_empty_eq : (s : String) → is_empty s ≡ true → s ≡ ""
is_empty_eq String.[] h = refl
is_empty_eq (String.◌∷◌ c s) h = cc

-- The code points of a text: its bytes, if it is ASCII.
abbrev pub codes : String → List ℕ
codes String.[] = []
codes (String.◌∷◌ c s) = code c ∷ codes s

-- The bytes of a text: the UTF-8 of each character.
abbrev utf8 : ℕ → List ℕ
utf8 c =
    if ltb c 128
    then c ∷ []
    else if ltb c 2048
    then (192 + c / 64) ∷ (128 + c % 64) ∷ []
    else if ltb c 65536
    then (224 + c / 4096) ∷ (128 + c / 64 % 64) ∷ (128 + c % 64) ∷ []
    else (240 + c / 262144) ∷ (128 + c / 4096 % 64) ∷ (128 + c / 64 % 64) ∷ (128 + c % 64) ∷ []

unfoldable pub bytes : String → List ℕ
bytes String.[] = []
bytes (String.◌∷◌ c s) = utf8 (code c) ++ bytes s

pub bytes-append : (s t : String) → bytes (append_text s t) ≡ bytes s ++ bytes t
unfolding bytes
bytes-append String.[] t = ap bytes (append.nil t)
bytes-append (String.◌∷◌ c s) t =
    rw (append.cons c s t)
      (rw (bytes-append s t) (sym (append_assoc (utf8 (code c)) (bytes s) (bytes t))))

pub compare_eq : (s t : String) → compare s t ≡ Ordering.eq → s ≡ t
compare_eq s t h = path_by_compare s t h

pub compare_self : (s : String) → compare s s ≡ Ordering.eq
compare_self s = compare_refl s

-- The order of texts is antisymmetric in both directions.
pub compare_flip : (s t : String) → compare s t ≡ Ordering.lt → compare t s ≡ Ordering.gt
compare_flip String.[] String.[] h = cc
compare_flip String.[] (String.◌∷◌ d t) h = compare.cons-nil d t
compare_flip (String.◌∷◌ c s) String.[] h = cc (compare.cons-nil c s)
compare_flip (String.◌∷◌ c s) (String.◌∷◌ d t) h =
    ground (arith, compare.cons-cons c d s t, compare.cons-cons d c t s, compare_flip s t)

pub compare_flip_gt : (s t : String) → compare s t ≡ Ordering.gt → compare t s ≡ Ordering.lt
compare_flip_gt String.[] String.[] h = cc
compare_flip_gt String.[] (String.◌∷◌ d t) h = cc (compare.nil-cons d t)
compare_flip_gt (String.◌∷◌ c s) String.[] h = compare.nil-cons c s
compare_flip_gt (String.◌∷◌ c s) (String.◌∷◌ d t) h =
    ground (arith, compare.cons-cons c d s t, compare.cons-cons d c t s, compare_flip_gt s t)

-- The order of texts is transitive.
pub compare_trans :
    (s t u : String)
    → compare s t ≡ Ordering.lt
    → compare t u ≡ Ordering.lt
    → compare s u ≡ Ordering.lt
compare_trans String.[] t String.[] h k = cc (h, compare_flip t "" k)
compare_trans String.[] t (String.◌∷◌ e u) h k = compare.nil-cons e u
compare_trans (String.◌∷◌ c s) String.[] u h k = cc (compare.cons-nil c s)
compare_trans (String.◌∷◌ c s) (String.◌∷◌ d t) String.[] h k = cc (compare.cons-nil d t)
compare_trans (String.◌∷◌ c s) (String.◌∷◌ d t) (String.◌∷◌ e u) h k = ground (
  arith,
  compare.cons-cons c d s t,
  compare.cons-cons d e t u,
  compare.cons-cons c e s u,
  compare_trans s t u,
)

abbrev pub digit : ℕ → String
digit n =
    if n == 0
    then "0"
    else if n == 1
    then "1"
    else if n == 2
    then "2"
    else if n == 3
    then "3"
    else if n == 4
    then "4"
    else if n == 5
    then "5"
    else if n == 6
    then "6"
    else if n == 7
    then "7"
    else if n == 8
    then "8"
    else "9"

-- `n` in decimal; `n` rounds are enough, since each divides by ten.
unfoldable pub decimal : ℕ → ℕ → String
decimal zero n = digit (n % 10)
decimal (suc f) n =
    let more = append_text (decimal f (n / 10)) (digit (n % 10)) in
    if ltb n 10 then digit n else more

-- `std::to_string` of an integer.
unfoldable pub to_string : ℤ → String
unfolding decimal
to_string (pos n) = decimal n n
to_string (negsuc n) = append_text "-" (decimal (n + 1) (n + 1))

to_string_test : append_text (to_string (pos 6942067)) (to_string (negsuc 9)) ≡ "6942067-10"
unfolding to_string
to_string_test = refl
