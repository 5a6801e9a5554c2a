-- ===== src/Sha1/Hex.antt =====
-- The digest in text: five words, each as eight hexadecimal digits at least.
use Prim.Native.String.{◌++◌ as append_text}
use apf_ue4ss.Prelude.{ℕ, zero, suc, ◌/◌, ◌%◌, String, none, some, ◌==◌, if◌then◌else◌}
use apf_ue4ss.Sha1.{Sha1, final_words}

abbrev hex_digit : ℕ → String
hex_digit n =
    if n == 0
    then "0"
    else if n == 1
    then "1"
    else if n == 2
    then "2"
    else if n == 3
    then "3"
    else if n == 4
    then "4"
    else if n == 5
    then "5"
    else if n == 6
    then "6"
    else if n == 7
    then "7"
    else if n == 8
    then "8"
    else if n == 9
    then "9"
    else if n == 10
    then "a"
    else if n == 11
    then "b"
    else if n == 12
    then "c"
    else if n == 13
    then "d"
    else if n == 14
    then "e"
    else "f"

-- `std::setfill('0') << std::setw(8) << std::hex` of a 32-bit word, which has at most eight digits.
hex : ℕ → ℕ → String
hex zero n = ""
hex (suc width) n = append_text (hex width (n / 16)) (hex_digit (n % 16))

unfoldable pub final_hex : Sha1 → String
unfolding hex
final_hex s = elim (final_words s) [
  | none ↦ ""
  | some h ↦
      append_text (hex 8 h.a)
        (append_text (hex 8 h.b) (append_text (hex 8 h.c) (append_text (hex 8 h.d) (hex 8 h.e))))
]
