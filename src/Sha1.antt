-- ===== src/Sha1.antt =====
-- The class `SHA1` of APFrameworkCore/src/ap_capabilities.cpp. Words are numbers below 2 ^ 32 and
-- bytes numbers below 256, with the wrap-around of uint32_t and uint64_t written out.
pub mod Stream
pub mod Padding
pub mod Hex
use Prim.Native.Nat.{bit_and, bit_or, bit_xor}
use apf_ue4ss.Prelude.{
  ℕ, zero, suc, ◌+◌, ◌-◌, ◌*◌, ◌/◌, ◌%◌, ◌^◌, String, List, [], ◌∷◌, ◌++◌, Option, none, some,
  length, get_elem?, fold, ltb, ◌==◌, if◌then◌else◌,
}
use apf_ue4ss.Prelude.Text.{bytes}

-- `h_[5]`, and the five variables of the rounds.
pub record Words : Type 0 where
  pub a : ℕ
  pub b : ℕ
  pub c : ℕ
  pub d : ℕ
  pub e : ℕ

-- `buffer` holds the first `buffer_size_` bytes of `buffer_`: what stands behind them is not read.
pub record Sha1 : Type 0 where
  pub h : Words
  pub buffer : List ℕ
  pub bit_count : ℕ

abbrev pub u32 : ℕ → ℕ
u32 n = n % 4294967296

abbrev pub u64 : ℕ → ℕ
u64 n = n % 18446744073709551616

abbrev pub initial : Words
initial = record { a = 0x67452301; b = 0xEFCDAB89; c = 0x98BADCFE; d = 0x10325476; e = 0xC3D2E1F0 }

unfoldable pub reset : Sha1
reset = record { h = initial; buffer = []; bit_count = 0 }

-- `bits` is 1, 5 or 30.
rotate_left : ℕ → ℕ → ℕ
rotate_left value bits = bit_or (u32 (value * 2 ^ bits)) (value / 2 ^ (32 - bits))

-- `w[i]` for `i < 16`: four bytes, big-endian.
big_endian : List ℕ → List ℕ
big_endian (p ∷ q ∷ r ∷ s ∷ rest) =
    bit_or (bit_or (bit_or (p * 2 ^ 24) (q * 2 ^ 16)) (r * 2 ^ 8)) s ∷ big_endian rest
big_endian _ = []

abbrev word_at : List ℕ → ℕ → ℕ
word_at w i = elim (get_elem? w i) [ none ↦ 0 | some x ↦ x ]

-- The words so far with the latest one first, so that `w[i - k]` stands at position `k - 1`.
extend : ℕ → List ℕ → List ℕ
extend zero w = w
extend (suc left) w = extend left (
    rotate_left
      (bit_xor (bit_xor (bit_xor (word_at w 2) (word_at w 7)) (word_at w 13)) (word_at w 15)) 1
    ∷ w)

abbrev reversed : List ℕ → List ℕ → List ℕ
reversed [] acc = acc
reversed (x ∷ xs) acc = reversed xs (x ∷ acc)

round_f : ℕ → Words → ℕ
round_f i r =
    if ltb i 20
    then bit_or (bit_and r.b r.c) (bit_and (4294967295 - r.b) r.d)
    else if ltb i 40
    then bit_xor (bit_xor r.b r.c) r.d
    else if ltb i 60
    then bit_or (bit_or (bit_and r.b r.c) (bit_and r.b r.d)) (bit_and r.c r.d)
    else bit_xor (bit_xor r.b r.c) r.d

round_k : ℕ → ℕ
round_k i =
    if ltb i 20
    then 0x5A827999
    else if ltb i 40
    then 0x6ED9EBA1
    else if ltb i 60
    then 0x8F1BBCDC
    else 0xCA62C1D6

round : ℕ → ℕ → Words → Words
round i w r = record {
  a = u32 (rotate_left r.a 5 + round_f i r + r.e + round_k i + w);
  b = r.a;
  c = rotate_left r.b 30;
  d = r.c;
  e = r.d;
}

rounds : ℕ → List ℕ → Words → Words
rounds i [] r = r
rounds i (w ∷ ws) r = rounds (i + 1) ws (round i w r)

add_words : Words → Words → Words
add_words h r = record {
  a = u32 (h.a + r.a);
  b = u32 (h.b + r.b);
  c = u32 (h.c + r.c);
  d = u32 (h.d + r.d);
  e = u32 (h.e + r.e);
}

unfoldable pub process_block : List ℕ → Words → Words
unfolding rotate_left big_endian extend round_f round_k round rounds add_words
process_block buffer h =
    let w = reversed (extend 64 (reversed (big_endian buffer) [])) [] in add_words h (rounds 0 w h)

-- One turn of the loop of `update`.
unfoldable pub push_byte : Sha1 → ℕ → Sha1
push_byte s byte =
    let full = s.buffer ++ byte ∷ [] in
    if length full == 64
    then record s { h = process_block full s.h; buffer = [] }
    else record s { buffer = full }

unfoldable pub update : Sha1 → List ℕ → Sha1
unfolding push_byte
update s data_bytes =
    let t = fold push_byte s data_bytes in
    record t { bit_count = u64 (t.bit_count + length data_bytes * 8) }

unfoldable pub update_text : Sha1 → String → Sha1
update_text s text = update s (bytes text)

-- The test for a full buffer in the loop of the padding.
unfoldable pub flush : Sha1 → Sha1
flush s =
    if length s.buffer == 64 then record s { h = process_block s.buffer s.h; buffer = [] } else s

-- The loop `while (buffer_size_ != 56)` of the padding, on fuel.
unfoldable pub pad_loop : ℕ → Sha1 → Option Sha1
pad_loop zero s = none
pad_loop (suc fuel) s =
    let t = flush s in
    let rest = pad_loop fuel (record t { buffer = t.buffer ++ 0 ∷ [] }) in
    if length s.buffer == 56 then some s else rest

-- Eight bytes of the length in bits, big-endian.
abbrev pub length_bytes : ℕ → List ℕ
length_bytes n =
    n / 2 ^ 56 % 256
    ∷ n / 2 ^ 48 % 256
    ∷ n / 2 ^ 40 % 256
    ∷ n / 2 ^ 32 % 256
    ∷ n / 2 ^ 24 % 256
    ∷ n / 2 ^ 16 % 256
    ∷ n / 2 ^ 8 % 256
    ∷ n % 256
    ∷ []

-- The words that `final_hex` prints; 64 turns of the padding loop are enough.
unfoldable pub final_words : Sha1 → Option Words
final_words s = elim (pad_loop 64 (record s { buffer = s.buffer ++ 0x80 ∷ [] })) [
  | none ↦ none
  | some t ↦ some (process_block (t.buffer ++ length_bytes s.bit_count) t.h)
]
