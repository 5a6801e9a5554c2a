-- ===== src/Pipe/Laws.antt =====
-- The length prefix and the bounds of the read buffer.
use mathlib.Core.Option.{some-injective}
use apf_ue4ss.Prelude.{
  ℕ, ◌+◌, ◌%◌, ◌≤◌, ◌<◌, ◌≡◌, refl, ◌≢◌, ◌↔◌, some, List, [], ◌∷◌, ◌++◌, length, take, drop, ltb,
  All, lt→ltb, ltb→lt, ap, subst, sym, ◌∙◌, false, arith, Bool-cases, inl, inr, length-append,
}
use apf_ue4ss.Pipe.{word, length_prefix, msg_length, frame, out_of_bounds, content, extract}

msg_length-prefix : (n : ℕ) (rest : List ℕ) → n < word → msg_length (length_prefix n ++ rest) ≡ n
unfolding msg_length length_prefix
msg_length-prefix n rest h = omega (arith, h)

msg_length-bound : (bytes : List ℕ) → All (λ b. b < 256) bytes → msg_length bytes < word
unfolding msg_length
msg_length-bound [] h = omega arith
msg_length-bound (a ∷ []) h = omega arith
msg_length-bound (a ∷ b ∷ []) h = omega arith
msg_length-bound (a ∷ b ∷ c ∷ []) h = omega arith
msg_length-bound (a ∷ b ∷ c ∷ d ∷ rest) (ha, (hb, (hc, (hd, h)))) = omega (arith, ha, hb, hc, hd)

small-mod : (n : ℕ) → n < word → n % word ≡ n
small-mod n h = omega (arith, h)

not-ltb : (a b : ℕ) → b ≤ a → ltb a b ≡ false
not-ltb a b h = ground arith

not-lt : (a b : ℕ) → ltb a b ≡ false → b ≤ a
not-lt a b h = ground arith

take-all : (xs ys : List ℕ) → take (length xs) (xs ++ ys) ≡ xs
take-all [] ys = refl
take-all (x ∷ xs) ys = ap (λ l. x ∷ l) (take-all xs ys)

take-exact : (xs : List ℕ) → take (length xs) xs ≡ xs
take-exact [] = refl
take-exact (x ∷ xs) = ap (λ l. x ∷ l) (take-exact xs)

pub frame_lem :
    (json_str : List ℕ)
    → 4 + length json_str < word
    → frame json_str ≡ some (length_prefix (length json_str) ++ json_str)
unfolding frame
frame_lem json_str h =
    rw
      (
        small-mod (length json_str) (omega (arith, h)),
        lt→ltb (4 + length json_str) word h,
        take-exact json_str,
      )
      refl

extract-content :
    (read_buffer : List ℕ) (bytes_received n : ℕ)
    → msg_length read_buffer ≡ n
    → 4 + n < word
    → 4 + n ≤ bytes_received
    → bytes_received ≤ length read_buffer
    → extract read_buffer bytes_received ≡ content (take n (drop 4 read_buffer))
unfolding extract
extract-content read_buffer bytes_received n e h k l =
    rw
      (
        e,
        not-ltb bytes_received 4 (omega (arith, k)),
        small-mod (4 + n) h,
        not-ltb bytes_received (4 + n) k,
        not-ltb (length read_buffer) (4 + n) (omega (arith, k, l)),
      )
      refl

framed-content :
    (json_str stale : List ℕ)
    → 4 + length json_str < word
    → extract
        ((length_prefix (length json_str) ++ json_str) ++ stale)
        (length (length_prefix (length json_str) ++ json_str))
      ≡ content json_str
unfolding length_prefix
framed-content json_str stale h =
    let n = length json_str in
    extract-content (length_prefix n ++ (json_str ++ stale)) (length (length_prefix n ++ json_str))
      n (msg_length-prefix n (json_str ++ stale) (omega (arith, h))) h (omega (arith))
      (omega (arith, length-append json_str stale))
    ∙ ap (λ l. content l) (take-all json_str stale)

-- What `frame` writes is what `extract` takes out of the read buffer, whatever the buffer holds
-- behind it, for a text of fewer than 2^32 - 4 bytes.
pub extract-frame :
    (json_str stale bytes : List ℕ)
    → 4 + length json_str < word
    → frame json_str ≡ some bytes
    → extract (bytes ++ stale) (length bytes) ≡ content json_str
extract-frame json_str stale bytes h e =
    subst (λ bs. extract (bs ++ stale) (length bs) ≡ content json_str)
      (some-injective (length_prefix (length json_str) ++ json_str) bytes
        (sym (frame_lem json_str h) ∙ e))
      (framed-content json_str stale h)

extract-inside :
    (read_buffer : List ℕ) (bytes_received : ℕ)
    → 4 + msg_length read_buffer < word
    → bytes_received ≤ length read_buffer
    → extract read_buffer bytes_received ≢ out_of_bounds
unfolding extract
extract-inside read_buffer bytes_received h l =
    let n = msg_length read_buffer in
    elim (Bool-cases (ltb bytes_received 4)) [
      | inl short ↦ rw short (λ e. cc e)
      | inr long ↦ elim (Bool-cases (ltb bytes_received ((4 + n) % word))) [
        | inl part ↦ rw (long, part) (λ e. cc e)
        | inr whole ↦
            rw
              (
                long,
                whole,
                not-ltb (length read_buffer) (4 + n) (
                    omega (
                      arith,
                      l,
                      not-lt bytes_received ((4 + n) % word) whole,
                      small-mod (4 + n) h,
                    )),
              )
              (λ e. cc e)
      ]
    ]

-- `process_received_data` reads behind its buffer if and only if the length that the sender writes
-- is at least 2^32 - 4 and the bytes received are as many as the wrapped `4 + msg_length`; the
-- buffer is shorter than 2^32 and the bytes of a read of at least four are in it.
pub extract-out_of_bounds_iff :
    (read_buffer : List ℕ) (bytes_received : ℕ)
    → All (λ b. b < 256) read_buffer
    → length read_buffer < word
    → 4 ≤ bytes_received
    → bytes_received ≤ length read_buffer
    → (extract read_buffer bytes_received ≡ out_of_bounds) ↔ (word ≤ 4 + msg_length read_buffer)
unfolding extract
extract-out_of_bounds_iff read_buffer bytes_received b h k l =
    elim (Bool-cases (ltb (4 + msg_length read_buffer) word)) [
      | inl small ↦ (
        (λ e. absurd (
            extract-inside read_buffer bytes_received
              (ltb→lt (4 + msg_length read_buffer) word small) l e)),
        (λ big. absurd (omega (arith, big, ltb→lt (4 + msg_length read_buffer) word small))),
      )
      | inr large ↦ (
        (λ e. not-lt (4 + msg_length read_buffer) word large),
        (λ big.
            rw
              (
                not-ltb bytes_received 4 k,
                not-ltb bytes_received ((4 + msg_length read_buffer) % word)
                    (omega (arith, big, k, msg_length-bound read_buffer b)),
                lt→ltb (length read_buffer) (4 + msg_length read_buffer) (omega (arith, big, h)),
              )
              refl),
      )
    ]
