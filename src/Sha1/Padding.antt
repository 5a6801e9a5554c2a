-- ===== src/Sha1/Padding.antt =====
-- The padding of `final_hex`, and SHA-1 of a whole message as blocks.
use apf_ue4ss.Prelude.{
  ℕ, zero, suc, ◌+◌, ◌-◌, ◌*◌, ◌/◌, ◌%◌, ◌≤◌, ◌<◌, ◌≡◌, ◌≢◌, subst, refl, sym, ap, ◌∙◌, List, [],
  ◌∷◌, ◌++◌, some, length, take, drop, length-append, length-take, length-drop, take-append-drop,
  fold-append, arith,
}
use apf_ue4ss.Sha1.{
  Sha1, Words, reset, initial, push_byte, update, process_block, u64, pad_loop, flush, length_bytes,
  final_words,
}
use apf_ue4ss.Sha1.Stream.{
  absorb, IsOpen, push_byte-IsOpen, absorb_block, absorb-counted, update-IsOpen, bit_count-absorb,
}

abbrev pub zeros : ℕ → List ℕ
zeros zero = []
zeros (suc n) = 0 ∷ zeros n

flush-push : (s : Sha1) (x : ℕ) → flush (record s { buffer = s.buffer ++ x ∷ [] }) ≡ push_byte s x
unfolding flush push_byte
flush-push s x = refl

length-push_byte :
    (s : Sha1) (x : ℕ) → IsOpen s → length (push_byte s x).buffer ≡ (length s.buffer + 1) % 64
unfolding push_byte
length-push_byte s x h = ground (arith, length-append s.buffer (x ∷ []))

flush_size :
    (s : Sha1)
    → length s.buffer ≤ 64
    → (length (flush s).buffer < 64)
      × (length (flush s).buffer % 64 ≡ length s.buffer % 64)
      × ((flush s).bit_count ≡ s.bit_count)
unfolding flush
flush_size s h = ground arith

flush_short : (s : Sha1) → length s.buffer < 64 → flush s ≡ s
unfolding flush
flush_short s h = ground arith

pad_loop_stop : (fuel : ℕ) (s : Sha1) → length s.buffer ≡ 56 → pad_loop (suc fuel) s ≡ some s
unfolding pad_loop
pad_loop_stop fuel s h = ground arith

-- What one more turn of the loop leaves.
abbrev padded_by : Sha1 → Sha1
padded_by s = record (flush s) { buffer = (flush s).buffer ++ 0 ∷ [] }

pad_loop_turn :
    (fuel : ℕ) (s : Sha1)
    → length s.buffer ≢ 56
    → pad_loop (suc fuel) s ≡ pad_loop fuel (padded_by s)
unfolding pad_loop
pad_loop_turn fuel s h = ground arith

-- The loop ends after `m` turns, where `m` zeros fill the buffer up to 56 bytes.
pad_loop_lem :
    (m fuel : ℕ) (s : Sha1)
    → m < fuel
    → length s.buffer ≤ 64
    → (120 - length s.buffer) % 64 ≡ m
    → (pad_loop fuel s ≡ some (absorb (flush s) (zeros m)))
      × (length (absorb (flush s) (zeros m)).buffer ≡ 56)
pad_loop_lem m zero s h k e = absurd (omega arith)
pad_loop_lem zero (suc fuel) s h k e =
    let full : length s.buffer ≡ 56 = omega arith in
    rw (flush_short s (omega arith)) (pad_loop_stop fuel s full, full)
pad_loop_lem (suc m) (suc fuel) s h k e =
    let t = flush s in
    let sizes = flush_size s k in
    let more : length (t.buffer ++ 0 ∷ []) ≡ length t.buffer + 1 =
      length-append t.buffer (0 ∷ []) in
    let ih = pad_loop_lem m fuel (padded_by s) (omega arith) (omega arith) (omega arith) in
    let same = flush-push (flush s) 0 in
    (
      pad_loop_turn fuel s (omega arith) ∙ ih.0 ∙ ap (λ (u : Sha1). some (absorb u (zeros m))) same,
      subst (λ u. length (absorb u (zeros m)).buffer ≡ 56) same ih.1,
    )

-- 0x80, zeros up to 56 bytes of a block, and the eight bytes of the length.
abbrev pub pad_of : ℕ → ℕ → List ℕ
pad_of size count = 0x80 ∷ zeros ((119 - size) % 64) ++ length_bytes count

abbrev pub padding : Sha1 → List ℕ
padding s = pad_of (length s.buffer) s.bit_count

final_words_of_loop :
    (s t : Sha1)
    → pad_loop 64 (record s { buffer = s.buffer ++ 0x80 ∷ [] }) ≡ some t
    → final_words s ≡ some (process_block (t.buffer ++ length_bytes s.bit_count) t.h)
unfolding final_words
final_words_of_loop s t h = rw (h, final_words)

-- From an open buffer the padding loop ends, and what `final_hex` prints is what is left after
-- hashing 0x80, zeros up to 56 bytes of a block, and the eight bytes of the length.
pub final_words_total : (s : Sha1) → IsOpen s → final_words s ≡ some (absorb s (padding s)).h
final_words_total s open_s =
    let marked : Sha1 = record s { buffer = s.buffer ++ 0x80 ∷ [] } in
    let size : length marked.buffer ≡ length s.buffer + 1 = length-append s.buffer (0x80 ∷ []) in
    let m : ℕ = (119 - length s.buffer) % 64 in
    let filled = pad_loop_lem m 64 marked (omega arith) (omega arith) (omega arith) in
    let t = absorb (push_byte s 0x80) (zeros m) in
    let ends : pad_loop 64 marked ≡ some t =
      filled.0 ∙ ap (λ (u : Sha1). some (absorb u (zeros m))) (flush-push s 0x80) in
    let full : length t.buffer ≡ 56 =
      subst (λ u. length (absorb u (zeros m)).buffer ≡ 56) (flush-push s 0x80) filled.1 in
    final_words_of_loop s t ends
    ∙ ap (λ (u : Sha1). some u.h)
        (sym (
          fold-append push_byte (push_byte s 0x80) (zeros m) (length_bytes s.bit_count)
          ∙ absorb_block t (length_bytes s.bit_count) (omega arith) (omega arith)))

-- A message hashed in blocks of 64 bytes.
unfoldable pub hash_blocks : ℕ → List ℕ → Words → Words
hash_blocks zero message h = h
hash_blocks (suc n) message h = hash_blocks n (drop 64 message) (process_block (take 64 message) h)

-- The padded message of FIPS 180: a one bit, zeros, and the length in bits (modulo 2 ^ 64).
abbrev pub padded : List ℕ → List ℕ
padded message = message ++ pad_of (length message % 64) (u64 (length message * 8))

length-zeros : (n : ℕ) → length (zeros n) ≡ n
length-zeros zero = refl
length-zeros (suc n) = ap suc (length-zeros n)

length-absorb :
    (s : Sha1) (xs : List ℕ)
    → IsOpen s
    → length (absorb s xs).buffer ≡ (length s.buffer + length xs) % 64
length-absorb s [] h = omega arith
length-absorb s (x ∷ xs) h =
    omega (arith, length-absorb (push_byte s x) xs (push_byte-IsOpen s x h), length-push_byte s x h)

absorb-hash_blocks :
    (n : ℕ) (s : Sha1) (message : List ℕ)
    → s.buffer ≡ []
    → length message ≡ n * 64
    → (absorb s message).h ≡ hash_blocks n message s.h
unfolding hash_blocks
absorb-hash_blocks zero s [] e h = refl
absorb-hash_blocks zero s (x ∷ xs) e h = absurd (omega arith)
absorb-hash_blocks (suc n) s message e h =
    let first = take 64 message in
    let size : length first ≡ 64 = omega (arith, length-take 64 message) in
    let rest : length (drop 64 message) ≡ n * 64 = omega (arith, length-drop 64 message) in
    let sized : length s.buffer ≡ 0 = ap length e in
    let block = absorb_block s first (omega arith) (omega arith) in
    let hashed : Sha1 = record s { h = process_block first s.h; buffer = [] } in
    let cleared : absorb s first ≡ hashed =
      block ∙ ap (λ (l : List ℕ). record s { h = process_block (l ++ first) s.h; buffer = [] }) e in
    ap (λ (l : List ℕ). (absorb s l).h) (sym (take-append-drop 64 message))
    ∙ ap (λ (t : Sha1). t.h) (fold-append push_byte s first (drop 64 message))
    ∙ ap (λ (t : Sha1). (absorb t (drop 64 message)).h) cleared
    ∙ absorb-hash_blocks n hashed (drop 64 message) refl rest

size-update : (message : List ℕ) → length (update reset message).buffer ≡ length message % 64
unfolding update reset
size-update message = omega (arith, length-absorb reset message (unfold reset in omega arith))

count-update : (message : List ℕ) → (update reset message).bit_count ≡ u64 (length message * 8)
unfolding update reset
count-update message = omega (arith, bit_count-absorb reset message)

padding-update : (message : List ℕ) → message ++ padding (update reset message) ≡ padded message
padding-update message =
    ap (λ (k : ℕ). message ++ pad_of k (update reset message).bit_count) (size-update message)
    ∙ ap (λ (c : ℕ). message ++ pad_of (length message % 64) c) (count-update message)

length-padded : (message : List ℕ) → length (padded message) % 64 ≡ 0
length-padded message = omega (
  arith,
  length-append message
      (0x80 ∷ zeros ((119 - length message % 64) % 64) ++ length_bytes (u64 (length message * 8))),
  length-append (zeros ((119 - length message % 64) % 64))
      (length_bytes (u64 (length message * 8))),
  length-zeros ((119 - length message % 64) % 64),
)

update-h :
    (message more : List ℕ)
    → (absorb (update reset message) more).h ≡ (absorb reset (message ++ more)).h
unfolding update
update-h message more =
    ap (λ (t : Sha1). t.h) (absorb-counted (absorb reset message) _ more)
    ∙ ap (λ (t : Sha1). t.h) (sym (fold-append push_byte reset message more))

-- The class computes SHA-1's iteration: handing over a message and asking for the digest prints the
-- words that hashing its padded blocks one after the other leaves.
pub digest-hash_blocks :
    (message : List ℕ)
    → (final_words (update reset message)
        ≡ some (hash_blocks (length (padded message) / 64) (padded message) initial))
      × (length (padded message) % 64 ≡ 0)
digest-hash_blocks message =
    let open_s : IsOpen (update reset message) =
      update-IsOpen reset message (unfold reset in omega arith) in
    let whole = length-padded message in
    (
      final_words_total (update reset message) open_s
          ∙ ap some (
              update-h message (padding (update reset message))
              ∙ ap (λ (l : List ℕ). (absorb reset l).h) (padding-update message)
              ∙ (unfold reset in
                  absorb-hash_blocks (length (padded message) / 64) reset (padded message) refl
                    (omega arith))),
      whole,
    )
