-- ===== src/Sha1/Stream.antt =====
-- `update` of the class `SHA1`: a text may be handed over in pieces, and bytes that do not fill a
-- block wait in the buffer.
use mathlib.Core.List.{append_assoc, append-nil}
use apf_ue4ss.Prelude.{
  ℕ, ◌+◌, ◌*◌, ◌<◌, ◌≡◌, refl, sym, ap, ◌∙◌, List, [], ◌∷◌, ◌++◌, length, length-append, fold,
  fold-append, arith,
}
use apf_ue4ss.Sha1.{Sha1, push_byte, update, process_block, u64}

abbrev pub absorb : Sha1 → List ℕ → Sha1
absorb = fold push_byte

-- The buffer never holds a full block between two bytes.
abbrev pub IsOpen : Sha1 → Type 0
IsOpen s = length s.buffer < 64

pub push_byte-IsOpen : (s : Sha1) (x : ℕ) → IsOpen s → IsOpen (push_byte s x)
unfolding push_byte
push_byte-IsOpen s x h = ground (arith, length-append s.buffer (x ∷ []))

pub absorb-IsOpen : (s : Sha1) (xs : List ℕ) → IsOpen s → IsOpen (absorb s xs)
absorb-IsOpen s [] h = h
absorb-IsOpen s (x ∷ xs) h = absorb-IsOpen (push_byte s x) xs (push_byte-IsOpen s x h)

pub update-IsOpen : (s : Sha1) (xs : List ℕ) → IsOpen s → IsOpen (update s xs)
unfolding update
update-IsOpen s xs h = absorb-IsOpen s xs h

pub bit_count-push_byte : (s : Sha1) (x : ℕ) → (push_byte s x).bit_count ≡ s.bit_count
unfolding push_byte
bit_count-push_byte s x = ground arith

pub bit_count-absorb : (s : Sha1) (xs : List ℕ) → (absorb s xs).bit_count ≡ s.bit_count
bit_count-absorb s [] = refl
bit_count-absorb s (x ∷ xs) = bit_count-absorb (push_byte s x) xs ∙ bit_count-push_byte s x

-- The count of the bits does not enter the blocks.
push_byte-counted :
    (s : Sha1) (n x : ℕ)
    → push_byte (record s { bit_count = n }) x ≡ record (push_byte s x) { bit_count = n }
unfolding push_byte
push_byte-counted s n x = ground arith

pub absorb-counted :
    (s : Sha1) (n : ℕ) (xs : List ℕ)
    → absorb (record s { bit_count = n }) xs ≡ record (absorb s xs) { bit_count = n }
absorb-counted s n [] = refl
absorb-counted s n (x ∷ xs) =
    ap (λ (t : Sha1). absorb t xs) (push_byte-counted s n x) ∙ absorb-counted (push_byte s x) n xs

-- Two updates are one update by the bytes joined, the count of the bits (modulo 2 ^ 64) included.
pub update-append : (s : Sha1) (xs ys : List ℕ) → update (update s xs) ys ≡ update s (xs ++ ys)
unfolding update
update-append s xs ys =
    rw
      (
        absorb-counted (absorb s xs) (u64 ((absorb s xs).bit_count + length xs * 8)) ys,
        fold-append push_byte s xs ys,
        bit_count-absorb (absorb s xs) ys,
        length-append xs ys,
      )
      (ap (λ (n : ℕ). record (absorb (absorb s xs) ys) { bit_count = n }) (omega arith))

-- Bytes that do not fill the block are kept.
pub absorb_within :
    (s : Sha1) (xs : List ℕ)
    → length s.buffer + length xs < 64
    → absorb s xs ≡ record s { buffer = s.buffer ++ xs }
absorb_within s [] h = ap (λ (l : List ℕ). record s { buffer = l }) (sym (append-nil s.buffer))
absorb_within s (x ∷ xs) h =
    let joined = s.buffer ++ x ∷ [] in
    let size : length joined ≡ length s.buffer + 1 = length-append s.buffer (x ∷ []) in
    let kept : push_byte s x ≡ record s { buffer = joined } = unfold push_byte in ground arith in
    rw kept (
      absorb_within (record s { buffer = joined }) xs (omega arith)
      ∙ ap (λ (l : List ℕ). record s { buffer = l }) (append_assoc s.buffer (x ∷ []) xs))

-- Bytes that fill the block are hashed, and the buffer is empty again.
pub absorb_block :
    (s : Sha1) (xs : List ℕ)
    → length s.buffer < 64
    → length s.buffer + length xs ≡ 64
    → absorb s xs ≡ record s { h = process_block (s.buffer ++ xs) s.h; buffer = [] }
unfolding push_byte
absorb_block s [] h e = absurd (omega arith)
absorb_block s (x ∷ []) h e = ground (arith, length-append s.buffer (x ∷ []))
absorb_block s (x ∷ y ∷ xs) h e =
    let joined = s.buffer ++ x ∷ [] in
    let size : length joined ≡ length s.buffer + 1 = length-append s.buffer (x ∷ []) in
    let kept : push_byte s x ≡ record s { buffer = joined } = ground arith in
    rw kept (
      absorb_block (record s { buffer = joined }) (y ∷ xs) (omega arith) (omega arith)
      ∙ ap (λ (l : List ℕ). record s { h = process_block l s.h; buffer = [] })
          (append_assoc s.buffer (x ∷ []) (y ∷ xs)))
