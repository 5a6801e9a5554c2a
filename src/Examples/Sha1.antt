-- ===== src/Examples/Sha1.antt =====
-- Test vectors of FIPS 180, and the theorems about SHA-1 at concrete inputs.
use apf_ue4ss.Prelude.{ℕ, ◌/◌, ◌%◌, ◌≡◌, refl, List, [], ◌∷◌, some, length}
use apf_ue4ss.Prelude.Text.{bytes}
use apf_ue4ss.Sha1.{
  reset, initial, update, update_text, final_words, process_block, push_byte, pad_loop, flush,
}
use apf_ue4ss.Sha1.Padding.{padded, hash_blocks, digest-hash_blocks}
use apf_ue4ss.Sha1.Hex.{final_hex}

abc_digest : final_hex (update_text reset "abc") ≡ "a9993e364706816aba3e25717850c26c9cd0d89d"
unfolding final_hex final_words pad_loop flush update_text update push_byte bytes reset
    process_block
abc_digest = refl

two_block_digest :
    final_hex (update_text reset "abcdbcdecdefdefgefghfghighijhijkijkljklmklmnlmnomnopnopq")
    ≡ "84983e441c3bd26ebaae4aa1f95129e5e54670f1"
unfolding final_hex final_words pad_loop flush update_text update push_byte bytes reset
    process_block
two_block_digest = refl

abbrev message : List ℕ
message = 97 ∷ 98 ∷ 99 ∷ []

digest-hash_blocks_example :
    (final_words (update reset message)
      ≡ some (hash_blocks (length (padded message) / 64) (padded message) initial))
    × (length (padded message) % 64 ≡ 0)
digest-hash_blocks_example = digest-hash_blocks message
