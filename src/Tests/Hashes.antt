-- ===== src/Tests/Hashes.antt =====
-- The hash on concrete inputs, against published values of Keccak-256.
use node_blocktemplate.Prelude.{◌/◌, ◌≡◌, refl, [], ◌∷◌, length, take, replicate}
use node_blocktemplate.Archive.Fixed.{put_uint, word_of}
use node_blocktemplate.Keccak.{cn_fast_hash, memory}
use node_blocktemplate.Keccak.Sponge.{pad, sponge, cn_fast_hash-sponge}

hash_of_nothing :
    cn_fast_hash []
    ≡ 0xc5 ∷ 0xd2 ∷ 0x46 ∷ 0x01 ∷ 0x86 ∷ 0xf7 ∷ 0x23 ∷ 0x3c ∷ 0x92 ∷ 0x7e ∷ 0x7d ∷ 0xb2 ∷ 0xdc
      ∷ 0xc7 ∷ 0x03 ∷ 0xc0 ∷ 0xe5 ∷ 0x00 ∷ 0xb6 ∷ 0x53 ∷ 0xca ∷ 0x82 ∷ 0x27 ∷ 0x3b ∷ 0x7b ∷ 0xfa
      ∷ 0xd8 ∷ 0x04 ∷ 0x5d ∷ 0x85 ∷ 0xa4 ∷ 0x70 ∷ []
unfolding cn_fast_hash put_uint word_of
hash_of_nothing = refl

hash_of_abc :
    cn_fast_hash (b'a' ∷ b'b' ∷ b'c' ∷ [])
    ≡ 0x4e ∷ 0x03 ∷ 0x65 ∷ 0x7a ∷ 0xea ∷ 0x45 ∷ 0xa9 ∷ 0x4f ∷ 0xc7 ∷ 0xd4 ∷ 0x7b ∷ 0xa8 ∷ 0x26
      ∷ 0xc8 ∷ 0xd6 ∷ 0x67 ∷ 0xc0 ∷ 0xd1 ∷ 0xe6 ∷ 0xe3 ∷ 0x3a ∷ 0x64 ∷ 0xa0 ∷ 0x36 ∷ 0xec ∷ 0x44
      ∷ 0xf5 ∷ 0x8f ∷ 0xa1 ∷ 0x2d ∷ 0x6c ∷ 0x45 ∷ []
unfolding cn_fast_hash put_uint word_of
hash_of_abc = refl

cn_fast_hash-sponge_example :
    cn_fast_hash (1 ∷ 2 ∷ [])
    ≡ take 32 (
        memory (
          sponge (length (pad 136 (1 ∷ 2 ∷ [])) / 136) 136 (pad 136 (1 ∷ 2 ∷ [])) (replicate 25 0)))
cn_fast_hash-sponge_example = cn_fast_hash-sponge (1 ∷ 2 ∷ [])
