-- ===== src/Keccak/Size.antt =====
-- The size of what keccak (src/crypto/keccak.c) and cn_fast_hash (src/crypto/hash.c) return.
use node_blocktemplate.Prelude.{
  ℕ, zero, suc, ◌-◌, ◌*◌, ◌/◌, ◌≤◌, ◌≡◌, refl, ◌∙◌, List, [], ◌∷◌, ◌==◌, if◌then◌else◌, Bytes,
  AreBytes, AreBytes-append, AreBytes-take, length, length-append, length-take, drop, replicate,
  arith,
}
use node_blocktemplate.Archive.Fixed.{put_uint}
use node_blocktemplate.Archive.Fixed.Laws.{length-put_uint, put_uint-AreBytes}
use node_blocktemplate.Keccak.{
  keccakf_round, keccakf, absorb, absorb_all, absorb_blocks, last_block, memory, keccak, keccak1600,
  cn_fast_hash, keccakf_rndc,
}

length-memory : (n : ℕ) (st : List ℕ) → length st ≡ n → length (memory st) ≡ 8 * n
unfolding memory
length-memory n [] h = omega (arith, h)
length-memory zero (x ∷ st) h = absurd (omega (arith, h))
length-memory (suc n) (x ∷ st) h = omega (
  arith,
  length-append (put_uint 8 x) (memory st),
  length-put_uint 8 x,
  length-memory n st (omega (arith, h)),
)

memory-AreBytes : (st : List ℕ) → AreBytes (memory st)
unfolding memory
memory-AreBytes [] = tt
memory-AreBytes (x ∷ st) =
    AreBytes-append (put_uint 8 x) (memory st) (put_uint-AreBytes 8 x) (memory-AreBytes st)

-- The size of a state stays, whatever is absorbed.
keccakf_round-size : (constant : ℕ) (st : List ℕ) → length (keccakf_round constant st) ≡ 25
unfolding keccakf_round
keccakf_round-size constant st = refl

keccakf-size : (constants st : List ℕ) → length st ≡ 25 → length (keccakf constants st) ≡ 25
unfolding keccakf
keccakf-size [] st h = h
keccakf-size (constant ∷ constants) st h =
    keccakf-size constants (keccakf_round constant st) (keccakf_round-size constant st)

absorb-size : (n : ℕ) (block : Bytes) (st : List ℕ) → length (absorb n block st) ≡ length st
unfolding absorb
absorb-size zero block st = refl
absorb-size (suc n) block [] = refl
absorb-size (suc n) block (x ∷ st) = omega (arith, absorb-size n (drop 8 block) st)

absorb_blocks-size :
    (count rsiz : ℕ) (input : Bytes) (st : List ℕ)
    → length st ≡ 25
    → length (absorb_blocks count rsiz input st) ≡ 25
unfolding absorb_blocks
absorb_blocks-size zero rsiz input st h = h
absorb_blocks-size (suc count) rsiz input st h =
    absorb_blocks-size count rsiz (drop rsiz input) _
      (keccakf-size keccakf_rndc _ (absorb-size (rsiz / 8) input st ∙ h))

absorb_all-size : (rsiz : ℕ) (input : Bytes) → length (absorb_all rsiz input) ≡ 25
unfolding absorb_all
absorb_all-size rsiz input = keccakf-size keccakf_rndc _ (
    absorb-size (rsiz / 8) (last_block rsiz (drop (length input / rsiz * rsiz) input)) _
    ∙ absorb_blocks-size (length input / rsiz) rsiz input (replicate 25 0) refl)

-- keccak gives as many bytes as it is asked for, up to the size of its state, whatever it hashes.
pub keccak-size :
    (input : Bytes) (mdlen : ℕ)
    → mdlen ≤ 200
    → (length (keccak input mdlen) ≡ mdlen) × AreBytes (keccak input mdlen)
unfolding keccak
keccak-size input mdlen h =
    let rsiz : ℕ = if mdlen == 200 then 136 else 200 - 2 * mdlen in
    let st = absorb_all rsiz input in
    (
      length-take mdlen (memory st)
          (omega (arith, length-memory 25 st (absorb_all-size rsiz input))),
      AreBytes-take mdlen (memory st) (memory-AreBytes st),
    )

-- The hash is 32 bytes, whatever it is of.
pub cn_fast_hash-size :
    (input : Bytes) → (length (cn_fast_hash input) ≡ 32) × AreBytes (cn_fast_hash input)
unfolding cn_fast_hash keccak1600
cn_fast_hash-size input =
    let (size, bytes) = keccak-size input 200 (omega arith) in
    (
      length-take 32 (keccak input 200) (omega (arith, size)),
      AreBytes-take 32 (keccak input 200) bytes,
    )
