-- ===== src/Keccak/Sponge.antt =====
-- `cn_fast_hash` (src/crypto/keccak.c and src/crypto/hash.c) against the sponge over the padded input.
use node_blocktemplate.Prelude.{
  ℕ, zero, suc, ◌+◌, ◌-◌, ◌*◌, ◌/◌, ◌%◌, ◌≤◌, ◌<◌, ◌≡◌, refl, sym, ap, ◌∙◌, List, [], ◌∷◌, ◌++◌,
  bit_or, Bytes, length, length-append, length-replicate, length-drop, take, drop, replicate, arith,
}
use node_blocktemplate.Keccak.{
  at, put, absorb, absorb_blocks, last_block, memory, keccakf, keccakf_rndc, absorb_all, keccak,
  keccak1600, cn_fast_hash,
}
use node_blocktemplate.Keccak.Steps.{permutation, length-permutation}
use node_blocktemplate.Keccak.Slices.{
  drop-drop, drop-append_le, take-take, at-append, put-append, at-zeros_last, put-zeros,
}
use node_blocktemplate.Keccak.Absorb.{
  add_block, absorb-append, absorb-add_block, absorbed, length-add_block,
}

-- The bytes that fill up a block: a 1, zeros and a bit in the last place, which are one byte if there
-- is room for no more.
abbrev pub padding : ℕ → Bytes
padding zero = []
padding (suc zero) = 0x81 ∷ []
padding (suc (suc room)) = 1 ∷ replicate room 0 ++ 0x80 ∷ []

abbrev pub pad : ℕ → Bytes → Bytes
pad rate input = input ++ padding (rate - length input % rate)

-- The state after so many blocks.
unfoldable pub sponge : ℕ → ℕ → Bytes → List ℕ → List ℕ
sponge zero rate message st = st
sponge (suc count) rate message st =
    sponge count rate (drop rate message) (permutation (add_block rate message st))

-- What the code makes of the room is the padding.
filled :
    (k : ℕ) → put k (bit_or (at (1 ∷ replicate k 0) k) 0x80) (1 ∷ replicate k 0) ≡ padding (suc k)
unfolding put
filled zero = refl
filled (suc k) = rw (at-zeros_last k) (ap (λ (t : Bytes). 1 ∷ t) (put-zeros k 0x80))

last_block-padding :
    (rsiz : ℕ) (input : Bytes)
    → length input < rsiz
    → last_block rsiz input ≡ input ++ padding (rsiz - length input)
unfolding last_block
last_block-padding rsiz input h =
    let k = rsiz - (length input + 1) in
    let place : rsiz - 1 ≡ length input + k = omega arith in
    let room : rsiz - length input ≡ suc k = omega arith in
    rw (
      place,
      at-append input (1 ∷ replicate k 0) k,
      put-append input (1 ∷ replicate k 0) k (bit_or (at (1 ∷ replicate k 0) k) 0x80),
      filled k,
      room,
    )

absorb_blocks-zero :
    (rsiz : ℕ) (input : Bytes) (st : List ℕ) → absorb_blocks zero rsiz input st ≡ st
unfolding absorb_blocks
absorb_blocks-zero rsiz input st = refl

absorb_blocks-suc :
    (count rsiz : ℕ) (input : Bytes) (st : List ℕ)
    → absorb_blocks (suc count) rsiz input st
      ≡ absorb_blocks count rsiz
          (drop rsiz input)
          (keccakf keccakf_rndc (absorb (rsiz / 8) input st))
unfolding absorb_blocks
absorb_blocks-suc count rsiz input st = refl

sponge-one :
    (rate : ℕ) (message : Bytes) (st : List ℕ)
    → sponge 1 rate message st ≡ permutation (add_block rate message st)
unfolding sponge
sponge-one rate message st = refl

sponge-suc :
    (count rate : ℕ) (message : Bytes) (st : List ℕ)
    → sponge (suc count) rate message st
      ≡ sponge count rate (drop rate message) (permutation (add_block rate message st))
unfolding sponge
sponge-suc count rate message st = refl

-- The state when the last block is absorbed after `count` full ones.
abbrev finished : ℕ → ℕ → Bytes → Bytes → List ℕ → List ℕ
finished count rate input last st =
    keccakf keccakf_rndc (absorb (rate / 8) last (absorb_blocks count rate input st))

finished-suc :
    (count rate : ℕ) (input last : Bytes) (st : List ℕ)
    → rate ≤ length input
    → length st ≡ 25
    → finished (suc count) rate input last st
      ≡ finished count rate (drop rate input) last (permutation (add_block rate input st))
finished-suc count rate input last st le h =
    ap (λ (t : List ℕ). keccakf keccakf_rndc (absorb (rate / 8) last t))
      (absorb_blocks-suc count rate input st
        ∙ ap (absorb_blocks count rate (drop rate input)) (absorbed rate input st h))

add_block-append :
    (rate : ℕ) (input filler : Bytes) (st : List ℕ)
    → rate ≤ length input
    → length st ≡ 25
    → add_block rate input st ≡ add_block rate (input ++ filler) st
add_block-append rate input filler st le h =
    sym (absorb-add_block rate input st h)
    ∙ sym (absorb-append (rate / 8) input filler st (omega arith))
    ∙ absorb-add_block rate (input ++ filler) st h

-- The full blocks and then the last one are the blocks of the padded message.
finished-sponge :
    (count rate : ℕ) (input filler : Bytes) (st : List ℕ)
    → length st ≡ 25
    → count * rate ≤ length input
    → finished count rate input (drop (count * rate) input ++ filler) st
      ≡ sponge (suc count) rate (input ++ filler) st
finished-sponge zero rate input filler st h le =
    let nothing : 0 * rate ≡ 0 = omega arith in
    let none_taken : drop (0 * rate) input ≡ input = ap (λ (t : ℕ). drop t input) nothing in
    ap (λ (t : Bytes). finished 0 rate input (t ++ filler) st) none_taken
    ∙ ap (λ (t : List ℕ). keccakf keccakf_rndc (absorb (rate / 8) (input ++ filler) t))
        (absorb_blocks-zero rate input st)
    ∙ absorbed rate (input ++ filler) st h
    ∙ sym (sponge-one rate (input ++ filler) st)
finished-sponge (suc count) rate input filler st h le =
    let size : suc count * rate ≡ rate + count * rate = omega arith in
    let whole : rate ≤ length input = omega (arith, size) in
    let next = permutation (add_block rate input st) in
    let next_size = length-permutation (add_block rate input st) (length-add_block rate input st) in
    let later : drop (suc count * rate) input ≡ drop (count * rate) (drop rate input) =
      ap (λ (t : ℕ). drop t input) size ∙ sym (drop-drop rate (count * rate) input) in
    finished-suc count rate input (drop (suc count * rate) input ++ filler) st whole h
    ∙ ap (λ (t : Bytes). finished count rate (drop rate input) (t ++ filler) next) later
    ∙ finished-sponge count rate (drop rate input) filler next next_size
        (omega (arith, size, length-drop rate input))
    ∙ ap (λ (t : Bytes). sponge (suc count) rate t next)
        (sym (drop-append_le rate input filler whole))
    ∙ ap (λ (t : List ℕ). sponge (suc count) rate (drop rate (input ++ filler)) (permutation t))
        (add_block-append rate input filler st whole h)
    ∙ sym (sponge-suc (suc count) rate (input ++ filler) st)

length-padding : (room : ℕ) → length (padding room) ≡ room
length-padding zero = refl
length-padding (suc zero) = refl
length-padding (suc (suc room)) =
    omega
      (arith, length-append {A = ℕ} (replicate room 0) (0x80 ∷ []), length-replicate {A = ℕ} room 0)

absorb_all-finished :
    (rsiz : ℕ) (input : Bytes)
    → absorb_all rsiz input
      ≡ finished
          (length input / rsiz)
          rsiz
          input
          (last_block rsiz (drop (length input / rsiz * rsiz) input))
          (replicate 25 0)
unfolding absorb_all
absorb_all-finished rsiz input = refl

-- The state of `keccak` for the rate 136 is the one of the sponge.
absorb_all-sponge :
    (input : Bytes)
    → absorb_all 136 input
      ≡ sponge (length (pad 136 input) / 136) 136 (pad 136 input) (replicate 25 0)
absorb_all-sponge input =
    let taken = length input / 136 in
    let left = length-drop (taken * 136) input in
    let filler = padding (136 - length input % 136) in
    let room : 136 - length (drop (taken * 136) input) ≡ 136 - length input % 136 =
      omega (arith, left) in
    let last : last_block 136 (drop (taken * 136) input) ≡ drop (taken * 136) input ++ filler =
      last_block-padding 136 (drop (taken * 136) input) (omega (arith, left))
      ∙ ap (λ (t : ℕ). drop (taken * 136) input ++ padding t) room in
    let blocks : suc taken ≡ length (pad 136 input) / 136 =
      omega (arith, length-append input filler, length-padding (136 - length input % 136)) in
    absorb_all-finished 136 input
    ∙ ap (λ (t : Bytes). finished taken 136 input t (replicate 25 0)) last
    ∙ finished-sponge taken 136 input filler (replicate 25 0) refl (omega arith)
    ∙ ap (λ (t : ℕ). sponge t 136 (pad 136 input) (replicate 25 0)) blocks

cn_fast_hash-memory :
    (input : Bytes) → cn_fast_hash input ≡ take 32 (take 200 (memory (absorb_all 136 input)))
unfolding cn_fast_hash keccak1600 keccak
cn_fast_hash-memory input = refl

-- The hash of any bytes is the first 32 bytes of the state of the sponge for the rate 136, with the
-- permutation of FIPS 202, which has absorbed all blocks of the input, padded to whole blocks.
pub cn_fast_hash-sponge :
    (input : Bytes)
    → cn_fast_hash input
      ≡ take 32
          (memory (sponge (length (pad 136 input) / 136) 136 (pad 136 input) (replicate 25 0)))
cn_fast_hash-sponge input =
    cn_fast_hash-memory input
    ∙ take-take 32 200 (memory (absorb_all 136 input)) (omega arith)
    ∙ ap (λ (t : List ℕ). take 32 (memory t)) (absorb_all-sponge input)
