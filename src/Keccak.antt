-- ===== src/Keccak.antt =====
-- src/crypto/keccak.c and src/crypto/hash.c: the hash `cn_fast_hash`. A state is 25 words of 64
-- bits, and a word that is read or written outside of it would be outside of the array.
use Prim.Native.Nat.{bit_xor}
use mathlib.Core.Option.{get_or}
use node_blocktemplate.Prelude.{
  ℕ, zero, suc, ◌+◌, ◌-◌, ◌*◌, ◌/◌, ◌%◌, ◌^◌, List, [], ◌∷◌, ◌++◌, bit_and, bit_or, ◌==◌,
  if◌then◌else◌, Bytes, length, take, drop, get_elem?, replicate,
}
use node_blocktemplate.Archive.Fixed.{put_uint, word_of}
pub mod Words
pub mod Padding
pub mod Size
pub mod Steps
pub mod Slices
pub mod Absorb
pub mod Sponge

abbrev pub keccakf_rndc : List ℕ
keccakf_rndc =
    0x0000000000000001 ∷ 0x0000000000008082 ∷ 0x800000000000808a ∷ 0x8000000080008000
    ∷ 0x000000000000808b ∷ 0x0000000080000001 ∷ 0x8000000080008081 ∷ 0x8000000000008009
    ∷ 0x000000000000008a ∷ 0x0000000000000088 ∷ 0x0000000080008009 ∷ 0x000000008000000a
    ∷ 0x000000008000808b ∷ 0x800000000000008b ∷ 0x8000000000008089 ∷ 0x8000000000008003
    ∷ 0x8000000000008002 ∷ 0x8000000000000080 ∷ 0x000000000000800a ∷ 0x800000008000000a
    ∷ 0x8000000080008081 ∷ 0x8000000000008080 ∷ 0x0000000080000001 ∷ 0x8000000080008008 ∷ []

abbrev pub keccakf_rotc : List ℕ
keccakf_rotc =
    1 ∷ 3 ∷ 6 ∷ 10 ∷ 15 ∷ 21 ∷ 28 ∷ 36 ∷ 45 ∷ 55 ∷ 2 ∷ 14 ∷ 27 ∷ 41 ∷ 56 ∷ 8 ∷ 25 ∷ 43 ∷ 62 ∷ 18
    ∷ 39 ∷ 61 ∷ 20 ∷ 44 ∷ []

abbrev pub keccakf_piln : List ℕ
keccakf_piln =
    10 ∷ 7 ∷ 11 ∷ 17 ∷ 18 ∷ 3 ∷ 5 ∷ 16 ∷ 8 ∷ 21 ∷ 24 ∷ 4 ∷ 15 ∷ 23 ∷ 19 ∷ 13 ∷ 12 ∷ 2 ∷ 20 ∷ 14 ∷ 22
    ∷ 9 ∷ 6 ∷ 1 ∷ []

-- `st[i]`
abbrev pub at : List ℕ → ℕ → ℕ
at st i = get_or (get_elem? st i) 0

-- `st[i] = x`
unfoldable pub put : ℕ → ℕ → List ℕ → List ℕ
put i x [] = []
put zero x (y ∷ st) = x ∷ st
put (suc i) x (y ∷ st) = y ∷ put i x st

-- An array of `n` words, by a loop that writes each of them once.
unfoldable pub tabulate : ℕ → ℕ → (ℕ → ℕ) → List ℕ
tabulate i zero f = []
tabulate i (suc n) f = f i ∷ tabulate (suc i) n f

abbrev pub rotl64 : ℕ → ℕ → ℕ
rotl64 x y = bit_or (x * 2 ^ y % 2 ^ 64) (x / 2 ^ (64 - y))

-- `~x`
abbrev pub complement : ℕ → ℕ
complement x = 2 ^ 64 - 1 - x

abbrev pub column : List ℕ → ℕ → ℕ
column st i =
    bit_xor
      (bit_xor (bit_xor (bit_xor (at st i) (at st (i + 5))) (at st (i + 10))) (at st (i + 15)))
      (at st (i + 20))

unfoldable pub theta : List ℕ → List ℕ
unfolding tabulate
theta st =
    let bc = tabulate 0 5 (column st) in
    let t = tabulate 0 5 (λ i. bit_xor (at bc ((i + 4) % 5)) (rotl64 (at bc ((i + 1) % 5)) 1)) in
    tabulate 0 25 (λ k. bit_xor (at st k) (at t (k % 5)))

-- The loop of Rho and Pi over both tables, with `t` carried along.
unfoldable pub rho_pi : List ℕ → List ℕ → ℕ → List ℕ → List ℕ
unfolding put
rho_pi [] rotc t st = st
rho_pi (j ∷ piln) [] t st = st
rho_pi (j ∷ piln) (r ∷ rotc) t st = rho_pi piln rotc (at st j) (put j (rotl64 t r) st)

-- The words of a row are read before any of them is written.
unfoldable pub chi : List ℕ → List ℕ
unfolding tabulate
chi st = tabulate 0 25 (λ k. bit_xor (at st k) (
    bit_and (complement (at st (k / 5 * 5 + (k % 5 + 1) % 5)))
      (at st (k / 5 * 5 + (k % 5 + 2) % 5))))

unfoldable pub iota : ℕ → List ℕ → List ℕ
unfolding put
iota constant st = put 0 (bit_xor (at st 0) constant) st

unfoldable pub keccakf_round : ℕ → List ℕ → List ℕ
unfolding theta rho_pi chi iota
keccakf_round constant st =
    let mixed = theta st in
    iota constant (chi (rho_pi keccakf_piln keccakf_rotc (at mixed 1) mixed))

-- The rounds, one for each constant.
unfoldable pub keccakf : List ℕ → List ℕ → List ℕ
unfolding keccakf_round
keccakf [] st = st
keccakf (constant ∷ constants) st = keccakf constants (keccakf_round constant st)

-- `for (i = 0; i < rsizw; i++) st[i] ^= ((uint64_t *) in)[i]`
unfoldable pub absorb : ℕ → Bytes → List ℕ → List ℕ
absorb zero block st = st
absorb (suc n) block [] = []
absorb (suc n) block (x ∷ st) = bit_xor x (word_of (take 8 block)) ∷ absorb n (drop 8 block) st

-- `for ( ; inlen >= rsiz; inlen -= rsiz, in += rsiz)`: that many full blocks.
unfoldable pub absorb_blocks : ℕ → ℕ → Bytes → List ℕ → List ℕ
unfolding absorb keccakf
absorb_blocks zero rsiz input st = st
absorb_blocks (suc count) rsiz input st =
    absorb_blocks count rsiz (drop rsiz input) (keccakf keccakf_rndc (absorb (rsiz / 8) input st))

-- `temp`: the last bytes, a 1, zeros, and 0x80 in the last place.
unfoldable pub last_block : ℕ → Bytes → Bytes
unfolding put
last_block rsiz input =
    let temp = input ++ (1 ∷ replicate (rsiz - (length input + 1)) 0) in
    put (rsiz - 1) (bit_or (at temp (rsiz - 1)) 0x80) temp

-- Words as they stand in memory.
unfoldable pub memory : List ℕ → Bytes
memory [] = []
memory (x ∷ st) = put_uint 8 x ++ memory st

-- The state when all of the input is absorbed.
unfoldable pub absorb_all : ℕ → Bytes → List ℕ
unfolding absorb_blocks last_block
absorb_all rsiz input =
    let count = length input / rsiz in
    let absorbed = absorb_blocks count rsiz input (replicate 25 0) in
    let last = last_block rsiz (drop (count * rsiz) input) in
    keccakf keccakf_rndc (absorb (rsiz / 8) last absorbed)

unfoldable pub keccak : Bytes → ℕ → Bytes
unfolding absorb_all memory
keccak input mdlen =
    take mdlen (memory (absorb_all (if mdlen == 200 then 136 else 200 - 2 * mdlen) input))

-- `hash_process` is `keccak1600`.
unfoldable pub keccak1600 : Bytes → Bytes
unfolding keccak
keccak1600 input = keccak input 200

abbrev pub hash_size : ℕ
hash_size = 32

unfoldable pub cn_fast_hash : Bytes → Bytes
unfolding keccak1600
cn_fast_hash input = take hash_size (keccak1600 input)
