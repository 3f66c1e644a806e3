-- ===== src/Keccak/Words.antt =====
-- The state of keccak (src/crypto/keccak.c) is 25 words of 64 bits throughout.
use Prim.Native.Nat.{bit_xor}
use native.Mathlib.Nat.{div-le_self}
use node_blocktemplate.Prelude.{
  ℕ, zero, suc, ◌+◌, ◌-◌, ◌*◌, ◌/◌, ◌%◌, ◌^◌, ◌<◌, ◌≡◌, refl, ◌∙◌, List, [], ◌∷◌, bit_and, Bytes,
  AreBytes, AreBytes-take, AreBytes-drop, All, length, length-take_le, take, drop, arith,
}
use node_blocktemplate.Prelude.Bits.{bit_or-lt, bit_and-lt, bit_xor-lt, pow_mono}
use node_blocktemplate.Archive.Fixed.{word_of}
use node_blocktemplate.Archive.Fixed.Laws.{word_of-lt}
use node_blocktemplate.Keccak.{
  at, put, tabulate, rotl64, complement, column, theta, rho_pi, chi, iota, keccakf_round, keccakf,
  absorb, absorb_blocks, keccakf_rndc, keccakf_rotc, keccakf_piln,
}

-- A word of 64 bits, and a state of `n` words.
abbrev pub IsWord : ℕ → Type 0
IsWord x = x < 2 ^ 64

pub record Words (n : ℕ) (st : List ℕ) : Type 0 where
  pub size : length st ≡ n
  pub small : All IsWord st

at-IsWord : (st : List ℕ) (i : ℕ) → All IsWord st → IsWord (at st i)
at-IsWord [] i h = omega arith
at-IsWord (x ∷ st) zero h = h.0
at-IsWord (x ∷ st) (suc i) h = at-IsWord st i h.1

tabulate-Words : (i n : ℕ) (f : ℕ → ℕ) → ((k : ℕ) → IsWord (f k)) → Words n (tabulate i n f)
unfolding tabulate
tabulate-Words i zero f h = record { size = refl; small = tt }
tabulate-Words i (suc n) f h =
    let more = tabulate-Words (suc i) n f h in
    record { size = omega (arith, more.size); small = (h i, more.small) }

pub put-size : (i x : ℕ) (st : List ℕ) → length (put i x st) ≡ length st
unfolding put
put-size i x [] = refl
put-size zero x (y ∷ st) = refl
put-size (suc i) x (y ∷ st) = omega (arith, put-size i x st)

put-small : (i x : ℕ) (st : List ℕ) → IsWord x → All IsWord st → All IsWord (put i x st)
unfolding put
put-small i x [] hx h = tt
put-small zero x (y ∷ st) hx h = (hx, h.1)
put-small (suc i) x (y ∷ st) hx h = (h.0, put-small i x st hx h.1)

put-Words : (n i x : ℕ) (st : List ℕ) → IsWord x → Words n st → Words n (put i x st)
put-Words n i x st hx w = record {
  size = put-size i x st ∙ w.size;
  small = put-small i x st hx w.small;
}

rotl64-IsWord : (x y : ℕ) → IsWord x → IsWord (rotl64 x y)
rotl64-IsWord x y h =
    bit_or-lt 64 (x * 2 ^ y % 2 ^ 64) (x / 2 ^ (64 - y)) (omega arith)
      (omega (arith, div-le_self x (2 ^ (64 - y)), h))

xor-IsWord : (x y : ℕ) → IsWord x → IsWord y → IsWord (bit_xor x y)
xor-IsWord x y = bit_xor-lt 64 x y

column-IsWord : (st : List ℕ) (i : ℕ) → All IsWord st → IsWord (column st i)
column-IsWord st i h =
    xor-IsWord _ (at st (i + 20))
      (xor-IsWord _ (at st (i + 15))
        (xor-IsWord _ (at st (i + 10))
          (xor-IsWord (at st i) (at st (i + 5)) (at-IsWord st i h) (at-IsWord st (i + 5) h))
          (at-IsWord st (i + 10) h))
        (at-IsWord st (i + 15) h))
      (at-IsWord st (i + 20) h)

complement-IsWord : (x : ℕ) → IsWord (complement x)
complement-IsWord x = omega arith

theta-Words : (st : List ℕ) → Words 25 st → Words 25 (theta st)
unfolding theta
theta-Words st w =
    let bc = tabulate 0 5 (column st) in
    let t = tabulate 0 5 (λ i. bit_xor (at bc ((i + 4) % 5)) (rotl64 (at bc ((i + 1) % 5)) 1)) in
    let bc_words = tabulate-Words 0 5 (column st) (λ i. column-IsWord st i w.small) in
    let t_words =
      tabulate-Words 0 5 (λ i. bit_xor (at bc ((i + 4) % 5)) (rotl64 (at bc ((i + 1) % 5)) 1))
        (λ i.
          xor-IsWord (at bc ((i + 4) % 5)) (rotl64 (at bc ((i + 1) % 5)) 1)
            (at-IsWord bc ((i + 4) % 5) bc_words.small)
            (rotl64-IsWord (at bc ((i + 1) % 5)) 1 (at-IsWord bc ((i + 1) % 5) bc_words.small))) in
    tabulate-Words 0 25 (λ k. bit_xor (at st k) (at t (k % 5)))
      (λ k.
        xor-IsWord (at st k) (at t (k % 5)) (at-IsWord st k w.small)
          (at-IsWord t (k % 5) t_words.small))

chi-Words : (st : List ℕ) → Words 25 st → Words 25 (chi st)
unfolding chi
chi-Words st w =
    tabulate-Words 0 25
      (λ k. bit_xor (at st k) (
        bit_and (complement (at st (k / 5 * 5 + (k % 5 + 1) % 5)))
          (at st (k / 5 * 5 + (k % 5 + 2) % 5))))
      (λ k. xor-IsWord (at st k) _ (at-IsWord st k w.small) (
        bit_and-lt 64 (complement (at st (k / 5 * 5 + (k % 5 + 1) % 5)))
          (at st (k / 5 * 5 + (k % 5 + 2) % 5))
          (complement-IsWord (at st (k / 5 * 5 + (k % 5 + 1) % 5)))
          (at-IsWord st (k / 5 * 5 + (k % 5 + 2) % 5) w.small)))

rho_pi-Words :
    (piln rotc : List ℕ) (t : ℕ) (st : List ℕ)
    → IsWord t
    → Words 25 st
    → Words 25 (rho_pi piln rotc t st)
unfolding rho_pi
rho_pi-Words [] rotc t st ht w = w
rho_pi-Words (j ∷ piln) [] t st ht w = w
rho_pi-Words (j ∷ piln) (r ∷ rotc) t st ht w =
    rho_pi-Words piln rotc (at st j) (put j (rotl64 t r) st) (at-IsWord st j w.small)
      (put-Words 25 j (rotl64 t r) st (rotl64-IsWord t r ht) w)

iota-Words :
    (constant : ℕ) (st : List ℕ) → IsWord constant → Words 25 st → Words 25 (iota constant st)
unfolding iota
iota-Words constant st hc w = put-Words 25 0 _ st (xor-IsWord _ _ (at-IsWord st 0 w.small) hc) w

keccakf_round-Words :
    (constant : ℕ) (st : List ℕ)
    → IsWord constant
    → Words 25 st
    → Words 25 (keccakf_round constant st)
unfolding keccakf_round
keccakf_round-Words constant st h w =
    let mixed = theta-Words st w in
    iota-Words constant _ h (
      chi-Words _ (
        rho_pi-Words keccakf_piln keccakf_rotc (at (theta st) 1) (theta st)
          (at-IsWord (theta st) 1 mixed.small) mixed))

-- The permutation keeps 25 words of 64 bits, for any number of rounds.
pub keccakf-Words :
    (constants st : List ℕ) → All IsWord constants → Words 25 st → Words 25 (keccakf constants st)
unfolding keccakf
keccakf-Words [] st hc w = w
keccakf-Words (constant ∷ constants) st (h, hc) w =
    keccakf-Words constants (keccakf_round constant st) hc (keccakf_round-Words constant st h w)

pub absorb-Words :
    (n m : ℕ) (block : Bytes) (st : List ℕ)
    → AreBytes block
    → Words m st
    → Words m (absorb n block st)
unfolding absorb
absorb-Words zero m block st hb w = w
absorb-Words (suc n) m block [] hb w = w
absorb-Words (suc n) zero block (x ∷ st) hb w = absurd (omega (arith, w.size))
absorb-Words (suc n) (suc m) block (x ∷ st) hb w =
    let more =
      absorb-Words n m (drop 8 block) st (AreBytes-drop 8 block hb)
        (record { size = omega (arith, w.size); small = w.small.1 }) in
    record {
      size = omega (arith, more.size);
      small = (xor-IsWord x (word_of (take 8 block)) w.small.0 (block_word block hb), more.small);
    }
  where
    block_word : (block : Bytes) → AreBytes block → IsWord (word_of (take 8 block))
    block_word block hb = omega (
      arith,
      word_of-lt (take 8 block) (AreBytes-take 8 block hb),
      pow_mono (8 * length (take 8 block)) 64 (omega (arith, length-take_le 8 block)),
    )

pub rounds-IsWord : All IsWord keccakf_rndc
rounds-IsWord = omega arith

pub absorb_blocks-Words :
    (count rsiz : ℕ) (input : Bytes) (st : List ℕ)
    → AreBytes input
    → Words 25 st
    → Words 25 (absorb_blocks count rsiz input st)
unfolding absorb_blocks
absorb_blocks-Words zero rsiz input st hx w = w
absorb_blocks-Words (suc count) rsiz input st hx w =
    absorb_blocks-Words count rsiz (drop rsiz input) _ (AreBytes-drop rsiz input hx)
      (keccakf-Words keccakf_rndc _ rounds-IsWord (absorb-Words (rsiz / 8) 25 input st hx w))
