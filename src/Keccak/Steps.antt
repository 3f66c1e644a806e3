-- ===== src/Keccak/Steps.antt =====
-- The permutation of FIPS 202 by columns and rows, and the rounds of `keccakf` (src/crypto/keccak.c),
-- which walk over tables, against it.
use Prim.Native.Nat.{bit_xor}
use node_blocktemplate.Prelude.{
  ℕ, zero, suc, ◌+◌, ◌-◌, ◌*◌, ◌/◌, ◌%◌, ◌^◌, ◌≡◌, refl, sym, ap, ◌∙◌, ◌==◌, leb, if◌then◌else◌,
  List, [], ◌∷◌, bit_and, length,
}
use node_blocktemplate.Keccak.{
  at, put, tabulate, rotl64, complement, theta, rho_pi, chi, iota, keccakf_round, keccakf,
  keccakf_rndc,
}

-- The lane in column `x` and row `y`, both counted modulo 5.
abbrev lane : List ℕ → ℕ → ℕ → ℕ
lane st x y = at st (x % 5 + 5 * (y % 5))

-- The 25 lanes that `f` gives by column and row.
abbrev lanes : (ℕ → ℕ → ℕ) → List ℕ
lanes f = tabulate 0 25 (λ k. f (k % 5) (k / 5))

-- The parity of a column.
abbrev parity : List ℕ → ℕ → ℕ
parity st x =
    bit_xor (bit_xor (bit_xor (bit_xor (lane st x 0) (lane st x 1)) (lane st x 2)) (lane st x 3))
      (lane st x 4)

abbrev theta_step : List ℕ → List ℕ
theta_step st =
    lanes
      (λ x y. bit_xor (lane st x y) (bit_xor (parity st (x + 4)) (rotl64 (parity st (x + 1)) 1)))

-- The offset of column `a` and row `b`. A walk goes from column 1 and row 0 by
-- (x, y) ↦ (y, 2x + 3y); the offset of what it meets after `t` steps is (t + 1)(t + 2) / 2.
abbrev offset_from : ℕ → ℕ → ℕ → ℕ → ℕ → ℕ → ℕ
offset_from zero t x y a b = 0
offset_from (suc n) t x y a b =
    let rest = offset_from n (suc t) y ((2 * x + 3 * y) % 5) a b in
    if x == a then (if y == b then (t + 1) * (t + 2) / 2 % 64 else rest) else rest

-- A lane that is not met is not rotated.
abbrev rotate : ℕ → ℕ → ℕ
rotate x zero = x
rotate x (suc n) = rotl64 x (suc n)

abbrev rho_step : List ℕ → List ℕ
rho_step st = lanes (λ x y. rotate (lane st x y) (offset_from 24 0 1 0 x y))

abbrev pi_step : List ℕ → List ℕ
pi_step st = lanes (λ x y. lane st (x + 3 * y) x)

abbrev chi_step : List ℕ → List ℕ
chi_step st =
    lanes
      (λ x y. bit_xor (lane st x y) (bit_and (complement (lane st (x + 1) y)) (lane st (x + 2) y)))

abbrev iota_step : ℕ → List ℕ → List ℕ
iota_step constant st =
    lanes (λ x y. if x + y == 0 then bit_xor (lane st x y) constant else lane st x y)

-- The shift register of the constants, of the polynomial x^8 + x^6 + x^5 + x^4 + 1.
abbrev register : ℕ → ℕ
register zero = 1
register (suc t) = let r = register t in if leb 128 r then bit_xor (2 * r) 0x171 else 2 * r

-- The constant of round `r`: its bit 2^j - 1 is the low bit of the register at j + 7r.
abbrev bits_of_constant : ℕ → ℕ → ℕ
bits_of_constant r zero = 0
bits_of_constant r (suc j) = bits_of_constant r j + register (j + 7 * r) % 2 * 2 ^ (2 ^ j - 1)

abbrev round_constants : ℕ → ℕ → List ℕ
round_constants r n = tabulate r n (λ t. bits_of_constant t 7)

round_step : ℕ → List ℕ → List ℕ
round_step constant st = iota_step constant (chi_step (pi_step (rho_step (theta_step st))))

unfoldable pub permute : List ℕ → List ℕ → List ℕ
unfolding round_step
permute [] st = st
permute (constant ∷ constants) st = permute constants (round_step constant st)

rounds-constants : round_constants 0 24 ≡ keccakf_rndc
unfolding tabulate
rounds-constants = refl

pub tabulate-suc : (i n : ℕ) (f : ℕ → ℕ) → tabulate (suc i) n f ≡ tabulate i n (λ k. f (suc k))
unfolding tabulate
tabulate-suc i zero f = refl
tabulate-suc i (suc n) f = ap (λ (t : List ℕ). f (suc i) ∷ t) (tabulate-suc (suc i) n f)

pub tabulate-at : (st : List ℕ) → tabulate 0 (length st) (at st) ≡ st
unfolding tabulate
tabulate-at [] = refl
tabulate-at (x ∷ st) =
    ap (λ (t : List ℕ). x ∷ t) (tabulate-suc 0 (length st) (at (x ∷ st)) ∙ tabulate-at st)

-- On 25 lanes given one by one both compute to the same.
round-tabulated :
    (constant : ℕ) (f : ℕ → ℕ)
    → keccakf_round constant (tabulate 0 25 f) ≡ round_step constant (tabulate 0 25 f)
unfolding keccakf_round round_step theta rho_pi chi iota put tabulate
round-tabulated constant f = refl

round-steps :
    (constant : ℕ) (st : List ℕ)
    → length st ≡ 25
    → keccakf_round constant st ≡ round_step constant st
round-steps constant st h =
    let given : tabulate 0 25 (at st) ≡ st =
      ap (λ (t : ℕ). tabulate 0 t (at st)) (sym h) ∙ tabulate-at st in
    ap (keccakf_round constant) (sym given)
    ∙ round-tabulated constant (at st)
    ∙ ap (round_step constant) given

length-round_step : (constant : ℕ) (st : List ℕ) → length (round_step constant st) ≡ 25
unfolding round_step tabulate
length-round_step constant st = refl

length-permute : (constants st : List ℕ) → length st ≡ 25 → length (permute constants st) ≡ 25
unfolding permute
length-permute [] st h = h
length-permute (constant ∷ constants) st h =
    length-permute constants (round_step constant st) (length-round_step constant st)

keccakf-steps :
    (constants st : List ℕ) → length st ≡ 25 → keccakf constants st ≡ permute constants st
unfolding keccakf permute
keccakf-steps [] st h = refl
keccakf-steps (constant ∷ constants) st h =
    ap (keccakf constants) (round-steps constant st h)
    ∙ keccakf-steps constants (round_step constant st) (length-round_step constant st)

-- The permutation of FIPS 202: 24 rounds.
unfoldable pub permutation : List ℕ → List ℕ
unfolding permute
permutation st = permute (round_constants 0 24) st

pub keccakf-permutation : (st : List ℕ) → length st ≡ 25 → keccakf keccakf_rndc st ≡ permutation st
unfolding permutation
keccakf-permutation st h =
    ap (λ (t : List ℕ). keccakf t st) (sym rounds-constants)
    ∙ keccakf-steps (round_constants 0 24) st h

pub length-permutation : (st : List ℕ) → length st ≡ 25 → length (permutation st) ≡ 25
unfolding permutation
length-permutation st h = length-permute (round_constants 0 24) st h
