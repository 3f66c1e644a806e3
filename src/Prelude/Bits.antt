-- ===== src/Prelude/Bits.antt =====
-- `&` and `|` as arithmetic: masks on one byte by a table, and an or of disjoint numbers by its digits.
use Prim.Native.Nat.{
  ℕ, zero, suc, ◌+◌, ◌-◌, ◌*◌, ◌/◌, ◌%◌, ◌^◌, ◌≤◌, ◌<◌, max, bit_and, bit_or, digits,
  bit_or-bitwise, bit_and-bitwise, min, bit_xor, bit_xor-bitwise, differ,
}
use mathlib.Core.Path.{◌≡◌, refl, ap}
use mathlib.Core.Bool.{Bool, true, false}
use mathlib.Core.Logic.{ite}
use native.Mathlib.Decide.{ℕ_discrete}
use native.Mathlib.Nat.{pow-suc, pow-zero, mul_assoc, mul-one, mul-le-mul_left, add-zero, add-suc}
use native.Mathlib.Numerals.{towards_suc}
use native.Mathlib.Omega.{arith}

module _ (f g : ℕ → ℕ) where
  agree_below : ℕ → Bool
  unfolding ℕ_discrete
  agree_below zero = true
  agree_below (suc n) = ite (ℕ_discrete (f n) (g n)) (agree_below n) false

  agree_below→eq : (n : ℕ) → agree_below n ≡ true → (i : ℕ) → i < n → f i ≡ g i
  unfolding agree_below
  agree_below→eq zero e i h = absurd (omega arith)
  agree_below→eq (suc n) e i h = ground (arith, agree_below→eq n (ground arith) i)

pub bit_and-low_seven : (b : ℕ) → b < 256 → bit_and b 0x7f ≡ b % 128
unfolding agree_below
bit_and-low_seven = agree_below→eq _ _ 256 refl

pub bit_and-top_bit : (b : ℕ) → b < 256 → bit_and b 0x80 ≡ b / 128 * 128
unfolding agree_below
bit_and-top_bit = agree_below→eq _ _ 256 refl

pub bit_or-top_bit : (b : ℕ) → b < 128 → bit_or b 0x80 ≡ b + 128
unfolding agree_below
bit_or-top_bit = agree_below→eq _ _ 128 refl

-- What the native operations stand for reads the digits of `x` on a count that `x` itself bounds,
-- and any count that is as large gives the same.
module _ (z : ℕ → ℕ) (f : ℕ → ℕ → ℕ) where
  digits-enough : (x k l y : ℕ) → x ≤ l → x ≤ k → digits z f l x y ≡ digits z f k x y
  digits-enough (suc x) zero l y hl hk = absurd (omega arith)
  digits-enough (suc x) (suc k) zero y hl hk = absurd (omega arith)
  digits-enough (suc x) (suc k) (suc l) y hl hk =
      let rest = digits-enough (suc x / 2) k l (y / 2) (omega arith) (omega arith) in rw rest
  digits-enough zero (suc k) (suc l) y hl hk = refl
  digits-enough zero zero (suc l) y hl hk = refl
  digits-enough zero (suc k) zero y hl hk = refl
  digits-enough zero zero zero y hl hk = refl

zero-bit_or : (b : ℕ) → bit_or 0 b ≡ b
zero-bit_or b = bit_or-bitwise 0 b

-- The lowest digit of an or, and of an and.
pub bit_or_step : (x y : ℕ) → bit_or x y ≡ max (x % 2) (y % 2) + 2 * bit_or (x / 2) (y / 2)
bit_or_step (suc x) y =
    let enough =
      digits-enough (λ b. b) max (suc x / 2) (suc x / 2) x (y / 2) (omega arith) (omega arith) in
    omega (arith, bit_or-bitwise (suc x / 2) (y / 2), bit_or-bitwise (suc x) y, enough)
bit_or_step zero y = omega (arith, zero-bit_or (y / 2), zero-bit_or y)

pub bit_and_step : (x y : ℕ) → bit_and x y ≡ min (x % 2) (y % 2) + 2 * bit_and (x / 2) (y / 2)
bit_and_step (suc x) y =
    let enough =
      digits-enough (λ b. 0) min (suc x / 2) (suc x / 2) x (y / 2) (omega arith) (omega arith) in
    omega (arith, bit_and-bitwise (suc x / 2) (y / 2), bit_and-bitwise (suc x) y, enough)
bit_and_step zero y = omega (arith, bit_and-bitwise 0 (y / 2), bit_and-bitwise 0 y)

zero-bit_xor : (b : ℕ) → bit_xor 0 b ≡ b
zero-bit_xor b = bit_xor-bitwise 0 b

pub bit_xor_step : (x y : ℕ) → bit_xor x y ≡ differ (x % 2) (y % 2) + 2 * bit_xor (x / 2) (y / 2)
bit_xor_step (suc x) y =
    let enough =
      digits-enough (λ b. b) differ (suc x / 2) (suc x / 2) x (y / 2) (omega arith) (omega arith) in
    omega (arith, bit_xor-bitwise (suc x / 2) (y / 2), bit_xor-bitwise (suc x) y, enough)
bit_xor_step zero y = omega (arith, zero-bit_xor (y / 2), zero-bit_xor y)

differ-lt : (x y : ℕ) → x < 2 → y < 2 → differ x y < 2
differ-lt zero y hx hy = hy
differ-lt (suc zero) zero hx hy = omega arith
differ-lt (suc zero) (suc y) hx hy = omega arith
differ-lt (suc (suc x)) y hx hy = absurd (omega arith)

-- Bits of numbers of `n` bits give one of `n` bits.
pub bit_or-lt : (n x y : ℕ) → x < 2 ^ n → y < 2 ^ n → bit_or x y < 2 ^ n
bit_or-lt zero x y hx hy =
    let ex : x ≡ 0 = omega arith in let ey : y ≡ 0 = omega arith in rw (ex, ey) (omega arith)
bit_or-lt (suc n) x y hx hy = omega (
  arith,
  pow-suc 2 n,
  bit_or_step x y,
  bit_or-lt n (x / 2) (y / 2) (omega (arith, pow-suc 2 n)) (omega (arith, pow-suc 2 n)),
)

pub bit_and-lt : (n x y : ℕ) → x < 2 ^ n → y < 2 ^ n → bit_and x y < 2 ^ n
bit_and-lt zero x y hx hy =
    let ex : x ≡ 0 = omega arith in let ey : y ≡ 0 = omega arith in rw (ex, ey) (omega arith)
bit_and-lt (suc n) x y hx hy = omega (
  arith,
  pow-suc 2 n,
  bit_and_step x y,
  bit_and-lt n (x / 2) (y / 2) (omega (arith, pow-suc 2 n)) (omega (arith, pow-suc 2 n)),
)

pub bit_xor-lt : (n x y : ℕ) → x < 2 ^ n → y < 2 ^ n → bit_xor x y < 2 ^ n
bit_xor-lt zero x y hx hy =
    let ex : x ≡ 0 = omega arith in let ey : y ≡ 0 = omega arith in rw (ex, ey) (omega arith)
bit_xor-lt (suc n) x y hx hy = omega (
  arith,
  pow-suc 2 n,
  bit_xor_step x y,
  differ-lt (x % 2) (y % 2) (omega arith) (omega arith),
  bit_xor-lt n (x / 2) (y / 2) (omega (arith, pow-suc 2 n)) (omega (arith, pow-suc 2 n)),
)

double_shift : (c s : ℕ) → c * 2 ^ suc s ≡ c * 2 ^ s * 2
double_shift c s = simp (pow-suc, mul_assoc)

-- Digits put above the bits of `a` are added to it.
pub bit_or-shifted : (s a c : ℕ) → a < 2 ^ s → bit_or a (c * 2 ^ s) ≡ a + c * 2 ^ s
bit_or-shifted zero zero c h = omega (arith, zero-bit_or (c * 2 ^ zero))
bit_or-shifted zero (suc a) c h = absurd (omega arith)
bit_or-shifted (suc s) a c h = rw double_shift (
    omega (
      arith,
      pow-suc 2 s,
      bit_or_step a (c * 2 ^ s * 2),
      half,
      bit_or-shifted s (a / 2) c (omega (arith, pow-suc 2 s)),
    ))
  where
    half : bit_or (a / 2) (c * 2 ^ s * 2 / 2) ≡ bit_or (a / 2) (c * 2 ^ s)
    half = ap (bit_or (a / 2)) (omega arith)

pub pow-add_seven : (n : ℕ) → 2 ^ (n + 7) ≡ 128 * 2 ^ n
pow-add_seven n = simp towards_suc (omega arith)

pub pow-add : (m n : ℕ) → 2 ^ (m + n) ≡ 2 ^ m * 2 ^ n
pow-add m zero = simp (add-zero, pow-zero, mul-one)
pow-add m (suc n) = simp (add-suc, pow-suc, pow-add m n, mul_assoc)

pub pow_pos : (n : ℕ) → 0 < 2 ^ n
pow_pos zero = omega arith
pow_pos (suc n) = omega (arith, pow-suc 2 n, pow_pos n)

pub pow_mono : (m n : ℕ) → m ≤ n → 2 ^ m ≤ 2 ^ n
pow_mono m n h = omega (
  arith,
  ap (λ (t : ℕ). 2 ^ t) (rejoin m n h),
  pow-add m (n - m),
  mul-le-mul_left (2 ^ m) (pow_pos (n - m)),
)
  where
    rejoin : (m n : ℕ) → m ≤ n → n ≡ m + (n - m)
    rejoin m n h = omega arith
