-- ===== src/TreeHash/Smear.antt =====
-- `full_level` of `tree_hash` (src/crypto/tree-hash.c): the largest power of two below the count.
use native.Mathlib.Nat.{
  pow-suc, mul_assoc, mul_comm, mul-le-mul_left, mul-sub, div-le_self, le-div_iff_mul-le,
  div-lt_iff_lt-mul,
}
use mathlib.Core.Path.{subst}
use node_blocktemplate.Prelude.{
  ℕ, zero, suc, ◌+◌, ◌-◌, ◌*◌, ◌/◌, ◌%◌, ◌^◌, ◌≤◌, ◌<◌, ◌≡◌, sym, ap, ◌∙◌, inl, inr, bit_and,
  bit_or, arith,
}
use Prim.Native.Nat.{bit_and-bitwise}
use node_blocktemplate.Prelude.{le-or-lt}
use node_blocktemplate.Prelude.Bits.{bit_or_step, bit_and_step, pow-add, pow_pos, pow_mono}
use node_blocktemplate.TreeHash.{smear, full_level}

-- An or of numbers of `w` bits has `w` bits.
bit_or-lt : (w x y : ℕ) → x < 2 ^ w → y < 2 ^ w → bit_or x y < 2 ^ w
bit_or-lt zero zero zero hx hy = omega arith
bit_or-lt zero (suc x) y hx hy = absurd (omega arith)
bit_or-lt zero zero (suc y) hx hy = absurd (omega arith)
bit_or-lt (suc w) x y hx hy = omega (
  arith,
  pow-suc 2 w,
  bit_or_step x y,
  bit_or-lt w (x / 2) (y / 2) (omega (arith, pow-suc 2 w)) (omega (arith, pow-suc 2 w)),
)

-- It is at least as large as either.
bit_or-ge_right : (w x y : ℕ) → y < 2 ^ w → y ≤ bit_or x y
bit_or-ge_right zero x zero hy = omega arith
bit_or-ge_right zero x (suc y) hy = absurd (omega arith)
bit_or-ge_right (suc w) x y hy = omega (
  arith,
  pow-suc 2 w,
  bit_or_step x y,
  bit_or-ge_right w (x / 2) (y / 2) (omega (arith, pow-suc 2 w)),
)

bit_or-ge_left : (w x y : ℕ) → x < 2 ^ w → x ≤ bit_or x y
bit_or-ge_left zero zero y hx = omega arith
bit_or-ge_left zero (suc x) y hx = absurd (omega arith)
bit_or-ge_left (suc w) x y hx = omega (
  arith,
  pow-suc 2 w,
  bit_or_step x y,
  bit_or-ge_left w (x / 2) (y / 2) (omega (arith, pow-suc 2 w)),
)

lt_pow : (x : ℕ) → x < 2 ^ x
lt_pow zero = omega arith
lt_pow (suc x) = omega (arith, pow-suc 2 x, lt_pow x)

-- Digits above the bits of `y` stay.
bit_or-ge_high : (e a r y : ℕ) → r < 2 ^ e → y < 2 ^ e → a * 2 ^ e + y ≤ bit_or (a * 2 ^ e + r) y
bit_or-ge_high zero a r zero hr hy =
    omega
      (arith, bit_or-ge_left (a * 2 ^ zero + r) (a * 2 ^ zero + r) 0 (lt_pow (a * 2 ^ zero + r)))
bit_or-ge_high zero a r (suc y) hr hy = absurd (omega arith)
bit_or-ge_high (suc e) a r y hr hy =
    let size : a * 2 ^ suc e ≡ 2 * (a * 2 ^ e) =
      ap (λ (t : ℕ). a * t) (pow-suc 2 e) ∙ sym (mul_assoc a (2 ^ e) 2) ∙ mul_comm (a * 2 ^ e) 2 in
    let halved : (a * 2 ^ suc e + r) / 2 ≡ a * 2 ^ e + r / 2 = omega (arith, size) in
    omega (
      arith,
      size,
      pow-suc 2 e,
      bit_or_step (a * 2 ^ suc e + r) y,
      ap (λ (t : ℕ). bit_or t (y / 2)) halved,
      bit_or-ge_high e a (r / 2) (y / 2) (omega (arith, pow-suc 2 e)) (omega (arith, pow-suc 2 e)),
    )

-- The top `k` of the `w` bits of `x` are set.
abbrev TopSet : ℕ → ℕ → ℕ → Type 0
TopSet w k x = (x < 2 ^ w) × (2 ^ w ≤ x + 2 ^ (w - k))

smear_step-full : (w k x : ℕ) → w < k → TopSet w k x → TopSet w (k + k) (bit_or x (x / 2 ^ k))
smear_step-full w k x h (hx, hs) =
    let shifted : x / 2 ^ k < 2 ^ w = omega (arith, div-le_self x (2 ^ k)) in
    let same : w - k ≡ w - (k + k) = omega arith in
    (
      bit_or-lt w x (x / 2 ^ k) hx shifted,
      omega (arith, ap (λ (t : ℕ). 2 ^ t) same, bit_or-ge_left w x (x / 2 ^ k) hx),
    )

-- The numbers of the round, the top `k` of `k + e` bits of `x` set: what the shift leaves, and what
-- stands above and below the `e` lower bits.
record Round (k e x : ℕ) : Type 0 where
  low : x / 2 ^ k < 2 ^ e
  high : 2 ^ e ≤ x / 2 ^ k + 2 ^ (e - k)
  split : x ≡ (2 ^ k - 1) * 2 ^ e + (x - (2 ^ k - 1) * 2 ^ e)
  rest : x - (2 ^ k - 1) * 2 ^ e < 2 ^ e
  above : (2 ^ k - 1) * 2 ^ e + 2 ^ e ≡ 2 ^ (k + e)

round : (k e x : ℕ) → x < 2 ^ (k + e) → 2 ^ (k + e) ≤ x + 2 ^ e → Round k e x
round k e x hx hs =
    let whole = pow-add k e in
    let swapped = mul_comm (2 ^ k) (2 ^ e) in
    let cover : 2 ^ e ≤ 2 ^ k * 2 ^ (e - k) =
      omega (arith, pow-add k (e - k), pow_mono e (k + (e - k)) (omega arith)) in
    let top : (2 ^ e - 2 ^ (e - k)) * 2 ^ k ≡ 2 ^ k * 2 ^ e - 2 ^ k * 2 ^ (e - k) =
      mul_comm (2 ^ e - 2 ^ (e - k)) (2 ^ k) ∙ mul-sub (2 ^ k) (2 ^ e) (2 ^ (e - k)) in
    let less : (2 ^ k - 1) * 2 ^ e ≡ 2 ^ e * 2 ^ k - 2 ^ e * 1 =
      mul_comm (2 ^ k - 1) (2 ^ e) ∙ mul-sub (2 ^ e) (2 ^ k) 1 in
    let large : 2 ^ e * 1 ≤ 2 ^ e * 2 ^ k = mul-le-mul_left (2 ^ e) (pow_pos k) in
    let shifted : 2 ^ e - 2 ^ (e - k) ≤ x / 2 ^ k =
      (le-div_iff_mul-le (pow_pos k)).1 (omega (arith, whole, top, cover)) in
    record {
      low = (div-lt_iff_lt-mul (pow_pos k)).1 (omega (arith, whole, swapped));
      high = omega (arith, shifted);
      split = omega (arith, whole, swapped, less, large);
      rest = omega (arith, whole, swapped, less, large);
      above = omega (arith, whole, swapped, less, large);
    }

smear_step-part : (k e x : ℕ) → TopSet (k + e) k x → TopSet (k + e) (k + k) (bit_or x (x / 2 ^ k))
smear_step-part k e x (hx, hs) =
    let lower : 2 ^ (k + e - k) ≡ 2 ^ e = ap (λ (t : ℕ). 2 ^ t) (omega arith) in
    let left : 2 ^ (k + e - (k + k)) ≡ 2 ^ (e - k) = ap (λ (t : ℕ). 2 ^ t) (omega arith) in
    let r = round k e x hx (omega (arith, lower)) in
    let kept = bit_or-ge_high e (2 ^ k - 1) (x - (2 ^ k - 1) * 2 ^ e) (x / 2 ^ k) r.rest r.low in
    let same = ap (λ (t : ℕ). bit_or t (x / 2 ^ k)) r.split in
    let shifted : x / 2 ^ k < 2 ^ (k + e) = omega (arith, div-le_self x (2 ^ k)) in
    (bit_or-lt (k + e) x (x / 2 ^ k) hx shifted, omega (arith, left, kept, same, r.high, r.above))

-- A round of the loop over `i` doubles the bits that are set at the top.
smear_step : (w k x : ℕ) → TopSet w k x → TopSet w (k + k) (bit_or x (x / 2 ^ k))
smear_step w k x h = elim (le-or-lt k w) [
  | inl le ↦
      let width : k + (w - k) ≡ w = omega arith in
      subst (λ (t : ℕ). TopSet t k x → TopSet t (k + k) (bit_or x (x / 2 ^ k))) width
        (smear_step-part k (w - k) x) h
  | inr lt ↦ smear_step-full w k x lt h
]

-- After the rounds all bits of a number of at most 64 bits are set.
smear-all : (d x : ℕ) → d < 64 → 2 ^ d ≤ x → x < 2 ^ suc d → smear x + 1 ≡ 2 ^ suc d
unfolding smear
smear-all d x small low high =
    let top : TopSet (suc d) 1 x =
      (high, omega (arith, pow-suc 2 d, ap (λ (t : ℕ). 2 ^ t) (less d))) in
    let s = smear_step (suc d) in
    let (hx, hs) = s 32 _ (s 16 _ (s 8 _ (s 4 _ (s 2 _ (s 1 x top))))) in
    let none : 2 ^ (suc d - 64) ≡ 2 ^ 0 = ap (λ (t : ℕ). 2 ^ t) (gone d small) in
    omega (arith, hx, hs, none)
  where
    less : (d : ℕ) → suc d - 1 ≡ d
    less d = omega arith

    gone : (d : ℕ) → d < 64 → suc d - 64 ≡ 0
    gone d small = omega arith

zero-bit_and : (y : ℕ) → bit_and 0 y ≡ 0
zero-bit_and y = bit_and-bitwise 0 y

-- An and of d + 1 set bits and an odd multiple of 2^d is 2^d.
bit_and-odd : (d s y m : ℕ) → s + 1 ≡ 2 ^ suc d → y ≡ 2 ^ d * (2 * m + 1) → bit_and s y ≡ 2 ^ d
bit_and-odd zero s y m hs hy =
    let one : s / 2 ≡ 0 = omega arith in
    omega (
      arith,
      bit_and_step s y,
      ap (λ (t : ℕ). bit_and t (y / 2)) one,
      bit_and_step 0 (y / 2),
      zero-bit_and (y / 2),
    )
bit_and-odd (suc d) s y m hs hy =
    let twice : 2 ^ suc d * (2 * m + 1) ≡ 2 * (2 ^ d * (2 * m + 1)) =
      ap (λ (t : ℕ). t * (2 * m + 1)) (pow-suc 2 d ∙ mul_comm (2 ^ d) 2)
      ∙ mul_assoc 2 (2 ^ d) (2 * m + 1) in
    omega (
      arith,
      pow-suc 2 d,
      pow-suc 2 (suc d),
      bit_and_step s y,
      bit_and-odd d (s / 2) (y / 2) m (omega (arith, pow-suc 2 (suc d))) (omega (arith, twice)),
    )

-- The upper bits that are not set, of d + 1 set bits and one less.
flipped :
    (d s : ℕ)
    → d < 63
    → s + 1 ≡ 2 ^ suc d
    → 2 ^ 64 - 1 - s / 2 ≡ 2 ^ d * (2 * (2 ^ (63 - d) - 1) + 1)
flipped d s small all =
    let upper : 2 ^ d * 2 ^ (64 - d) ≡ 2 ^ 64 =
      sym (pow-add d (64 - d)) ∙ ap (λ (t : ℕ). 2 ^ t) (rejoin d small) in
    let doubled : 2 ^ (64 - d) ≡ 2 ^ (63 - d) * 2 =
      ap (λ (t : ℕ). 2 ^ t) (next d small) ∙ pow-suc 2 (63 - d) in
    let odd : 2 * (2 ^ (63 - d) - 1) + 1 ≡ 2 ^ (64 - d) - 1 =
      omega (arith, doubled, pow_pos (63 - d)) in
    let product : 2 ^ d * (2 * (2 ^ (63 - d) - 1) + 1) ≡ 2 ^ 64 - 2 ^ d * 1 =
      ap (λ (t : ℕ). 2 ^ d * t) odd
      ∙ mul-sub (2 ^ d) (2 ^ (64 - d)) 1
      ∙ ap (λ (t : ℕ). t - 2 ^ d * 1) upper in
    omega (arith, product, all, pow-suc 2 d, pow_mono d 63 (omega arith), pow_pos d)
  where
    rejoin : (d : ℕ) → d < 63 → d + (64 - d) ≡ 64
    rejoin d small = omega arith

    next : (d : ℕ) → d < 63 → 64 - d ≡ suc (63 - d)
    next d small = omega arith

-- For a count of more than 2^d and at most 2^(d+1), the first full level has 2^d entries.
pub full_level-pow :
    (d count : ℕ) → d < 63 → 2 ^ d < count → count ≤ 2 ^ suc d → full_level count ≡ 2 ^ d
unfolding full_level
full_level-pow d count small low high =
    let bound = pow_mono (suc d) 63 (omega arith) in
    let before : (count + (2 ^ 64 - 1)) % 2 ^ 64 ≡ count - 1 = omega (arith, bound) in
    let all = smear-all d (count - 1) (omega arith) (omega arith) (omega arith) in
    let cnt = smear (count - 1) in
    let odd = flipped d cnt small all in
    rw before (bit_and-odd d cnt (2 ^ 64 - 1 - cnt / 2) (2 ^ (63 - d) - 1) all odd)
