-- ===== src/TreeHash/Branch/Depth.antt =====
-- `tree_depth` and the loop at the head of `tree_branch` (src/crypto/tree-hash.c).
use native.Mathlib.Nat.{le-div_iff_mul-le, div-lt_iff_lt-mul}
use node_blocktemplate.Prelude.{
  zero, ℕ, suc, ◌+◌, ◌-◌, ◌*◌, ◌/◌, ◌%◌, ◌^◌, ◌≤◌, ◌<◌, ◌≡◌, refl, sym, ap, ◌∙◌, inl, inr, true,
  false, ltb, leb, arith,
}
use node_blocktemplate.Prelude.{le-or-lt}
use node_blocktemplate.Prelude.Bits.{pow-add, pow_pos, pow_mono}
use node_blocktemplate.TreeHash.Branch.{shift_down, tree_depth, shift_up, branch_level}

-- What `tree_depth` has when fewer than `k` digits are left: the digits that it counted and those of
-- what it has left make `d`.
record Left (d k : ℕ) (state : ℕ × ℕ) : Type 0 where
  digits : ℕ
  few : digits < k
  low : 2 ^ digits ≤ state.0
  high : state.0 < 2 ^ suc digits
  whole : state.1 + digits ≡ d

shift_down-more :
    (d i c dep e : ℕ)
    → i ≤ e
    → e < i + i
    → 2 ^ e ≤ c
    → c < 2 ^ suc e
    → dep + e ≡ d
    → Left d i (shift_down (c, dep) i)
unfolding shift_down
shift_down-more d i c dep e le few low high whole =
    let split : 2 ^ (e - i) * 2 ^ i ≡ 2 ^ e =
      sym (pow-add (e - i) i) ∙ ap (λ (t : ℕ). 2 ^ t) (omega arith) in
    let above : 2 ^ suc (e - i) * 2 ^ i ≡ 2 ^ suc e =
      sym (pow-add (suc (e - i)) i) ∙ ap (λ (t : ℕ). 2 ^ t) (omega arith) in
    let at_least : 2 ^ (e - i) ≤ c / 2 ^ i =
      (le-div_iff_mul-le (pow_pos i)).1 (omega (arith, split)) in
    let below : c / 2 ^ i < 2 ^ suc (e - i) =
      (div-lt_iff_lt-mul (pow_pos i)).1 (omega (arith, above)) in
    let some_left : ltb 0 (c / 2 ^ i) ≡ true = ground (arith, at_least, pow_pos (e - i)) in
    rw some_left (record {
      digits = e - i;
      few = omega arith;
      low = at_least;
      high = below;
      whole = omega arith;
    })

shift_down-Left : (d i : ℕ) (state : ℕ × ℕ) → Left d (i + i) state → Left d i (shift_down state i)
unfolding shift_down
shift_down-Left d i (c, dep) l = elim (le-or-lt i l.digits) [
  | inl le ↦ shift_down-more d i c dep l.digits le l.few l.low l.high l.whole
  | inr lt ↦
      let small : c < 1 * 2 ^ i = omega (arith, l.high, pow_mono (suc l.digits) i lt) in
      let gone : c / 2 ^ i < 1 = (div-lt_iff_lt-mul (pow_pos i)).1 small in
      let stop : ltb 0 (c / 2 ^ i) ≡ false = ground (arith, gone) in
      rw stop (record { digits = l.digits; few = lt; low = l.low; high = l.high; whole = l.whole })
]

-- For a count from 2^d to 2^(d+1) - 1, `tree_depth` is d.
pub tree_depth-pow :
    (d count : ℕ) → d < 64 → 2 ^ d ≤ count → count < 2 ^ suc d → tree_depth count ≡ d
unfolding tree_depth
tree_depth-pow d count small low high =
    let s = shift_down-Left d in
    let start : Left d 64 (count, 0) = record {
      digits = d;
      few = small;
      low = low;
      high = high;
      whole = omega arith;
    } in
    let l = s 1 _ (s 2 _ (s 4 _ (s 8 _ (s 16 _ (s 32 _ start))))) in omega (arith, l.few, l.whole)

-- What the loop of `tree_branch` has when fewer than `k` digits are to be found.
record Found (d k : ℕ) (state : ℕ × ℕ) : Type 0 where
  power : state.0 ≡ 2 ^ state.1
  low : state.1 ≤ d
  high : d < state.1 + k
  fits : state.1 + k ≤ 64

shift_up-Found :
    (d count i : ℕ) (state : ℕ × ℕ)
    → 2 ^ d ≤ count
    → count < 2 ^ suc d
    → 0 < i
    → Found d (i + i) state
    → Found d i (shift_up count state i)
unfolding shift_up
shift_up-Found d count i (cnt, dep) low high pos f =
    let product : cnt * 2 ^ i ≡ 2 ^ (dep + i) =
      ap (λ (t : ℕ). t * 2 ^ i) f.power ∙ sym (pow-add dep i) in
    let bound = pow_mono (dep + i) 63 (omega (arith, f.fits)) in
    let next : cnt * 2 ^ i % 2 ^ 64 ≡ 2 ^ (dep + i) = omega (arith, product, bound) in
    elim (le-or-lt (dep + i) d) [
      | inl le ↦
          let here : leb (2 ^ (dep + i)) count ≡ true = ground (arith, pow_mono (dep + i) d le) in
          rw (next, here)
            (record {
              power = refl;
              low = le;
              high = omega (arith, f.high);
              fits = omega (arith, f.fits);
            })
      | inr lt ↦
          let past : leb (2 ^ (dep + i)) count ≡ false =
            ground (arith, pow_mono (suc d) (dep + i) lt) in
          rw (next, past)
            (record { power = f.power; low = f.low; high = lt; fits = omega (arith, f.fits) })
    ]

-- For such a count `tree_branch` starts from a level of 2^d hashes.
pub branch_level-pow :
    (d count : ℕ)
    → d < 64
    → 2 ^ d ≤ count
    → count < 2 ^ suc d
    → (branch_level count).1 ≡ d × (branch_level count).0 ≡ 2 ^ d
unfolding branch_level
branch_level-pow d count small low high =
    let start : Found d 64 (1, 0) = record {
      power = refl;
      low = omega arith;
      high = omega arith;
      fits = omega arith;
    } in
    let f = up 1 _ (omega arith) (
      up 2 _ (omega arith) (
        up 4 _ (omega arith)
          (up 8 _ (omega arith) (up 16 _ (omega arith) (up 32 _ (omega arith) start))))) in
    let depth : (branch_level count).1 ≡ d = omega (arith, f.low, f.high) in
    (depth, f.power ∙ ap (λ (t : ℕ). 2 ^ t) depth)
  where
    up : (i : ℕ) (p : ℕ × ℕ) → 0 < i → Found d (i + i) p → Found d i (shift_up count p i)
    up i p = shift_up-Found d count i p low high

power_below :
    (w count : ℕ)
    → 0 < count
    → count < 2 ^ w
    → (d : ℕ) × (d < w) × (2 ^ d ≤ count) × (count < 2 ^ suc d)
power_below zero count pos small = absurd (omega arith)
power_below (suc w) count pos small = elim (le-or-lt (2 ^ w) count) [
  | inl le ↦ (w, omega arith, le, small)
  | inr lt ↦ let (d, below, low, high) = power_below w count pos lt in (d, omega arith, low, high)
]

-- For any count but 0 of 64 bits: `tree_depth` is its logarithm to the base 2, rounded down; the loop
-- at the head of `tree_branch` ends with that depth and that power of two, as the code asserts.
pub branch_level-tree_depth :
    (count : ℕ)
    → 0 < count
    → count < 2 ^ 64
    → (2 ^ tree_depth count ≤ count)
      × (count < 2 ^ suc (tree_depth count))
      × ((branch_level count).1 ≡ tree_depth count)
      × ((branch_level count).0 ≡ 2 ^ tree_depth count)
branch_level-tree_depth count pos small =
    let (d, below, low, high) = power_below 64 count pos small in
    let (depth, cnt) = branch_level-pow d count below low high in
    rw (tree_depth-pow d count below low high) (low, high, depth, cnt)
