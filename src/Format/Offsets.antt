-- ===== src/Format/Offsets.antt =====
-- `relative_output_offsets_to_absolute` and `absolute_output_offsets_to_relative` of
-- src/cryptonote_basic/cryptonote_format_utils.cpp, on numbers of 64 bits that wrap.
use node_blocktemplate.Prelude.{
  ℕ, ◌+◌, ◌-◌, ◌%◌, ◌^◌, ◌≤◌, ◌<◌, ◌≡◌, refl, ap, ◌∙◌, inl, inr, true, Bool-cases, List, [], ◌∷◌,
  All, leb, if◌then◌else◌, arith,
}

-- `res[i] += res[i-1]`, from the front on.
unfoldable pub add_previous : ℕ → List ℕ → List ℕ
add_previous previous [] = []
add_previous previous (x ∷ xs) = let sum = (x + previous) % 2 ^ 64 in sum ∷ add_previous sum xs

unfoldable pub relative_output_offsets_to_absolute : List ℕ → List ℕ
unfolding add_previous
relative_output_offsets_to_absolute [] = []
relative_output_offsets_to_absolute (x ∷ xs) = x ∷ add_previous x xs

-- `std::sort`
unfoldable pub insert_sorted : ℕ → List ℕ → List ℕ
insert_sorted x [] = x ∷ []
insert_sorted x (y ∷ ys) = if leb x y then x ∷ y ∷ ys else y ∷ insert_sorted x ys

unfoldable pub sort : List ℕ → List ℕ
unfolding insert_sorted
sort [] = []
sort (x ∷ xs) = insert_sorted x (sort xs)

-- `res[i] -= res[i-1]`, from the back on, so that `res[i-1]` is still what it was.
unfoldable pub subtract_previous : ℕ → List ℕ → List ℕ
subtract_previous previous [] = []
subtract_previous previous (x ∷ xs) = ((x + 2 ^ 64 - previous) % 2 ^ 64) ∷ subtract_previous x xs

abbrev pub differences : List ℕ → List ℕ
differences [] = []
differences (x ∷ xs) = x ∷ subtract_previous x xs

unfoldable pub absolute_output_offsets_to_relative : List ℕ → List ℕ
unfolding sort subtract_previous
absolute_output_offsets_to_relative off = differences (sort off)

abbrev pub AreWords : List ℕ → Type 0
AreWords = All (λ x. x < 2 ^ 64)

add-subtract :
    (previous : ℕ) (xs : List ℕ)
    → previous < 2 ^ 64
    → AreWords xs
    → add_previous previous (subtract_previous previous xs) ≡ xs
unfolding add_previous subtract_previous
add-subtract previous [] h hx = refl
add-subtract previous (x ∷ xs) h (hd, hx) =
    let back : ((x + 2 ^ 64 - previous) % 2 ^ 64 + previous) % 2 ^ 64 ≡ x = omega arith in
    rw back (ap (λ (t : List ℕ). x ∷ t) (add-subtract x xs hd hx))

insert_sorted-AreWords :
    (x : ℕ) (ys : List ℕ) → x < 2 ^ 64 → AreWords ys → AreWords (insert_sorted x ys)
unfolding insert_sorted
insert_sorted-AreWords x [] h hy = (h, tt)
insert_sorted-AreWords x (y ∷ ys) h (hd, hy) = elim (Bool-cases (leb x y)) [
  | inl e ↦ rw e (h, (hd, hy))
  | inr e ↦ rw e (hd, insert_sorted-AreWords x ys h hy)
]

sort-AreWords : (xs : List ℕ) → AreWords xs → AreWords (sort xs)
unfolding sort
sort-AreWords [] h = tt
sort-AreWords (x ∷ xs) (hd, h) = insert_sorted-AreWords x (sort xs) hd (sort-AreWords xs h)

differences_back :
    (xs : List ℕ) → AreWords xs → relative_output_offsets_to_absolute (differences xs) ≡ xs
unfolding relative_output_offsets_to_absolute
differences_back [] h = refl
differences_back (x ∷ xs) (hd, h) = ap (λ (t : List ℕ). x ∷ t) (add-subtract x xs hd h)

-- Each number is at least the one in front of it.
abbrev pub Ascending : ℕ → List ℕ → Type 0
Ascending low [] = Unit {0}
Ascending low (x ∷ xs) = (low ≤ x) × Ascending x xs

abbrev pub IsSorted : List ℕ → Type 0
IsSorted [] = Unit {0}
IsSorted (x ∷ xs) = Ascending x xs

insert-Ascending :
    (low x : ℕ) (ys : List ℕ) → low ≤ x → Ascending low ys → Ascending low (insert_sorted x ys)
unfolding insert_sorted
insert-Ascending low x [] h hy = (h, tt)
insert-Ascending low x (y ∷ ys) h (hd, hy) = elim (Bool-cases (leb x y)) [
  | inl e ↦ let le : x ≤ y = ground arith in rw e (h, (le, hy))
  | inr e ↦ let ge : y ≤ x = ground arith in rw e (hd, insert-Ascending y x ys ge hy)
]

insert-IsSorted : (x : ℕ) (ys : List ℕ) → IsSorted ys → IsSorted (insert_sorted x ys)
unfolding insert_sorted
insert-IsSorted x [] h = tt
insert-IsSorted x (y ∷ ys) h = elim (Bool-cases (leb x y)) [
  | inl e ↦ let le : x ≤ y = ground arith in rw e (le, h)
  | inr e ↦ let ge : y ≤ x = ground arith in rw e (insert-Ascending y x ys ge h)
]

pub sort-IsSorted : (xs : List ℕ) → IsSorted (sort xs)
unfolding sort
sort-IsSorted [] = tt
sort-IsSorted (x ∷ xs) = insert-IsSorted x (sort xs) (sort-IsSorted xs)

inserted-Ascending : (x : ℕ) (ys : List ℕ) → Ascending x ys → insert_sorted x ys ≡ x ∷ ys
unfolding insert_sorted
inserted-Ascending x [] h = refl
inserted-Ascending x (y ∷ ys) (hd, h) = let le : leb x y ≡ true = ground arith in rw le refl

sort-Ascending : (low : ℕ) (xs : List ℕ) → Ascending low xs → sort xs ≡ xs
unfolding sort
sort-Ascending low [] h = refl
sort-Ascending low (x ∷ xs) (hd, h) = rw (sort-Ascending x xs h) (inserted-Ascending x xs h)

pub sort_sorted : (xs : List ℕ) → IsSorted xs → sort xs ≡ xs
unfolding sort
sort_sorted [] h = refl
sort_sorted (x ∷ xs) h = rw (sort-Ascending x xs h) (inserted-Ascending x xs h)

abbrev pub sum : List ℕ → ℕ
sum [] = 0
sum (x ∷ xs) = x + sum xs

-- Sums that do not wrap.
add_previous-Ascending :
    (previous : ℕ) (xs : List ℕ)
    → previous + sum xs < 2 ^ 64
    → Ascending previous (add_previous previous xs)
      × (subtract_previous previous (add_previous previous xs) ≡ xs)
unfolding add_previous subtract_previous
add_previous-Ascending previous [] h = (tt, refl)
add_previous-Ascending previous (x ∷ xs) h =
    let exact : (x + previous) % 2 ^ 64 ≡ x + previous = omega arith in
    let back : (x + previous + 2 ^ 64 - previous) % 2 ^ 64 ≡ x = omega arith in
    let (up, rest) = add_previous-Ascending (x + previous) xs (omega arith) in
    rw exact ((omega arith, up), rw back (ap (λ (t : List ℕ). x ∷ t) rest))

differences_forth :
    (off : List ℕ)
    → sum off < 2 ^ 64
    → differences (sort (relative_output_offsets_to_absolute off)) ≡ off
unfolding relative_output_offsets_to_absolute
differences_forth [] s = unfold sort in refl
differences_forth (x ∷ xs) s =
    let (up, back) = add_previous-Ascending x xs s in
    ap differences (sort_sorted (x ∷ add_previous x xs) up) ∙ ap (λ (t : List ℕ). x ∷ t) back

-- Both conversions of offsets. Absolute offsets of 64 bits are got back from their relative ones in
-- ascending order, and as they were if they ascend; relative ones are got back from their absolute
-- ones, where their sum does not exceed 64 bits.
pub offsets-round_trip :
    (off : List ℕ)
    → AreWords off
    → IsSorted (relative_output_offsets_to_absolute (absolute_output_offsets_to_relative off))
      × (relative_output_offsets_to_absolute (absolute_output_offsets_to_relative off) ≡ sort off)
      × (IsSorted off
          → relative_output_offsets_to_absolute (absolute_output_offsets_to_relative off) ≡ off)
      × (sum off < 2 ^ 64
          → absolute_output_offsets_to_relative (relative_output_offsets_to_absolute off) ≡ off)
unfolding absolute_output_offsets_to_relative
offsets-round_trip off h =
    let back = differences_back (sort off) (sort-AreWords off h) in
    (rw back (sort-IsSorted off), back, λ s. back ∙ sort_sorted off s, λ s. differences_forth off s)
