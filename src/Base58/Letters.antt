-- ===== src/Base58/Letters.antt =====
-- The two tables of src/common/base58.cpp: letters and digits determine one another, and so do the
-- sizes of blocks.
use node_blocktemplate.Prelude.{
  ℕ, ◌≡◌, refl, sym, ◌∙◌, some_eq, ◌*◌, ◌^◌, ◌≤◌, ◌<◌, Bool, true, Option, none, some, ◌&&◌, ltb,
  leb, ◌==◌, all_below, all_below→true, arith,
}
use node_blocktemplate.Base58.{reverse_alphabet, letter_of, decoded_block_sizes, encoded_block_size}

-- `o` holds `v`.
abbrev holds : Option ℕ → ℕ → Bool
holds o v = elim o [ none ↦ Bool.false | some w ↦ w == v ]

holds→eq : (o : Option ℕ) (v : ℕ) → holds o v ≡ true → o ≡ some v
holds→eq none v e = cc
holds→eq (some w) v e = let same : w ≡ v = ground arith in cc

-- What `o` holds, if anything, is below `bound` and is sent to `v` by `back`.
abbrev comes_from : (ℕ → ℕ) → ℕ → Option ℕ → ℕ → Bool
comes_from back bound o v = elim o [ none ↦ true | some w ↦ ltb w bound && (back w == v) ]

comes_from→ :
    (back : ℕ → ℕ) (bound : ℕ) (o : Option ℕ) (v w : ℕ)
    → comes_from back bound o v ≡ true
    → o ≡ some w
    → (w < bound) × (back w ≡ v)
comes_from→ back bound none v w e q = cc
comes_from→ back bound (some u) v w e q =
    let same : u ≡ w = cc q in rw (← same) (ground arith, ground arith)

pub reverse_alphabet-letter_of :
    (digit : ℕ) → digit < 58 → reverse_alphabet (letter_of digit) ≡ some digit
unfolding all_below reverse_alphabet
reverse_alphabet-letter_of digit h =
    holds→eq _ digit
      (all_below→true (λ d. holds (reverse_alphabet (letter_of d)) d) 58 digit refl h)

pub letter_of-reverse_alphabet :
    (letter digit : ℕ)
    → letter < 256
    → reverse_alphabet letter ≡ some digit
    → (digit < 58) × (letter_of digit ≡ letter)
unfolding all_below reverse_alphabet
letter_of-reverse_alphabet letter digit h =
    comes_from→ letter_of 58 (reverse_alphabet letter) letter digit
      (all_below→true (λ c. comes_from letter_of 58 (reverse_alphabet c) c) 256 letter refl h)

pub letter_of-IsByte : (digit : ℕ) → digit < 58 → letter_of digit < 256
unfolding all_below
letter_of-IsByte digit h =
    ground (arith, all_below→true (λ d. ltb (letter_of d) 256) 58 digit refl h)

pub decoded-encoded_block_size :
    (size : ℕ) → size < 9 → decoded_block_sizes (encoded_block_size size) ≡ some size
unfolding all_below decoded_block_sizes
decoded-encoded_block_size size h =
    holds→eq _ size
      (all_below→true (λ s. holds (decoded_block_sizes (encoded_block_size s)) s) 9 size refl h)

pub encoded-decoded_block_size :
    (size bytes : ℕ)
    → size < 12
    → decoded_block_sizes size ≡ some bytes
    → (bytes < 9) × (encoded_block_size bytes ≡ size)
unfolding all_below decoded_block_sizes
encoded-decoded_block_size size bytes h =
    comes_from→ encoded_block_size 9 (decoded_block_sizes size) size bytes (
      all_below→true (λ s. comes_from encoded_block_size 9 (decoded_block_sizes s) s) 12 size refl
        h)

-- A block of `size` bytes has room in its letters.
pub encoded_block_size-enough :
    (size : ℕ) → size < 9 → 2 ^ (8 * size) ≤ 58 ^ encoded_block_size size
unfolding all_below
encoded_block_size-enough size h =
    ground
      (arith, all_below→true (λ s. leb (2 ^ (8 * s)) (58 ^ encoded_block_size s)) 9 size refl h)

pub encoded_block_size-lt : (size : ℕ) → size < 8 → encoded_block_size size < 11
unfolding all_below
encoded_block_size-lt size h =
    ground (arith, all_below→true (λ s. ltb (encoded_block_size s) 11) 8 size refl h)

pub encoded_block_size-ge : (size : ℕ) → size < 9 → size ≤ encoded_block_size size
unfolding all_below
encoded_block_size-ge size h =
    ground (arith, all_below→true (λ s. leb s (encoded_block_size s)) 9 size refl h)

-- A size is that of one block of letters.
pub encoded_block_size-injective :
    (a b : ℕ) → a < 9 → b < 9 → encoded_block_size a ≡ encoded_block_size b → a ≡ b
encoded_block_size-injective a b ha hb e =
    let read = decoded-encoded_block_size a ha in
    some_eq (sym (rw e at read) ∙ decoded-encoded_block_size b hb)
