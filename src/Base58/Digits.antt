-- ===== src/Base58/Digits.antt =====
-- The loops of `encode_block` and `decode_block` (src/common/base58.cpp) write and read the digits
-- of a number to the base 58, the last one first.
use native.Mathlib.Nat.{pow-suc, mod-eq_of_lt, div-add-mod, mul-le-mul_left, one-le-pow}
use node_blocktemplate.Prelude.{
  ℕ, zero, suc, ◌+◌, ◌*◌, ◌/◌, ◌%◌, ◌^◌, ◌≤◌, ◌<◌, ◌≡◌, refl, sym, ap, ◌∙◌, Option, none, some,
  some_eq, ◌⊎◌, inl, inr, [], ◌∷◌, >>=-eq-some, Bytes, AreBytes, length, replicate, arith, ltb, not,
  ◌||◌, ◌==◌, if◌then◌else◌,
}
use node_blocktemplate.Base58.{letter_of, reverse_alphabet, encode_block_loop, decode_block_loop}
use node_blocktemplate.Base58.Letters.{
  reverse_alphabet-letter_of, letter_of-reverse_alphabet, letter_of-IsByte,
}

-- `count` letters, the last one first.
unfoldable pub letters : ℕ → ℕ → Bytes
letters zero num = []
letters (suc count) num = letter_of (num % 58) ∷ letters count (num / 58)

pub length-letters : (count num : ℕ) → length (letters count num) ≡ count
unfolding letters
length-letters zero num = refl
length-letters (suc count) num = omega (arith, length-letters count (num / 58))

pub letters-AreBytes : (count num : ℕ) → AreBytes (letters count num)
unfolding letters
letters-AreBytes zero num = tt
letters-AreBytes (suc count) num =
    (letter_of-IsByte (num % 58) (omega arith), letters-AreBytes count (num / 58))

letters-zero : (count : ℕ) → letters count 0 ≡ replicate count b'1'
unfolding letters
letters-zero zero = refl
letters-zero (suc count) = ap (λ (t : Bytes). b'1' ∷ t) (letters-zero count)

fewer_digits : (count num : ℕ) → num < 58 ^ suc count → num / 58 < 58 ^ count
fewer_digits count num h = omega (arith, pow-suc 58 count)

-- The loop stays in its block if the number has no more digits than the block has places.
pub encode_block_loop-letters :
    (room num : ℕ) → num < 58 ^ room → encode_block_loop room num ≡ some (letters room num)
unfolding encode_block_loop letters
encode_block_loop-letters zero num h = let z : num ≡ 0 = omega arith in rw z refl
encode_block_loop-letters (suc room) num h = elim (zero_or_more num) [
  | inl z ↦ rw z (ap (λ (t : Bytes). some (b'1' ∷ t)) (sym (letters-zero room)))
  | inr more ↦
      rw (encode_block_loop-letters room (num / 58) (fewer_digits room num h)) (ground arith)
]
  where
    zero_or_more : (num : ℕ) → (num ≡ 0) ⊎ (0 < num)
    zero_or_more num = ground arith

-- A round on a digit whose place does not overflow.
round :
    (letter digit : ℕ) (rest : Bytes) (order res : ℕ)
    → reverse_alphabet letter ≡ some digit
    → res + order * digit < 2 ^ 64
    → decode_block_loop (letter ∷ rest) order res
      ≡ decode_block_loop rest (order * 58 % 2 ^ 64) (res + order * digit)
unfolding decode_block_loop
round letter digit rest order res e h =
    let product : order * digit % 2 ^ 64 ≡ order * digit = omega arith in
    let hi : order * digit / 2 ^ 64 ≡ 0 = omega arith in
    let tmp : (res + order * digit) % 2 ^ 64 ≡ res + order * digit = omega arith in
    rw (e, product, hi, tmp) (ground arith)

-- The order of the next digit, where that digit or one behind it is not zero.
next_order :
    (order num more res : ℕ)
    → res + order * num < 2 ^ 64
    → 58 * more + num % 58 ≡ num
    → (order * num ≡ order * (num % 58) + order * 58 * more)
      × (order * 58 % 2 ^ 64 * more ≡ order * 58 * more)
next_order order num more res h e =
    let split : order * num ≡ order * (num % 58) + order * 58 * more =
      omega (arith, ap (λ (t : ℕ). order * t) e) in
    (split, unwrapped more split)
  where
    unwrapped :
        (more : ℕ)
        → order * num ≡ order * (num % 58) + order * 58 * more
        → order * 58 % 2 ^ 64 * more ≡ order * 58 * more
    unwrapped zero split = omega arith
    unwrapped (suc more) split =
        let exact : order * 58 % 2 ^ 64 ≡ order * 58 = mod-eq_of_lt (omega (arith, h)) in
        rw exact refl

-- The digits of a number, added up from `res` on; the order of the digits behind may wrap only
-- where they are all zeros.
pub decode_block_loop-letters :
    (count num order res : ℕ)
    → num < 58 ^ count
    → res + order * num < 2 ^ 64
    → decode_block_loop (letters count num) order res ≡ some (res + order * num)
unfolding letters decode_block_loop
decode_block_loop-letters zero num order res h fits =
    let z : num ≡ 0 = omega arith in ap (λ (t : ℕ). some t) (rw z (omega arith))
decode_block_loop-letters (suc count) num order res h fits =
    let digit : reverse_alphabet (letter_of (num % 58)) ≡ some (num % 58) =
      reverse_alphabet-letter_of (num % 58) (omega arith) in
    let wraps = next_order order num (num / 58) res fits (div-add-mod num 58) in
    round (letter_of (num % 58)) (num % 58) (letters count (num / 58)) order res digit
      (omega (arith, wraps))
    ∙ decode_block_loop-letters count (num / 58) (order * 58 % 2 ^ 64) (res + order * (num % 58))
        (fewer_digits count num h) (omega (arith, wraps))
    ∙ ap (λ (t : ℕ). some t) (omega (arith, wraps))

-- What decode_block_loop took is the number whose digits stand there.
pub record Number (ls : Bytes) (order res v : ℕ) : Type 0 where
  pub index : ℕ
  pub small : index < 58 ^ length ls
  pub total : v ≡ res + order * index
  pub fits : v < 2 ^ 64
  pub written : ls ≡ letters (length ls) index

no_overflow :
    (res p : ℕ) (o : Option ℕ) {v : ℕ}
    → res < 2 ^ 64
    → (if ltb ((res + p % 2 ^ 64) % 2 ^ 64) res || not (p / 2 ^ 64 == 0) then none else o) ≡ some v
    → res + p < 2 ^ 64
no_overflow res p o h q = ground arith

-- The tests of a round that is passed.
round_passed :
    (letter : ℕ) (rest : Bytes) (order res v : ℕ)
    → res < 2 ^ 64
    → decode_block_loop (letter ∷ rest) order res ≡ some v
    → (digit : ℕ) × (reverse_alphabet letter ≡ some digit)
      × (res + order * digit < 2 ^ 64)
      × (decode_block_loop rest (order * 58 % 2 ^ 64) (res + order * digit) ≡ some v)
unfolding decode_block_loop
round_passed letter rest order res v h q =
    let (digit, e, next) = >>=-eq-some (reverse_alphabet letter) _ q in
    let small : res + order * digit < 2 ^ 64 = no_overflow res (order * digit) _ h next in
    (digit, e, small, sym (round letter digit rest order res e small) ∙ q)

-- The order wraps behind the last digit at most.
last_or_exact :
    (n order : ℕ) → order * 58 ^ suc n ≤ 58 ^ 11 → (n ≡ 0) ⊎ (order * 58 % 2 ^ 64 ≡ order * 58)
last_or_exact zero order h = inl refl
last_or_exact (suc n) order h =
    let powers : 58 ^ suc (suc n) ≡ 58 ^ n * 3364 =
      omega (arith, pow-suc 58 (suc n), pow-suc 58 n) in
    let scaled : order * 58 ^ suc (suc n) ≡ order * 58 ^ n * 3364 =
      omega (arith, ap (λ (t : ℕ). order * t) powers) in
    let below : order ≤ order * 58 ^ n =
      omega (arith, mul-le-mul_left order (one-le-pow n 58 (omega arith))) in
    inr (mod-eq_of_lt (omega (arith, h, scaled, below)))

-- What the loop read is the number of these digits.
pub decode_block_loop-Number :
    (ls : Bytes) (order res v : ℕ)
    → AreBytes ls
    → res < 2 ^ 64
    → order * 58 ^ length ls ≤ 58 ^ 11
    → decode_block_loop ls order res ≡ some v
    → Number ls order res v
unfolding letters
decode_block_loop-Number [] order res v hx h room q =
    let same : res ≡ v = unfold decode_block_loop in some_eq q in
    record {
      index = 0;
      small = omega arith;
      total = omega (arith, same);
      fits = omega (arith, same);
      written = refl;
    }
decode_block_loop-Number (letter ∷ ls) order res v (hl, hx) h room q =
    let (digit, e, small, next) = round_passed letter ls order res v h q in
    let (digit_lt, back) = letter_of-reverse_alphabet letter digit hl e in
    let room' : order * 58 % 2 ^ 64 * 58 ^ length ls ≤ 58 ^ 11 = next_room ls room in
    let g =
      decode_block_loop-Number ls (order * 58 % 2 ^ 64) (res + order * digit) v hx small room'
        next in
    let low : (digit + 58 * g.index) % 58 ≡ digit = omega arith in
    let high : (digit + 58 * g.index) / 58 ≡ g.index = omega arith in
    record {
      index = digit + 58 * g.index;
      small = omega (arith, g.small, pow-suc 58 (length ls));
      total = omega (arith, g.total, product (length ls) g.index room g.small);
      fits = g.fits;
      written = rw (low, high, back) (ap (λ (t : Bytes). letter ∷ t) g.written);
    }
  where
    next_room :
        (ls : Bytes)
        → order * 58 ^ suc (length ls) ≤ 58 ^ 11
        → order * 58 % 2 ^ 64 * 58 ^ length ls ≤ 58 ^ 11
    next_room ls room = elim (last_or_exact (length ls) order room) [
      | inl last ↦ rw last (omega arith)
      | inr exact ↦
          rw exact (omega (arith, room, ap (λ (t : ℕ). order * t) (pow-suc 58 (length ls))))
    ]

    product :
        (n index : ℕ)
        → order * 58 ^ suc n ≤ 58 ^ 11
        → index < 58 ^ n
        → order * 58 % 2 ^ 64 * index ≡ order * 58 * index
    product n index room small = elim (last_or_exact n order room) [
      | inl last ↦ let z : index ≡ 0 = omega (arith, rw last at small) in rw z (omega arith)
      | inr exact ↦ rw exact refl
    ]
