-- ===== src/Keccak/Absorb.antt =====
-- One block that `keccak` (src/crypto/keccak.c) takes in, by lanes.
use node_blocktemplate.Prelude.{
  true, false, ltb, if◌then◌else◌, ℕ, zero, suc, ◌+◌, ◌*◌, ◌/◌, ◌≤◌, ◌≡◌, refl, sym, ap, ◌∙◌, List,
  [], ◌∷◌, ◌++◌, Bytes, length, length-drop, take, drop, arith,
}
use Prim.Native.Nat.{bit_xor}
use node_blocktemplate.Archive.Fixed.{word_of}
use node_blocktemplate.Keccak.{at, tabulate, absorb, keccakf, keccakf_rndc}
use node_blocktemplate.Keccak.Steps.{permutation, keccakf-permutation, tabulate-suc, tabulate-at}
use node_blocktemplate.Keccak.Slices.{drop-drop, drop-append_le, take-append_le}

-- A block is added to the first lanes.
unfoldable pub add_block : ℕ → Bytes → List ℕ → List ℕ
unfolding tabulate
add_block rate message st = tabulate 0 25 (λ i.
    if ltb i (rate / 8)
    then bit_xor (at st i) (word_of (take 8 (drop (8 * i) message)))
    else at st i)

pub length-absorb : (n : ℕ) (block : Bytes) (st : List ℕ) → length (absorb n block st) ≡ length st
unfolding absorb
length-absorb zero block st = refl
length-absorb (suc n) block [] = refl
length-absorb (suc n) block (x ∷ st) = omega (arith, length-absorb n (drop 8 block) st)

pub absorb-append :
    (n : ℕ) (xs ys : Bytes) (st : List ℕ)
    → 8 * n ≤ length xs
    → absorb n (xs ++ ys) st ≡ absorb n xs st
unfolding absorb
absorb-append zero xs ys st h = refl
absorb-append (suc n) xs ys [] h = refl
absorb-append (suc n) xs ys (x ∷ st) h = rw (
  take-append_le 8 xs ys (omega arith),
  drop-append_le 8 xs ys (omega arith),
  absorb-append n (drop 8 xs) ys st (omega (arith, length-drop 8 xs)),
)

tabulate_cong : (i n : ℕ) (f g : ℕ → ℕ) → ((k : ℕ) → f k ≡ g k) → tabulate i n f ≡ tabulate i n g
unfolding tabulate
tabulate_cong i zero f g h = refl
tabulate_cong i (suc n) f g h = rw (h i, tabulate_cong (suc i) n f g h)

-- A lane with its part of the block.
abbrev with_word : ℕ → Bytes → List ℕ → ℕ → ℕ
with_word n block st i =
    if ltb i n then bit_xor (at st i) (word_of (take 8 (drop (8 * i) block))) else at st i

with_word-suc :
    (n x : ℕ) (block : Bytes) (st : List ℕ) (i : ℕ)
    → with_word (suc n) block (x ∷ st) (suc i) ≡ with_word n (drop 8 block) st i
with_word-suc n x block st i =
    let test : ltb (suc i) (suc n) ≡ ltb i n = ground arith in
    let place : 8 * suc i ≡ 8 + 8 * i = omega arith in
    let moved : drop (8 * suc i) block ≡ drop (8 * i) (drop 8 block) =
      ap (λ (t : ℕ). drop t block) place ∙ sym (drop-drop 8 (8 * i) block) in
    rw (test, moved)

with_word-zero : (block : Bytes) (st : List ℕ) (i : ℕ) → with_word 0 block st i ≡ at st i
with_word-zero block st i = let none_left : ltb i 0 ≡ false = ground arith in rw none_left

with_word-first :
    (n x : ℕ) (block : Bytes) (st : List ℕ)
    → with_word (suc n) block (x ∷ st) 0 ≡ bit_xor x (word_of (take 8 block))
with_word-first n x block st = let here : ltb 0 (suc n) ≡ true = ground arith in rw here

absorb-lanes :
    (n : ℕ) (block : Bytes) (st : List ℕ)
    → absorb n block st ≡ tabulate 0 (length st) (with_word n block st)
unfolding absorb tabulate
absorb-lanes zero block st = sym (
    tabulate_cong 0 (length st) (with_word 0 block st) (at st) (with_word-zero block st)
    ∙ tabulate-at st)
absorb-lanes (suc n) block [] = refl
absorb-lanes (suc n) block (x ∷ st) =
    let lanes = with_word (suc n) block (x ∷ st) in
    rw (
      with_word-first n x block st,
      tabulate-suc 0 (length st) lanes,
      tabulate_cong 0 (length st) (λ k. lanes (suc k)) (with_word n (drop 8 block) st)
          (with_word-suc n x block st),
      absorb-lanes n (drop 8 block) st,
    )

pub absorb-add_block :
    (rate : ℕ) (block : Bytes) (st : List ℕ)
    → length st ≡ 25
    → absorb (rate / 8) block st ≡ add_block rate block st
unfolding add_block
absorb-add_block rate block st h =
    absorb-lanes (rate / 8) block st
    ∙ ap (λ (t : ℕ). tabulate 0 t (with_word (rate / 8) block st)) h

-- One block of the code is one block of the sponge.
pub absorbed :
    (rate : ℕ) (message : Bytes) (st : List ℕ)
    → length st ≡ 25
    → keccakf keccakf_rndc (absorb (rate / 8) message st) ≡ permutation (add_block rate message st)
absorbed rate message st h =
    keccakf-permutation (absorb (rate / 8) message st) (length-absorb (rate / 8) message st ∙ h)
    ∙ ap permutation (absorb-add_block rate message st h)

pub length-add_block :
    (rate : ℕ) (message : Bytes) (st : List ℕ) → length (add_block rate message st) ≡ 25
unfolding add_block tabulate
length-add_block rate message st = refl
