-- ===== src/Keccak/Padding.antt =====
-- The last block of keccak (src/crypto/keccak.c), and the state in the end.
use native.Mathlib.Nat.{div-add-mod, mod-lt}
use node_blocktemplate.Prelude.{
  ℕ, zero, suc, ◌+◌, ◌-◌, ◌*◌, ◌/◌, ◌<◌, ◌≡◌, refl, ◌∙◌, [], ◌∷◌, ◌++◌, Bytes, AreBytes,
  AreBytes-append, AreBytes-drop, length, length-append, length-replicate, length-drop, drop,
  replicate, arith,
}
use node_blocktemplate.Prelude.Bits.{bit_or-lt}
use node_blocktemplate.Keccak.{at, put, absorb_all, last_block, keccakf_rndc}
use node_blocktemplate.Keccak.Words.{
  Words, put-size, keccakf-Words, absorb-Words, rounds-IsWord, absorb_blocks-Words,
}

put-AreBytes : (i x : ℕ) (bs : Bytes) → x < 256 → AreBytes bs → AreBytes (put i x bs)
unfolding put
put-AreBytes i x [] hx h = tt
put-AreBytes zero x (y ∷ bs) hx h = (hx, h.1)
put-AreBytes (suc i) x (y ∷ bs) hx h = (h.0, put-AreBytes i x bs hx h.1)

at_lt : (bs : Bytes) (i : ℕ) → AreBytes bs → at bs i < 256
at_lt [] i h = omega arith
at_lt (x ∷ bs) zero h = h.0
at_lt (x ∷ bs) (suc i) h = at_lt bs i h.1

zeros-AreBytes : (n : ℕ) → AreBytes (replicate n 0)
zeros-AreBytes zero = tt
zeros-AreBytes (suc n) = (omega arith, zeros-AreBytes n)

-- The last block is a whole block of bytes.
last_block-size :
    (rsiz : ℕ) (input : Bytes)
    → length input < rsiz
    → AreBytes input
    → (length (last_block rsiz input) ≡ rsiz) × AreBytes (last_block rsiz input)
unfolding last_block
last_block-size rsiz input h hx =
    let zeros : Bytes = replicate (rsiz - (length input + 1)) 0 in
    let temp = input ++ (1 ∷ zeros) in
    let bytes : AreBytes temp =
      AreBytes-append input (1 ∷ zeros) hx
        (omega arith, zeros-AreBytes (rsiz - (length input + 1))) in
    (
      put-size (rsiz - 1) _ temp
          ∙ omega (
            arith,
            length-append input (1 ∷ zeros),
            length-replicate {A = ℕ} (rsiz - (length input + 1)) 0,
          ),
      put-AreBytes (rsiz - 1) _ temp
          (bit_or-lt 8 (at temp (rsiz - 1)) 0x80 (at_lt temp (rsiz - 1) bytes) (omega arith)) bytes,
    )

zeros-Words : Words 25 (replicate 25 0)
zeros-Words = record { size = refl; small = omega arith }

rest_lt :
    (rsiz : ℕ) (input : Bytes) → 0 < rsiz → length (drop (length input / rsiz * rsiz) input) < rsiz
rest_lt rsiz input h =
    rw (length-drop (length input / rsiz * rsiz) input)
      (omega (arith, div-add-mod (length input) rsiz, mod-lt (length input) h, commuted))
  where
    commuted : length input / rsiz * rsiz ≡ rsiz * (length input / rsiz)
    commuted = omega arith

-- For input of bytes and blocks of any size but 0: the last block, with its padding, fills one block
-- of bytes, and the state in the end is 25 words of 64 bits.
pub absorb_all-Words :
    (rsiz : ℕ) (input : Bytes)
    → 0 < rsiz
    → AreBytes input
    → (length (last_block rsiz (drop (length input / rsiz * rsiz) input)) ≡ rsiz)
      × Words 25 (absorb_all rsiz input)
unfolding absorb_all
absorb_all-Words rsiz input h hx =
    let rest = drop (length input / rsiz * rsiz) input in
    let (size, bytes) =
      last_block-size rsiz rest (rest_lt rsiz input h)
        (AreBytes-drop (length input / rsiz * rsiz) input hx) in
    (
      size,
      keccakf-Words keccakf_rndc _ rounds-IsWord (
          absorb-Words (rsiz / 8) 25 (last_block rsiz rest) _ bytes
            (absorb_blocks-Words (length input / rsiz) rsiz input (replicate 25 0) hx zeros-Words)),
    )
