-- ===== src/Main/Nonce.antt =====
-- The nonce of a block on the wire: four bytes that may be replaced by themselves.
use node_blocktemplate.Prelude.{
  ℕ, ◌^◌, ◌<◌, ◌≡◌, sym, ap, ◌∙◌, some, some_eq, [], ◌∷◌, ◌++◌, append_assoc, Bytes, AreBytes,
  length, arith,
}
use node_blocktemplate.Archive.Codec.{Codec}
use node_blocktemplate.Archive.Fixed.{put_uint, word_of, uint}
use node_blocktemplate.Archive.Combine.{chain, convert}
use node_blocktemplate.Archive.Combine.Laws.{saved_chain}
use node_blocktemplate.Rct.Prunable.{MaxAmounts}
use node_blocktemplate.Basic.Header.{BlockHeader, header_rest, block_header}
use node_blocktemplate.Basic.Block.{Block, block}
use node_blocktemplate.Format.Hashing.{chain-save}
use node_blocktemplate.Main.{set_nonce}

-- Where `a` is saved with the bytes `old` in some place, `a'` is saved with `new` there.
abbrev pub Swaps : {A : Type 0} → Codec A → A → A → Bytes → Bytes → Type 0
Swaps c a a' old new =
    (bs : Bytes)
    → c.save a ≡ some bs
    → (front : Bytes) × (back : Bytes) × (bs ≡ front ++ (old ++ back))
      × (c.save a' ≡ some (front ++ (new ++ back)))

module _ {A B : Type 0} (c : Codec A) (d : A → Codec B) where
  pub after-Swaps :
      (a : A) (b b' : B) (old new : Bytes)
      → Swaps (d a) b b' old new
      → Swaps (chain c d) (a, b) (a, b') old new
  after-Swaps a b b' old new h bs saved =
      let (xs, ys, ex, ey, q) = chain-save c d (a, b) bs saved in
      let (front, back, at, put) = h ys ey in
      (
        xs ++ front,
        back,
        q ∙ ap (λ (t : Bytes). xs ++ t) at ∙ sym (append_assoc xs front _),
        saved_chain c d (a, b') xs _ ex put
            ∙ ap (λ (t : Bytes). some t) (sym (append_assoc xs front _)),
      )

pub regroup : (xs ys zs ws : Bytes) → (xs ++ (ys ++ zs)) ++ ws ≡ xs ++ (ys ++ (zs ++ ws))
regroup xs ys zs ws =
    append_assoc xs (ys ++ zs) ws ∙ ap (λ (t : Bytes). xs ++ t) (append_assoc ys zs ws)

pub before-Swaps :
    {A B : Type 0} (c : Codec A) (d : Codec B) (a a' : A) (b : B) (old new : Bytes)
    → Swaps c a a' old new
    → Swaps (chain c (λ _. d)) (a, b) (a', b) old new
before-Swaps c d a a' b old new h bs saved =
    let (xs, ys, ex, ey, q) = chain-save c (λ _. d) (a, b) bs saved in
    let (front, back, at, put) = h xs ex in
    (
      front,
      back ++ ys,
      q ∙ ap (λ (t : Bytes). t ++ ys) at ∙ regroup front old back ys,
      saved_chain c (λ _. d) (a', b) _ ys put ey
          ∙ ap (λ (t : Bytes). some t) (regroup front new back ys),
    )

here-Swaps :
    {B : Type 0} (d : Codec B) (v v' : ℕ) (b : B)
    → Swaps (chain (uint 4) (λ _. d)) (v, b) (v', b) (put_uint 4 v) (put_uint 4 v')
unfolding uint chain
here-Swaps d v v' b bs saved =
    let (xs, ys, ex, ey, q) = chain-save (uint 4) (λ _. d) (v, b) bs saved in
    ([], ys, q ∙ ap (λ (t : Bytes). t ++ ys) (sym (some_eq ex)), rw ey)

pub header-Swaps :
    (bt : ℕ) (h : BlockHeader) (nonce : ℕ)
    → Swaps (block_header bt) h (record h { nonce = nonce }) (put_uint 4 h.nonce) (put_uint 4 nonce)
unfolding block_header convert header_rest
header-Swaps bt h nonce = after-Swaps _ _ _ _ _ _ _ (
    after-Swaps _ _ _ _ _ _ _ (
      after-Swaps _ _ _ _ _ _ _
        (after-Swaps _ _ _ _ _ _ _ (after-Swaps _ _ _ _ _ _ _ (here-Swaps _ _ _ _)))))

pub block-Swaps :
    (n : MaxAmounts) (bt : ℕ) (b : Block) (nonce : ℕ)
    → Swaps (block n bt) b (set_nonce nonce b) (put_uint 4 b.header.nonce) (put_uint 4 nonce)
unfolding block convert set_nonce
block-Swaps n bt b nonce =
    before-Swaps (block_header bt) _ _ _ _ _ _ (header-Swaps bt b.header nonce)

-- A nonce of 32 bits keeps a block within the ranges of its types.
pub set_nonce-Fits :
    (n : MaxAmounts) (bt : ℕ) (b : Block) (nonce : ℕ)
    → nonce < 2 ^ 32
    → (block n bt).Fits b
    → (block n bt).Fits (set_nonce nonce b)
unfolding block block_header header_rest chain convert uint set_nonce
set_nonce-Fits n bt b nonce small ((major, (minor, (time, (prev, (nonce8, (old, rest)))))), more) =
    ((major, (minor, (time, (prev, (nonce8, (small, rest)))))), more)

pub nonce_lt : (n : MaxAmounts) (bt : ℕ) (b : Block) → (block n bt).Fits b → b.header.nonce < 2 ^ 32
unfolding block block_header header_rest chain convert uint
nonce_lt n bt b ((major, (minor, (time, (prev, (nonce8, (old, rest)))))), more) = old

pub word_of-put_uint : (v : ℕ) → v < 2 ^ 32 → word_of (put_uint 4 v) ≡ v
unfolding put_uint word_of
word_of-put_uint v h = omega arith

pub word_of_lt : (bs : Bytes) → AreBytes bs → length bs ≡ 4 → word_of bs < 2 ^ 32
unfolding word_of
word_of_lt (a ∷ b ∷ c ∷ d ∷ []) (ha, (hb, (hc, (hd, _)))) h = omega arith
word_of_lt [] hx h = absurd (omega arith)
word_of_lt (a ∷ []) hx h = absurd (omega arith)
word_of_lt (a ∷ b ∷ []) hx h = absurd (omega arith)
word_of_lt (a ∷ b ∷ c ∷ []) hx h = absurd (omega arith)
word_of_lt (a ∷ b ∷ c ∷ d ∷ e ∷ more) hx h = absurd (omega arith)
