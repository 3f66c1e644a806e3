-- ===== src/Format/Determines.antt =====
-- What a hashing blob fixes of a block: its header, its tree hash and its count of transactions.
use native.Mathlib.Nat.{pow-suc}
use mathlib.Core.Option.{get_or}
use node_blocktemplate.Prelude.{
  ℕ, zero, suc, ◌^◌, ◌≤◌, ◌<◌, ◌≡◌, inl, inr, refl, sym, ap, ◌∙◌, ◌==◌, Bool, Bool-cases, true,
  false, ◌&&◌, Option, none, some, some_eq, ◌>>=◌, List, [], ◌∷◌, ◌++◌, length, take, drop,
  take-length_append, drop-length_append, ltb, leb, if◌then◌else◌, Bytes, arith,
}
use node_blocktemplate.Prelude.{le-or-lt}
use node_blocktemplate.Prelude.Bits.{pow_pos, pow_mono}
use node_blocktemplate.Archive.Varint.{write_varint, varint}
use node_blocktemplate.Archive.Varint.Laws.{varint-IsLossless}
use node_blocktemplate.Config.{blob_type_cuckoo, blob_type_salvium}
use node_blocktemplate.Rct.Prunable.{MaxAmounts}
use node_blocktemplate.Basic.Transaction.{Transaction, transaction, is_signed, count_outputs}
use node_blocktemplate.Rct.Base.{rctsig_base}
use node_blocktemplate.Basic.Header.{block_header}
use node_blocktemplate.Basic.Block.{Block, null_hash}
use node_blocktemplate.TreeHash.{tree_hash}
use node_blocktemplate.TreeHash.Merkle.{root}
use node_blocktemplate.TreeHash.Root.{tree_hash-root}
use node_blocktemplate.Format.{
  get_transaction_prefix_hash, get_prunable_hash, get_transaction_hash, get_tx_tree_hash,
  hashing_count, get_block_hashing_blob, object_to_blob,
}
use node_blocktemplate.Format.Hashing.{hashing_blob-injective}

-- The level below a count.
level_below : (c : ℕ) → (d : ℕ) × (2 ^ d < suc (suc c)) × (suc (suc c) ≤ 2 ^ suc d)
level_below zero = (0, omega arith, omega arith)
level_below (suc c) =
    let (d, low, high) = level_below c in
    elim (le-or-lt (suc (suc (suc c))) (2 ^ suc d)) [
      | inl within ↦ (d, omega arith, within)
      | inr beyond ↦ (suc d, beyond, omega (arith, pow-suc 2 (suc d), pow_pos (suc d)))
    ]

small_level : (d c : ℕ) → 2 ^ d < c → c ≤ 0x10002 → d ≤ 58
small_level d c low high = elim (le-or-lt d 58) [
  | inl h ↦ h
  | inr h ↦ absurd (omega (arith, pow_mono 58 d (omega arith)))
]

append_equal :
    {A : Type 0} (xs ys xs' ys' : List A)
    → length xs ≡ length xs'
    → xs ++ ys ≡ xs' ++ ys'
    → (xs ≡ xs') × (ys ≡ ys')
append_equal xs ys xs' ys' size e = (
  sym (take-length_append xs ys)
      ∙ ap (λ (t : List _). take (length xs) t) e
      ∙ ap (λ (t : ℕ). take t (xs' ++ ys')) size
      ∙ take-length_append xs' ys',
  sym (drop-length_append xs ys)
      ∙ ap (λ (t : List _). drop (length xs) t) e
      ∙ ap (λ (t : ℕ). drop t (xs' ++ ys')) size
      ∙ drop-length_append xs' ys',
)

module _ (cn_fast_hash : Bytes → Bytes)
    (hash_size : (bs : Bytes) → length (cn_fast_hash bs) ≡ 32) where
  length-tree_hash :
      (a : Bytes) (hashes : List Bytes)
      → length a ≡ 32
      → length hashes ≤ 0x10001
      → length (tree_hash cn_fast_hash (a ∷ hashes)) ≡ 32
  unfolding tree_hash root
  length-tree_hash a [] ha few = ha
  length-tree_hash a (b ∷ []) ha few = hash_size (a ++ b)
  length-tree_hash a (b ∷ c ∷ rest) ha few =
      let (d, low, high) = level_below (suc (length rest)) in
      let small = small_level d (suc (suc (suc (length rest)))) low (omega arith) in
      at_level d low high small
    where
      at_level :
          (d : ℕ)
          → 2 ^ d < suc (suc (suc (length rest)))
          → suc (suc (suc (length rest))) ≤ 2 ^ suc d
          → d ≤ 58
          → length (tree_hash cn_fast_hash (a ∷ b ∷ c ∷ rest)) ≡ 32
      at_level zero low high small = absurd (omega arith)
      at_level (suc d) low high small =
          ap (λ (t : Bytes). length t)
            (tree_hash-root cn_fast_hash (suc d) (a ∷ b ∷ c ∷ rest) small low high)
          ∙ hash_size _

  -- A hash, or the null hash in place of none, has 32 bytes.
  record HashSized (o : Option Bytes) : Type 0 where
    size : length (get_or o null_hash) ≡ 32

  if-HashSized :
      (test : Bool) {x y : Option Bytes}
      → HashSized x
      → HashSized y
      → HashSized (if test then x else y)
  if-HashSized true hx hy = hx
  if-HashSized false hx hy = hy

  >>=-HashSized :
      {A : Type 0} (m : Option A) {f : A → Option Bytes}
      → ((a : A) → HashSized (f a))
      → HashSized (m >>= f)
  >>=-HashSized none h = record { size = refl }
  >>=-HashSized (some a) h = h a

  module _ (n : MaxAmounts) (bt : ℕ) where
    get_transaction_hash-HashSized :
        (t : Transaction) → HashSized (get_transaction_hash cn_fast_hash n bt t)
    unfolding get_transaction_hash
    get_transaction_hash-HashSized t =
        if-HashSized (is_signed bt t.prefix)
          (>>=-HashSized (object_to_blob (transaction n bt) t)
            (λ blob. record { size = hash_size blob }))
          (>>=-HashSized (get_transaction_prefix_hash cn_fast_hash n bt t.prefix) (λ prefix.
            >>=-HashSized ((rctsig_base (count_outputs bt t.prefix)).save t.rct_signatures.base)
              (λ base.
                >>=-HashSized (get_prunable_hash cn_fast_hash n bt t)
                  (λ prunable. record { size = hash_size _ }))))

    length-get_transaction_hash :
        (t : Transaction)
        → length (get_or (get_transaction_hash cn_fast_hash n bt t) null_hash) ≡ 32
    length-get_transaction_hash t = (get_transaction_hash-HashSized t).size

    length-get_tx_tree_hash :
        (b : Block)
        → length b.tx_hashes ≤ 0x10000
        → length (get_tx_tree_hash cn_fast_hash n bt b) ≡ 32
    unfolding get_tx_tree_hash
    length-get_tx_tree_hash b few = elim (Bool-cases (bt == blob_type_salvium)) [
      | inl salvium ↦
          rw salvium (length-tree_hash _ _ (length-get_transaction_hash b.miner_tx) (omega arith))
      | inr other ↦
          rw other (length-tree_hash _ _ (length-get_transaction_hash b.miner_tx) (omega arith))
    ]

    few_hashes :
        (b : Block) (x : Bytes)
        → get_block_hashing_blob cn_fast_hash n bt b ≡ some x
        → length b.tx_hashes ≤ 0x10000
    unfolding get_block_hashing_blob
    few_hashes b x h = elim (Bool-cases (ltb 0x10000 (length b.tx_hashes))) [
      | inl many ↦ let no : ◌≡◌ {A = Option Bytes} none (some x) = rw many at h in cc
      | inr few ↦ ground arith
    ]

    count_lt :
        (b : Block) → length b.tx_hashes ≤ 0x10000 → hashing_count cn_fast_hash n bt b < 2 ^ 64
    unfolding hashing_count
    count_lt b few = elim (Bool-cases (bt == blob_type_salvium && leb 2 b.header.major_version)) [
      | inl e ↦ rw e (omega arith)
      | inr e ↦ rw e (omega arith)
    ]

    written_count :
        (v w : ℕ) (r s : Bytes)
        → v < 2 ^ 64
        → w < 2 ^ 64
        → write_varint v ++ r ≡ write_varint w ++ s
        → v ≡ w
    unfolding varint
    written_count v w r s hv hw e =
        let reads = (varint-IsLossless 64).reads_back in
        ap (λ p. p.0)
          (some_eq (
            sym (reads.at v (write_varint v) r hv refl)
            ∙ ap (varint 64).load e
            ∙ reads.at w (write_varint w) s hw refl))

    -- Where the hash has 32 bytes, two blocks of one kind other than Cuckoo, their headers within the
    -- ranges of their types, that have one hashing blob have one header, one tree hash and one count
    -- of transactions.
    pub hashing_blob-determines :
        (b c : Block) (x : Bytes)
        → (bt == blob_type_cuckoo) ≡ false
        → (block_header bt).Fits b.header
        → (block_header bt).Fits c.header
        → get_block_hashing_blob cn_fast_hash n bt b ≡ some x
        → get_block_hashing_blob cn_fast_hash n bt c ≡ some x
        → (b.header ≡ c.header)
          × (get_tx_tree_hash cn_fast_hash n bt b ≡ get_tx_tree_hash cn_fast_hash n bt c)
          × (hashing_count cn_fast_hash n bt b ≡ hashing_count cn_fast_hash n bt c)
    hashing_blob-determines b c x plain fits_b fits_c hb hc =
        let (header, tail) =
          hashing_blob-injective cn_fast_hash n bt b c x plain fits_b fits_c hb hc in
        let few_b = few_hashes b x hb in
        let few_c = few_hashes c x hc in
        let (tree, rest) =
          append_equal (get_tx_tree_hash cn_fast_hash n bt b) _
            (get_tx_tree_hash cn_fast_hash n bt c) _
            (length-get_tx_tree_hash b few_b ∙ sym (length-get_tx_tree_hash c few_c)) tail in
        (header, tree, written_count _ _ _ _ (count_lt b few_b) (count_lt c few_c) rest)
