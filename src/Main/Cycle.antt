-- ===== src/Main/Cycle.antt =====
-- `construct_block_blob` of src/main.cc for Cuckoo: the template with another nonce and cycle.
use mathlib.Core.Path.{subst}
use node_blocktemplate.Archive.Fixed.Laws.{put_uint-word_of}
use node_blocktemplate.Archive.Fixed.{word_of}
use node_blocktemplate.Prelude.{
  ℕ, zero, suc, ◌*◌, ◌/◌, ◌^◌, ◌<◌, ◌≡◌, refl, sym, ap, ◌∙◌, Bool-cases, inl, inr, true, some,
  some_eq, List, [], ◌∷◌, ◌++◌, append_assoc, Bytes, AreBytes, ltb, length, length-append, arith,
}
use node_blocktemplate.Archive.Codec.{Codec}
use node_blocktemplate.Archive.Fixed.{put_uint, uint, blob}
use node_blocktemplate.Archive.Combine.{chain, convert, field_if}
use node_blocktemplate.Config.{is_supported_blob_type}
use node_blocktemplate.Rct.Prunable.{MaxAmounts}
use node_blocktemplate.Basic.Header.{BlockHeader, header_rest, block_header}
use node_blocktemplate.Basic.Block.{Block, block}
use node_blocktemplate.Format.{object_to_blob, parse_and_validate_block_from_blob, block_to_blob}
use node_blocktemplate.Format.Blocks.{parse-block_to_blob, block_to_blob-parse}
use node_blocktemplate.Format.Hashing.{chain-save}
use node_blocktemplate.Main.Outcome.{Error, Result, ok, threw, ◌>>=◌, >>=-eq-ok, or_throw}
use node_blocktemplate.Main.{
  Argument, Entry, read_uint32, read_uint32_loop, read_uint32_array, get_buffer_argument,
  get_blob_type, set_nonce, set_cycle, fill_cycle, construct_block_blob,
}
use node_blocktemplate.Archive.Combine.Laws.{saved_chain}
use node_blocktemplate.Main.Nonce.{Swaps, after-Swaps, before-Swaps, word_of_lt}

put_uint-AreBytes : (n v : ℕ) → AreBytes (put_uint n v) × (length (put_uint n v) ≡ n)
unfolding put_uint
put_uint-AreBytes zero v = (tt, refl)
put_uint-AreBytes (suc n) v =
    let (bytes, size) = put_uint-AreBytes n (v / 256) in ((omega arith, bytes), omega (arith, size))

ok_eq : {A : Type 0} {x y : A} → ok x ≡ ok y → x ≡ y
ok_eq h = cc

-- An entry that is read takes four bytes.
read_uint32-size :
    (item : Entry) (bs : Bytes) → read_uint32 item ≡ ok bs → AreBytes bs × (length bs ≡ 4)
unfolding read_uint32
read_uint32-size Entry.hole bs h = cc
read_uint32-size (Entry.unsigned v) bs h = elim (Bool-cases (ltb v (2 ^ 32))) [
  | inl small ↦
      let written : put_uint 4 v ≡ bs = ok_eq (rw small at h) in
      subst (λ (t : Bytes). AreBytes t × (length t ≡ 4)) written (put_uint-AreBytes 4 v)
  | inr large ↦
      let no : ◌≡◌ {A = Result Bytes} (threw Error.cycle_entries_range) (ok bs) = rw large at h in
      cc
]
read_uint32-size Entry.other_number bs h = cc
read_uint32-size Entry.throws bs h = cc

AreBytes-append : (xs ys : Bytes) → AreBytes xs → AreBytes ys → AreBytes (xs ++ ys)
AreBytes-append [] ys hx hy = hy
AreBytes-append (x ∷ xs) ys hx hy = (hx.0, AreBytes-append xs ys hx.1 hy)

-- What is read for a cycle is four bytes for each entry.
read_uint32_loop-size :
    (n : ℕ) (items : List Entry) (bs : Bytes)
    → read_uint32_loop n items ≡ ok bs
    → AreBytes bs × (length bs ≡ 4 * n)
unfolding read_uint32_loop
read_uint32_loop-size zero items bs h =
    subst (λ (t : Bytes). AreBytes t × (length t ≡ 4 * 0)) (ok_eq h) (tt, omega arith)
read_uint32_loop-size (suc n) [] bs h = cc
read_uint32_loop-size (suc n) (item ∷ items) bs h =
    let (xs, ex, more) = >>=-eq-ok (read_uint32 item) _ h in
    let (ys, ey, last) = >>=-eq-ok (read_uint32_loop n items) _ more in
    let (bx, sx) = read_uint32-size item xs ex in
    let (by, sy) = read_uint32_loop-size n items ys ey in
    subst (λ (t : Bytes). AreBytes t × (length t ≡ 4 * suc n)) (ok_eq last)
      (AreBytes-append xs ys bx by, length-append xs ys ∙ omega (arith, sx, sy))

-- The nonce and the cycle of a Cuckoo block stand beside one another.
here-Swaps :
    {B : Type 0} (d : Codec B) (absent c c' : Bytes) (v v' : ℕ) (b : B)
    → Swaps
        (chain (uint 4) (λ _. chain (field_if true (blob 128) absent) (λ _. d)))
        (v, (c, b))
        (v', (c', b))
        (put_uint 4 v ++ c)
        (put_uint 4 v' ++ c')
unfolding uint blob field_if
here-Swaps d absent c c' v v' b bs saved =
    let (xs, ys, ex, ey, q) = chain-save _ _ _ bs saved in
    let (zs, ws, ez, ew, p) = chain-save _ _ _ ys ey in
    let group = append_assoc (put_uint 4 v) c ws in
    let group' = append_assoc (put_uint 4 v') c' ws in
    let old : ys ≡ c ++ ws = p ∙ ap (λ (t : Bytes). t ++ ws) (sym (some_eq ez)) in
    (
      [],
      ws,
      q
          ∙ ap (λ (t : Bytes). t ++ ys) (sym (some_eq ex))
          ∙ ap (λ (t : Bytes). put_uint 4 v ++ t) old
          ∙ sym group,
      saved_chain (uint 4) _ (v', (c', b)) (put_uint 4 v') (c' ++ ws) refl
            (saved_chain (field_if true (blob 128) absent) (λ _. d) (c', b) c' ws refl ew)
          ∙ ap (λ (t : Bytes). some t) (sym group'),
    )

header-Swaps :
    (h : BlockHeader) (nonce : ℕ) (cycle : Bytes)
    → Swaps
        (block_header 8)
        h
        (record h { nonce = nonce; cycle = cycle })
        (put_uint 4 h.nonce ++ h.cycle)
        (put_uint 4 nonce ++ cycle)
unfolding block_header convert header_rest
header-Swaps h nonce cycle = after-Swaps _ _ _ _ _ _ _ (
    after-Swaps _ _ _ _ _ _ _ (
      after-Swaps _ _ _ _ _ _ _
        (after-Swaps _ _ _ _ _ _ _ (after-Swaps _ _ _ _ _ _ _ (here-Swaps _ _ _ _ _ _ _)))))

block-Swaps :
    (n : MaxAmounts) (b : Block) (nonce : ℕ) (cycle : Bytes)
    → Swaps
        (block n 8)
        b
        (set_cycle cycle (set_nonce nonce b))
        (put_uint 4 b.header.nonce ++ b.header.cycle)
        (put_uint 4 nonce ++ cycle)
unfolding block convert set_nonce set_cycle
block-Swaps n b nonce cycle =
    before-Swaps (block_header 8) _ _ _ _ _ _ (header-Swaps b.header nonce cycle)

set_cycle-Fits :
    (n : MaxAmounts) (b : Block) (nonce : ℕ) (cycle : Bytes)
    → nonce < 2 ^ 32
    → AreBytes cycle × (length cycle ≡ 128)
    → (block n 8).Fits b
    → (block n 8).Fits (set_cycle cycle (set_nonce nonce b))
unfolding block block_header header_rest chain convert uint blob field_if set_nonce set_cycle
set_cycle-Fits n b nonce cycle small (bytes, size)
      ((major, (minor, (time, (prev, (nonce8, (old, (gone, rest))))))), more) =
    ((major, (minor, (time, (prev, (nonce8, (small, ((size, bytes), rest))))))), more)

-- The arguments of a Cuckoo template.
abbrev pub cuckoo_arguments : Bytes → Bytes → List Entry → List Argument
cuckoo_arguments template nonce items =
    Argument.buffer template ∷ Argument.buffer nonce ∷ Argument.number 8 ∷ Argument.array items ∷ []

module _ (n : MaxAmounts) (template nonce : Bytes) (items : List Entry) where
  construct_block_blob-cuckoo :
      (cycle : Bytes)
      → length nonce ≡ 4
      → read_uint32_array 32 (some (Argument.array items)) ≡ ok cycle
      → construct_block_blob n (cuckoo_arguments template nonce items) ≡ (
          or_throw (parse_and_validate_block_from_blob n 8 template) Error.failed_to_parse_block
          >>= λ b.
              or_throw
                (block_to_blob n 8 (set_cycle cycle (set_nonce (word_of nonce) b)))
                Error.failed_to_convert_block)
  unfolding construct_block_blob get_buffer_argument get_blob_type fill_cycle is_supported_blob_type
  construct_block_blob-cuckoo cycle four read = rw (four, read)

  cycle-size :
      (cycle : Bytes)
      → read_uint32_array 32 (some (Argument.array items)) ≡ ok cycle
      → AreBytes cycle × (length cycle ≡ 128)
  unfolding read_uint32_array
  cycle-size cycle h = elim (Bool-cases (ltb (length items) 32)) [
    | inl short ↦
        let no : ◌≡◌ {A = Result Bytes} (threw Error.cycle_invalid_length) (ok cycle) =
          rw short at h in
        cc
    | inr long ↦
        let read : read_uint32_loop 32 items ≡ ok cycle = rw long at h in
        read_uint32_loop-size 32 items cycle read
  ]

  -- For Cuckoo, a nonce of four bytes and an array that is read as a cycle, a template that parses is
  -- returned with its nonce and, behind it, its cycle replaced by the given ones; the result parses to
  -- the block of the template with that nonce and cycle.
  pub construct_block_blob-cycle :
      (b : Block) (cycle : Bytes)
      → length nonce ≡ 4
      → AreBytes template
      → AreBytes nonce
      → parse_and_validate_block_from_blob n 8 template ≡ some b
      → read_uint32_array 32 (some (Argument.array items)) ≡ ok cycle
      → (front : Bytes) × (back : Bytes) × (template
          ≡ front ++ ((put_uint 4 b.header.nonce ++ b.header.cycle) ++ back))
        × (construct_block_blob n (cuckoo_arguments template nonce items)
            ≡ ok (front ++ ((nonce ++ cycle) ++ back)))
        × (parse_and_validate_block_from_blob n 8 (front ++ ((nonce ++ cycle) ++ back))
            ≡ some (set_cycle cycle (set_nonce (word_of nonce) b)))
  unfolding block_to_blob object_to_blob
  construct_block_blob-cycle b cycle four ht hn parsed read =
      let (fits, saved) = block_to_blob-parse n 8 template b ht (λ e. cc) parsed in
      let (front, back, at, put) = block-Swaps n b (word_of nonce) cycle template saved in
      let word : put_uint 4 (word_of nonce) ≡ nonce = rw four at (put_uint-word_of nonce hn) in
      let filled = set_cycle cycle (set_nonce (word_of nonce) b) in
      let written : block_to_blob n 8 filled ≡ some (front ++ ((nonce ++ cycle) ++ back)) =
        put ∙ ap (λ (t : Bytes). some (front ++ ((t ++ cycle) ++ back))) word in
      let fits' =
        set_cycle-Fits n b (word_of nonce) cycle (word_of_lt nonce hn four) (cycle-size cycle read)
          fits in
      (
        front,
        back,
        at,
        construct_block_blob-cuckoo cycle four read ∙ rw (parsed, written),
        parse-block_to_blob n 8 filled (front ++ ((nonce ++ cycle) ++ back)) fits' written,
      )
