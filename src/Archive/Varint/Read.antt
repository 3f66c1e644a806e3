-- ===== src/Archive/Varint/Read.antt =====
-- `read_varint` of src/common/varint.h, which Base58 addresses use: it returns the number of bytes
-- that it read, also where the input ends inside of a number.
use node_blocktemplate.Prelude.{
  ℕ, suc, ◌+◌, ◌≡◌, ◌⊎◌, inl, inr, refl, ap, ◌∙◌, bit_and, not, ◌&&◌, Bool, true, false, Option,
  none, some, [], ◌∷◌, arith, ◌==◌, if◌then◌else◌, Bytes, length, drop,
}
use node_blocktemplate.Archive.Varint.{or_group, too_wide, load_uvarint_loop, load_uvarint}

-- A count with the number read, or -1, or -2.
pub data VarintRead : Type 0 where
  taken : (read i : ℕ) → VarintRead
  overflow : VarintRead
  non_canonical : VarintRead

unfoldable pub read_varint_loop : ℕ → ℕ → ℕ → ℕ → Bytes → VarintRead
read_varint_loop bits shift i read [] = VarintRead.taken read i
read_varint_loop bits shift i read (byte ∷ rest) =
    let i' = or_group bits shift i byte in
    let more = read_varint_loop bits (shift + 7) i' (suc read) rest in
    if too_wide bits shift byte
    then VarintRead.overflow
    else if byte == 0 && not (shift == 0)
    then VarintRead.non_canonical
    else if bit_and byte 0x80 == 0
    then VarintRead.taken (suc read) i'
    else more

unfoldable pub read_varint : ℕ → Bytes → VarintRead
unfolding read_varint_loop
read_varint bits = read_varint_loop bits 0 0 0

-- What a loop that reads numbers, `load`, and one that counts, `count`, have in common on `xs`,
-- `read` bytes into the input.
record Agree (read : ℕ) (xs : Bytes) (load : Option (ℕ × Bytes)) (count : VarintRead) : Type 0 where
  complete :
      (v : ℕ) (rest : Bytes)
      → load ≡ some (v, rest)
      → (n : ℕ) × (count ≡ VarintRead.taken (read + suc n) v) × (drop (suc n) xs ≡ rest)
  sound :
      (n v : ℕ)
      → count ≡ VarintRead.taken n v
      → (m : ℕ) × (n ≡ read + m) × ((load ≡ some (v, drop m xs)) ⊎ (m ≡ length xs))

counted : {n v read i : ℕ} → VarintRead.taken read i ≡ VarintRead.taken n v → (read ≡ n) × (i ≡ v)
counted q = (cc q, cc q)

recount : (a b v : ℕ) → a ≡ b → VarintRead.taken a v ≡ VarintRead.taken b v
recount a b v e = ap (λ (t : ℕ). VarintRead.taken t v) e

-- One round, whatever its three tests say.
Agree-round :
    (wide padded last : Bool) (i read byte : ℕ) (xs : Bytes) (load : Option (ℕ × Bytes))
    (count : VarintRead)
    → Agree (suc read) xs load count
    → Agree read
        (byte ∷ xs)
        (if wide then none else if padded then none else if last then some (i, xs) else load)
        (if wide
          then VarintRead.overflow
          else if padded
          then VarintRead.non_canonical
          else if last
          then VarintRead.taken (suc read) i
          else count)
Agree-round true padded last i read byte xs load count ih = record {
  complete = λ v rest q. cc q;
  sound = λ n v q. cc q;
}
Agree-round false true last i read byte xs load count ih = record {
  complete = λ v rest q. cc q;
  sound = λ n v q. cc q;
}
Agree-round false false true i read byte xs load count ih = record {
  complete = λ v rest q.
      let same : i ≡ v = cc q in (0, rw same (recount (suc read) (read + 1) v (omega arith)), cc q);
  sound = λ n v q.
      let (en, ev) = counted q in (1, omega (arith, en), inl (ap (λ (t : ℕ). some (t, xs)) ev));
}
Agree-round false false false i read byte xs load count ih = record {
  complete = λ v rest q.
      let (n, e, split) = ih.complete v rest q in
      (suc n, e ∙ recount (suc read + suc n) (read + suc (suc n)) v (omega arith), split);
  sound = λ n v q.
      let (m, e, split) = ih.sound n v q in
      (
        suc m,
        omega (arith, e),
        elim split [ inl whole ↦ inl whole | inr cut ↦ inr (omega (arith, cut)) ],
      );
}

loops-Agree :
    (bits shift i read : ℕ) (xs : Bytes)
    → Agree read xs (load_uvarint_loop bits shift i xs) (read_varint_loop bits shift i read xs)
unfolding load_uvarint_loop read_varint_loop
loops-Agree bits shift i read [] = record {
  complete = λ v rest q. cc q;
  sound = λ n v q. let (en, ev) = counted q in (0, omega (arith, en), inr refl);
}
loops-Agree bits shift i read (byte ∷ xs) =
    Agree-round (too_wide bits shift byte) (byte == 0 && not (shift == 0)) (bit_and byte 0x80 == 0)
      (or_group bits shift i byte) read byte xs _ _
      (loops-Agree bits (shift + 7) (or_group bits shift i byte) (suc read) xs)

-- Where the archive's reader takes a varint from a string, `read_varint` counts the bytes that it
-- takes and reads the same number; and where `read_varint` counts bytes, the archive's reader takes
-- these very bytes as the same number, or they are all that there is.
pub read_varint-load_uvarint :
    (bits : ℕ) (xs : Bytes)
    → ((v : ℕ) (rest : Bytes)
        → load_uvarint bits xs ≡ some (v, rest)
        → (n : ℕ) × (read_varint bits xs ≡ VarintRead.taken (suc n) v) × (drop (suc n) xs ≡ rest))
      × ((n v : ℕ)
          → read_varint bits xs ≡ VarintRead.taken n v
          → (load_uvarint bits xs ≡ some (v, drop n xs)) ⊎ (n ≡ length xs))
unfolding load_uvarint read_varint
read_varint-load_uvarint bits xs = (
  λ v rest q.
      let (n, e, split) = (loops-Agree bits 0 0 0 xs).complete v rest q in
      (n, e ∙ recount (0 + suc n) (suc n) v (omega arith), split),
  λ n v q.
      let (m, e, split) = (loops-Agree bits 0 0 0 xs).sound n v q in
      let same : m ≡ n = omega (arith, e) in rw (← same) split,
)
