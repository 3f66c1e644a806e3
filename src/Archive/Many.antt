-- ===== src/Archive/Many.antt =====
-- Sequences: `std::vector` with its count in front (src/serialization/vector.h), `std::string`
-- (src/serialization/string.h), and the loops of a known number of rounds that follow
-- PREPARE_CUSTOM_VECTOR_SERIALIZATION.
use node_blocktemplate.Prelude.{
  ℕ, zero, suc, ◌<◌, ◌≡◌, Option, none, some, List, [], ◌∷◌, ◌++◌, ◌>>=◌, if◌then◌else◌, ltb, ◌==◌,
  Bytes, AreBytes, All, length,
}
use node_blocktemplate.Archive.Codec.{Codec}
use node_blocktemplate.Archive.Varint.{varint}
use node_blocktemplate.Archive.Fixed.{read_blob}
pub mod Laws

module _ {A : Type 0} (c : Codec A) where
  -- The elements, one after the other.
  unfoldable pub save_each : List A → Option Bytes
  save_each [] = some []
  save_each (a ∷ vs) = do xs ← c.save a; ys ← save_each vs; some (xs ++ ys)

  unfoldable pub load_each : ℕ → Bytes → Option (List A × Bytes)
  load_each zero bs = some ([], bs)
  load_each (suc n) bs = do
    (a, after) ← c.load bs
    (vs, rest) ← load_each n after
    some (a ∷ vs, rest)

  -- `for (i = 0; i < n; ++i) FIELDS(v[i])` over a vector resized to `n` on loading, and refused on
  -- saving if it has another size.
  unfoldable pub times : ℕ → Codec (List A)
  times n = record {
    Fits = λ vs. (length vs ≡ n) × All c.Fits vs;
    save = λ vs. if length vs == n then save_each vs else none;
    load = load_each n;
  }

  -- `do_serialize` of a `std::vector<T>`: the count may not exceed the bytes that remain.
  unfoldable pub vector : Codec (List A)
  vector = record {
    Fits = λ vs. (varint 64).Fits (length vs) × All c.Fits vs;
    save = λ vs. do
      count ← (varint 64).save (length vs)
      ys ← save_each vs
      some (count ++ ys);
    load = λ bs. do
      (count, after) ← (varint 64).load bs
      if ltb (length after) count then none else load_each count after;
  }

-- `do_serialize` of a `std::string`: its size, which the bytes that remain must cover, and its bytes.
unfoldable pub string : Codec Bytes
string = record {
  Fits = λ s. (varint 64).Fits (length s) × AreBytes s;
  save = λ s. do
    size ← (varint 64).save (length s)
    some (size ++ s);
  load = λ bs. do
    (size, after) ← (varint 64).load bs
    if ltb (length after) size then none else read_blob size after;
}
