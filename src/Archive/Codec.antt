-- ===== src/Archive/Codec.antt =====
-- A `do_serialize` template in both of its instances. `save` is the one with `binary_archive<true>`
-- and returns what was written; `load` is the one with `binary_archive<false>` and returns the
-- value with the input that is left. `none` is `false` or a stream that is no longer good: every
-- caller of the program treats the two alike. `Fits` holds of the values that the C++ type, and
-- the object before it is loaded into, can hold.
use node_blocktemplate.Prelude.{◌≤◌, ◌++◌, ◌≡◌, Option, some, Bytes, AreBytes, length}

pub record Codec (A : Type 0) : Type 1 where
  pub Fits : A → Type 0
  pub save : A → Option Bytes
  pub load : Bytes → Option (A × Bytes)

-- What was saved is loaded back, and what follows it is left.
pub record ReadsBack {A : Type 0} (c : Codec A) : Type 0 where
  pub at :
      (a : A) (bs rest : Bytes)
      → c.Fits a
      → c.save a ≡ some bs
      → c.load (bs ++ rest) ≡ some (a, rest)

-- What `load` made of an input from which it took `a` and left `rest`: saving `a` gives the bytes
-- that were taken.
pub record Taken {A : Type 0} (c : Codec A) (xs : Bytes) (a : A) (rest : Bytes) : Type 0 where
  pub bytes : Bytes
  pub fits : c.Fits a
  pub saved : c.save a ≡ some bytes
  pub split : xs ≡ bytes ++ rest

-- What was loaded is saved as the same bytes, if `P` holds of it.
pub record RewritesIf {A : Type 0} (P : A → Type 0) (c : Codec A) : Type 0 where
  pub at :
      (xs : Bytes) (a : A) (rest : Bytes)
      → AreBytes xs
      → P a
      → c.load xs ≡ some (a, rest)
      → Taken c xs a rest

abbrev pub Always : {A : Type 0} → A → Type 0
Always a = Unit {0}

-- Both laws, the second for every value.
pub record IsLossless {A : Type 0} (c : Codec A) : Type 0 where
  pub reads_back : ReadsBack c
  pub rewrites : RewritesIf Always c

-- A value takes at least one byte.
pub record IsNonempty {A : Type 0} (c : Codec A) : Type 0 where
  pub at : (a : A) (bs : Bytes) → c.Fits a → c.save a ≡ some bs → 1 ≤ length bs
