-- ===== src/Archive/Combine.antt =====
-- The shapes of a `do_serialize` body (src/serialization/serialization.h): one FIELD after another,
-- a FIELD under an `if`, an early `return false`, and the members of an object.
use node_blocktemplate.Prelude.{
  ◌≡◌, Bool, true, false, Option, none, some, [], ◌++◌, ◌>>=◌, if◌then◌else◌, Bytes,
}
use node_blocktemplate.Archive.Codec.{Codec}
pub mod Laws
pub mod Blanks

module _ {A B : Type 0} where
  -- One FIELD, and after it what may depend on its value.
  unfoldable pub chain : Codec A → (A → Codec B) → Codec (A × B)
  chain c d = record {
    Fits = λ p. c.Fits p.0 × (d p.0).Fits p.1;
    save = λ p. do
      xs ← c.save p.0
      ys ← (d p.0).save p.1
      some (xs ++ ys);
    load = λ bs. do
      (a, after) ← c.load bs
      (b, rest) ← (d a).load after
      some ((a, b), rest);
  }

  -- The members `A` of an object `B`.
  unfoldable pub convert : (A → B) → (B → A) → Codec A → Codec B
  convert to from c = record {
    Fits = λ b. c.Fits (from b);
    save = λ b. c.save (from b);
    load = λ bs. do
      (a, rest) ← c.load bs
      some (to a, rest);
  }

module _ {A B : Type 0} where
  -- The members `A` of an object `B` that has more: on loading the others keep the values that
  -- `to` gives them, those of an object just made.
  unfoldable pub embed : (A → B) → (B → A) → Codec A → Codec B
  embed to from c = record {
    Fits = λ b. c.Fits (from b) × (to (from b) ≡ b);
    save = λ b. c.save (from b);
    load = λ bs. do
      (a, rest) ← c.load bs
      some (to a, rest);
  }

-- Two FIELDs, the second whatever the first holds.
infixr 20 ◌▹◌
abbrev pub ◌▹◌ : {A B : Type 0} → Codec A → Codec B → Codec (A × B)
c ▹ d = chain c (λ _. d)

module _ {A : Type 0} where
  -- `if (test) FIELD(f)`: off the wire `f` keeps its value, `absent` in an object that is loaded.
  unfoldable pub field_if : Bool → Codec A → A → Codec A
  field_if test c absent = record {
    Fits = λ a. if test then c.Fits a else a ≡ absent;
    save = λ a. if test then c.save a else some [];
    load = λ bs. if test then c.load bs else some (absent, bs);
  }

  -- `if (!test) return false;`
  unfoldable pub check : Bool → Codec A → Codec A
  check test c = record {
    Fits = c.Fits;
    save = λ a. if test then c.save a else none;
    load = λ bs. if test then c.load bs else none;
  }

  -- The same behind the fields, `if (!test(f)) return false;`.
  unfoldable pub ensure : (A → Bool) → Codec A → Codec A
  ensure test c = record {
    Fits = c.Fits;
    save = λ a. if test a then c.save a else none;
    load = λ bs. do
      (a, rest) ← c.load bs
      if test a then some (a, rest) else none;
  }
