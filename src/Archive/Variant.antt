-- ===== src/Archive/Variant.antt =====
-- `boost::variant` on the wire (src/serialization/variant.h): a tag of one byte, and the
-- alternative that it stands for. The alternatives form a sum in the order of the variant's types.
use node_blocktemplate.Prelude.{
  ℕ, ◌<◌, ◌≡◌, ◌⊎◌, inl, inr, Bool, true, false, ◌||◌, Option, none, some, List, [], ◌∷◌, ◌++◌,
  ◌>>=◌, if◌then◌else◌, ◌==◌, Bytes,
}
use node_blocktemplate.Archive.Codec.{Codec}
use node_blocktemplate.Archive.Fixed.{uint}
pub mod Laws

-- The visitor that writes, and `variant_reader::read`, which compares the tag with that of each
-- alternative in turn.
pub record Alternatives (A : Type 0) : Type 1 where
  pub tags : List ℕ
  pub tag_of : A → ℕ
  pub Fits : A → Type 0
  pub save : A → Option Bytes
  pub load : ℕ → Bytes → Option (A × Bytes)

-- The end of the variant's types: no alternative has the tag.
unfoldable pub no_alternative : Alternatives ⊥
no_alternative = record {
  tags = [];
  tag_of = λ a. 0;
  Fits = λ a. Unit;
  save = λ a. none;
  load = λ t bs. none;
}

module _ {A B : Type 0} where
  abbrev tag_of_sum : ℕ → (B → ℕ) → A ⊎ B → ℕ
  tag_of_sum tag f (inl a) = tag
  tag_of_sum tag f (inr b) = f b

  abbrev FitsSum : (A → Type 0) → (B → Type 0) → A ⊎ B → Type 0
  FitsSum P Q (inl a) = P a
  FitsSum P Q (inr b) = Q b

  abbrev save_sum : (A → Option Bytes) → (B → Option Bytes) → A ⊎ B → Option Bytes
  save_sum f g (inl a) = f a
  save_sum f g (inr b) = g b

  unfoldable pub alternative : ℕ → Codec A → Alternatives B → Alternatives (A ⊎ B)
  alternative tag c others = record {
    tags = tag ∷ others.tags;
    tag_of = tag_of_sum tag others.tag_of;
    Fits = FitsSum c.Fits others.Fits;
    save = save_sum c.save others.save;
    load = λ t bs.
        if tag == t
        then (do (a, rest) ← c.load bs; some (inl a, rest))
        else (do (b, rest) ← others.load t bs; some (inr b, rest));
  }

unfoldable pub variant : {A : Type 0} → Alternatives A → Codec A
variant alts = record {
  Fits = λ a. alts.Fits a;
  save = λ a. do
    tag ← (uint 1).save (alts.tag_of a)
    body ← alts.save a
    some (tag ++ body);
  load = λ bs. do
    (tag, after) ← (uint 1).load bs
    alts.load tag after;
}
