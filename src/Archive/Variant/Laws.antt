-- ===== src/Archive/Variant/Laws.antt =====
-- A variant whose tags differ loses nothing.
use mathlib.Core.Path.{subst}
use node_blocktemplate.Prelude.{
  ℕ, ◌<◌, ◌≡◌, sym, ap, ◌∙◌, ◌⊎◌, inl, inr, Bool, true, false, some_eq, some, List, [], ◌∷◌, ◌++◌,
  append_assoc, >>=-eq-some, ◌==◌, ==_iff, ◌||◌, Bool-cases, Bytes, AreBytes, AreBytes-append_right,
  length, arith,
}
use node_blocktemplate.Archive.Codec.{Codec, RewritesIf, Always, IsLossless, IsNonempty}
use node_blocktemplate.Archive.Fixed.{put_uint, uint}
use node_blocktemplate.Archive.Fixed.Laws.{uint-IsLossless}
use node_blocktemplate.Archive.Variant.{Alternatives, no_alternative, alternative, variant}

-- The tag is among those of the list.
abbrev pub has_tag : ℕ → List ℕ → Bool
has_tag t [] = false
has_tag t (u ∷ us) = u == t || has_tag t us

pub record Told {A : Type 0} (alts : Alternatives A) : Type 0 where
  pub known : (a : A) → has_tag (alts.tag_of a) alts.tags ≡ true
  pub small : (a : A) → alts.tag_of a < 256
  pub reads_back :
      (a : A) (bs rest : Bytes)
      → alts.Fits a
      → alts.save a ≡ some bs
      → alts.load (alts.tag_of a) (bs ++ rest) ≡ some (a, rest)
  pub rewrites :
      (t : ℕ) (xs : Bytes) (a : A) (rest : Bytes)
      → AreBytes xs
      → alts.load t xs ≡ some (a, rest)
      → (bytes : Bytes) × (alts.tag_of a ≡ t)
        × alts.Fits a
        × (alts.save a ≡ some bytes)
        × (xs ≡ bytes ++ rest)

pub no_alternative-Told : Told no_alternative
unfolding no_alternative
no_alternative-Told = record {
  known = λ a. absurd a;
  small = λ a. absurd a;
  reads_back = λ a bs rest fits saved. absurd a;
  rewrites = λ t xs a rest hx q. absurd a;
}

-- What is loaded under a tag is saved as the bytes that were taken.
pub record RewritesTag {A : Type 0} (alts : Alternatives A) : Type 0 where
  pub at :
      (t : ℕ) (xs : Bytes) (a : A) (rest : Bytes)
      → AreBytes xs
      → alts.load t xs ≡ some (a, rest)
      → (bytes : Bytes) × (alts.tag_of a ≡ t)
        × alts.Fits a
        × (alts.save a ≡ some bytes)
        × (xs ≡ bytes ++ rest)

pub Told-RewritesTag : {A : Type 0} {alts : Alternatives A} → Told alts → RewritesTag alts
Told-RewritesTag h = record { at = h.rewrites }

module _ {A B : Type 0} (tag : ℕ) (c : Codec A) (others : Alternatives B) where
  pub alternative-RewritesTag :
      RewritesIf Always c → RewritesTag others → RewritesTag (alternative tag c others)
  unfolding alternative
  alternative-RewritesTag hc ho = record {
    at = λ t xs s rest hx q. elim (Bool-cases (tag == t)) [
      | inl e ↦
          let ((a, after), ea, last) = >>=-eq-some (c.load xs) _ (rw e at q) in
          let same : inl a ≡ s = cc in
          let end : after ≡ rest = cc in
          let ta = hc.at xs a after hx tt ea in
          subst
            (λ (u : A ⊎ B).
              (bytes : Bytes) × ((alternative tag c others).tag_of u ≡ t)
              × (alternative tag c others).Fits u
              × ((alternative tag c others).save u ≡ some bytes)
              × (xs ≡ bytes ++ rest))
            same (ta.bytes, (==_iff tag t).0 e, ta.fits, ta.saved, rw (← end) ta.split)
      | inr e ↦
          let ((b, after), eb, last) = >>=-eq-some (others.load t xs) _ (rw e at q) in
          let same : inr b ≡ s = cc in
          let end : after ≡ rest = cc in
          let (bytes, et, fits, saved, split) = ho.at t xs b after hx eb in
          subst
            (λ (u : A ⊎ B).
              (bytes : Bytes) × ((alternative tag c others).tag_of u ≡ t)
              × (alternative tag c others).Fits u
              × ((alternative tag c others).save u ≡ some bytes)
              × (xs ≡ bytes ++ rest))
            same (bytes, et, fits, saved, rw (← end) split)
    ];
  }

  -- An alternative behind the first is found by its own tag.
  pub other_tag :
      has_tag tag others.tags ≡ false
      → (b : B) → has_tag (others.tag_of b) others.tags ≡ true
      → (tag == others.tag_of b) ≡ false
  other_tag fresh b known = elim (Bool-cases (tag == others.tag_of b)) [
    | inl e ↦
        cc
          (fresh, known, ap (λ (t : ℕ). has_tag t others.tags) ((==_iff tag (others.tag_of b)).0 e))
    | inr e ↦ e
  ]

  pub alternative-Told :
      tag < 256
      → has_tag tag others.tags ≡ false
      → IsLossless c
      → Told others
      → Told (alternative tag c others)
  unfolding alternative
  alternative-Told small fresh hc ho = record {
    known = elim [ inl a ↦ ground arith | inr b ↦ ground (arith, ho.known b) ];
    small = elim [ inl a ↦ small | inr b ↦ ho.small b ];
    reads_back = elim [
      | inl a ↦ λ bs rest fits saved. ground (arith, hc.reads_back.at a bs rest fits saved)
      | inr b ↦ λ bs rest fits saved.
          rw (other_tag fresh b (ho.known b), ho.reads_back b bs rest fits saved)
    ];
    rewrites = (alternative-RewritesTag hc.rewrites (Told-RewritesTag ho)).at;
  }

module _ {A : Type 0} (alts : Alternatives A) where
  -- One value of a variant that its alternative reads back.
  pub variant-reads :
      (a : A) (bs rest : Bytes)
      → alts.tag_of a < 256
      → ((ys : Bytes)
          → alts.save a ≡ some ys
          → alts.load (alts.tag_of a) (ys ++ rest) ≡ some (a, rest))
      → (variant alts).save a ≡ some bs
      → (variant alts).load (bs ++ rest) ≡ some (a, rest)
  unfolding variant
  variant-reads a bs rest small h saved =
      let (xs, ex, more) = >>=-eq-some ((uint 1).save (alts.tag_of a)) _ saved in
      let (ys, ey, last) = >>=-eq-some (alts.save a) _ more in
      rw (
        ← some_eq last,
        append_assoc xs ys rest,
        (uint-IsLossless 1).reads_back.at (alts.tag_of a) xs (ys ++ rest) (unfold uint in small) ex,
        h ys ey,
      )

  pub variant-RewritesIf : RewritesTag alts → RewritesIf Always (variant alts)
  unfolding variant
  variant-RewritesIf h = record {
    at = λ xs a rest hx _ q.
        let ((tag, after), e, more) = >>=-eq-some ((uint 1).load xs) _ q in
        let tn = (uint-IsLossless 1).rewrites.at xs tag after hx tt e in
        let (bytes, et, fits, saved, split) =
          h.at tag after a rest (AreBytes-append_right tn.bytes after (rw tn.split at hx)) more in
        record {
          bytes = tn.bytes ++ bytes;
          fits = fits;
          saved = rw (et, tn.saved, saved);
          split =
              tn.split
              ∙ ap (λ (u : Bytes). tn.bytes ++ u) split
              ∙ sym (append_assoc tn.bytes bytes rest);
        };
  }

  -- A variant whose tags tell its alternatives apart, each of them lossless, is lossless.
  pub variant-IsLossless : Told alts → IsLossless (variant alts)
  variant-IsLossless h = record {
    reads_back = record {
      at = λ a bs rest fits saved.
          variant-reads a bs rest (h.small a)
            (λ ys ey. h.reads_back a ys rest (unfold variant in fits) ey) saved;
    };
    rewrites = variant-RewritesIf (Told-RewritesTag h);
  }

  pub variant-IsNonempty : IsNonempty (variant alts)
  unfolding variant uint put_uint
  variant-IsNonempty = record {
    at = λ a bs fits saved.
        let (ys, ey, last) = >>=-eq-some (alts.save a) _ saved in
        omega (arith, ap length (some_eq last));
  }
