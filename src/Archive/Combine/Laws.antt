-- ===== src/Archive/Combine/Laws.antt =====
-- The shapes keep the laws of their parts.
use mathlib.Core.Path.{subst}
use node_blocktemplate.Prelude.{
  ◌≡◌, refl, sym, ap, ◌∙◌, Bool, true, false, some, [], ◌++◌, append_assoc, >>=-eq-some, if_passed,
  some_eq, if◌then◌else◌, Bytes, AreBytes-append_right, length, length-append, arith, Bool-cases,
  inl, inr,
}
use node_blocktemplate.Archive.Codec.{Codec, ReadsBack, RewritesIf, Always, IsLossless, IsNonempty}
use node_blocktemplate.Archive.Combine.{chain, convert, embed, ◌▹◌, field_if, check, ensure}

module _ {A B : Type 0} (c : Codec A) (d : A → Codec B) where
  pub chain-ReadsBack : ReadsBack c → ((a : A) → ReadsBack (d a)) → ReadsBack (chain c d)
  unfolding chain
  chain-ReadsBack hc hd = record {
    at = λ (a, b) bs rest fits saved.
        let (xs, ex, more) = >>=-eq-some (c.save a) _ saved in
        let (ys, ey, last) = >>=-eq-some ((d a).save b) _ more in
        rw (
          ← some_eq last,
          append_assoc xs ys rest,
          hc.at a xs (ys ++ rest) fits.0 ex,
          (hd a).at b ys rest fits.1 ey,
        );
  }

  pub saved_chain :
      (p : A × B) (xs ys : Bytes)
      → c.save p.0 ≡ some xs
      → (d p.0).save p.1 ≡ some ys
      → (chain c d).save p ≡ some (xs ++ ys)
  unfolding chain
  saved_chain p xs ys hx hy = rw (hx, hy)

  -- A chain that loads has loaded its parts one after the other.
  pub chain-load :
      (xs : Bytes) (a : A) (b : B) (rest : Bytes)
      → (chain c d).load xs ≡ some ((a, b), rest)
      → (after : Bytes) × (c.load xs ≡ some (a, after)) × ((d a).load after ≡ some (b, rest))
  unfolding chain
  chain-load xs a b rest q =
      let ((a', after), e, more) = >>=-eq-some (c.load xs) _ q in
      let ((b', rest'), e', last) = >>=-eq-some ((d a').load after) _ more in
      let same : a' ≡ a = cc in
      (after, cc, subst (λ (t : A). (d t).load after ≡ some (b, rest)) same (cc))

  pub chain-RewritesIf :
      (P : A → Type 0)
      → RewritesIf P c
      → ((a : A) → P a → RewritesIf Always (d a))
      → RewritesIf (λ p. P p.0) (chain c d)
  chain-RewritesIf P hc hd = record {
    at = λ xs (a, b) rest hx pa q.
        let (after, ea, eb) = chain-load xs a b rest q in
        let ta = hc.at xs a after hx pa ea in
        let tb =
          (hd a pa).at after b rest (AreBytes-append_right ta.bytes after (rw ta.split at hx)) tt
            eb in
        unfold chain in
        record {
          bytes = ta.bytes ++ tb.bytes;
          fits = (ta.fits, tb.fits);
          saved = rw (ta.saved, tb.saved);
          split =
              ta.split
              ∙ ap (λ (t : Bytes). ta.bytes ++ t) tb.split
              ∙ sym (append_assoc ta.bytes tb.bytes rest);
        };
  }

  pub chain-IsLossless : IsLossless c → ((a : A) → IsLossless (d a)) → IsLossless (chain c d)
  chain-IsLossless hc hd = record {
    reads_back = chain-ReadsBack hc.reads_back (λ a. (hd a).reads_back);
    rewrites = chain-RewritesIf Always hc.rewrites (λ a _. (hd a).rewrites);
  }

  pub chain-IsNonempty : IsNonempty c → IsNonempty (chain c d)
  unfolding chain
  chain-IsNonempty hc = record {
    at = λ (a, b) bs fits saved.
        let (xs, ex, more) = >>=-eq-some (c.save a) _ saved in
        let (ys, ey, last) = >>=-eq-some ((d a).save b) _ more in
        omega (arith, ap length (some_eq last), length-append xs ys, hc.at a xs fits.0 ex);
  }

module _ {A B : Type 0} (to : A → B) (from : B → A) (c : Codec A) where
  pub convert-ReadsBack : ((b : B) → to (from b) ≡ b) → ReadsBack c → ReadsBack (convert to from c)
  unfolding convert
  convert-ReadsBack h hc = record {
    at = λ b bs rest fits saved. rw (hc.at (from b) bs rest fits saved, h b);
  }

  pub convert-RewritesIf :
      (P : B → Type 0)
      → ((a : A) → from (to a) ≡ a)
      → RewritesIf (λ a. P (to a)) c
      → RewritesIf P (convert to from c)
  unfolding convert
  convert-RewritesIf P h hc = record {
    at = λ xs b rest hx pb q.
        let ((a, after), e, last) = >>=-eq-some (c.load xs) _ q in
        let eb : b ≡ to a = cc in
        let ea : from b ≡ a = ap from eb ∙ h a in
        let ta = hc.at xs a rest hx (subst P eb pb) (cc) in
        record {
          bytes = ta.bytes;
          fits = subst c.Fits (sym ea) ta.fits;
          saved = rw ea ta.saved;
          split = ta.split;
        };
  }

  pub convert-IsLossless :
      ((b : B) → to (from b) ≡ b)
      → ((a : A) → from (to a) ≡ a)
      → IsLossless c
      → IsLossless (convert to from c)
  convert-IsLossless h k hc = record {
    reads_back = convert-ReadsBack h hc.reads_back;
    rewrites = convert-RewritesIf Always k hc.rewrites;
  }

  pub convert-IsNonempty : IsNonempty c → IsNonempty (convert to from c)
  unfolding convert
  convert-IsNonempty hc = record { at = λ b. hc.at (from b) }

module _ {A : Type 0} (c : Codec A) where
  pub field_if-ReadsBack :
      (test : Bool) (absent : A) → ReadsBack c → ReadsBack (field_if test c absent)
  unfolding field_if
  field_if-ReadsBack true absent hc = record { at = hc.at }
  field_if-ReadsBack false absent hc = record {
    at = λ a bs rest fits saved. rw (fits, ← some_eq saved);
  }

  pub field_if-RewritesIf :
      (test : Bool) (absent : A)
      → (test ≡ true → RewritesIf Always c)
      → RewritesIf Always (field_if test c absent)
  unfolding field_if
  field_if-RewritesIf true absent hc = record { at = (hc refl).at }
  field_if-RewritesIf false absent hc = record {
    at = λ xs a rest hx _ q. record { bytes = []; fits = cc; saved = refl; split = cc };
  }

  pub field_if-IsLossless :
      (test : Bool) (absent : A) → IsLossless c → IsLossless (field_if test c absent)
  field_if-IsLossless test absent hc = record {
    reads_back = field_if-ReadsBack test absent hc.reads_back;
    rewrites = field_if-RewritesIf test absent (λ _. hc.rewrites);
  }

  pub check-ReadsBack : (test : Bool) → ReadsBack c → ReadsBack (check test c)
  unfolding check
  check-ReadsBack true hc = record { at = hc.at }
  check-ReadsBack false hc = record { at = λ a bs rest fits saved. cc }

  pub check-RewritesIf :
      (test : Bool) → (test ≡ true → RewritesIf Always c) → RewritesIf Always (check test c)
  unfolding check
  check-RewritesIf true hc = record { at = (hc refl).at }
  check-RewritesIf false hc = record { at = λ xs a rest hx _ q. cc }

  pub check-IsLossless : (test : Bool) → IsLossless c → IsLossless (check test c)
  check-IsLossless test hc = record {
    reads_back = check-ReadsBack test hc.reads_back;
    rewrites = check-RewritesIf test (λ _. hc.rewrites);
  }

  pub check-IsNonempty : (test : Bool) → IsNonempty c → IsNonempty (check test c)
  unfolding check
  check-IsNonempty true hc = record { at = hc.at }
  check-IsNonempty false hc = record { at = λ a bs fits saved. cc }

  pub ensure-IsLossless : (test : A → Bool) → IsLossless c → IsLossless (ensure test c)
  unfolding ensure
  ensure-IsLossless test hc = record {
    reads_back = record {
      at = λ a bs rest fits saved. elim (Bool-cases (test a)) [
        | inl e ↦ rw (hc.reads_back.at a bs rest fits (rw e at saved), e)
        | inr e ↦ cc (rw e at saved)
      ];
    };
    rewrites = record {
      at = λ xs a rest hx _ q.
          let ((a', after), e, last) = >>=-eq-some (c.load xs) _ q in
          let (et, same) = if_passed (test a') last in
          let ea : a' ≡ a = cc (same) in
          let ta = hc.rewrites.at xs a rest hx tt (cc (same)) in
          record {
            bytes = ta.bytes;
            fits = ta.fits;
            saved = rw (← ea, et, ea) ta.saved;
            split = ta.split;
          };
    };
  }

  pub ensure-IsNonempty : (test : A → Bool) → IsNonempty c → IsNonempty (ensure test c)
  unfolding ensure
  ensure-IsNonempty test hc = record {
    at = λ a bs fits saved. elim (Bool-cases (test a)) [
      | inl e ↦ hc.at a bs fits (rw e at saved)
      | inr e ↦ cc (rw e at saved)
    ];
  }

module _ {A B : Type 0} (to : A → B) (from : B → A) (c : Codec A) where
  pub embed-ReadsBack : ReadsBack c → ReadsBack (embed to from c)
  unfolding embed
  embed-ReadsBack hc = record {
    at = λ b bs rest fits saved. rw (hc.at (from b) bs rest fits.0 saved, fits.1);
  }

  pub embed-IsLossless :
      ((a : A) → c.Fits a → from (to a) ≡ a) → IsLossless c → IsLossless (embed to from c)
  unfolding embed
  embed-IsLossless h hc = record {
    reads_back = embed-ReadsBack hc.reads_back;
    rewrites = record {
      at = λ xs b rest hx _ q.
          let ((a, after), e, last) = >>=-eq-some (c.load xs) _ q in
          let eb : b ≡ to a = cc in
          let ta = hc.rewrites.at xs a rest hx tt (cc) in
          let ea : from b ≡ a = ap from eb ∙ h a ta.fits in
          record {
            bytes = ta.bytes;
            fits = (subst c.Fits (sym ea) ta.fits, ap to ea ∙ sym eb);
            saved = rw ea ta.saved;
            split = ta.split;
          };
    };
  }

  pub embed-IsNonempty : IsNonempty c → IsNonempty (embed to from c)
  unfolding embed
  embed-IsNonempty hc = record { at = λ b bs fits. hc.at (from b) bs fits.0 }

module _ {A B : Type 0} where
  infixr 20 ◌⊳◌
  pub ◌⊳◌ : {c : Codec A} {d : Codec B} → IsLossless c → IsLossless d → IsLossless (c ▹ d)
  hc ⊳ hd = chain-IsLossless _ _ hc (λ _. hd)

pub if-IsLossless :
    {A : Type 0} {c d : Codec A} (b : Bool)
    → IsLossless c
    → IsLossless d
    → IsLossless (if b then c else d)
if-IsLossless true hc hd = hc
if-IsLossless false hc hd = hd

module _ {A B : Type 0} {c : Codec A} {d : Codec B} where
  -- A law of what follows a lossless FIELD.
  pub reads_next : IsLossless c → ReadsBack d → ReadsBack (c ▹ d)
  reads_next hc hd = chain-ReadsBack _ _ hc.reads_back (λ _. hd)

  pub rewrites_next : IsLossless c → RewritesIf Always d → RewritesIf Always (c ▹ d)
  rewrites_next hc hd = chain-RewritesIf _ _ Always hc.rewrites (λ _ _. hd)

pub anyway : {A : Type 0} {P : A → Type 0} {c : Codec A} → IsLossless c → RewritesIf P c
anyway hc = record { at = λ xs a rest hx p q. hc.rewrites.at xs a rest hx tt q }

pub if-ReadsBack :
    {A : Type 0} {c d : Codec A} (b : Bool)
    → ReadsBack c
    → ReadsBack d
    → ReadsBack (if b then c else d)
if-ReadsBack true hc hd = hc
if-ReadsBack false hc hd = hd
