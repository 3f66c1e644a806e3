-- ===== src/Archive/Many/Laws.antt =====
-- Sequences keep the laws of their elements.
use mathlib.Core.Path.{subst}
use node_blocktemplate.Prelude.{
  ℕ, zero, suc, ◌≤◌, ◌≡◌, refl, sym, ap, ◌∙◌, some_eq, some, false, List, [], ◌∷◌, ◌++◌,
  append_assoc, >>=-eq-some, ltb, ==_iff, Bytes, AreBytes, AreBytes-append_right,
  AreBytes-append_left, All, length, length-append, arith,
}
use node_blocktemplate.Archive.Codec.{Codec, ReadsBack, RewritesIf, Always, IsLossless, IsNonempty}
use node_blocktemplate.Archive.Varint.{varint}
use node_blocktemplate.Archive.Varint.Laws.{varint-IsLossless, varint-IsNonempty}
use node_blocktemplate.Archive.Fixed.{read_blob}
use node_blocktemplate.Archive.Fixed.Laws.{read_blob-append, read_blob-inv}
use node_blocktemplate.Archive.Many.{save_each, load_each, times, vector, string}

module _ {A : Type 0} (c : Codec A) where
  load_each-save_each :
      ReadsBack c
      → (vs : List A) (bs rest : Bytes) → All c.Fits vs
      → save_each c vs ≡ some bs
      → load_each c (length vs) (bs ++ rest) ≡ some (vs, rest)
  unfolding save_each load_each
  load_each-save_each hc [] bs rest fits saved = rw (← some_eq saved)
  load_each-save_each hc (a ∷ vs) bs rest fits saved =
      let (xs, ex, more) = >>=-eq-some (c.save a) _ saved in
      let (ys, ey, last) = >>=-eq-some (save_each c vs) _ more in
      rw (
        ← some_eq last,
        append_assoc xs ys rest,
        hc.at a xs (ys ++ rest) fits.0 ex,
        load_each-save_each hc vs ys rest fits.1 ey,
      )

  record TakenEach (n : ℕ) (xs : Bytes) (vs : List A) (rest : Bytes) : Type 0 where
    bytes : Bytes
    count : length vs ≡ n
    fits : All c.Fits vs
    saved : save_each c vs ≡ some bytes
    split : xs ≡ bytes ++ rest

  load_each-TakenEach :
      RewritesIf Always c
      → (n : ℕ) (xs : Bytes) (vs : List A) (rest : Bytes) → AreBytes xs
      → load_each c n xs ≡ some (vs, rest)
      → TakenEach n xs vs rest
  unfolding save_each load_each
  load_each-TakenEach hc zero xs [] rest hx q = record {
    bytes = [];
    count = refl;
    fits = tt;
    saved = refl;
    split = cc;
  }
  load_each-TakenEach hc zero xs (a ∷ vs) rest hx q = cc
  load_each-TakenEach hc (suc n) xs vs rest hx q =
      let ((a, after), e, more) = >>=-eq-some (c.load xs) _ q in
      let ((ws, rest'), e', last) = >>=-eq-some (load_each c n after) _ more in
      let ta = hc.at xs a after hx tt e in
      let tr =
        load_each-TakenEach hc n after ws rest'
          (AreBytes-append_right ta.bytes after (rw ta.split at hx)) e' in
      let same : a ∷ ws ≡ vs = cc in
      let end : rest' ≡ rest = cc in
      subst (λ (us : List A). TakenEach (suc n) xs us rest) same
        (record {
          bytes = ta.bytes ++ tr.bytes;
          count = ap suc tr.count;
          fits = (ta.fits, tr.fits);
          saved = rw (ta.saved, tr.saved);
          split =
              ta.split
              ∙ ap (λ (t : Bytes). ta.bytes ++ t) tr.split
              ∙ rw end (sym (append_assoc ta.bytes tr.bytes rest));
        })

  length-save_each :
      IsNonempty c
      → (vs : List A) (bs : Bytes) → All c.Fits vs
      → save_each c vs ≡ some bs
      → length vs ≤ length bs
  unfolding save_each
  length-save_each hc [] bs fits saved = omega arith
  length-save_each hc (a ∷ vs) bs fits saved =
      let (xs, ex, more) = >>=-eq-some (c.save a) _ saved in
      let (ys, ey, last) = >>=-eq-some (save_each c vs) _ more in
      omega (
        arith,
        ap length (some_eq last),
        length-append xs ys,
        hc.at a xs fits.0 ex,
        length-save_each hc vs ys fits.1 ey,
      )

  pub times-IsLossless : (n : ℕ) → IsLossless c → IsLossless (times c n)
  unfolding times
  times-IsLossless n hc = record {
    reads_back = record {
      at = λ vs bs rest fits saved.
          subst (λ (k : ℕ). load_each c k (bs ++ rest) ≡ some (vs, rest)) fits.0
            (load_each-save_each hc.reads_back vs bs rest fits.1
              (rw ((==_iff (length vs) n).1 fits.0) at saved));
    };
    rewrites = record {
      at = λ xs vs rest hx _ q.
          let t = load_each-TakenEach hc.rewrites n xs vs rest hx q in
          record {
            bytes = t.bytes;
            fits = (t.count, t.fits);
            saved = rw ((==_iff (length vs) n).1 t.count) t.saved;
            split = t.split;
          };
    };
  }

  -- A vector of elements that are lossless and take at least one byte each is lossless: the test
  -- that the count does not exceed the bytes that remain refuses nothing that was saved.
  pub vector-IsLossless : IsNonempty c → IsLossless c → IsLossless (vector c)
  unfolding vector
  vector-IsLossless ne hc = record {
    reads_back = record {
      at = λ vs bs rest fits saved.
          let (xs, ex, more) = >>=-eq-some ((varint 64).save (length vs)) _ saved in
          let (ys, ey, last) = >>=-eq-some (save_each c vs) _ more in
          let room : ltb (length (ys ++ rest)) (length vs) ≡ false =
            ground (arith, length-append ys rest, length-save_each ne vs ys fits.1 ey) in
          rw (
            ← some_eq last,
            append_assoc xs ys rest,
            (varint-IsLossless 64).reads_back.at (length vs) xs (ys ++ rest) fits.0 ex,
            room,
            load_each-save_each hc.reads_back vs ys rest fits.1 ey,
          );
    };
    rewrites = record {
      at = λ xs vs rest hx _ q.
          let ((count, after), e, more) = >>=-eq-some ((varint 64).load xs) _ q in
          let tn = (varint-IsLossless 64).rewrites.at xs count after hx tt e in
          let loaded : load_each c count after ≡ some (vs, rest) = ground arith in
          let t =
            load_each-TakenEach hc.rewrites count after vs rest
              (AreBytes-append_right tn.bytes after (rw tn.split at hx)) loaded in
          record {
            bytes = tn.bytes ++ t.bytes;
            fits = (subst (varint 64).Fits (sym t.count) tn.fits, t.fits);
            saved = rw (t.count, tn.saved, t.saved);
            split =
                tn.split
                ∙ ap (λ (u : Bytes). tn.bytes ++ u) t.split
                ∙ sym (append_assoc tn.bytes t.bytes rest);
          };
    };
  }

pub string-IsLossless : IsLossless string
unfolding string
string-IsLossless = record {
  reads_back = record {
    at = λ s bs rest fits saved.
        let (xs, ex, last) = >>=-eq-some ((varint 64).save (length s)) _ saved in
        let room : ltb (length (s ++ rest)) (length s) ≡ false =
          ground (arith, length-append s rest) in
        rw (
          ← some_eq last,
          append_assoc xs s rest,
          (varint-IsLossless 64).reads_back.at (length s) xs (s ++ rest) fits.0 ex,
          room,
          read_blob-append (length s) s rest refl,
        );
  };
  rewrites = record {
    at = λ xs s rest hx _ q.
        let ((size, after), e, more) = >>=-eq-some ((varint 64).load xs) _ q in
        let tn = (varint-IsLossless 64).rewrites.at xs size after hx tt e in
        let loaded : read_blob size after ≡ some (s, rest) = ground arith in
        let (len, split) = read_blob-inv size after s rest loaded in
        let here = rw tn.split at hx in
        record {
          bytes = tn.bytes ++ s;
          fits = (
            subst (varint 64).Fits (sym len) tn.fits,
            AreBytes-append_left s rest (rw split at (AreBytes-append_right tn.bytes after here)),
          );
          saved = rw (len, tn.saved);
          split =
              tn.split
              ∙ ap (λ (u : Bytes). tn.bytes ++ u) split
              ∙ sym (append_assoc tn.bytes s rest);
        };
  };
}

pub string-IsNonempty : IsNonempty string
unfolding string
string-IsNonempty = record {
  at = λ s bs fits saved.
      let (xs, ex, last) = >>=-eq-some ((varint 64).save (length s)) _ saved in
      omega (
        arith,
        ap length (some_eq last),
        length-append xs s,
        (varint-IsNonempty 64).at (length s) xs fits.0 ex,
      );
}
