-- ===== src/Archive/Fixed/Laws.antt =====
-- Fixed-width integers and blobs lose nothing.
use mathlib.Core.Path.{ap₂, subst}
use native.Mathlib.Nat.{mod-eq_of_lt, mul-le-mul_right, div-add-mod}
use node_blocktemplate.Prelude.{
  ℕ, zero, suc, ◌+◌, ◌*◌, ◌/◌, ◌%◌, ◌^◌, ◌<◌, ◌≡◌, refl, ap, ◌∙◌, some_eq, some, [], ◌∷◌, ◌++◌,
  Bytes, AreBytes, AreBytes-append_left, length, length-append, length-take, take-append-drop,
  take-length_append, drop-length_append, arith,
}
use node_blocktemplate.Prelude.Bits.{pow-add, pow_mono}
use node_blocktemplate.Archive.Codec.{IsLossless, IsNonempty}
use node_blocktemplate.Archive.Fixed.{put_uint, word_of, load_uint_loop, uint, read_blob, blob}

pow-add_eight : (n : ℕ) → 2 ^ (n + 8) ≡ 256 * 2 ^ n
pow-add_eight n = omega (arith, pow-add n 8)

-- The next byte joins what was read, and does not wrap.
next_ret :
    (width n ret shift b : ℕ)
    → 8 * width ≡ shift + 8 * suc n
    → ret < 2 ^ shift
    → b < 256
    → (ret + b * 2 ^ shift < 2 ^ (shift + 8))
      × ((ret + b * 2 ^ shift) % 2 ^ (8 * width) ≡ ret + b * 2 ^ shift)
next_ret width n ret shift b e h hb =
    let small : ret + b * 2 ^ shift < 2 ^ (shift + 8) =
      omega (
        arith,
        pow-add_eight shift,
        mul-le-mul_right {m = b} {n = 255} (2 ^ shift) (omega arith),
      ) in
    (small, mod-eq_of_lt (omega (arith, small, pow_mono (shift + 8) (8 * width) (omega arith))))

load-put :
    (width n v ret shift : ℕ) (rest : Bytes)
    → 8 * width ≡ shift + 8 * n
    → ret < 2 ^ shift
    → v < 2 ^ (8 * n)
    → load_uint_loop width n ret shift (put_uint n v ++ rest) ≡ some (ret + v * 2 ^ shift, rest)
unfolding load_uint_loop put_uint
load-put width zero v ret shift rest e h hv = ap (λ (t : ℕ). some (t, rest)) zero_left
  where
    zero_left : ret ≡ ret + v * 2 ^ shift
    zero_left = let z : v ≡ 0 = omega arith in rw z (omega arith)
load-put width (suc n) v ret shift rest e h hv =
    let (small, eq) = next_ret width n ret shift (v % 256) e h (omega arith) in
    rw eq (
      load-put width n (v / 256) (ret + v % 256 * 2 ^ shift) (shift + 8) rest (omega arith) small
        fewer
      ∙ ap (λ (t : ℕ). some (t, rest)) join)
  where
    fewer : v / 256 < 2 ^ (8 * n)
    fewer = omega (arith, pow-add_eight (8 * n), ap (λ (t : ℕ). 2 ^ t) split)
      where
        split : 8 * suc n ≡ 8 * n + 8
        split = omega arith

    join : ret + v % 256 * 2 ^ shift + v / 256 * 2 ^ (shift + 8) ≡ ret + v * 2 ^ shift
    join = omega (
      arith,
      ap (λ (t : ℕ). t * 2 ^ shift) (div-add-mod v 256),
      ap (λ (t : ℕ). v / 256 * t) (pow-add_eight shift),
    )

-- What was read from `xs` is the number whose bytes stand there.
record Digits (n ret shift v : ℕ) (xs rest : Bytes) : Type 0 where
  index : ℕ
  total : v ≡ ret + index * 2 ^ shift
  small : index < 2 ^ (8 * n)
  split : xs ≡ put_uint n index ++ rest

load_uint_loop-Digits :
    (width n ret shift v : ℕ) (xs rest : Bytes)
    → AreBytes xs
    → 8 * width ≡ shift + 8 * n
    → ret < 2 ^ shift
    → load_uint_loop width n ret shift xs ≡ some (v, rest)
    → Digits n ret shift v xs rest
unfolding load_uint_loop put_uint
load_uint_loop-Digits width zero ret shift v xs rest hx e h q = record {
  index = 0;
  total = omega (arith, fst_eq);
  small = omega arith;
  split = cc q;
}
  where
    fst_eq : ret ≡ v
    fst_eq = cc q
load_uint_loop-Digits width (suc n) ret shift v [] rest hx e h q = cc
load_uint_loop-Digits width (suc n) ret shift v (b ∷ xs) rest (hb, hx) e h q =
    let (small, eq) = next_ret width n ret shift b e h hb in
    let g =
      load_uint_loop-Digits width n (ret + b * 2 ^ shift) (shift + 8) v xs rest hx (omega arith)
        small (rw eq at q) in
    let tail : (b + 256 * g.index) / 256 ≡ g.index = omega arith in
    record {
      index = b + 256 * g.index;
      total = g.total ∙ omega (arith, ap (λ (t : ℕ). g.index * t) (pow-add_eight shift));
      small = omega (arith, g.small, pow-add_eight (8 * n), ap (λ (t : ℕ). 2 ^ t) (eight n));
      split = rw tail (ap₂ (λ (t : ℕ) (ts : Bytes). t ∷ ts) (omega arith) g.split);
    }
  where
    eight : (n : ℕ) → 8 * suc n ≡ 8 * n + 8
    eight n = omega arith

-- Little-endian integers of any width: a value of the width is loaded back from what was written,
-- whatever bytes follow; and a value that is loaded from bytes is in range and is written as the
-- very bytes that were taken.
pub uint-IsLossless : (width : ℕ) → IsLossless (uint width)
unfolding uint
uint-IsLossless width = record {
  reads_back = record {
    at = λ a bs rest fits saved.
        subst (λ (t : Bytes). load_uint_loop width width 0 0 (t ++ rest) ≡ some (a, rest))
          (some_eq saved)
          (load-put width width a 0 0 rest (omega arith) (omega arith) fits
            ∙ ap (λ (t : ℕ). some (t, rest)) (omega arith));
  };
  rewrites = record {
    at = λ xs a rest hx _ q.
        let g = load_uint_loop-Digits width width 0 0 a xs rest hx (omega arith) (omega arith) q in
        let e : g.index ≡ a = omega (arith, g.total) in
        record {
          bytes = put_uint width a;
          fits = omega (arith, g.small);
          saved = refl;
          split = rw (← e) g.split;
        };
  };
}

pub read_blob-append :
    (len : ℕ) (bs rest : Bytes) → length bs ≡ len → read_blob len (bs ++ rest) ≡ some (bs, rest)
unfolding read_blob
read_blob-append len bs rest e =
    rw (← e) (
      ground (arith, length-append bs rest, take-length_append bs rest, drop-length_append bs rest))

pub read_blob-inv :
    (len : ℕ) (xs bs rest : Bytes)
    → read_blob len xs ≡ some (bs, rest)
    → (length bs ≡ len) × (xs ≡ bs ++ rest)
unfolding read_blob
read_blob-inv len xs bs rest q =
    (ground (arith, length-take len xs), ground (arith, take-append-drop len xs))

pub blob-IsLossless : (len : ℕ) → IsLossless (blob len)
unfolding blob
blob-IsLossless len = record {
  reads_back = record {
    at = λ a bs rest fits saved.
        subst (λ (t : Bytes). read_blob len (t ++ rest) ≡ some (a, rest)) (some_eq saved)
          (read_blob-append len a rest fits.0);
  };
  rewrites = record {
    at = λ xs a rest hx _ q.
        let (e, split) = read_blob-inv len xs a rest q in
        record {
          bytes = a;
          fits = (e, AreBytes-append_left a rest (rw split at hx));
          saved = refl;
          split = split;
        };
  };
}

pub uint-IsNonempty : (n : ℕ) → IsNonempty (uint (suc n))
unfolding uint put_uint
uint-IsNonempty n = record { at = λ a bs fits saved. omega (arith, ap length (some_eq saved)) }

pub blob-IsNonempty : (n : ℕ) → IsNonempty (blob (suc n))
unfolding blob
blob-IsNonempty n = record {
  at = λ a bs fits saved. omega (arith, fits.0, ap length (some_eq saved));
}

pub length-blob : (len : ℕ) (bs : Bytes) → (blob len).Fits bs → length bs ≡ len
unfolding blob
length-blob len bs h = h.0

pub put_uint-word_of : (bs : Bytes) → AreBytes bs → put_uint (length bs) (word_of bs) ≡ bs
unfolding put_uint word_of
put_uint-word_of [] h = refl
put_uint-word_of (b ∷ bs) (hb, h) =
    let low : (b + 256 * word_of bs) % 256 ≡ b = omega arith in
    let high : (b + 256 * word_of bs) / 256 ≡ word_of bs = omega arith in
    rw (low, high, put_uint-word_of bs h)

pub word_of-put_uint_any : (n v : ℕ) → v < 2 ^ (8 * n) → word_of (put_uint n v) ≡ v
unfolding put_uint word_of
word_of-put_uint_any zero v h = omega arith
word_of-put_uint_any (suc n) v h = omega (arith, word_of-put_uint_any n (v / 256) fewer)
  where
    eight : 8 * suc n ≡ 8 * n + 8
    eight = omega arith

    fewer : v / 256 < 2 ^ (8 * n)
    fewer = omega (arith, pow-add_eight (8 * n), ap (λ (t : ℕ). 2 ^ t) eight)

pub word_of-lt : (bs : Bytes) → AreBytes bs → word_of bs < 2 ^ (8 * length bs)
unfolding word_of
word_of-lt [] h = omega arith
word_of-lt (b ∷ bs) (hb, h) =
    omega (arith, word_of-lt bs h, pow-add_eight (8 * length bs), ap (λ (t : ℕ). 2 ^ t) (eight bs))
  where
    eight : (bs : Bytes) → 8 * suc (length bs) ≡ 8 * length bs + 8
    eight bs = omega arith

pub length-put_uint : (n v : ℕ) → length (put_uint n v) ≡ n
unfolding put_uint
length-put_uint zero v = refl
length-put_uint (suc n) v = omega (arith, length-put_uint n (v / 256))

pub put_uint-AreBytes : (n v : ℕ) → AreBytes (put_uint n v)
unfolding put_uint
put_uint-AreBytes zero v = tt
put_uint-AreBytes (suc n) v = (omega arith, put_uint-AreBytes n (v / 256))
