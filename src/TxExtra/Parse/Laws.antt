-- ===== src/TxExtra/Parse/Laws.antt =====
-- `parse_tx_extra` (src/cryptonote_basic/cryptonote_format_utils.cpp) and the fields it finds.
use node_blocktemplate.Prelude.{
  ℕ, zero, suc, ◌≤◌, ◌<◌, ◌≡◌, refl, sym, ap, ◌∙◌, inl, inr, true, false, none, some, Option-cases,
  List, [], ◌∷◌, Bytes, AreBytes, AreBytes-append_right, All, length, length-append, arith,
}
use node_blocktemplate.Archive.Codec.{Taken}
use node_blocktemplate.Archive.Many.{save_each}
use node_blocktemplate.TxExtra.Field.{
  TxExtraField, tx_extra_field, tx_extra_field-RewritesIf, tx_extra_field-IsNonempty,
}
use node_blocktemplate.TxExtra.Parse.{Parsed, parse_rest, parse_loop, parse_tx_extra}

-- A field that is loaded takes a byte or more.
load_shrinks :
    (xs : Bytes) (f : TxExtraField) (rest : Bytes)
    → AreBytes xs
    → tx_extra_field.load xs ≡ some (f, rest)
    → length rest < length xs
load_shrinks xs f rest hx e =
    let t = tx_extra_field-RewritesIf.at xs f rest hx tt e in
    omega (
      arith,
      tx_extra_field-IsNonempty.at f t.bytes t.fits t.saved,
      length-append t.bytes rest,
      ap length t.split,
    )

load_bytes :
    (xs : Bytes) (f : TxExtraField) (rest : Bytes)
    → AreBytes xs
    → tx_extra_field.load xs ≡ some (f, rest)
    → AreBytes rest
load_bytes xs f rest hx e =
    let t = tx_extra_field-RewritesIf.at xs f rest hx tt e in
    AreBytes-append_right t.bytes rest (rw t.split at hx)

parse_rest_same :
    (g h : Bytes → Parsed) (f : TxExtraField) (rest : Bytes)
    → (1 ≤ length rest → g rest ≡ h rest)
    → parse_rest g (some (f, rest)) ≡ parse_rest h (some (f, rest))
unfolding parse_rest
parse_rest_same g h f [] e = refl
parse_rest_same g h f (b ∷ rest) e =
    ap (λ (p : Parsed). record { fields = f ∷ p.fields; parsed = p.parsed }) (e (omega arith))

-- Fuel for each byte is enough.
parse_loop_fuel :
    (m n : ℕ) (xs : Bytes)
    → AreBytes xs
    → length xs ≤ m
    → length xs ≤ n
    → 1 ≤ length xs
    → parse_loop m xs ≡ parse_loop n xs
unfolding parse_loop
parse_loop_fuel zero n xs hx hm hn h = absurd (omega arith)
parse_loop_fuel (suc m) zero xs hx hm hn h = absurd (omega arith)
parse_loop_fuel (suc m) (suc n) xs hx hm hn h = elim (Option-cases (tx_extra_field.load xs)) [
  | inl failed ↦ rw failed refl
  | inr ((f, rest), e) ↦
      let shorter = load_shrinks xs f rest hx e in
      rw e (
        parse_rest_same (parse_loop m) (parse_loop n) f rest (
          parse_loop_fuel m n rest (load_bytes xs f rest hx e) (omega (arith, shorter))
            (omega (arith, shorter))))
]

-- A round of `parse_tx_extra`, with no fuel in sight.
pub parse_tx_extra-field :
    (xs : Bytes) (f : TxExtraField) (rest : Bytes)
    → AreBytes xs
    → tx_extra_field.load xs ≡ some (f, rest)
    → parse_tx_extra xs
      ≡ record { fields = f ∷ (parse_tx_extra rest).fields; parsed = (parse_tx_extra rest).parsed }
unfolding parse_tx_extra
parse_tx_extra-field [] f rest hx e = absurd (omega (arith, load_shrinks [] f rest hx e))
parse_tx_extra-field (x ∷ xs) f [] hx e = rw e refl
parse_tx_extra-field (x ∷ xs) f (b ∷ rest) hx e = rw e (
    ap (λ (p : Parsed). record { fields = f ∷ p.fields; parsed = p.parsed })
      (parse_loop_fuel (length xs) (length (b ∷ rest)) (b ∷ rest)
        (load_bytes (x ∷ xs) f (b ∷ rest) hx e)
        (omega (arith, load_shrinks (x ∷ xs) f (b ∷ rest) hx e)) (omega arith) (omega arith)))

pub parse_tx_extra-failed :
    (x : ℕ) (xs : Bytes)
    → tx_extra_field.load (x ∷ xs) ≡ none
    → parse_tx_extra (x ∷ xs) ≡ record { fields = []; parsed = false }
unfolding parse_tx_extra
parse_tx_extra-failed x xs e = rw e refl

pub parse_tx_extra_nil : parse_tx_extra [] ≡ record { fields = []; parsed = true }
unfolding parse_tx_extra
parse_tx_extra_nil = refl

-- The fields are within the ranges of their types, and saved they are the bytes.
pub record Written (fields : List TxExtraField) (xs : Bytes) : Type 0 where
  pub fits : All tx_extra_field.Fits fields
  pub saved : save_each tx_extra_field fields ≡ some xs

Written-field :
    (f : TxExtraField) (fs : List TxExtraField) (xs rest : Bytes)
    → Taken tx_extra_field xs f rest
    → Written fs rest
    → Written (f ∷ fs) xs
unfolding save_each
Written-field f fs xs rest t w = record {
  fits = (t.fits, w.fits);
  saved = rw (t.saved, w.saved, t.split) refl;
}

Written-fields :
    (n : ℕ) (xs : Bytes)
    → length xs ≤ n
    → AreBytes xs
    → (parse_tx_extra xs).parsed ≡ true
    → Written (parse_tx_extra xs).fields xs
Written-fields n [] h hx q =
    rw parse_tx_extra_nil (record { fits = tt; saved = unfold save_each in refl })
Written-fields zero (x ∷ xs) h hx q = absurd (omega arith)
Written-fields (suc n) (x ∷ xs) h hx q = elim (Option-cases (tx_extra_field.load (x ∷ xs))) [
  | inl failed ↦ cc (ap (λ (p : Parsed). p.parsed) (parse_tx_extra-failed x xs failed), q)
  | inr ((f, rest), e) ↦
      let round = parse_tx_extra-field (x ∷ xs) f rest hx e in
      let last : (parse_tx_extra rest).parsed ≡ true =
        sym (ap (λ (p : Parsed). p.parsed) round) ∙ q in
      let more =
        Written-fields n rest (omega (arith, load_shrinks (x ∷ xs) f rest hx e))
          (load_bytes (x ∷ xs) f rest hx e) last in
      rw round (
        Written-field f _ (x ∷ xs) rest (tx_extra_field-RewritesIf.at (x ∷ xs) f rest hx tt e) more)
]

-- If parse_tx_extra returns true, its fields are within the ranges of their types, and saved one
-- after the other they are the very bytes that were parsed.
pub parse_tx_extra-Written :
    (tx_extra : Bytes)
    → AreBytes tx_extra
    → (parse_tx_extra tx_extra).parsed ≡ true
    → Written (parse_tx_extra tx_extra).fields tx_extra
parse_tx_extra-Written tx_extra = Written-fields (length tx_extra) tx_extra (omega arith)
