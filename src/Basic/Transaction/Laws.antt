-- ===== src/Basic/Transaction/Laws.antt =====
-- Transactions lose nothing on the wire.
use mathlib.Core.Path.{refl}
use node_blocktemplate.Prelude.{ℕ, ◌≡◌, List, [], ◌∷◌, ◌++◌, Bytes}
use node_blocktemplate.Archive.Codec.{IsLossless}
use node_blocktemplate.Archive.Fixed.Laws.{blob-IsLossless}
use node_blocktemplate.Archive.Combine.Laws.{
  chain-IsLossless, convert-IsLossless, embed-IsLossless, field_if-IsLossless, ensure-IsLossless,
  ◌⊳◌,
}
use node_blocktemplate.Archive.Many.Laws.{times-IsLossless}
use node_blocktemplate.Prelude.{some, some_eq}
use node_blocktemplate.Basic.TxIn.{TxinV}
use node_blocktemplate.Basic.Prefix.Laws.{transaction_prefix-IsLossless}
use node_blocktemplate.Rct.Base.Laws.{rctsig_base-IsLossless}
use node_blocktemplate.Rct.Prunable.{MaxAmounts}
use node_blocktemplate.Rct.Prunable.Laws.{rctsig_prunable-IsLossless}
use node_blocktemplate.Basic.Transaction.{
  count_inputs, count_outputs, mixin, signature_rows, ring_signatures, rct_signatures, transaction,
}

signature_rows-IsLossless : (vin : List TxinV) → IsLossless (signature_rows vin)
unfolding signature_rows
signature_rows-IsLossless [] = record {
  reads_back = record { at = none_back };
  rewrites = record {
    at = λ xs a rest hx _ q. record {
      bytes = [];
      fits = cc;
      saved = rw (none_taken xs a rest q);
      split = cc;
    };
  };
}
  where
    none_back :
        (a : List (List Bytes)) (bs rest : Bytes)
        → a ≡ []
        → (signature_rows []).save a ≡ some bs
        → (signature_rows []).load (bs ++ rest) ≡ some (a, rest)
    none_back [] bs rest fits saved = rw (← some_eq saved)
    none_back (x ∷ xs) bs rest fits saved = cc

    none_taken :
        (xs : Bytes) (a : List (List Bytes)) (rest : Bytes)
        → (signature_rows []).load xs ≡ some (a, rest)
        → a ≡ []
    none_taken xs a rest q = cc
signature_rows-IsLossless (v ∷ vs) =
    embed-IsLossless _ _ _ (λ a h. refl)
      (times-IsLossless _ _ (blob-IsLossless 64) ⊳ signature_rows-IsLossless vs)

rct_signatures-IsLossless :
    (n : MaxAmounts) (inputs outputs mixed : ℕ) → IsLossless (rct_signatures n inputs outputs mixed)
unfolding rct_signatures
rct_signatures-IsLossless n inputs outputs mixed =
    convert-IsLossless _ _ _ (λ b. refl) (λ a. refl)
      (chain-IsLossless _ _ (rctsig_base-IsLossless outputs) (λ base.
        field_if-IsLossless _ _ _
          (rctsig_prunable-IsLossless n base.rct_type inputs outputs mixed)))

-- Transactions of every kind of blob: what fits the types and is saved is loaded back, whatever
-- bytes follow; and what is loaded from bytes is saved as the very bytes that were taken.
pub transaction-IsLossless : (n : MaxAmounts) (bt : ℕ) → IsLossless (transaction n bt)
unfolding transaction ring_signatures
transaction-IsLossless n bt =
    convert-IsLossless _ _ _ (λ b. refl) (λ a. refl)
      (chain-IsLossless _ _ (transaction_prefix-IsLossless bt) (λ t.
        field_if-IsLossless _ _ _ (ensure-IsLossless _ _ (signature_rows-IsLossless t.vin))
        ⊳ field_if-IsLossless _ _ _
            (rct_signatures-IsLossless n (count_inputs bt t) (count_outputs bt t) (mixin bt t))))
