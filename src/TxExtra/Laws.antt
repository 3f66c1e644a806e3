-- ===== src/TxExtra/Laws.antt =====
-- The fields of the extra part of a transaction (src/cryptonote_basic/tx_extra.h) lose nothing on
-- the wire, but that padding is read back at the end of the input alone.
use node_blocktemplate.Prelude.{
  ℕ, zero, suc, ◌+◌, ◌-◌, ◌<◌, ◌≡◌, refl, sym, ap, ◌∙◌, Bool, true, false, Option, none, some,
  some_eq, [], ◌∷◌, ◌++◌, append-nil, if_passed, >>=-eq-some, ltb, leb, ◌==◌, if◌then◌else◌, Bytes,
  replicate, arith,
}
use node_blocktemplate.Archive.Codec.{Codec, RewritesIf, Always, IsLossless, IsNonempty}
use node_blocktemplate.Archive.Varint.Laws.{varint-IsLossless, varint-IsNonempty}
use node_blocktemplate.Archive.Fixed.Laws.{uint-IsLossless, blob-IsLossless, blob-IsNonempty}
use node_blocktemplate.Archive.Combine.Laws.{
  convert-IsLossless, convert-IsNonempty, chain-IsNonempty, ensure-IsLossless, ◌⊳◌,
}
use node_blocktemplate.Archive.Many.{string}
use node_blocktemplate.Archive.Many.Laws.{vector-IsLossless, string-IsLossless}
use node_blocktemplate.Format.{parse_binary}
use node_blocktemplate.Format.Blocks.{parse_binary-load}
use node_blocktemplate.TxExtra.{
  load_padding_loop, tx_extra_padding, tx_extra_nonce, nested, tx_extra_merge_mining_tag,
  tx_extra_additional_pub_keys, tx_extra_service_node_register, tx_extra_service_node_contributor,
  tx_extra_service_node_deregister, enum_field, vote, tx_extra_service_node_state_change,
  tx_extra_tx_key_image_proofs, tx_extra_tx_key_image_unlock, tx_extra_pub_key, tx_extra_string,
  tx_extra_key,
}

pub tx_extra_pub_key-IsLossless : IsLossless tx_extra_pub_key
unfolding tx_extra_pub_key
tx_extra_pub_key-IsLossless = blob-IsLossless 32

pub tx_extra_nonce-IsLossless : IsLossless tx_extra_nonce
unfolding tx_extra_nonce
tx_extra_nonce-IsLossless = ensure-IsLossless _ _ string-IsLossless

pub tx_extra_string-IsLossless : IsLossless tx_extra_string
unfolding tx_extra_string
tx_extra_string-IsLossless = string-IsLossless

pub tx_extra_key-IsLossless : IsLossless tx_extra_key
unfolding tx_extra_key
tx_extra_key-IsLossless = blob-IsLossless 32

pub tx_extra_additional_pub_keys-IsLossless : IsLossless tx_extra_additional_pub_keys
unfolding tx_extra_additional_pub_keys
tx_extra_additional_pub_keys-IsLossless =
    vector-IsLossless _ (blob-IsNonempty 31) (blob-IsLossless 32)

pub tx_extra_tx_key_image_proofs-IsLossless : IsLossless tx_extra_tx_key_image_proofs
unfolding tx_extra_tx_key_image_proofs
tx_extra_tx_key_image_proofs-IsLossless =
    vector-IsLossless _ (blob-IsNonempty 95) (blob-IsLossless 96)

pub tx_extra_tx_key_image_unlock-IsLossless : IsLossless tx_extra_tx_key_image_unlock
unfolding tx_extra_tx_key_image_unlock
tx_extra_tx_key_image_unlock-IsLossless =
    convert-IsLossless _ _ _ (λ b. refl) (λ a. refl)
      (blob-IsLossless 32 ⊳ blob-IsLossless 64 ⊳ uint-IsLossless 4)

pub tx_extra_service_node_contributor-IsLossless : IsLossless tx_extra_service_node_contributor
unfolding tx_extra_service_node_contributor
tx_extra_service_node_contributor-IsLossless =
    convert-IsLossless _ _ _ (λ b. refl) (λ a. refl) (blob-IsLossless 32 ⊳ blob-IsLossless 32)

pub tx_extra_service_node_register-IsLossless : IsLossless tx_extra_service_node_register
unfolding tx_extra_service_node_register
tx_extra_service_node_register-IsLossless =
    let keys = vector-IsLossless _ (blob-IsNonempty 31) (blob-IsLossless 32) in
    convert-IsLossless _ _ _ (λ b. refl) (λ a. refl)
      (keys
        ⊳ keys
        ⊳ uint-IsLossless 8
        ⊳ vector-IsLossless _ (varint-IsNonempty 64) (varint-IsLossless 64)
        ⊳ uint-IsLossless 8
        ⊳ blob-IsLossless 64)

pub tx_extra_service_node_deregister-IsLossless : IsLossless tx_extra_service_node_deregister
unfolding tx_extra_service_node_deregister
tx_extra_service_node_deregister-IsLossless =
    convert-IsLossless _ _ _ (λ b. refl) (λ a. refl)
      (uint-IsLossless 8
        ⊳ uint-IsLossless 4
        ⊳ vector-IsLossless _ (blob-IsNonempty 67) (blob-IsLossless 68))

vote-IsLossless : IsLossless vote
unfolding vote
vote-IsLossless =
    convert-IsLossless _ _ _ (λ b. refl) (λ a. refl) (varint-IsLossless 32 ⊳ blob-IsLossless 64)

vote-IsNonempty : IsNonempty vote
unfolding vote
vote-IsNonempty = convert-IsNonempty _ _ _ (chain-IsNonempty _ _ (varint-IsNonempty 32))

enum_field-IsLossless :
    (test : ℕ → Bool) (c : Codec ℕ) → IsLossless c → IsLossless (enum_field test c)
unfolding enum_field
enum_field-IsLossless test c hc = record {
  reads_back = record {
    at = λ a bs rest fits saved. rw (hc.reads_back.at a bs rest fits.0 saved, fits.1) refl;
  };
  rewrites = record {
    at = λ xs a rest hx _ q.
        let ((a', after), e, last) = >>=-eq-some (c.load xs) _ q in
        let (et, same) = if_passed (test a') last in
        let here : a' ≡ a = cc same in
        let ta = hc.rewrites.at xs a rest hx tt (e ∙ ap (λ (r : ℕ × Bytes). some r) same) in
        record {
          bytes = ta.bytes;
          fits = (ta.fits, sym (ap test here) ∙ et);
          saved = ta.saved;
          split = ta.split;
        };
  };
}

pub tx_extra_service_node_state_change-IsLossless : IsLossless tx_extra_service_node_state_change
unfolding tx_extra_service_node_state_change
tx_extra_service_node_state_change-IsLossless =
    convert-IsLossless _ _ _ (λ b. refl) (λ a. refl)
      (enum_field-IsLossless _ _ (varint-IsLossless 16)
        ⊳ uint-IsLossless 8
        ⊳ uint-IsLossless 4
        ⊳ vector-IsLossless _ vote-IsNonempty vote-IsLossless)

module _ {A : Type 0} (c : Codec A) where
  nested-IsLossless : IsLossless c → IsLossless (nested c)
  unfolding nested parse_binary
  nested-IsLossless hc = record {
    reads_back = record {
      at = λ a bs rest fits saved.
          let (field, ef, es) = >>=-eq-some (c.save a) _ saved in
          let read : string.load (bs ++ rest) ≡ some (field, rest) =
            string-IsLossless.reads_back.at field bs rest (fits.1 field ef) es in
          let inner : c.load field ≡ some (a, []) =
            rw append-nil at (hc.reads_back.at a field [] fits.0 ef) in
          rw (read, inner) refl;
    };
    rewrites = record {
      at = λ xs a rest hx _ q.
          let ((field, after), ef, more) = >>=-eq-some (string.load xs) _ q in
          let (a', ea, last) = >>=-eq-some (parse_binary c field) _ more in
          let same : (a', after) ≡ (a, rest) = some_eq last in
          let here : a' ≡ a = cc same in
          let end : after ≡ rest = cc same in
          let ts = string-IsLossless.rewrites.at xs field after hx tt ef in
          let tc =
            hc.rewrites.at field a' [] (unfold string in ts.fits.1) tt
              (parse_binary-load c field a' ea) in
          let whole : tc.bytes ≡ field = sym (tc.split ∙ append-nil tc.bytes) in
          let saved : c.save a ≡ some field = rw (← here, ← whole) tc.saved in
          record {
            bytes = ts.bytes;
            fits = (rw (← here) tc.fits, λ f e. rw (some_eq (sym e ∙ saved)) ts.fits);
            saved = rw saved ts.saved;
            split = rw (← end) ts.split;
          };
    };
  }

pub tx_extra_merge_mining_tag-IsLossless : IsLossless tx_extra_merge_mining_tag
unfolding tx_extra_merge_mining_tag
tx_extra_merge_mining_tag-IsLossless =
    nested-IsLossless _
      (convert-IsLossless _ _ _ (λ b. refl) (λ a. refl) (varint-IsLossless 64 ⊳ blob-IsLossless 32))

load_padding_loop-zeros :
    (size count : ℕ)
    → size + count < 256
    → load_padding_loop size (replicate count 0) ≡ some (size + count, [])
unfolding load_padding_loop
load_padding_loop-zeros size zero h =
    let fits : leb size 255 ≡ true = ground arith in
    rw fits (ap (λ (t : ℕ). some (t, [])) (omega arith))
load_padding_loop-zeros size (suc count) h =
    let fits : leb size 255 ≡ true = ground arith in
    rw fits (
      load_padding_loop-zeros (suc size) count (omega arith)
      ∙ ap (λ (t : ℕ). some (t, [])) (omega arith))

-- Padding that was loaded is zeros up to the end of the input.
load_padding_loop-inv :
    (size v : ℕ) (xs rest : Bytes)
    → load_padding_loop size xs ≡ some (v, rest)
    → (count : ℕ) × (v ≡ size + count) × (v < 256) × (rest ≡ []) × (xs ≡ replicate count 0)
unfolding load_padding_loop
load_padding_loop-inv size v [] rest q =
    let (fits, same) = if_passed (leb size 255) q in
    let here : size ≡ v = cc same in
    let end : [] ≡ rest = cc same in (0, omega (arith, here), ground (arith, here), sym end, refl)
load_padding_loop-inv size v (byte ∷ xs) rest q =
    let (zeroed, more) = both (leb size 255) (byte == 0) (load_padding_loop (suc size) xs) q in
    let (count, total, small, end, zeros) = load_padding_loop-inv (suc size) v xs rest more in
    let none_else : byte ≡ 0 = ground arith in
    (suc count, omega (arith, total), small, end, cc (none_else, zeros))
  where
    both :
        {A : Type 0} (s t : Bool) (o : Option A) {r : A}
        → (if s then (if t then o else none) else none) ≡ some r
        → (t ≡ true) × (o ≡ some r)
    both true true o h = (refl, h)
    both true false o h = cc h
    both false t o h = cc h

-- Padding is read back at the end of the input.
pub tx_extra_padding-reads :
    (size : ℕ) (bs : Bytes)
    → tx_extra_padding.Fits size
    → tx_extra_padding.save size ≡ some bs
    → tx_extra_padding.load bs ≡ some (size, [])
unfolding tx_extra_padding
tx_extra_padding-reads size bs (low, high) saved =
    let fits : ltb 255 size ≡ false = ground arith in
    let bytes : replicate (size - 1) 0 ≡ bs = some_eq (rw fits at saved) in
    rw (← bytes) (
      load_padding_loop-zeros 1 (size - 1) (omega arith)
      ∙ ap (λ (t : ℕ). some (t, [])) (omega arith))

pub tx_extra_padding-RewritesIf : RewritesIf Always tx_extra_padding
unfolding tx_extra_padding
tx_extra_padding-RewritesIf = record {
  at = λ xs size rest hx _ q.
      let (count, total, small, end, zeros) = load_padding_loop-inv 1 size xs rest q in
      let fits : ltb 255 size ≡ false = ground arith in
      record {
        bytes = replicate count 0;
        fits = (omega (arith, total), small);
        saved = rw fits (ap (λ (t : ℕ). some (replicate t 0)) (omega (arith, total)));
        split = rw (end, append-nil) zeros;
      };
}
