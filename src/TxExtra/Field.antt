-- ===== src/TxExtra/Field.antt =====
-- `tx_extra_field` (src/cryptonote_basic/tx_extra.h): the variant of the fields, in the order of its
-- types and with their tags.
use node_blocktemplate.Prelude.{
  ℕ, ◌≡◌, refl, ◌⊎◌, inl, inr, Bool, true, false, some, append-nil, List, [], ◌++◌, Bytes, arith,
}
use node_blocktemplate.Archive.Codec.{Codec, RewritesIf, Always, IsNonempty}
use node_blocktemplate.Archive.Combine.{convert}
use node_blocktemplate.Archive.Combine.Laws.{convert-RewritesIf, convert-IsNonempty}
use node_blocktemplate.Archive.Variant.{Alternatives, variant, alternative, no_alternative}
use node_blocktemplate.Archive.Variant.Laws.{
  Told, Told-RewritesTag, alternative-Told, no_alternative-Told, alternative-RewritesTag, other_tag,
  variant-reads, variant-RewritesIf, variant-IsNonempty,
}
use node_blocktemplate.TxExtra.{
  MergeMiningTag, ServiceNodeRegister, ServiceNodeContributor, ServiceNodeDeregister,
  ServiceNodeStateChange, TxKeyImageUnlock, tx_extra_padding, tx_extra_pub_key, tx_extra_nonce,
  tx_extra_merge_mining_tag, tx_extra_additional_pub_keys, tx_extra_string, tx_extra_key,
  tx_extra_service_node_register, tx_extra_service_node_contributor,
  tx_extra_service_node_deregister, tx_extra_service_node_state_change,
  tx_extra_tx_key_image_proofs, tx_extra_tx_key_image_unlock,
}
use node_blocktemplate.TxExtra.Laws.{
  tx_extra_padding-reads, tx_extra_padding-RewritesIf, tx_extra_pub_key-IsLossless,
  tx_extra_nonce-IsLossless, tx_extra_merge_mining_tag-IsLossless,
  tx_extra_additional_pub_keys-IsLossless, tx_extra_string-IsLossless, tx_extra_key-IsLossless,
  tx_extra_service_node_register-IsLossless, tx_extra_service_node_contributor-IsLossless,
  tx_extra_service_node_deregister-IsLossless, tx_extra_service_node_state_change-IsLossless,
  tx_extra_tx_key_image_proofs-IsLossless, tx_extra_tx_key_image_unlock-IsLossless,
}

pub data TxExtraField : Type 0 where
  padding : ℕ → TxExtraField
  pub_key : Bytes → TxExtraField
  nonce : Bytes → TxExtraField
  merge_mining_tag : MergeMiningTag → TxExtraField
  additional_pub_keys : (List Bytes) → TxExtraField
  mysterious_minergate : Bytes → TxExtraField
  memo : Bytes → TxExtraField
  service_node_pubkey : Bytes → TxExtraField
  service_node_register : ServiceNodeRegister → TxExtraField
  service_node_contributor : ServiceNodeContributor → TxExtraField
  service_node_winner : Bytes → TxExtraField
  service_node_state_change : ServiceNodeStateChange → TxExtraField
  tx_secret_key : Bytes → TxExtraField
  tx_key_image_proofs : (List Bytes) → TxExtraField
  tx_key_image_unlock : TxKeyImageUnlock → TxExtraField
  service_node_deregister : ServiceNodeDeregister → TxExtraField

-- The alternatives behind padding.
abbrev pub Others : Type 0
Others =
    Bytes
    ⊎ (Bytes
        ⊎ (MergeMiningTag
            ⊎ ((List Bytes)
                ⊎ (Bytes
                    ⊎ (Bytes
                        ⊎ (Bytes
                            ⊎ (ServiceNodeRegister
                                ⊎ (ServiceNodeContributor
                                    ⊎ (Bytes
                                        ⊎ (ServiceNodeStateChange
                                            ⊎ (Bytes
                                                ⊎ ((List Bytes)
                                                    ⊎ (TxKeyImageUnlock
                                                        ⊎ (ServiceNodeDeregister ⊎ ⊥))))))))))))))

abbrev pub field_of : ℕ ⊎ Others → TxExtraField
field_of (inl x) = TxExtraField.padding x
field_of (inr (inl x)) = TxExtraField.pub_key x
field_of (inr (inr (inl x))) = TxExtraField.nonce x
field_of (inr (inr (inr (inl x)))) = TxExtraField.merge_mining_tag x
field_of (inr (inr (inr (inr (inl x))))) = TxExtraField.additional_pub_keys x
field_of (inr (inr (inr (inr (inr (inl x)))))) = TxExtraField.mysterious_minergate x
field_of (inr (inr (inr (inr (inr (inr (inl x))))))) = TxExtraField.memo x
field_of (inr (inr (inr (inr (inr (inr (inr (inl x)))))))) = TxExtraField.service_node_pubkey x
field_of (inr (inr (inr (inr (inr (inr (inr (inr (inl x))))))))) =
    TxExtraField.service_node_register x
field_of (inr (inr (inr (inr (inr (inr (inr (inr (inr (inl x)))))))))) =
    TxExtraField.service_node_contributor x
field_of (inr (inr (inr (inr (inr (inr (inr (inr (inr (inr (inl x))))))))))) =
    TxExtraField.service_node_winner x
field_of (inr (inr (inr (inr (inr (inr (inr (inr (inr (inr (inr (inl x)))))))))))) =
    TxExtraField.service_node_state_change x
field_of (inr (inr (inr (inr (inr (inr (inr (inr (inr (inr (inr (inr (inl x))))))))))))) =
    TxExtraField.tx_secret_key x
field_of (inr (inr (inr (inr (inr (inr (inr (inr (inr (inr (inr (inr (inr (inl x)))))))))))))) =
    TxExtraField.tx_key_image_proofs x
field_of
      (inr (inr (inr (inr (inr (inr (inr (inr (inr (inr (inr (inr (inr (inr (inl x))))))))))))))) =
    TxExtraField.tx_key_image_unlock x
field_of
      (inr (
        inr
          (inr (inr (inr (inr (inr (inr (inr (inr (inr (inr (inr (inr (inr (inl x)))))))))))))))) =
    TxExtraField.service_node_deregister x
field_of
      (inr (
        inr
          (inr (inr (inr (inr (inr (inr (inr (inr (inr (inr (inr (inr (inr (inr x)))))))))))))))) =
    absurd x

abbrev pub alternative_of : TxExtraField → ℕ ⊎ Others
alternative_of (TxExtraField.padding x) = inl x
alternative_of (TxExtraField.pub_key x) = inr (inl x)
alternative_of (TxExtraField.nonce x) = inr (inr (inl x))
alternative_of (TxExtraField.merge_mining_tag x) = inr (inr (inr (inl x)))
alternative_of (TxExtraField.additional_pub_keys x) = inr (inr (inr (inr (inl x))))
alternative_of (TxExtraField.mysterious_minergate x) = inr (inr (inr (inr (inr (inl x)))))
alternative_of (TxExtraField.memo x) = inr (inr (inr (inr (inr (inr (inl x))))))
alternative_of (TxExtraField.service_node_pubkey x) =
    inr (inr (inr (inr (inr (inr (inr (inl x)))))))
alternative_of (TxExtraField.service_node_register x) =
    inr (inr (inr (inr (inr (inr (inr (inr (inl x))))))))
alternative_of (TxExtraField.service_node_contributor x) =
    inr (inr (inr (inr (inr (inr (inr (inr (inr (inl x)))))))))
alternative_of (TxExtraField.service_node_winner x) =
    inr (inr (inr (inr (inr (inr (inr (inr (inr (inr (inl x))))))))))
alternative_of (TxExtraField.service_node_state_change x) =
    inr (inr (inr (inr (inr (inr (inr (inr (inr (inr (inr (inl x)))))))))))
alternative_of (TxExtraField.tx_secret_key x) =
    inr (inr (inr (inr (inr (inr (inr (inr (inr (inr (inr (inr (inl x))))))))))))
alternative_of (TxExtraField.tx_key_image_proofs x) =
    inr (inr (inr (inr (inr (inr (inr (inr (inr (inr (inr (inr (inr (inl x)))))))))))))
alternative_of (TxExtraField.tx_key_image_unlock x) =
    inr (inr (inr (inr (inr (inr (inr (inr (inr (inr (inr (inr (inr (inr (inl x))))))))))))))
alternative_of (TxExtraField.service_node_deregister x) =
    inr (inr (inr (inr (inr (inr (inr (inr (inr (inr (inr (inr (inr (inr (inr (inl x)))))))))))))))

unfoldable pub others : Alternatives Others
others = alternative 0x01 tx_extra_pub_key (
    alternative 0x02 tx_extra_nonce (
      alternative 0x03 tx_extra_merge_mining_tag (
        alternative 0x04 tx_extra_additional_pub_keys (
          alternative 0xde tx_extra_string (
            alternative 0x18 tx_extra_string (
              alternative 0x74 tx_extra_key (
                alternative 0x70 tx_extra_service_node_register (
                  alternative 0x73 tx_extra_service_node_contributor (
                    alternative 0x72 tx_extra_key (
                      alternative 0x71 tx_extra_service_node_state_change (
                        alternative 0x75 tx_extra_key (
                          alternative 0x76 tx_extra_tx_key_image_proofs (
                            alternative 0x77 tx_extra_tx_key_image_unlock (
                              alternative 0x78 tx_extra_service_node_deregister
                                no_alternative))))))))))))))

unfoldable pub tx_extra_field : Codec TxExtraField
unfolding others
tx_extra_field =
    convert field_of alternative_of (variant (alternative 0x00 tx_extra_padding others))

others-Told : Told others
unfolding others alternative no_alternative
others-Told = alternative-Told _ _ _ (omega arith) refl tx_extra_pub_key-IsLossless (
    alternative-Told _ _ _ (omega arith) refl tx_extra_nonce-IsLossless (
      alternative-Told _ _ _ (omega arith) refl tx_extra_merge_mining_tag-IsLossless (
        alternative-Told _ _ _ (omega arith) refl tx_extra_additional_pub_keys-IsLossless (
          alternative-Told _ _ _ (omega arith) refl tx_extra_string-IsLossless (
            alternative-Told _ _ _ (omega arith) refl tx_extra_string-IsLossless (
              alternative-Told _ _ _ (omega arith) refl tx_extra_key-IsLossless (
                alternative-Told _ _ _ (omega arith) refl tx_extra_service_node_register-IsLossless
                  (alternative-Told _ _ _ (omega arith) refl
                    tx_extra_service_node_contributor-IsLossless
                    (alternative-Told _ _ _ (omega arith) refl tx_extra_key-IsLossless (
                      alternative-Told _ _ _ (omega arith) refl
                        tx_extra_service_node_state_change-IsLossless
                        (alternative-Told _ _ _ (omega arith) refl tx_extra_key-IsLossless (
                          alternative-Told _ _ _ (omega arith) refl
                            tx_extra_tx_key_image_proofs-IsLossless
                            (alternative-Told _ _ _ (omega arith) refl
                              tx_extra_tx_key_image_unlock-IsLossless
                              (alternative-Told _ _ _ (omega arith) refl
                                tx_extra_service_node_deregister-IsLossless
                                (no_alternative-Told)))))))))))))))

field_of-alternative_of : (f : TxExtraField) → field_of (alternative_of f) ≡ f
field_of-alternative_of (TxExtraField.padding x) = refl
field_of-alternative_of (TxExtraField.pub_key x) = refl
field_of-alternative_of (TxExtraField.nonce x) = refl
field_of-alternative_of (TxExtraField.merge_mining_tag x) = refl
field_of-alternative_of (TxExtraField.additional_pub_keys x) = refl
field_of-alternative_of (TxExtraField.mysterious_minergate x) = refl
field_of-alternative_of (TxExtraField.memo x) = refl
field_of-alternative_of (TxExtraField.service_node_pubkey x) = refl
field_of-alternative_of (TxExtraField.service_node_register x) = refl
field_of-alternative_of (TxExtraField.service_node_contributor x) = refl
field_of-alternative_of (TxExtraField.service_node_winner x) = refl
field_of-alternative_of (TxExtraField.service_node_state_change x) = refl
field_of-alternative_of (TxExtraField.tx_secret_key x) = refl
field_of-alternative_of (TxExtraField.tx_key_image_proofs x) = refl
field_of-alternative_of (TxExtraField.tx_key_image_unlock x) = refl
field_of-alternative_of (TxExtraField.service_node_deregister x) = refl

alternative_of-field_of : (a : ℕ ⊎ Others) → alternative_of (field_of a) ≡ a
alternative_of-field_of (inl x) = refl
alternative_of-field_of (inr (inl x)) = refl
alternative_of-field_of (inr (inr (inl x))) = refl
alternative_of-field_of (inr (inr (inr (inl x)))) = refl
alternative_of-field_of (inr (inr (inr (inr (inl x))))) = refl
alternative_of-field_of (inr (inr (inr (inr (inr (inl x)))))) = refl
alternative_of-field_of (inr (inr (inr (inr (inr (inr (inl x))))))) = refl
alternative_of-field_of (inr (inr (inr (inr (inr (inr (inr (inl x)))))))) = refl
alternative_of-field_of (inr (inr (inr (inr (inr (inr (inr (inr (inl x))))))))) = refl
alternative_of-field_of (inr (inr (inr (inr (inr (inr (inr (inr (inr (inl x)))))))))) = refl
alternative_of-field_of (inr (inr (inr (inr (inr (inr (inr (inr (inr (inr (inl x))))))))))) = refl
alternative_of-field_of (inr (inr (inr (inr (inr (inr (inr (inr (inr (inr (inr (inl x)))))))))))) =
    refl
alternative_of-field_of
      (inr (inr (inr (inr (inr (inr (inr (inr (inr (inr (inr (inr (inl x))))))))))))) =
    refl
alternative_of-field_of
      (inr (inr (inr (inr (inr (inr (inr (inr (inr (inr (inr (inr (inr (inl x)))))))))))))) =
    refl
alternative_of-field_of
      (inr (inr (inr (inr (inr (inr (inr (inr (inr (inr (inr (inr (inr (inr (inl x))))))))))))))) =
    refl
alternative_of-field_of
      (inr (
        inr
          (inr (inr (inr (inr (inr (inr (inr (inr (inr (inr (inr (inr (inr (inl x)))))))))))))))) =
    refl
alternative_of-field_of
      (inr (
        inr
          (inr (inr (inr (inr (inr (inr (inr (inr (inr (inr (inr (inr (inr (inr x)))))))))))))))) =
    absurd x

-- A field that was loaded is saved as the bytes that were taken.
pub tx_extra_field-RewritesIf : RewritesIf Always tx_extra_field
unfolding tx_extra_field
tx_extra_field-RewritesIf = convert-RewritesIf _ _ _ Always alternative_of-field_of (
    variant-RewritesIf _ (
      alternative-RewritesTag 0x00 tx_extra_padding others tx_extra_padding-RewritesIf
        (Told-RewritesTag others-Told)))

abbrev pub is_padding : TxExtraField → Bool
is_padding (TxExtraField.padding x) = true
is_padding f = false

alternative-reads :
    (a : ℕ ⊎ Others) (bs rest : Bytes)
    → (alternative 0x00 tx_extra_padding others).Fits a
    → (is_padding (field_of a) ≡ false) ⊎ (rest ≡ [])
    → (variant (alternative 0x00 tx_extra_padding others)).save a ≡ some bs
    → (variant (alternative 0x00 tx_extra_padding others)).load (bs ++ rest) ≡ some (a, rest)
unfolding alternative
alternative-reads (inl size) bs rest fits (inl other) saved = cc other
alternative-reads (inl size) bs rest fits (inr end) saved =
    variant-reads _ (inl size) bs rest (omega arith)
      (λ ys ey.
        let read : tx_extra_padding.load (ys ++ rest) ≡ some (size, []) =
          rw (end, append-nil) (tx_extra_padding-reads size ys fits ey) in
        rw (read, end) refl)
      saved
alternative-reads (inr b) bs rest fits last saved =
    variant-reads _ (inr b) bs rest (others-Told.small b)
      (λ ys ey.
        rw
          (
            other_tag 0x00 tx_extra_padding others
                (unfold others alternative no_alternative in refl) b (others-Told.known b),
            others-Told.reads_back b ys rest fits ey,
          )
          refl)
      saved

-- A field is read back, whatever bytes follow it; padding, where none follow.
pub tx_extra_field-reads :
    (f : TxExtraField) (bs rest : Bytes)
    → tx_extra_field.Fits f
    → (is_padding f ≡ false) ⊎ (rest ≡ [])
    → tx_extra_field.save f ≡ some bs
    → tx_extra_field.load (bs ++ rest) ≡ some (f, rest)
unfolding tx_extra_field convert
tx_extra_field-reads f bs rest fits last saved =
    let same = field_of-alternative_of f in
    let read =
      alternative-reads (alternative_of f) bs rest (unfold variant in fits) (rw same last) saved in
    rw (read, same) refl

pub tx_extra_field-IsNonempty : IsNonempty tx_extra_field
unfolding tx_extra_field
tx_extra_field-IsNonempty = convert-IsNonempty _ _ _ (variant-IsNonempty _)
