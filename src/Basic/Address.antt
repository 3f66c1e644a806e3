-- ===== src/Basic/Address.antt =====
-- `account_public_address` and `integrated_address` (src/cryptonote_basic/cryptonote_basic.h).
-- `m_is_carrot` is not on the wire, and nothing on the path of the addon reads it.
use node_blocktemplate.Prelude.{refl, Bytes}
use node_blocktemplate.Archive.Codec.{Codec, IsLossless}
use node_blocktemplate.Archive.Fixed.{blob}
use node_blocktemplate.Archive.Fixed.Laws.{blob-IsLossless}
use node_blocktemplate.Archive.Combine.{convert, ◌▹◌}
use node_blocktemplate.Archive.Combine.Laws.{convert-IsLossless, ◌⊳◌}

pub record AccountPublicAddress : Type 0 where
  pub m_spend_public_key : Bytes
  pub m_view_public_key : Bytes

unfoldable pub account_public_address : Codec AccountPublicAddress
account_public_address =
    convert (λ p. record { m_spend_public_key = p.0; m_view_public_key = p.1 })
      (λ a. (a.m_spend_public_key, a.m_view_public_key)) (blob 32 ▹ blob 32)

pub record IntegratedAddress : Type 0 where
  pub adr : AccountPublicAddress
  pub payment_id : Bytes

unfoldable pub integrated_address : Codec IntegratedAddress
integrated_address =
    convert (λ p. record { adr = p.0; payment_id = p.1 }) (λ a. (a.adr, a.payment_id))
      (account_public_address ▹ blob 8)

pub account_public_address-IsLossless : IsLossless account_public_address
unfolding account_public_address
account_public_address-IsLossless =
    convert-IsLossless _ _ _ (λ b. refl) (λ a. refl) (blob-IsLossless 32 ⊳ blob-IsLossless 32)

pub integrated_address-IsLossless : IsLossless integrated_address
unfolding integrated_address
integrated_address-IsLossless =
    convert-IsLossless _ _ _ (λ b. refl) (λ a. refl)
      (account_public_address-IsLossless ⊳ blob-IsLossless 8)
