-- ===== src/Basic/Block/Blanked.antt =====
-- The blocks of Zephyr before version 3 (src/cryptonote_basic/cryptonote_basic.h), which are not
-- written as they were read.
use mathlib.Core.Path.{refl}
use node_blocktemplate.Prelude.{◌<◌}
use node_blocktemplate.Archive.Combine.Blanks.{BlanksIf, chain-BlanksIf_before, convert-BlanksIf}
use node_blocktemplate.Config.{blob_type_zephyr}
use node_blocktemplate.Rct.Prunable.{MaxAmounts}
use node_blocktemplate.Basic.Header.Blanked.{block_header-BlanksIf}
use node_blocktemplate.Basic.Block.{block}
use node_blocktemplate.Basic.Block.Laws.{block_rest}

pub block-BlanksIf :
    (n : MaxAmounts) → BlanksIf 24 (λ b. b.header.major_version < 3) (block n blob_type_zephyr)
unfolding block
block-BlanksIf n =
    convert-BlanksIf 24 _ _ _ _ (λ a. refl)
      (chain-BlanksIf_before 24 _ _ (λ h. h.major_version < 3) block_header-BlanksIf
        (block_rest n blob_type_zephyr))
