-- ===== src/Tests/Amounts.antt =====
-- Amounts and offsets on concrete inputs.
use node_blocktemplate.Prelude.{ℕ, ◌^◌, ◌<◌, ◌≡◌, refl, List, [], ◌∷◌, arith}
use node_blocktemplate.Format.Amounts.{Call, total, decompose_amount_into_digits, decompose-total}
use node_blocktemplate.Format.Offsets.{
  relative_output_offsets_to_absolute, absolute_output_offsets_to_relative, sort, IsSorted, sum,
  offsets-round_trip,
}

decompose-total_example : total (decompose_amount_into_digits 62387455827 1000000) ≡ 62387455827
decompose-total_example = decompose-total 62387455827 1000000 (omega arith)

-- The call of the comment on the function, and one whose dust is all that there is.
only_dust : decompose_amount_into_digits 105 1000 ≡ Call.dust_handler 105 ∷ []
unfolding decompose_amount_into_digits
only_dust = refl

abbrev some_offsets : List ℕ
some_offsets = 7 ∷ 3 ∷ 3 ∷ 20 ∷ []

sorted_differences : absolute_output_offsets_to_relative some_offsets ≡ 3 ∷ 0 ∷ 4 ∷ 13 ∷ []
unfolding absolute_output_offsets_to_relative
sorted_differences = refl

offsets-round_trip_example :
    IsSorted
      (relative_output_offsets_to_absolute (absolute_output_offsets_to_relative some_offsets))
    × (relative_output_offsets_to_absolute (absolute_output_offsets_to_relative some_offsets)
        ≡ sort some_offsets)
    × (IsSorted some_offsets
        → relative_output_offsets_to_absolute (absolute_output_offsets_to_relative some_offsets)
          ≡ some_offsets)
    × (sum some_offsets < 2 ^ 64
        → absolute_output_offsets_to_relative (relative_output_offsets_to_absolute some_offsets)
          ≡ some_offsets)
offsets-round_trip_example = offsets-round_trip some_offsets (omega arith)
