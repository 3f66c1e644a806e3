-- ===== src/TxExtra/Parse/Edits.antt =====
-- What the edits of src/cryptonote_basic/cryptonote_format_utils.cpp add to the extra part of a
-- transaction.
use mathlib.Core.Option.{get_or}
use node_blocktemplate.Prelude.{
  ◌≡◌, refl, sym, ap, ◌∙◌, ◌⊎◌, inl, inr, true, false, Option-cases, Option, some, some_eq, List,
  [], ◌∷◌, ◌++◌, append_assoc, append-nil, >>=-eq-some, Bytes, AreBytes, AreBytes-append,
  AreBytes-append_right, All, length, arith,
}
use node_blocktemplate.Archive.Fixed.{uint, blob, put_uint}
use node_blocktemplate.Archive.Combine.{convert}
use node_blocktemplate.Archive.Variant.{variant, alternative, no_alternative}
use node_blocktemplate.TxExtra.{tx_extra_pub_key}
use node_blocktemplate.Archive.Many.{save_each}
use node_blocktemplate.TxExtra.Field.{
  TxExtraField, tx_extra_field, others, is_padding, tx_extra_field-reads,
}
use node_blocktemplate.TxExtra.Parse.{
  Parsed, parse_tx_extra, find_tx_extra_field_by_type, as_pub_key, null_pkey,
  get_tx_pub_key_from_extra, add_tx_pub_key_to_extra,
}
use node_blocktemplate.TxExtra.Parse.Laws.{
  parse_tx_extra-field, parse_tx_extra_nil, parse_tx_extra-Written, Written,
}

-- No field is padding, behind which nothing is parsed.
abbrev pub Unpadded : List TxExtraField → Type 0
Unpadded = All (λ f. is_padding f ≡ false)

abbrev pub followed_by : List TxExtraField → Parsed → Parsed
followed_by fs p = record { fields = fs ++ p.fields; parsed = p.parsed }

first_saved :
    (f : TxExtraField) (fs : List TxExtraField) (xs : Bytes)
    → save_each tx_extra_field (f ∷ fs) ≡ some xs
    → (ys : Bytes) × (tx_extra_field.save f ≡ some ys)
      × ((zs : Bytes) × (save_each tx_extra_field fs ≡ some zs) × (ys ++ zs ≡ xs))
unfolding save_each
first_saved f fs xs saved =
    let (ys, ey, more) = >>=-eq-some (tx_extra_field.save f) _ saved in
    let (zs, ez, last) = >>=-eq-some (save_each tx_extra_field fs) _ more in
    (ys, ey, (zs, ez, some_eq last))

-- Fields that are saved in front of other bytes are parsed in front of them.
pub parse_tx_extra-append :
    (fs : List TxExtraField) (xs more : Bytes)
    → Written fs xs
    → Unpadded fs
    → AreBytes (xs ++ more)
    → parse_tx_extra (xs ++ more) ≡ followed_by fs (parse_tx_extra more)
parse_tx_extra-append [] xs more w u hx =
    let nothing : [] ≡ xs = unfold save_each in some_eq w.saved in rw (← nothing) refl
parse_tx_extra-append (f ∷ fs) xs more w (plain, u) hx =
    let (ys, ey, (zs, ez, joined)) = first_saved f fs xs w.saved in
    let split : xs ++ more ≡ ys ++ (zs ++ more) =
      ap (λ (t : Bytes). t ++ more) (sym joined) ∙ append_assoc ys zs more in
    let read = tx_extra_field-reads f ys (zs ++ more) w.fits.0 (inl plain) ey in
    let hs : AreBytes (ys ++ (zs ++ more)) = rw split at hx in
    rw split (
      parse_tx_extra-field (ys ++ (zs ++ more)) f (zs ++ more) hs read
      ∙ ap (λ (p : Parsed). record { fields = f ∷ p.fields; parsed = p.parsed })
          (parse_tx_extra-append fs zs more (record { fits = w.fits.1; saved = ez }) u
            (AreBytes-append_right ys (zs ++ more) hs)))

-- Only the last field may be padding.
abbrev pub PaddingLast : List TxExtraField → Type 0
PaddingLast [] = Unit {0}
PaddingLast (f ∷ []) = Unit {0}
PaddingLast (f ∷ g ∷ fs) = (is_padding f ≡ false) × PaddingLast (g ∷ fs)

padding_or_more :
    (f : TxExtraField) (fs : List TxExtraField) (zs : Bytes)
    → PaddingLast (f ∷ fs)
    → save_each tx_extra_field fs ≡ some zs
    → ((is_padding f ≡ false) ⊎ (zs ≡ [])) × PaddingLast fs
padding_or_more f [] zs h e = (inr (unfold save_each in sym (some_eq e)), tt)
padding_or_more f (g ∷ fs) zs (plain, h) e = (inl plain, h)

-- Fields within the ranges of their types, of which only the last may be padding, are parsed back
-- from the bytes that they are saved as.
pub parse_tx_extra-fields :
    (fs : List TxExtraField) (xs : Bytes)
    → PaddingLast fs
    → Written fs xs
    → AreBytes xs
    → parse_tx_extra xs ≡ record { fields = fs; parsed = true }
parse_tx_extra-fields [] xs h w hx =
    let nothing : [] ≡ xs = unfold save_each in some_eq w.saved in rw (← nothing) parse_tx_extra_nil
parse_tx_extra-fields (f ∷ fs) xs h w hx =
    let (ys, ey, (zs, ez, joined)) = first_saved f fs xs w.saved in
    let (last, h') = padding_or_more f fs zs h ez in
    let hs : AreBytes (ys ++ zs) = rw (← joined) at hx in
    rw (← joined) (
      parse_tx_extra-field (ys ++ zs) f zs hs (tx_extra_field-reads f ys zs w.fits.0 last ey)
      ∙ ap (λ (p : Parsed). record { fields = f ∷ p.fields; parsed = p.parsed })
          (parse_tx_extra-fields fs zs h' (record { fits = w.fits.1; saved = ez })
            (AreBytes-append_right ys zs hs)))

-- A single field at the end.
pub parse_tx_extra-one :
    (f : TxExtraField) (xs : Bytes)
    → tx_extra_field.Fits f
    → tx_extra_field.save f ≡ some xs
    → AreBytes xs
    → parse_tx_extra xs ≡ record { fields = f ∷ []; parsed = true }
parse_tx_extra-one f xs fits saved hx =
    parse_tx_extra-fields (f ∷ []) xs tt
      (record { fits = (fits, tt); saved = unfold save_each in rw (saved, append-nil) refl }) hx

find-append :
    (as_type : TxExtraField → Option Bytes) (fs : List TxExtraField) (f : TxExtraField)
    (x y : Bytes)
    → as_type f ≡ some x
    → get_or (find_tx_extra_field_by_type as_type (fs ++ (f ∷ []))) y
      ≡ get_or (find_tx_extra_field_by_type as_type fs) x
unfolding find_tx_extra_field_by_type
find-append as_type [] f x y e = rw e refl
find-append as_type (g ∷ fs) f x y e = elim (Option-cases (as_type g)) [
  | inl other ↦ ground (arith, other, find-append as_type fs f x y e)
  | inr (z, this) ↦ ground (arith, this)
]

pub_key-saved : (key : Bytes) → tx_extra_field.save (TxExtraField.pub_key key) ≡ some (0x01 ∷ key)
unfolding tx_extra_field others alternative no_alternative variant convert uint put_uint
    tx_extra_pub_key blob
pub_key-saved key = refl

pub_key_Fits :
    (key : Bytes) → length key ≡ 32 → AreBytes key → tx_extra_field.Fits (TxExtraField.pub_key key)
unfolding tx_extra_field others alternative no_alternative variant convert tx_extra_pub_key blob
pub_key_Fits key size hk = (size, hk)

-- A key of 32 bytes that is added to an extra that parses, and has no padding, is parsed behind the
-- fields that were there, and is found as the key of the transaction if none of these is one.
pub get_tx_pub_key-add :
    (extra key : Bytes)
    → AreBytes extra
    → (parse_tx_extra extra).parsed ≡ true
    → Unpadded (parse_tx_extra extra).fields
    → length key ≡ 32
    → AreBytes key
    → (parse_tx_extra (add_tx_pub_key_to_extra extra key) ≡ record {
      fields = (parse_tx_extra extra).fields ++ (TxExtraField.pub_key key ∷ []);
      parsed = true;
    })
      × (get_tx_pub_key_from_extra (add_tx_pub_key_to_extra extra key)
          ≡ get_or (find_tx_extra_field_by_type as_pub_key (parse_tx_extra extra).fields) key)
unfolding add_tx_pub_key_to_extra get_tx_pub_key_from_extra
get_tx_pub_key-add extra key hx okay plain size hk =
    let fs = (parse_tx_extra extra).fields in
    let bytes : AreBytes (0x01 ∷ key) = (omega arith, hk) in
    let parsed =
      parse_tx_extra-append fs extra (0x01 ∷ key) (parse_tx_extra-Written extra hx okay) plain
        (AreBytes-append extra (0x01 ∷ key) hx bytes)
      ∙ ap (followed_by fs) (
          parse_tx_extra-one (TxExtraField.pub_key key) (0x01 ∷ key) (pub_key_Fits key size hk)
            (pub_key-saved key) bytes) in
    (
      parsed,
      ap (λ (p : Parsed). get_or (find_tx_extra_field_by_type as_pub_key p.fields) null_pkey) parsed
          ∙ find-append as_pub_key fs (TxExtraField.pub_key key) key null_pkey refl,
    )
