-- ===== src/Archive/Varint/Laws.antt =====
-- The varint codec loses nothing.
use mathlib.Core.Logic.{dif_pos, dif_neg}
use mathlib.Core.Path.{ap₂, subst}
use mathlib.Core.WellFounded.{Acc}
use native.Mathlib.Decide.{dec_le}
use native.Mathlib.Bridge.{le_prop}
use native.Mathlib.Nat.{mod-eq_of_lt, mul-le-mul_right, div-add-mod}
use node_blocktemplate.Prelude.{
  ℕ, zero, suc, ◌+◌, ◌-◌, ◌*◌, ◌/◌, ◌%◌, ◌^◌, ◌≤◌, ◌<◌, bit_and, bit_or, ◌≡◌, ◌≢◌, refl, sym, ap,
  ◌∙◌, ◌⊎◌, inl, inr, some_eq, some, [], ◌∷◌, ◌++◌, arith, Bytes, AreBytes, length, lt_wf,
}
use node_blocktemplate.Prelude.Bits.{
  bit_and-low_seven, bit_and-top_bit, bit_or-top_bit, bit_or-shifted, pow-add_seven, pow-add,
  pow_pos, pow_mono,
}
use node_blocktemplate.Archive.Codec.{IsLossless, IsNonempty}
use node_blocktemplate.Archive.Varint.{
  shift_shrinks, write_varint_loop, write_varint, or_group, load_uvarint_loop, load_uvarint, varint,
}

write_varint_last : (i : ℕ) (w : Acc ◌<◌ i) → i < 128 → write_varint_loop i w ≡ i ∷ []
unfolding write_varint_loop
write_varint_last i (Acc.intro _ smaller) h = elim (dec_le 0x80 i) [
  | yes m ↦ absurd (omega arith)
  | no n ↦ rw (dif_neg (dec_le 0x80 i) n) (ap (λ (t : ℕ). t ∷ []) (omega arith))
]

write_varint_more :
    (i : ℕ) (w : Acc ◌<◌ i)
    → 128 ≤ i
    → (w' : Acc ◌<◌ (i / 128)) × (write_varint_loop i w
        ≡ (i % 128 + 128) ∷ write_varint_loop (i / 128) w')
unfolding write_varint_loop
write_varint_more i (Acc.intro _ smaller) h =
    (smaller (i / 128) (shift_shrinks i h), rw (dif_pos (dec_le 0x80 i) le_prop h, group))
  where
    group : bit_or (bit_and (i % 256) 0x7f) 0x80 ≡ i % 128 + 128
    group =
        rw (bit_and-low_seven (i % 256) (omega arith))
          (omega (arith, bit_or-top_bit (i % 256 % 128) (omega arith)))

shifted_lt : (s l c : ℕ) → c < 2 ^ l → c * 2 ^ s < 2 ^ (s + l)
shifted_lt s l c h = rw pow-add (grind (arith, pow_pos s))

-- A group of seven bits above what was read. `left` counts the bits from `shift` on.
or_group_lem :
    (bits left shift ret byte : ℕ)
    → bits ≡ shift + left
    → ret < 2 ^ shift
    → byte < 256
    → byte % 128 < 2 ^ left
    → or_group bits shift ret byte ≡ ret + byte % 128 * 2 ^ shift
or_group_lem bits left shift ret byte e h hb hl =
    rw (e, bit_and-low_seven byte hb, mod-eq_of_lt (shifted_lt shift left (byte % 128) hl))
      (bit_or-shifted shift ret (byte % 128) h)

left_of : (bits s l : ℕ) → bits ≡ s + l → 2 ^ (bits - s) ≡ 2 ^ l
left_of bits s l e = ap (λ (t : ℕ). 2 ^ t) (omega arith)

-- One round of the loop, at the last byte and at one with the top bit set.
round_last :
    (bits left shift ret byte : ℕ) (rest : Bytes)
    → bits ≡ shift + left
    → ret < 2 ^ shift
    → byte < 128
    → byte < 2 ^ left
    → (shift ≢ 0 → byte ≢ 0)
    → load_uvarint_loop bits shift ret (byte ∷ rest) ≡ some (ret + byte * 2 ^ shift, rest)
unfolding load_uvarint_loop
round_last bits left shift ret byte rest e h hb hl hz =
    ground
      (arith, or_group_lem bits left shift ret byte, bit_and-top_bit byte, left_of bits shift left)

round_more :
    (bits left shift ret byte : ℕ) (rest : Bytes)
    → bits ≡ shift + (left + 7)
    → 1 ≤ left
    → ret < 2 ^ shift
    → 128 ≤ byte
    → byte < 256
    → load_uvarint_loop bits shift ret (byte ∷ rest)
      ≡ load_uvarint_loop bits (shift + 7) (ret + byte % 128 * 2 ^ shift) rest
unfolding load_uvarint_loop
round_more bits left shift ret byte rest e hl h lo hi =
    let group : or_group bits shift ret byte ≡ ret + byte % 128 * 2 ^ shift =
      or_group_lem bits (left + 7) shift ret byte e h hi
        (omega (arith, pow-add_seven left, pow_pos left)) in
    rw (← group) (ground (arith, bit_and-top_bit byte))

-- A number of more than one group needs more than seven bits.
wide :
    (left i : ℕ) → 128 ≤ i → i < 2 ^ left → (l : ℕ) × (left ≡ l + 7) × (1 ≤ l) × (i / 128 < 2 ^ l)
wide left i lo hi = elim (dec_le 8 left) [
  | yes h ↦
      let e : left ≡ left - 7 + 7 = omega arith in
      (left - 7, e, omega arith, omega (arith, ap (λ (t : ℕ). 2 ^ t) e, pow-add_seven (left - 7)))
  | no h ↦ absurd (omega (arith, pow_mono left 7 (omega arith)))
]

next_ret : (shift ret byte : ℕ) → ret < 2 ^ shift → ret + byte % 128 * 2 ^ shift < 2 ^ (shift + 7)
next_ret shift ret byte h =
    omega (arith, pow-add_seven shift, mul-le-mul_right (2 ^ shift) (low byte))
  where
    low : (byte : ℕ) → byte % 128 ≤ 127
    low byte = omega arith

-- The groups of `i` from bit `shift` on.
split_group :
    (i shift ret : ℕ) → ret + i % 128 * 2 ^ shift + i / 128 * 2 ^ (shift + 7) ≡ ret + i * 2 ^ shift
split_group i shift ret = omega (
  arith,
  ap (λ (t : ℕ). t * 2 ^ shift) (div-add-mod i 128),
  ap (λ (t : ℕ). i / 128 * t) (pow-add_seven shift),
)

-- `n` bounds the rounds.
load-write :
    (n i : ℕ) (w : Acc ◌<◌ i) (bits left shift ret : ℕ) (rest : Bytes)
    → i < n
    → bits ≡ shift + left
    → ret < 2 ^ shift
    → i < 2 ^ left
    → (shift ≢ 0 → i ≢ 0)
    → load_uvarint_loop bits shift ret (write_varint_loop i w ++ rest)
      ≡ some (ret + i * 2 ^ shift, rest)
load-write zero i w bits left shift ret rest hn e h hi hz = absurd (omega arith)
load-write (suc n) i w bits left shift ret rest hn e h hi hz = elim (dec_le 128 i) [
  | yes more ↦
      let (l, el, lp, hl) = wide left i more hi in
      let (w', ew) = write_varint_more i w more in
      rw ew (
        round_more bits l shift ret (i % 128 + 128) _ (omega arith) lp h (omega arith) (omega arith)
        ∙ ap
            (λ (t : ℕ).
              load_uvarint_loop bits (shift + 7) (ret + t * 2 ^ shift)
                (write_varint_loop (i / 128) w' ++ rest))
            (omega arith)
        ∙ load-write n (i / 128) w' bits l (shift + 7) (ret + i % 128 * 2 ^ shift) rest
            (omega arith) (omega arith) (next_ret shift ret i h) hl (λ _. omega arith)
        ∙ ap (λ (t : ℕ). some (t, rest)) (split_group i shift ret))
  | no last ↦
      rw (write_varint_last i w (omega arith))
        (round_last bits left shift ret i rest e h (omega arith) hi hz)
]

-- What the two tests at the head of a round let through.
guards :
    (bits left shift ret byte : ℕ) (xs : Bytes) {r : ℕ × Bytes}
    → bits ≡ shift + left
    → load_uvarint_loop bits shift ret (byte ∷ xs) ≡ some r
    → ((8 ≤ left) ⊎ (byte < 2 ^ left)) × (shift ≢ 0 → byte ≢ 0)
unfolding load_uvarint_loop
guards bits left shift ret byte xs e h = (ground (arith, left_of bits shift left), ground arith)

-- What was read from `xs` is the number whose groups stand there.
record Groups (xs : Bytes) (left shift ret v : ℕ) (rest : Bytes) : Type 0 where
  index : ℕ
  total : v ≡ ret + index * 2 ^ shift
  small : index < 2 ^ left
  canonical : shift ≢ 0 → index ≢ 0
  written : (w : Acc ◌<◌ index) → xs ≡ write_varint_loop index w ++ rest

-- One group below the rest of the number.
Groups-more :
    (xs : Bytes) (left l shift ret byte v : ℕ) (rest : Bytes)
    → left ≡ l + 7
    → 128 ≤ byte
    → byte < 256
    → Groups xs l (shift + 7) (ret + byte % 128 * 2 ^ shift) v rest
    → Groups (byte ∷ xs) left shift ret v rest
Groups-more xs left l shift ret byte v rest el lo hi g =
    let i : ℕ = byte % 128 + 128 * g.index in
    let pos : g.index ≢ 0 = g.canonical (λ z. omega arith) in
    let tail : i / 128 ≡ g.index = omega arith in
    record {
      index = i;
      total = g.total ∙ split;
      small = omega (arith, ap (λ (t : ℕ). 2 ^ t) el, pow-add_seven l, g.small);
      canonical = λ _. omega arith;
      written = λ w.
          let (w', ew) = write_varint_more i w (omega arith) in
          rw ew
            (ap₂ (λ (t : ℕ) (ts : Bytes). t ∷ ts) (omega arith) (tail_written (i / 128) tail w'));
    }
  where
    split :
        ret + byte % 128 * 2 ^ shift + g.index * 2 ^ (shift + 7)
        ≡ ret + (byte % 128 + 128 * g.index) * 2 ^ shift
    split = omega (arith, ap (λ (t : ℕ). g.index * t) (pow-add_seven shift))

    tail_written : (j : ℕ) → j ≡ g.index → (w : Acc ◌<◌ j) → xs ≡ write_varint_loop j w ++ rest
    tail_written j e =
        subst (λ (k : ℕ). (w : Acc ◌<◌ k) → xs ≡ write_varint_loop k w ++ rest) (sym e) g.written

load_uvarint_loop-Groups :
    (xs : Bytes) (bits left shift ret v : ℕ) (rest : Bytes)
    → AreBytes xs
    → bits ≡ shift + left
    → ret < 2 ^ shift
    → load_uvarint_loop bits shift ret xs ≡ some (v, rest)
    → Groups xs left shift ret v rest
load_uvarint_loop-Groups [] bits left shift ret v rest hx e h q = unfold load_uvarint_loop in cc
load_uvarint_loop-Groups (byte ∷ xs) bits left shift ret v rest (hb, hx) e h q =
    let (g, hz) = guards bits left shift ret byte xs e q in
    elim (dec_le 128 byte) [
      | no last ↦
          let small : byte < 2 ^ left = elim g [
            | inl wide ↦ omega (arith, pow_mono 7 left (omega arith))
            | inr lt ↦ lt
          ] in
          let step = round_last bits left shift ret byte xs e h (omega arith) small hz in
          record {
            index = byte;
            total = cc (q, step);
            small = small;
            canonical = hz;
            written = λ w. rw (write_varint_last byte w (omega arith)) (cc (q, step));
          }
      | yes more ↦
          let room : 8 ≤ left = elim g [
            | inl wide ↦ wide
            | inr lt ↦ elim (dec_le 8 left) [
              | yes p ↦ p
              | no p ↦ absurd (omega (arith, pow_mono left 7 (omega arith)))
            ]
          ] in
          let step =
            round_more bits (left - 7) shift ret byte xs (omega arith) (omega arith) h more hb in
          Groups-more xs left (left - 7) shift ret byte v rest (omega arith) more hb (
            load_uvarint_loop-Groups xs bits (left - 7) (shift + 7) (ret + byte % 128 * 2 ^ shift) v
              rest hx (omega arith) (next_ret shift ret byte h) (cc (q, step)))
    ]

pub load_uvarint-write_varint :
    (bits i : ℕ) (rest : Bytes)
    → i < 2 ^ bits
    → load_uvarint bits (write_varint i ++ rest) ≡ some (i, rest)
unfolding load_uvarint write_varint
load_uvarint-write_varint bits i rest h =
    load-write (suc i) i (lt_wf.apply i) bits bits 0 0 rest (omega arith) (omega arith)
      (omega arith) h (λ z. absurd (z refl))
    ∙ ap (λ (t : ℕ). some (t, rest)) (omega arith)

pub load_uvarint-inv :
    (bits : ℕ) (xs : Bytes) (v : ℕ) (rest : Bytes)
    → AreBytes xs
    → load_uvarint bits xs ≡ some (v, rest)
    → (v < 2 ^ bits) × (xs ≡ write_varint v ++ rest)
unfolding load_uvarint write_varint
load_uvarint-inv bits xs v rest hx q =
    let g = load_uvarint_loop-Groups xs bits bits 0 0 v rest hx (omega arith) (omega arith) q in
    let e : g.index ≡ v = omega (arith, g.total) in
    (
      omega (arith, g.small),
      subst (λ (k : ℕ). xs ≡ write_varint_loop k (lt_wf.apply k) ++ rest) e
          (g.written (lt_wf.apply g.index)),
    )

-- Varints of a type of any number of bits: a value of the type is loaded back from what was
-- written, whatever bytes follow; and a value that is loaded from bytes is in range and is written
-- as the very bytes that were taken.
pub varint-IsLossless : (bits : ℕ) → IsLossless (varint bits)
unfolding varint
varint-IsLossless bits = record {
  reads_back = record {
    at = λ a bs rest fits saved.
        subst (λ (t : Bytes). load_uvarint bits (t ++ rest) ≡ some (a, rest)) (some_eq saved)
          (load_uvarint-write_varint bits a rest fits);
  };
  rewrites = record {
    at = λ xs a rest hx _ q.
        let (fits, split) = load_uvarint-inv bits xs a rest hx q in
        record { bytes = write_varint a; fits = fits; saved = refl; split = split };
  };
}

write_varint_loop-ne-nil : (i : ℕ) (w : Acc ◌<◌ i) → 1 ≤ length (write_varint_loop i w)
unfolding write_varint_loop
write_varint_loop-ne-nil i (Acc.intro _ smaller) = elim (dec_le 0x80 i) [
  | yes m ↦ rw (dif_pos (dec_le 0x80 i) le_prop m) (omega arith)
  | no m ↦ rw (dif_neg (dec_le 0x80 i) m) (omega arith)
]

pub varint-IsNonempty : (bits : ℕ) → IsNonempty (varint bits)
unfolding varint write_varint
varint-IsNonempty bits = record {
  at = λ a bs fits saved.
      omega (arith, ap length (some_eq saved), write_varint_loop-ne-nil a (lt_wf.apply a));
}

write_varint_loop-AreBytes : (n i : ℕ) (w : Acc ◌<◌ i) → i < n → AreBytes (write_varint_loop i w)
write_varint_loop-AreBytes zero i w h = absurd (omega arith)
write_varint_loop-AreBytes (suc n) i w h = elim (dec_le 128 i) [
  | yes more ↦
      let (w', e) = write_varint_more i w more in
      rw e (omega arith, write_varint_loop-AreBytes n (i / 128) w' (omega arith))
  | no last ↦ rw (write_varint_last i w (omega arith)) (omega arith, tt)
]

pub write_varint-AreBytes : (i : ℕ) → AreBytes (write_varint i)
unfolding write_varint
write_varint-AreBytes i = write_varint_loop-AreBytes (suc i) i (lt_wf.apply i) (omega arith)

pub length-write_varint : (i : ℕ) → 1 ≤ length (write_varint i)
unfolding write_varint
length-write_varint i = write_varint_loop-ne-nil i (lt_wf.apply i)

pub write_varint-small : (i : ℕ) → i < 128 → write_varint i ≡ i ∷ []
unfolding write_varint
write_varint-small i = write_varint_last i (lt_wf.apply i)

pub write_varint-large :
    (i : ℕ)
    → 128 ≤ i
    → (tail : Bytes) × (write_varint i ≡ (i % 128 + 128) ∷ tail) × (1 ≤ length tail)
unfolding write_varint
write_varint-large i h =
    let (w', e) = write_varint_more i (lt_wf.apply i) h in
    (write_varint_loop (i / 128) w', e, write_varint_loop-ne-nil (i / 128) w')
