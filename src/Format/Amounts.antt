-- ===== src/Format/Amounts.antt =====
-- `decompose_amount_into_digits` of src/cryptonote_basic/cryptonote_format_utils.h: the calls of its
-- two handlers, in their order.
use mathlib.Core.Logic.{dite, dif_pos}
use mathlib.Core.WellFounded.{Acc}
use native.Mathlib.Bridge.{le_prop}
use native.Mathlib.Decide.{dec_lt}
use native.Mathlib.Nat.{mod-eq_of_lt, div-add-mod, mul-le-mul_right}
use node_blocktemplate.Prelude.{
  ℕ, zero, suc, ◌+◌, ◌*◌, ◌/◌, ◌%◌, ◌^◌, ◌≤◌, ◌<◌, ◌≡◌, ◌≢◌, ◌⊎◌, inl, inr, refl, sym, ap, ◌∙◌,
  Bool, true, false, not, ◌&&◌, ◌||◌, List, [], ◌∷◌, ◌++◌, leb, ◌==◌, if◌then◌else◌, arith, lt_wf,
}

pub data Call : Type 0 where
  dust_handler : ℕ → Call
  chunk_handler : ℕ → Call

pub shrinks : (amount : ℕ) → 0 < amount → amount / 10 < amount
shrinks amount h = omega arith

-- What is called in the `else` branch.
abbrev pub calls_of : Bool → ℕ → ℕ → List Call
calls_of handle dust chunk =
    (if handle then Call.dust_handler dust ∷ [] else [])
    ++ (if not (chunk == 0) then Call.chunk_handler chunk ∷ [] else [])

-- `while (0 != amount)`, and the call behind it.
unfoldable pub decompose_loop : (amount : ℕ) → Acc ◌<◌ amount → ℕ → Bool → ℕ → ℕ → List Call
unfolding dec_lt
decompose_loop amount (Acc.intro _ smaller) threshold handled dust order =
    dite (dec_lt 0 amount)
      (λ h.
        let chunk = amount % 10 * order % 2 ^ 64 in
        let joined = (dust + chunk) % 2 ^ 64 in
        let fits = leb joined threshold in
        let handle = not fits && (not handled && not (dust == 0)) in
        (if fits then [] else calls_of handle dust chunk)
        ++ decompose_loop (amount / 10) (smaller (amount / 10) (shrinks amount h)) threshold
            (handled || handle) (if fits then joined else dust) (order * 10 % 2 ^ 64))
      (λ _. if not handled && not (dust == 0) then Call.dust_handler dust ∷ [] else [])

unfoldable pub decompose_amount_into_digits : ℕ → ℕ → List Call
unfolding decompose_loop lt_wf
decompose_amount_into_digits amount dust_threshold =
    if amount == 0 then [] else decompose_loop amount (lt_wf.apply amount) dust_threshold false 0 1

sample_calls :
    decompose_amount_into_digits 62387455827 1000000
    ≡ Call.dust_handler 455827
      ∷ Call.chunk_handler 7000000
      ∷ Call.chunk_handler 80000000
      ∷ Call.chunk_handler 300000000
      ∷ Call.chunk_handler 2000000000
      ∷ Call.chunk_handler 60000000000
      ∷ []
unfolding decompose_amount_into_digits
sample_calls = refl

-- What the handlers are given in all.
abbrev pub total : List Call → ℕ
total [] = 0
total (Call.dust_handler a ∷ calls) = a + total calls
total (Call.chunk_handler a ∷ calls) = a + total calls

total-append : (xs ys : List Call) → total (xs ++ ys) ≡ total xs + total ys
total-append [] ys = omega arith
total-append (Call.dust_handler a ∷ xs) ys = omega (arith, total-append xs ys)
total-append (Call.chunk_handler a ∷ xs) ys = omega (arith, total-append xs ys)

-- Dust that is not handled yet.
abbrev pending : Bool → ℕ → ℕ
pending handled dust = if handled then 0 else dust

-- What a round leaves: what it called, and the state behind it.
record Round (threshold : ℕ) (handled : Bool) (dust chunk : ℕ) : Type 0 where
  calls : List Call
  handled_next : Bool
  dust_next : ℕ
  split : total calls + pending handled_next dust_next ≡ chunk + pending handled dust
  bounded : dust_next ≤ dust + chunk
  kept : handled_next ≡ true → (handled ≡ true) ⊎ (threshold < dust_next + chunk)
  grows : dust ≤ dust_next

-- The round with `chunk` as its chunk, which follows the code.
round :
    (threshold dust chunk : ℕ) (handled : Bool)
    → dust + chunk < 2 ^ 64
    → (handled ≡ true → chunk ≢ 0 → threshold < dust + chunk)
    → Round threshold handled dust chunk
round threshold dust chunk handled h inv =
    let joined = (dust + chunk) % 2 ^ 64 in
    let fits = leb joined threshold in
    let handle = not fits && (not handled && not (dust == 0)) in
    record {
      calls = if fits then [] else calls_of handle dust chunk;
      handled_next = handled || handle;
      dust_next = if fits then joined else dust;
      split = ground (arith, inv);
      bounded = ground arith;
      kept = λ e. ground arith;
      grows = ground arith;
    }

decompose_loop_end :
    (w : Acc ◌<◌ 0) (threshold : ℕ) (handled : Bool) (dust order : ℕ)
    → total (decompose_loop 0 w threshold handled dust order) ≡ pending handled dust
unfolding decompose_loop
decompose_loop_end (Acc.intro _ smaller) threshold handled dust order = ground arith

decompose_loop-round :
    (amount : ℕ) (w : Acc ◌<◌ amount) (threshold : ℕ) (handled : Bool) (dust order chunk : ℕ)
    (h : dust + chunk < 2 ^ 64) (inv : handled ≡ true → chunk ≢ 0 → threshold < dust + chunk)
    → 0 < amount
    → chunk ≡ amount % 10 * order % 2 ^ 64
    → (w' : Acc ◌<◌ (amount / 10)) × (decompose_loop amount w threshold handled dust order
        ≡ (round threshold dust chunk handled h inv).calls
          ++ decompose_loop
              (amount / 10)
              w'
              threshold
              (round threshold dust chunk handled h inv).handled_next
              (round threshold dust chunk handled h inv).dust_next
              (order * 10 % 2 ^ 64))
unfolding decompose_loop round
decompose_loop-round amount (Acc.intro _ smaller) threshold handled dust order chunk h inv pos e = (
  smaller (amount / 10) (shrinks amount pos),
  rw e (rw (dif_pos (dec_lt 0 amount) le_prop pos) refl),
)

split_digit : (amount order : ℕ) → amount * order ≡ amount / 10 * (order * 10) + amount % 10 * order
split_digit amount order = omega (arith, ap (λ (t : ℕ). t * order) (div-add-mod amount 10))

one_order : (r order : ℕ) → r * order ≢ 0 → order ≤ r * order
one_order zero order h = absurd (h (omega arith))
one_order (suc r) order h = omega arith

nine_orders : (r order : ℕ) → r < 10 → r * order ≤ 9 * order
nine_orders r order h = mul-le-mul_right order (omega arith)

-- The order of the next digit, if there is one.
next_order :
    (q order : ℕ)
    → q * (order * 10) < 2 ^ 64
    → (0 < q → order * 10 % 2 ^ 64 ≡ order * 10) × (q * (order * 10 % 2 ^ 64) ≡ q * (order * 10))
next_order zero order h = (λ p. absurd (omega arith), omega arith)
next_order (suc q) order h =
    let exact : order * 10 % 2 ^ 64 ≡ order * 10 = mod-eq_of_lt (omega arith) in
    (λ _. exact, rw exact refl)

decompose_loop-total :
    (n amount : ℕ) (w : Acc ◌<◌ amount) (threshold : ℕ) (handled : Bool) (dust order : ℕ)
    → amount < n
    → dust + amount * order < 2 ^ 64
    → (handled ≡ true → 0 < amount → threshold < dust + order)
    → total (decompose_loop amount w threshold handled dust order)
      ≡ amount * order + pending handled dust
decompose_loop-total zero amount w threshold handled dust order hn small inv = absurd (omega arith)
decompose_loop-total (suc n) zero w threshold handled dust order hn small inv =
    decompose_loop_end w threshold handled dust order ∙ omega arith
decompose_loop-total (suc n) (suc m) w threshold handled dust order hn small inv =
    let amount = suc m in
    let q = amount / 10 in
    let chunk = amount % 10 * order in
    let digits : amount * order ≡ q * (order * 10) + chunk = split_digit amount order in
    let fits : dust + chunk < 2 ^ 64 = omega (arith, small, digits) in
    let inv' : handled ≡ true → chunk ≢ 0 → threshold < dust + chunk =
      λ e c. omega (arith, inv e (omega arith), one_order (amount % 10) order c) in
    let (exact, rest) = next_order q order (omega (arith, small, digits)) in
    let g = round threshold dust chunk handled fits inv' in
    let (w', e) =
      decompose_loop-round amount w threshold handled dust order chunk fits inv' (omega arith)
        (sym (mod-eq_of_lt (omega (arith, fits)))) in
    let nine = nine_orders (amount % 10) order (omega arith) in
    let inv_next : g.handled_next ≡ true → 0 < q → threshold < g.dust_next + order * 10 % 2 ^ 64 =
      λ h p. elim (g.kept h) [
        | inl before ↦ omega (arith, inv before (omega arith), exact p, g.grows)
        | inr now ↦ omega (arith, now, nine, exact p)
      ] in
    let more =
      decompose_loop-total n q w' threshold g.handled_next g.dust_next (order * 10 % 2 ^ 64)
        (omega arith) (omega (arith, g.bounded, rest, small, digits)) inv_next in
    ap total e ∙ total-append g.calls _ ∙ omega (arith, more, g.split, rest, digits)

-- The amounts that the two handlers are called with add up to the amount that is decomposed, for any
-- amount of 64 bits and any threshold for dust.
pub decompose-total :
    (amount dust_threshold : ℕ)
    → amount < 2 ^ 64
    → total (decompose_amount_into_digits amount dust_threshold) ≡ amount
unfolding decompose_amount_into_digits
decompose-total zero dust_threshold h = refl
decompose-total (suc m) dust_threshold h =
    let calls = decompose_loop (suc m) (lt_wf.apply (suc m)) dust_threshold false 0 1 in
    let nonzero : (suc m == 0) ≡ false = ground arith in
    ap (λ (b : Bool). total (if b then [] else calls)) nonzero
    ∙ decompose_loop-total (suc (suc m)) (suc m) (lt_wf.apply (suc m)) dust_threshold false 0 1
        (omega arith) (omega arith) (λ e. cc e)
    ∙ omega arith
