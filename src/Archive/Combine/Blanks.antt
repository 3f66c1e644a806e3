-- ===== src/Archive/Combine/Blanks.antt =====
-- Codecs (src/serialization/serialization.h) that save zeros in place of some of the bytes they load.
use node_blocktemplate.Prelude.{
  ℕ, ◌≡◌, sym, ap, ◌∙◌, some, ◌++◌, append_assoc, >>=-eq-some, Bytes, AreBytes,
  AreBytes-append_right, length, replicate,
}
use mathlib.Core.Path.{subst}
use node_blocktemplate.Archive.Codec.{Codec, Always, IsLossless}
use node_blocktemplate.Archive.Combine.{chain, convert}
use node_blocktemplate.Archive.Combine.Laws.{chain-load, saved_chain}

-- `a` was taken from an input, and is saved as the bytes that were taken, but for `n` of them.
pub record Blanks {A : Type 0} (n : ℕ) (c : Codec A) (xs : Bytes) (a : A) (rest : Bytes)
    : Type 0 where
  pub front : Bytes
  pub old : Bytes
  pub back : Bytes
  pub size : length old ≡ n
  pub split : xs ≡ front ++ (old ++ (back ++ rest))
  pub saved : c.save a ≡ some (front ++ (replicate n 0 ++ back))

pub record BlanksIf {A : Type 0} (n : ℕ) (P : A → Type 0) (c : Codec A) : Type 0 where
  pub at :
      (xs : Bytes) (a : A) (rest : Bytes)
      → AreBytes xs
      → P a
      → c.load xs ≡ some (a, rest)
      → Blanks n c xs a rest

module _ {A B : Type 0} (n : ℕ) (c : Codec A) where
  pub chain-BlanksIf_after :
      (d : A → Codec B) (P : A → Type 0)
      → IsLossless c
      → ((a : A) → P a → BlanksIf n Always (d a))
      → BlanksIf n (λ p. P p.0) (chain c d)
  chain-BlanksIf_after d P hc hd = record {
    at = λ xs (a, b) rest hx pa q.
        let (after, ea, eb) = chain-load c d xs a b rest q in
        let ta = hc.rewrites.at xs a after hx tt ea in
        let tb =
          (hd a pa).at after b rest (AreBytes-append_right ta.bytes after (rw ta.split at hx)) tt
            eb in
        let joined = append_assoc ta.bytes tb.front in
        unfold chain in
        record {
          front = ta.bytes ++ tb.front;
          old = tb.old;
          back = tb.back;
          size = tb.size;
          split =
              ta.split
              ∙ ap (λ (t : Bytes). ta.bytes ++ t) tb.split
              ∙ sym (joined (tb.old ++ (tb.back ++ rest)));
          saved = rw (ta.saved, tb.saved) (ap some (sym (joined (replicate n 0 ++ tb.back))));
        };
  }

  pub chain-BlanksIf_before :
      (d : Codec B) (P : A → Type 0)
      → BlanksIf n P c
      → IsLossless d
      → BlanksIf n (λ p. P p.0) (chain c (λ _. d))
  chain-BlanksIf_before d P hc hd = record {
    at = λ xs (a, b) rest hx pa q.
        let (after, ea, eb) = chain-load c (λ _. d) xs a b rest q in
        let ta = hc.at xs a after hx pa ea in
        let bytes =
          AreBytes-append_right ta.back after (
            AreBytes-append_right ta.old _
              (AreBytes-append_right ta.front _ (rw ta.split at hx))) in
        let td = hd.rewrites.at after b rest bytes tt eb in
        let zeros = replicate n 0 in
        let regrouped : (ta.front ++ (zeros ++ ta.back)) ++ td.bytes
            ≡ ta.front ++ (zeros ++ (ta.back ++ td.bytes)) =
          append_assoc ta.front (zeros ++ ta.back) td.bytes
          ∙ ap (λ (t : Bytes). ta.front ++ t) (append_assoc zeros ta.back td.bytes) in
        record {
          front = ta.front;
          old = ta.old;
          back = ta.back ++ td.bytes;
          size = ta.size;
          split =
              ta.split
              ∙ ap (λ (t : Bytes). ta.front ++ (ta.old ++ t))
                  (ap (λ (t : Bytes). ta.back ++ t) td.split
                    ∙ sym (append_assoc ta.back td.bytes rest));
          saved =
              saved_chain c (λ _. d) (a, b) _ td.bytes ta.saved td.saved
              ∙ ap (λ (t : Bytes). some t) regrouped;
        };
  }

module _ {A B : Type 0} (n : ℕ) (to : A → B) (from : B → A) (c : Codec A) where
  pub convert-BlanksIf :
      (P : B → Type 0)
      → ((a : A) → from (to a) ≡ a)
      → BlanksIf n (λ a. P (to a)) c
      → BlanksIf n P (convert to from c)
  unfolding convert
  convert-BlanksIf P h hc = record {
    at = λ xs b rest hx pb q.
        let ((a, after), e, last) = >>=-eq-some (c.load xs) _ q in
        let eb : b ≡ to a = cc in
        let ea : from b ≡ a = ap from eb ∙ h a in
        let ta = hc.at xs a rest hx (subst P eb pb) (cc) in
        record {
          front = ta.front;
          old = ta.old;
          back = ta.back;
          size = ta.size;
          split = ta.split;
          saved = rw ea ta.saved;
        };
  }
