-- ===== src/Keccak/Slices.antt =====
-- Lists cut and written in places, for the blocks of keccak (src/crypto/keccak.c).
use node_blocktemplate.Prelude.{
  ℕ, zero, suc, ◌+◌, ◌≤◌, ◌≡◌, refl, sym, ap, ◌∙◌, [], ◌∷◌, ◌++◌, Bytes, length, take, drop,
  replicate, arith,
}
use node_blocktemplate.Keccak.{at, put}

drop-nil : (n : ℕ) → drop {A = ℕ} n [] ≡ []
drop-nil zero = refl
drop-nil (suc n) = refl

pub drop-drop : (m n : ℕ) (xs : Bytes) → drop n (drop m xs) ≡ drop (m + n) xs
drop-drop zero n xs = ap (λ (t : ℕ). drop t xs) (omega arith)
drop-drop (suc m) n [] = drop-nil n ∙ sym (drop-nil (suc m + n))
drop-drop (suc m) n (x ∷ xs) =
    let next : suc (m + n) ≡ suc m + n = omega arith in
    drop-drop m n xs ∙ ap (λ (t : ℕ). drop t (x ∷ xs)) next

pub drop-append_le : (m : ℕ) (xs ys : Bytes) → m ≤ length xs → drop m (xs ++ ys) ≡ drop m xs ++ ys
drop-append_le zero xs ys h = refl
drop-append_le (suc m) [] ys h = absurd (omega arith)
drop-append_le (suc m) (x ∷ xs) ys h = drop-append_le m xs ys (omega arith)

pub take-append_le : (m : ℕ) (xs ys : Bytes) → m ≤ length xs → take m (xs ++ ys) ≡ take m xs
take-append_le zero xs ys h = refl
take-append_le (suc m) [] ys h = absurd (omega arith)
take-append_le (suc m) (x ∷ xs) ys h =
    ap (λ (t : Bytes). x ∷ t) (take-append_le m xs ys (omega arith))

pub take-take : (m n : ℕ) (xs : Bytes) → m ≤ n → take m (take n xs) ≡ take m xs
take-take zero n xs h = refl
take-take (suc m) zero xs h = absurd (omega arith)
take-take (suc m) (suc n) [] h = refl
take-take (suc m) (suc n) (x ∷ xs) h = ap (λ (t : Bytes). x ∷ t) (take-take m n xs (omega arith))

pub at-append : (xs ys : Bytes) (i : ℕ) → at (xs ++ ys) (length xs + i) ≡ at ys i
at-append [] ys i = ap (at ys) (omega arith)
at-append (x ∷ xs) ys i =
    let next : suc (length xs) + i ≡ suc (length xs + i) = omega arith in
    ap (at (x ∷ (xs ++ ys))) next ∙ at-append xs ys i

pub put-append : (xs ys : Bytes) (i v : ℕ) → put (length xs + i) v (xs ++ ys) ≡ xs ++ put i v ys
unfolding put
put-append [] ys i v = ap (λ (t : ℕ). put t v ys) (omega arith)
put-append (x ∷ xs) ys i v =
    let next : suc (length xs) + i ≡ suc (length xs + i) = omega arith in
    ap (λ (t : ℕ). put t v (x ∷ (xs ++ ys))) next ∙ ap (λ (t : Bytes). x ∷ t) (put-append xs ys i v)

pub at-zeros_last : (k : ℕ) → at (replicate (suc k) 0) k ≡ 0
at-zeros_last zero = refl
at-zeros_last (suc k) = at-zeros_last k

pub put-zeros : (k v : ℕ) → put k v (replicate (suc k) 0) ≡ replicate k 0 ++ v ∷ []
unfolding put
put-zeros zero v = refl
put-zeros (suc k) v = ap (λ (t : Bytes). 0 ∷ t) (put-zeros k v)
