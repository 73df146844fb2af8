-- ===== src/Base/Lists.antt =====
-- Lists measured by the native numbers.
use Prim.Native.Nat.{ℕ, zero, suc, ◌+◌}
use mathlib.Core.Path.{◌≡◌, refl, ap}
use mathlib.Core.Option.{Option, none, some}
use mathlib.Core.List.{List, [], ◌∷◌, ◌++◌}
use native.Mathlib.Omega.{arith}

abbrev pub length {ℓ} : {A : Type ℓ} → List A → ℕ
length [] = 0
length (x ∷ xs) = 1 + length xs

pub length-++ {ℓ} : {A : Type ℓ} → (xs ys : List A) → length (xs ++ ys) ≡ length xs + length ys
length-++ [] ys = omega arith
length-++ (x ∷ xs) ys = let e = length-++ xs ys in omega arith

-- The element at a place of a list, and the others.
pub pick {ℓ} : {A : Type ℓ} → ℕ → List A → Option (A × List A)
pick n [] = none
pick zero (x ∷ xs) = some (x, xs)
pick (suc n) (x ∷ xs) = elim (pick n xs) [ none ↦ none | some r ↦ some (r.0, x ∷ r.1) ]

pub sum_by {ℓ} : {A : Type ℓ} → (A → ℕ) → List A → ℕ
sum_by f [] = 0
sum_by f (x ∷ xs) = f x + sum_by f xs

pub sum_by-nil {ℓ} : {A : Type ℓ} → (f : A → ℕ) → sum_by f [] ≡ 0
unfolding sum_by
sum_by-nil f = refl

pub sum_by-cons {ℓ} :
    {A : Type ℓ} → (f : A → ℕ) (x : A) (xs : List A) → sum_by f (x ∷ xs) ≡ f x + sum_by f xs
unfolding sum_by
sum_by-cons f x xs = refl

pub sum_by-snoc {ℓ} :
    {A : Type ℓ} → (f : A → ℕ) (xs : List A) (x : A) → sum_by f (xs ++ x ∷ []) ≡ sum_by f xs + f x
unfolding sum_by
sum_by-snoc f [] x = omega arith
sum_by-snoc f (y ∷ xs) x = let rest = sum_by-snoc f xs x in omega (arith, rest)

pub pick-sum_by {ℓ} :
    {A : Type ℓ}
    → (f : A → ℕ) (n : ℕ) (xs : List A) (r : A × List A) → pick n xs ≡ some r
    → sum_by f xs ≡ f r.0 + sum_by f r.1
unfolding pick sum_by
pick-sum_by f n [] r e = absurd cc
pick-sum_by f zero (x ∷ xs) r e = let same : (x, xs) ≡ r = cc in ap (λ q. f q.0 + sum_by f q.1) same
pick-sum_by {A = A} f (suc n) (x ∷ xs) r e = picked (pick n xs) (λ q. pick-sum_by f n xs q) e
  where
    picked :
        (o : Option (A × List A))
        → ((q : A × List A) → o ≡ some q → sum_by f xs ≡ f q.0 + sum_by f q.1)
        → (elim o [ none ↦ none | some q ↦ some (q.0, x ∷ q.1) ]) ≡ some r
        → f x + sum_by f xs ≡ f r.0 + sum_by f r.1
    picked none rest e' = absurd cc
    picked (some q) rest e' =
        let same : (q.0, x ∷ q.1) ≡ r = cc in
        let shorter = rest q refl in let sum = ap (λ p. f p.0 + sum_by f p.1) same in omega arith

sum_by-length {ℓ} : {A : Type ℓ} → (xs : List A) → sum_by (λ x. 1) xs ≡ length xs
unfolding sum_by
sum_by-length [] = refl
sum_by-length (x ∷ xs) = let rest = sum_by-length xs in omega (arith, rest)

pub pick-length {ℓ} :
    {A : Type ℓ}
    → (n : ℕ) (xs : List A) (r : A × List A) → pick n xs ≡ some r
    → length xs ≡ 1 + length r.1
pick-length n xs r e =
    let sum = pick-sum_by (λ x. 1) n xs r e in
    let all = sum_by-length xs in let rest = sum_by-length r.1 in omega (arith, sum, all, rest)
