-- ===== src/LinkedList/Distinct.antt =====
-- Addresses that differ: what a list of nodes keeps apart.
use holo_os.Base.{ℕ, ◌≢◌, sym, List, [], ◌∷◌, ◌++◌}

abbrev pub All {ℓ} : (ℕ → Type ℓ) → List ℕ → Type ℓ
All P [] = Unit
All P (x ∷ xs) = P x × All P xs

-- `a` is none of the addresses.
abbrev pub Absent : ℕ → List ℕ → Type 0
Absent a = All (λ x. a ≢ x)

abbrev pub Distinct : List ℕ → Type 0
Distinct [] = Unit
Distinct (x ∷ xs) = Absent x xs × Distinct xs

module _ {ℓ} (P : ℕ → Type ℓ) where
  pub All-append : (xs ys : List ℕ) → All P xs → All P ys → All P (xs ++ ys)
  All-append [] ys h k = k
  All-append (x ∷ xs) ys h k = (h.0, All-append xs ys h.1 k)

  pub All-left : (xs ys : List ℕ) → All P (xs ++ ys) → All P xs
  All-left [] ys h = tt
  All-left (x ∷ xs) ys h = (h.0, All-left xs ys h.1)

  pub All-right : (xs ys : List ℕ) → All P (xs ++ ys) → All P ys
  All-right [] ys h = h
  All-right (x ∷ xs) ys h = All-right xs ys h.1

pub Absent-append : (a : ℕ) (xs ys : List ℕ) → Absent a xs → Absent a ys → Absent a (xs ++ ys)
Absent-append a = All-append (λ x. a ≢ x)

pub Absent-left : (a : ℕ) (xs ys : List ℕ) → Absent a (xs ++ ys) → Absent a xs
Absent-left a = All-left (λ x. a ≢ x)

pub Absent-right : (a : ℕ) (xs ys : List ℕ) → Absent a (xs ++ ys) → Absent a ys
Absent-right a = All-right (λ x. a ≢ x)

pub Distinct-insert :
    (xs ys : List ℕ) (n : ℕ) → Distinct (xs ++ ys) → Absent n (xs ++ ys) → Distinct (xs ++ n ∷ ys)
Distinct-insert [] ys n d a = (a, d)
Distinct-insert (x ∷ xs) ys n d a =
    let apart : x ≢ n = λ e. a.0 (sym e) in
    (
      Absent-append x xs (n ∷ ys) (Absent-left x xs ys d.0) (apart, Absent-right x xs ys d.0),
      Distinct-insert xs ys n d.1 a.1,
    )

pub Distinct-delete :
    (xs ys : List ℕ) (n : ℕ)
    → Distinct (xs ++ n ∷ ys)
    → record { rest : Distinct (xs ++ ys); gone : Absent n (xs ++ ys) }
Distinct-delete [] ys n d = record { rest = d.1; gone = d.0 }
Distinct-delete (x ∷ xs) ys n d =
    let later = Absent-right x xs (n ∷ ys) d.0 in
    let tail = Distinct-delete xs ys n d.1 in
    record {
      rest = (Absent-append x xs ys (Absent-left x xs (n ∷ ys) d.0) later.1, tail.rest);
      gone = (λ e. later.0 (sym e), tail.gone);
    }

-- No address stands on both sides.
pub Distinct-apart : (xs ys : List ℕ) → Distinct (xs ++ ys) → All (λ x. Absent x ys) xs
Distinct-apart [] ys d = tt
Distinct-apart (x ∷ xs) ys d = (Absent-right x xs ys d.0, Distinct-apart xs ys d.1)

pub Distinct-left : (xs ys : List ℕ) → Distinct (xs ++ ys) → Distinct xs
Distinct-left [] ys d = tt
Distinct-left (x ∷ xs) ys d = (Absent-left x xs ys d.0, Distinct-left xs ys d.1)
