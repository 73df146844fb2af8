-- ===== src/Memory/Heap/Members.antt =====
-- A list of lib/list.c by its members: what `listRemove` leaves of them.
use holo_os.Base.{
  ℕ, ◌<◌, ◌≡◌, ◌≢◌, refl, sym, ap, ◌∙◌, inl, inr, Bool, Bool-cases, true, false, not, ◌&&◌, ◌||◌,
  ◌==◌, List, [], ◌∷◌, ◌++◌, length, length-++, arith,
}
use holo_os.LinkedList.{Links, list_remove}
use holo_os.LinkedList.Distinct.{Absent, Distinct, Absent-right}
use holo_os.LinkedList.Segment.{IsList}
use holo_os.LinkedList.Update.{list_remove_lem}
use holo_os.LinkedList.Walk.{member}

pub member-split :
    (n : ℕ) (xs : List ℕ) → member n xs ≡ true → (ps : List ℕ) × (qs : List ℕ) × (xs ≡ ps ++ n ∷ qs)
member-split n [] e = absurd cc
member-split n (x ∷ xs) e = elim (Bool-cases (x == n)) [
  | inl same ↦ ([], xs, ap (λ y. y ∷ xs) (ground arith))
  | inr other ↦
      let (ps, qs, s) = member-split n xs (rw other at e) in (x ∷ ps, qs, ap (λ ys. x ∷ ys) s)
]

pub Absent-not_member : (n : ℕ) (xs : List ℕ) → Absent n xs → member n xs ≡ false
Absent-not_member n [] h = refl
Absent-not_member n (x ∷ xs) (ne, h) = let rest = Absent-not_member n xs h in ground arith

false_or : (b : Bool) → b ≡ ((false || b) && not false)
false_or true = refl
false_or false = refl

member-delete :
    (n x : ℕ) (ps qs : List ℕ)
    → Distinct (ps ++ n ∷ qs)
    → member x (ps ++ qs) ≡ (member x (ps ++ n ∷ qs) && not (n == x))
member-delete n x [] qs d =
    let out = Absent-not_member n qs d.0 in
    elim (Bool-cases (n == x)) [
      | inl same ↦ let e : n ≡ x = ground arith in rw same (ap (λ y. member y qs) (sym e) ∙ out)
      | inr other ↦ rw other (false_or (member x qs))
    ]
member-delete n x (p ∷ ps) qs d =
    let rest = member-delete n x ps qs d.1 in
    let ne : p ≢ n = (Absent-right p ps (n ∷ qs) d.0).0 in ground arith

-- `listRemove` of a member leaves a list of the other members.
pub list_remove-member :
    {h : Links} {l : ℕ} (n : ℕ) (xs : List ℕ)
    → IsList h l xs
    → member n xs ≡ true
    → (ys : List ℕ) × IsList (list_remove h n) l ys
      × (length ys < length xs)
      × ((x : ℕ) → member x ys ≡ (member x xs && not (n == x)))
list_remove-member {h = h} {l = l} n xs is e =
    let (ps, qs, s) = member-split n xs e in
    let is' : IsList h l (ps ++ n ∷ qs) = rw s at is in
    let shorter = length-++ ps qs in
    let longer = length-++ ps (n ∷ qs) in
    let len = ap length s in
    (
      ps ++ qs,
      (list_remove_lem ps n qs is').0,
      omega arith,
      λ x. member-delete n x ps qs is'.apart.1.1.1 ∙ ap (λ zs. member x zs && not (n == x)) (sym s),
    )

pub not_member-Absent : (n : ℕ) (xs : List ℕ) → member n xs ≡ false → Absent n xs
not_member-Absent n [] e = tt
not_member-Absent n (x ∷ xs) e = elim (Bool-cases (x == n)) [
  | inl same ↦ absurd (ground arith)
  | inr other ↦ (ground arith, not_member-Absent n xs (rw other at e))
]

pub member-append : (x y : ℕ) (xs : List ℕ) → member x (xs ++ y ∷ []) ≡ (member x xs || y == x)
member-append x y [] = elim (Bool-cases (y == x)) [
  | inl same ↦ rw same refl
  | inr other ↦ rw other refl
]
member-append x y (z ∷ xs) = let rest = member-append x y xs in ground arith

-- What is taken out with all of `m` need not be there before.
pub or-and_not : (p q m : Bool) → (q ≡ true → m ≡ true) → ((p || q) && not m) ≡ (p && not m)
or-and_not true q m h = refl
or-and_not false false m h = refl
or-and_not false true true h = refl
or-and_not false true false h = cc (h refl)

pub no_member-nil : (xs : List ℕ) → ((x : ℕ) → member x xs ≡ false) → xs ≡ []
no_member-nil [] h = refl
no_member-nil (x ∷ xs) h = let mine = h x in absurd (ground arith)

pub and-and_not : (p q : Bool) → (p && not (q || p)) ≡ false
and-and_not true true = refl
and-and_not true false = refl
and-and_not false q = refl
