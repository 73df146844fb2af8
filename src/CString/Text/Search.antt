-- ===== src/CString/Text/Search.antt =====
-- `strchr`, `strrchr` and `strchrs` of lib/string.c, by the list of a string's bytes.
use holo_os.Base.{
  ℕ, zero, suc, ◌+◌, ◌%◌, ◌^◌, ◌<◌, ◌≡◌, ◌≢◌, Bool-cases, inl, inr, refl, sym, ap, ◌∙◌, Bool, true,
  false, if◌then◌else◌, Option, none, some, List, [], ◌∷◌, length, arith,
}
use holo_os.Base.Memory.{Mem}
use holo_os.Base.Run.{ok}
use holo_os.CString.Text.{
  null, char_eq, find_loop, strchr, find_last_loop, strrchr, count_loop, strchrs,
}
use holo_os.CString.Text.Strings.{IsString, not_null}

abbrev next : Option ℕ → Option ℕ
next none = none
next (some i) = some (1 + i)

abbrev later : Bool → Option ℕ → Option ℕ
later here (some i) = some (1 + i)
later here none = if here then some 0 else none

-- The place of the first and of the last byte of the list that is the character, and their number.
pub first_of : ℕ → List ℕ → Option ℕ
first_of ch [] = none
first_of ch (c ∷ cs) = if char_eq c ch then some 0 else next (first_of ch cs)

pub last_of : ℕ → List ℕ → Option ℕ
last_of ch [] = none
last_of ch (c ∷ cs) = later (char_eq c ch) (last_of ch cs)

pub count_of : ℕ → List ℕ → ℕ
count_of ch [] = 0
count_of ch (c ∷ cs) = (if char_eq c ch then 1 else 0) + count_of ch cs

-- The address of a place in the string at `p`, or NULL.
abbrev pub address : ℕ → Option ℕ → ℕ
address p none = null
address p (some i) = p + i

address_up : (p : ℕ) (o : Option ℕ) → address (p + 1) o ≡ address p (next o)
address_up p none = refl
address_up p (some i) = omega arith

find_loop_lem :
    (fuel : ℕ) (m : Mem) (p ch : ℕ) (cs : List ℕ)
    → length cs < fuel
    → IsString m p cs
    → find_loop fuel m p ch ≡ ok (address p (first_of ch cs))
unfolding find_loop first_of
find_loop_lem zero m p ch cs lt s = absurd (omega arith)
find_loop_lem (suc fuel) m p ch [] lt s = ground arith
find_loop_lem (suc fuel) m p ch (c ∷ cs) lt (e, ne, s) =
    let rest = find_loop_lem fuel m (p + 1) ch cs (omega arith) s in
    let up = address_up p (first_of ch cs) in
    let z : p + 0 ≡ p = omega arith in
    elim (Bool-cases (char_eq c ch)) [
      | inl same ↦ rw (e, find_loop) (rw (same, z) (ground arith))
      | inr other ↦ rw (e, find_loop) (rw (other, sym up, sym rest) (ground arith))
    ]

-- What the rest of the string leaves of a last place found so far.
abbrev or_else : ℕ → ℕ → Option ℕ → ℕ
or_else last p none = last
or_else last p (some i) = p + i

or_else_step :
    (last p : ℕ) (here : Bool) (o : Option ℕ)
    → or_else (if here then p else last) (p + 1) o ≡ or_else last p (later here o)
or_else_step last p true none = omega arith
or_else_step last p false none = refl
or_else_step last p here (some i) = omega arith

find_last_loop_lem :
    (fuel : ℕ) (m : Mem) (p ch last : ℕ) (cs : List ℕ)
    → length cs < fuel
    → IsString m p cs
    → find_last_loop fuel m p ch last ≡ ok (or_else last p (last_of ch cs))
unfolding find_last_loop last_of
find_last_loop_lem zero m p ch last cs lt s = absurd (omega arith)
find_last_loop_lem (suc fuel) m p ch last [] lt s = ground arith
find_last_loop_lem (suc fuel) m p ch last (c ∷ cs) lt (e, ne, s) =
    let last' = if char_eq (m p) ch then p else last in
    let rest = find_last_loop_lem fuel m (p + 1) ch last' cs (omega arith) s in
    let step = or_else_step last p (char_eq (m p) ch) (last_of ch cs) in
    let go : find_last_loop (suc fuel) m p ch last ≡ find_last_loop fuel m (p + 1) ch last' =
      ground arith in
    go ∙ rest ∙ ap ok (step ∙ ap (λ x. or_else last p (later (char_eq x ch) (last_of ch cs))) e)

or_null : (p : ℕ) (o : Option ℕ) → or_else null p o ≡ address p o
or_null p none = refl
or_null p (some i) = refl

count_loop_lem :
    (fuel : ℕ) (m : Mem) (p ch cnt : ℕ) (cs : List ℕ)
    → length cs < fuel
    → cnt < 2 ^ 32
    → IsString m p cs
    → count_loop fuel m p ch cnt ≡ ok ((cnt + count_of ch cs) % 2 ^ 32)
unfolding count_loop count_of
count_loop_lem zero m p ch cnt cs lt w s = absurd (omega arith)
count_loop_lem (suc fuel) m p ch cnt [] lt w s = ground arith
count_loop_lem (suc fuel) m p ch cnt (c ∷ cs) lt w (e, ne, s) =
    let rest =
      count_loop_lem fuel m (p + 1) ch ((cnt + (if char_eq (m p) ch then 1 else 0)) % 2 ^ 32) cs
        (omega arith) (omega arith) s in
    ground arith

-- `strchr`, `strrchr` and `strchrs` of a string, with more rounds than it has bytes, end; they
-- return the address of the first and of the last byte that is the character, NULL if there is
-- none, and the number of these bytes. A character from 128 on is equal to no byte.
pub search_lem :
    (fuel : ℕ) (m : Mem) (p ch : ℕ) (cs : List ℕ)
    → length cs < fuel
    → p ≢ 0
    → IsString m p cs
    → (strchr fuel m p ch ≡ ok (address p (first_of ch cs)))
      × (strrchr fuel m p ch ≡ ok (address p (last_of ch cs)))
      × (strchrs fuel m p ch ≡ ok (count_of ch cs % 2 ^ 32))
unfolding strchr strrchr strchrs
search_lem fuel m p ch cs lt ne s =
    let go = not_null p ne in
    let z : 0 + count_of ch cs ≡ count_of ch cs = omega arith in
    (
      rw go (find_loop_lem fuel m p ch cs lt s),
      rw go (find_last_loop_lem fuel m p ch null cs lt s ∙ ap ok (or_null p (last_of ch cs))),
      rw go (rw z at (count_loop_lem fuel m p ch 0 cs lt (omega arith) s)),
    )
