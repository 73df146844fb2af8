-- ===== src/CString/Text/Copy.antt =====
-- `strcpy` and `strcat` of lib/string.c.
use mathlib.Core.Path.{fun_ext}
use holo_os.Base.{
  ℕ, zero, suc, ◌+◌, ◌-◌, ◌≤◌, ◌<◌, ◌≡◌, ◌≢◌, ◌⊎◌, inl, inr, refl, ap, ◌∙◌, ◌==◌, ==→≡, Bool-cases,
  List, [], ◌∷◌, ◌++◌, length, length-++, arith,
}
use holo_os.Base.Memory.{Mem, update}
use holo_os.Base.Run.{ok}
use holo_os.CString.{memcpy_loop}
use holo_os.CString.Block.{copied, memcpy_loop_lem}
use holo_os.CString.Text.{copy_loop, strcpy, strcat}
use holo_os.CString.Text.Strings.{IsString, end_loop_lem, not_null}

-- A string whose bytes stand elsewhere in another memory.
pub IsString-moved :
    (m m' : Mem) (p q : ℕ) (cs : List ℕ)
    → ((i : ℕ) → i ≤ length cs → m' (q + i) ≡ m (p + i))
    → IsString m p cs
    → IsString m' q cs
IsString-moved m m' p q [] same s =
    let z : p + 0 ≡ p = omega arith in
    let z' : q + 0 ≡ q = omega arith in (rw (z, z') at (same 0 (omega arith))) ∙ s
IsString-moved m m' p q (c ∷ cs) same (e, ne, s) =
    let z : p + 0 ≡ p = omega arith in
    let z' : q + 0 ≡ q = omega arith in
    (
      (rw (z, z') at (same 0 (omega arith))) ∙ e,
      ne,
      IsString-moved m m' (p + 1) (q + 1) cs
          (λ i le.
            let a : p + 1 + i ≡ p + (1 + i) = omega arith in
            let a' : q + 1 + i ≡ q + (1 + i) = omega arith in
            rw (a, a') (same (1 + i) (omega arith)))
          s,
    )

copy_loop_lem :
    (fuel : ℕ) (m : Mem) (dst src : ℕ) (cs : List ℕ)
    → length cs < fuel
    → IsString m src cs
    → (dst ≤ src) ⊎ (src + length cs < dst)
    → copy_loop fuel m dst src ≡ ok (dst + length cs, memcpy_loop m dst src (length cs))
unfolding copy_loop memcpy_loop
copy_loop_lem zero m dst src cs lt s out = absurd (omega arith)
copy_loop_lem (suc fuel) m dst src [] lt s out =
    let z : dst + 0 ≡ dst = omega arith in rw z (ground arith)
copy_loop_lem (suc fuel) m dst src (c ∷ cs) lt (e, ne, s) out =
    let one : 1 + length cs ≡ suc (length cs) = omega arith in
    let step : dst + 1 + length cs ≡ dst + suc (length cs) = omega arith in
    let rest =
      copy_loop_lem fuel (update m dst (m src)) (dst + 1) (src + 1) cs (omega arith)
        (IsString-moved m _ (src + 1) (src + 1) cs (λ i le. ground arith) s) (omega arith) in
    let go : copy_loop (suc fuel) m dst src
        ≡ copy_loop fuel (update m dst (m src)) (dst + 1) (src + 1) =
      ground arith in
    rw one (go ∙ (rw step at rest))

copy_loop-copied :
    (fuel : ℕ) (m : Mem) (dst src : ℕ) (cs : List ℕ)
    → length cs < fuel
    → IsString m src cs
    → (dst ≤ src) ⊎ (src + length cs < dst)
    → copy_loop fuel m dst src ≡ ok (dst + length cs, copied m dst src (length cs))
unfolding copied
copy_loop-copied fuel m dst src cs lt s out =
    let apart : (dst ≤ src) ⊎ (src + length cs ≤ dst) = omega arith in
    copy_loop_lem fuel m dst src cs lt s out
    ∙ ap (λ x. ok (dst + length cs, x)) (fun_ext λ a. memcpy_loop_lem m dst src (length cs) a apart)

-- `strcpy` of a string to a target below it, or behind its end, with more rounds than it has
-- bytes, ends: it copies the bytes of the string without the zero behind them, changes nothing
-- else, and returns the target.
pub strcpy_lem :
    (fuel : ℕ) (m : Mem) (dst src : ℕ) (cs : List ℕ)
    → length cs < fuel
    → dst ≢ 0
    → src ≢ 0
    → IsString m src cs
    → (dst ≤ src) ⊎ (src + length cs < dst)
    → strcpy fuel m dst src ≡ ok (dst, copied m dst src (length cs))
unfolding strcpy
strcpy_lem fuel m dst src cs lt nd ns s out =
    let go = not_null dst nd in
    let go' = not_null src ns in
    let run = copy_loop-copied fuel m dst src cs lt s out in rw (go, go', run, strcpy) refl

IsString-joined :
    (m m' : Mem) (p q : ℕ) (ds cs : List ℕ)
    → ((i : ℕ) → i < length ds → m' (p + i) ≡ m (p + i))
    → ((i : ℕ) → i ≤ length cs → m' (p + length ds + i) ≡ m (q + i))
    → IsString m p ds
    → IsString m q cs
    → IsString m' p (ds ++ cs)
IsString-joined m m' p q [] cs left right t s =
    let z : p + 0 ≡ p = omega arith in IsString-moved m m' q p cs (λ i le. rw z at (right i le)) s
IsString-joined m m' p q (d ∷ ds) cs left right (e, ne, t) s =
    let z : p + 0 ≡ p = omega arith in
    (
      (rw z at (left 0 (omega arith))) ∙ e,
      ne,
      IsString-joined m m' (p + 1) q ds cs
          (λ i lt.
            let a : p + 1 + i ≡ p + (1 + i) = omega arith in rw a (left (1 + i) (omega arith)))
          (λ i le.
            let a : p + 1 + length ds + i ≡ p + (1 + length ds) + i = omega arith in
            rw a (right i le))
          t s,
    )

-- The byte behind a string.
string_end : (m : Mem) (p : ℕ) (cs : List ℕ) → IsString m p cs → m (p + length cs) ≡ 0
string_end m p [] s = let z : p + 0 ≡ p = omega arith in rw z s
string_end m p (c ∷ cs) (e, ne, s) =
    let a : p + (1 + length cs) ≡ p + 1 + length cs = omega arith in
    rw a (string_end m (p + 1) cs s)

appended :
    (m : Mem) (stop src n i : ℕ)
    → i ≤ n
    → m (src + n) ≡ 0
    → update (copied m stop src n) (stop + n) 0 (stop + i) ≡ m (src + i)
unfolding copied
appended m stop src n i le e =
    let back : stop + i - stop ≡ i = omega arith in
    elim (Bool-cases (i == n)) [
      | inl last ↦ let same = ==→≡ i n last in ground arith
      | inr before ↦ rw back (ground arith)
    ]

-- `strcat` of two strings, with more rounds than each has bytes, where the source does not lie in
-- the bytes that the joined string takes, ends: the target holds the bytes of its string and then
-- those of the source, and no byte outside of the joined string and its zero has changed.
pub strcat_lem :
    (fuel : ℕ) (m : Mem) (dst src : ℕ) (ds cs : List ℕ)
    → length ds < fuel
    → length cs < fuel
    → dst ≢ 0
    → src ≢ 0
    → IsString m dst ds
    → IsString m src cs
    → (dst + length ds + length cs < src) ⊎ (src + length cs < dst)
    → (m' : Mem) × (strcat fuel m dst src ≡ ok (dst, m'))
      × IsString m' dst (ds ++ cs)
      × ((a : ℕ) → (a < dst) ⊎ (dst + length (ds ++ cs) < a) → m' a ≡ m a)
unfolding copied strcat
strcat_lem fuel m dst src ds cs ld lc nd ns t s out =
    let go = not_null dst nd in
    let go' = not_null src ns in
    let stop = dst + length ds in
    let run = end_loop_lem fuel m dst ds ld t in
    let run' = copy_loop-copied fuel m stop src cs lc s (omega arith) in
    let len = length-++ ds cs in
    (
      update (copied m stop src (length cs)) (stop + length cs) 0,
      rw (go, go', run, run', strcat) refl,
      IsString-joined m _ dst src ds cs (λ i lt. ground arith)
          (λ i le. appended m stop src (length cs) i le (string_end m src cs s)) t s,
      λ a out'. ground (arith, len),
    )
