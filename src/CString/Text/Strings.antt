-- ===== src/CString/Text/Strings.antt =====
-- Strings of memory as lists of bytes, `strlen` and `strcmp` of lib/string.c.
use holo_os.Base.{
  ℕ, zero, suc, ◌%◌, ◌^◌, ◌<◌, ◌≡◌, ◌≢◌, ◌↔◌, Bool-cases, inl, inr, refl, sym, subst, ap, ◌∙◌, true,
  false, ltb, ◌+◌, ◌-◌, not, ◌&&◌, ◌==◌, ==→≡, if◌then◌else◌, List, [], ◌∷◌, length, arith,
}
use holo_os.Base.Memory.{Mem}
use holo_os.Base.Run.{ok}
use holo_os.Bitmap.Set.{IsBytes}
use holo_os.CString.{Order, greater, less, equal}
use holo_os.CString.Text.{char_gt, end_loop, strlen, compare_loop, strcmp}

-- The bytes from `p` on are those of the list, none of them 0, and a 0 behind them.
abbrev pub IsString : Mem → ℕ → List ℕ → Type 0
IsString m p [] = m p ≡ 0
IsString m p (c ∷ cs) = (m p ≡ c) × (c ≢ 0) × IsString m (p + 1) cs

pub end_loop_lem :
    (fuel : ℕ) (m : Mem) (p : ℕ) (cs : List ℕ)
    → length cs < fuel
    → IsString m p cs
    → end_loop fuel m p ≡ ok (p + length cs)
unfolding end_loop
end_loop_lem zero m p cs lt s = absurd (omega arith)
end_loop_lem (suc fuel) m p [] lt s = ground arith
end_loop_lem (suc fuel) m p (c ∷ cs) lt (e, ne, s) =
    let rest = end_loop_lem fuel m (p + 1) cs (omega arith) s in ground arith

-- `strlen` of a string, with more rounds than it has bytes, ends and returns the number of bytes
-- (as a 32-bit number).
pub strlen_lem :
    (fuel : ℕ) (m : Mem) (p : ℕ) (cs : List ℕ)
    → length cs < fuel
    → p ≢ 0
    → IsString m p cs
    → strlen fuel m p ≡ ok (length cs % 2 ^ 32)
unfolding strlen
strlen_lem fuel m p cs lt ne s = let run = end_loop_lem fuel m p cs lt s in ground arith

-- The value of a signed character with this byte, plus 128: 0 to 127 stand for themselves, 128 to
-- 255 for -128 to -1.
abbrev char_value : ℕ → ℕ
char_value c = if ltb c 128 then c + 128 else c - 128

-- The order of two characters that differ.
abbrev char_order : ℕ → ℕ → Order
char_order c d = if ltb (char_value c) (char_value d) then less else greater

char_order_lem :
    (c d : ℕ) → c < 256 → d < 256 → c ≢ d → (if char_gt c d then greater else less) ≡ char_order c d
unfolding char_gt
char_order_lem c d lt lt' ne = ground arith

-- The order of two strings: that of the first bytes that differ, the end of a string as a 0.
pub compare_strings : List ℕ → List ℕ → Order
compare_strings [] [] = equal
compare_strings [] (d ∷ ds) = char_order 0 d
compare_strings (c ∷ cs) [] = char_order c 0
compare_strings (c ∷ cs) (d ∷ ds) =
    let rest = compare_strings cs ds in if c == d then rest else char_order c d

-- The test of `strcmp` behind its loop.
abbrev order_at : Mem → ℕ → ℕ → Order
order_at m p q =
    if m p == 0 && m q == 0 then equal else if char_gt (m p) (m q) then greater else less

same_head : (c : ℕ) (cs ds : List ℕ) → compare_strings (c ∷ cs) (c ∷ ds) ≡ compare_strings cs ds
unfolding compare_strings
same_head c cs ds = ground arith

equal_strings : (cs : List ℕ) → compare_strings cs cs ≡ equal
unfolding compare_strings
equal_strings [] = refl
equal_strings (c ∷ cs) = same_head c cs cs ∙ equal_strings cs

unequal_strings : (cs ds : List ℕ) → compare_strings cs ds ≡ equal → cs ≡ ds
unfolding compare_strings
unequal_strings [] [] e = refl
unequal_strings [] (d ∷ ds) e = ground arith
unequal_strings (c ∷ cs) [] e = ground arith
unequal_strings (c ∷ cs) (d ∷ ds) e = elim (Bool-cases (c == d)) [
  | inl same ↦ let h = ==→≡ c d same in let t = unequal_strings cs ds (ground arith) in cc
  | inr other ↦ ground arith
]

pub not_null : (p : ℕ) → p ≢ 0 → not (p == 0) ≡ true
not_null p ne = ground arith

differ :
    (m : Mem) (p q c d : ℕ)
    → IsBytes m
    → m p ≡ c
    → m q ≡ d
    → c ≢ d
    → order_at m p q ≡ char_order c d
differ m p q c d h e e' ne =
    let c_byte : c < 256 = subst (λ x. x < 256) e (h p) in
    let d_byte : d < 256 = subst (λ x. x < 256) e' (h q) in
    let some_char : (c == 0 && d == 0) ≡ false = ground arith in
    rw (e, e', some_char) (char_order_lem c d c_byte d_byte ne)

compare_loop_lem :
    (fuel : ℕ) (m : Mem) (p q : ℕ) (cs ds : List ℕ)
    → IsBytes m
    → length cs < fuel
    → IsString m p cs
    → IsString m q ds
    → (a : ℕ) × (b : ℕ) × (compare_loop fuel m p q ≡ ok (a, b))
      × (order_at m a b ≡ compare_strings cs ds)
unfolding compare_loop compare_strings
compare_loop_lem zero m p q cs ds h lt s t = absurd (omega arith)
compare_loop_lem (suc fuel) m p q [] [] h lt s t = (p, q, ground arith, ground arith)
compare_loop_lem (suc fuel) m p q [] (d ∷ ds) h lt s (e, ne, t) =
    (p, q, ground arith, differ m p q 0 d h s e (λ z. ne (sym z)))
compare_loop_lem (suc fuel) m p q (c ∷ cs) [] h lt (e, ne, s) t =
    (p, q, ground arith, differ m p q c 0 h e t ne)
compare_loop_lem (suc fuel) m p q (c ∷ cs) (d ∷ ds) h lt (e, ne, s) (e', ne', t) =
    elim (Bool-cases (c == d)) [
      | inl same ↦
          let (a, b, run, o) = compare_loop_lem fuel m (p + 1) (q + 1) cs ds h (omega arith) s t in
          (a, b, ground arith, ground arith)
      | inr other ↦
          let ne2 : c ≢ d = ground arith in
          let o = differ m p q c d h e e' ne2 in (p, q, ground arith, rw other o)
    ]

-- `strcmp` of two strings in a memory of bytes, with more rounds than the first has bytes, ends and
-- returns their order: 0 only for equal strings, and otherwise that of the first bytes that differ, as signed
-- characters.
pub strcmp_lem :
    (fuel : ℕ) (m : Mem) (p q : ℕ) (cs ds : List ℕ)
    → IsBytes m
    → length cs < fuel
    → p ≢ 0
    → q ≢ 0
    → IsString m p cs
    → IsString m q ds
    → (strcmp fuel m p q ≡ ok (compare_strings cs ds))
      × ((compare_strings cs ds ≡ equal) ↔ (cs ≡ ds))
unfolding strcmp
strcmp_lem fuel m p q cs ds h lt np nq s t =
    let (a, b, run, o) = compare_loop_lem fuel m p q cs ds h lt s t in
    let go = not_null p np in
    let go' = not_null q nq in
    (
      rw (go, go', run, strcmp) (ap ok o),
      (unequal_strings cs ds, λ e. ap (compare_strings cs) (sym e) ∙ equal_strings cs),
    )
