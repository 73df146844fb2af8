-- ===== src/Stdio/Render/Loop.antt =====
-- `vsprintf` of lib/stdio.c writes the text of its format.
use holo_os.Base.{
  ℕ, zero, suc, ◌+◌, ◌%◌, ◌^◌, ◌<◌, ◌≤◌, ◌≡◌, ◌≢◌, refl, sym, subst, ap, ◌∙◌, ◌⊎◌, inl, inr,
  Bool-cases, true, false, ◌==◌, ==→≡, List, [], ◌∷◌, ◌++◌, length, length-++, arith,
}
use holo_os.Base.Memory.{Mem, update}
use holo_os.Base.Run.{Run, ok}
use holo_os.CString.Text.Strings.{IsString}
use holo_os.CString.Text.Copy.{IsString-moved}
use holo_os.Stdio.{format_loop}
use holo_os.Stdio.Render.{
  Piece, plain, hex, int, char, string, pieces, numeral, signed_numeral, render, written,
}
use holo_os.Stdio.Render.Conversions.{
  written-++, written-outside, itoa-hex, print_int-written, print_string-written,
}

-- What `c` is behind a `%`.
conversion :
    (c : ℕ)
    → (c ≡ 120) ⊎ (c ≡ 100) ⊎ (c ≡ 99) ⊎ (c ≡ 115) ⊎ (c ≢ 120) × (c ≢ 100) × (c ≢ 99) × (c ≢ 115)
conversion c = omega arith

pieces-plain : (c : ℕ) (cs : List ℕ) → c ≢ 37 → pieces false (c ∷ cs) ≡ plain c ∷ pieces false cs
unfolding pieces
pieces-plain c cs ne = ground arith

pieces-unknown :
    (c : ℕ) (cs : List ℕ)
    → (c ≢ 120) × (c ≢ 100) × (c ≢ 99) × (c ≢ 115)
    → pieces false (37 ∷ c ∷ cs) ≡ pieces false (c ∷ cs)
unfolding pieces
pieces-unknown c cs ne = ground arith

-- The next free byte and the memory when the bytes are stored.
abbrev pub stored : Mem → ℕ → List ℕ → Run (ℕ × Mem)
stored m buf cs = ok (buf + length cs, written m buf cs)

-- The arguments `args`, those for `%s` with the strings `text`, and the bytes from `lo` up to
-- `hi`, to which the text goes.
module _ (args : ℕ → ℕ) (text : ℕ → List ℕ) (lo hi n : ℕ) where
  -- The argument of each `%s` points to its string, which has at most `n` bytes and stands apart
  -- from the text.
  abbrev pub Texts : Mem → ℕ → List Piece → Type 0
  Texts m k [] = Unit {0}
  Texts m k (plain c ∷ ps) = Texts m k ps
  Texts m k (hex ∷ ps) = Texts m (k + 1) ps
  Texts m k (int ∷ ps) = Texts m (k + 1) ps
  Texts m k (char ∷ ps) = Texts m (k + 1) ps
  Texts m k (string ∷ ps) =
      (IsString m (args k) (text k)
        × (args k ≢ 0)
        × ((hi ≤ args k) ⊎ (args k + length (text k) < lo))
        × (length (text k) ≤ n))
      × Texts m (k + 1) ps

  Texts-moved :
      (m m' : Mem) (k : ℕ) (ps : List Piece)
      → ((a : ℕ) → (a < lo) ⊎ (hi ≤ a) → m' a ≡ m a)
      → Texts m k ps
      → Texts m' k ps
  Texts-moved m m' k [] same h = tt
  Texts-moved m m' k (plain c ∷ ps) same h = Texts-moved m m' k ps same h
  Texts-moved m m' k (hex ∷ ps) same h = Texts-moved m m' (k + 1) ps same h
  Texts-moved m m' k (int ∷ ps) same h = Texts-moved m m' (k + 1) ps same h
  Texts-moved m m' k (char ∷ ps) same h = Texts-moved m m' (k + 1) ps same h
  Texts-moved m m' k (string ∷ ps) same ((s, ne, apart, le), h) = (
    (
      IsString-moved m m' (args k) (args k) (text k) (λ i le. same (args k + i) (omega arith)) s,
      ne,
      apart,
      le,
    ),
    Texts-moved m m' (k + 1) ps same h,
  )

  -- The format and the string arguments are in place before a round, and there is room.
  abbrev Prepared : Mem → ℕ → ℕ → ℕ → List ℕ → Type 0
  Prepared m buf format k cs =
      IsString m format cs
      × (lo ≤ buf)
      × (buf + length (render args text k (pieces false cs)) ≤ hi)
      × ((hi ≤ format) ⊎ (format + length cs < lo))
      × Texts m k (pieces false cs)

  Prepared-after :
      (m : Mem) (buf format format' k k' : ℕ) (cs cs' w : List ℕ)
      → Prepared m buf format k cs
      → render args text k (pieces false cs) ≡ w ++ render args text k' (pieces false cs')
      → format ≤ format'
      → format' + length cs' ≡ format + length cs
      → IsString m format' cs'
      → Texts m k' (pieces false cs')
      → Prepared (written m buf w) (buf + length w) format' k' cs'
  Prepared-after m buf format format' k k' cs cs' w (s, low, room, apart, h) out le stop s' h' =
      let len : length (render args text k (pieces false cs))
          ≡ length w + length (render args text k' (pieces false cs')) =
        ap length out ∙ length-++ w _ in
      (
        IsString-moved m (written m buf w) format' format' cs'
            (λ i le'. written-outside m buf w (format' + i) (omega arith)) s',
        omega arith,
        omega arith,
        omega arith,
        Texts-moved m (written m buf w) k' (pieces false cs')
            (λ a out'. written-outside m buf w a (omega arith)) h',
      )

  joined :
      (m : Mem) (buf : ℕ) (w rest : List ℕ)
      → stored (written m buf w) (buf + length w) rest ≡ stored m buf (w ++ rest)
  joined m buf w rest =
      let len = length-++ w rest in
      let e : buf + length (w ++ rest) ≡ buf + length w + length rest = omega (arith, len) in
      rw (e, written-++ m buf w rest) refl

  -- The rounds from `fuel` on store the text of the format.
  abbrev Stores : ℕ → Type 0
  Stores fuel =
      (m : Mem) (buf format k : ℕ) (cs : List ℕ)
      → length cs + n < fuel
      → Prepared m buf format k cs
      → format_loop fuel m buf format args k ≡ stored m buf (render args text k (pieces false cs))

  -- A conversion that stores `w`, and the rounds behind it.
  behind :
      (fuel : ℕ) (m : Mem) (buf format k : ℕ) (d : ℕ) (ds w : List ℕ)
      → Stores fuel
      → length ds + n < fuel
      → Prepared m buf format k (37 ∷ d ∷ ds)
      → render args text k (pieces false (37 ∷ d ∷ ds))
        ≡ w ++ render args text (k + 1) (pieces false ds)
      → Texts m (k + 1) (pieces false ds)
      → format_loop fuel (written m buf w) (buf + length w) (format + 2) args (k + 1)
        ≡ stored m buf (render args text k (pieces false (37 ∷ d ∷ ds)))
  behind fuel m buf format k d ds w again lt ready out h =
      let (e, ne, (e', ne', s)) = ready.0 in
      let two : format + 1 + 1 ≡ format + 2 = omega arith in
      let after =
        Prepared-after m buf format (format + 2) k (k + 1) (37 ∷ d ∷ ds) ds w ready out
          (omega arith) (omega arith) (subst (λ p. IsString m p ds) two s) h in
      again _ _ _ _ ds lt after ∙ joined m buf w _ ∙ ap (stored m buf) (sym out)

  -- What stands behind the `%` names no conversion.
  unknown_stored :
      (fuel : ℕ) (m : Mem) (buf format k : ℕ) (cs : List ℕ)
      → length cs + n < fuel
      → Stores fuel
      → Prepared m buf format k (37 ∷ cs)
      → pieces false (37 ∷ cs) ≡ pieces false cs
      → (m (format + 1) ≢ 120)
        × (m (format + 1) ≢ 100)
        × (m (format + 1) ≢ 99)
        × (m (format + 1) ≢ 115)
      → format_loop (suc fuel) m buf format args k
        ≡ stored m buf (render args text k (pieces false (37 ∷ cs)))
  unfolding format_loop
  unknown_stored fuel m buf format k cs lt again ready ps no_case =
      let (e, ne, s) = ready.0 in
      let room = ready.2 in
      let e0 : (m format == 0) ≡ false = ground arith in
      let e1 : (m format == 37) ≡ true = ground arith in
      let e2 : (m (format + 1) == 120) ≡ false = ground arith in
      let e3 : (m (format + 1) == 100) ≡ false = ground arith in
      let e4 : (m (format + 1) == 99) ≡ false = ground arith in
      let e5 : (m (format + 1) == 115) ≡ false = ground arith in
      rw (e0, e1, e2, e3, e4, e5, ps)
        (again m buf (format + 1) k cs lt
          (s, ready.1, rw ps at room, omega arith, subst (Texts m k) ps ready.4))

  conversion_stored :
      (fuel : ℕ) (m : Mem) (buf format k : ℕ) (cs : List ℕ)
      → 0 < lo
      → hi < 2 ^ 32
      → ((j : ℕ) → args j < 2 ^ 32)
      → length cs + n < fuel
      → Stores fuel
      → Prepared m buf format k (37 ∷ cs)
      → format_loop (suc fuel) m buf format args k
        ≡ stored m buf (render args text k (pieces false (37 ∷ cs)))
  unfolding format_loop pieces render written
  conversion_stored fuel m buf format k [] pos top small lt again ready =
      let (e, ne, s) = ready.0 in
      unknown_stored fuel m buf format k [] lt again ready refl (omega arith)
  conversion_stored fuel m buf format k (d ∷ ds) pos top small lt again ready =
      let (e, ne, (e', ne', s)) = ready.0 in
      let e0 : (m format == 0) ≡ false = ground arith in
      let e1 : (m format == 37) ≡ true = ground arith in
      elim (conversion d) [
        | inl x ↦
            let ps : pieces false (37 ∷ d ∷ ds) ≡ hex ∷ pieces false ds = ground arith in
            let is : (m (format + 1) == 120) ≡ true = ground arith in
            rw (e0, e1, is, itoa-hex m (args k) buf (small k))
              (behind fuel m buf format k d ds (numeral 16 (args k)) again (omega arith) ready
                (ap (render args text k) ps) (subst (Texts m k) ps ready.4))
        | inr (inl x) ↦
            let ps : pieces false (37 ∷ d ∷ ds) ≡ int ∷ pieces false ds = ground arith in
            let no_hex : (m (format + 1) == 120) ≡ false = ground arith in
            let is : (m (format + 1) == 100) ≡ true = ground arith in
            rw (e0, e1, no_hex, is, print_int-written m buf (args k) (small k))
              (behind fuel m buf format k d ds (signed_numeral (args k)) again (omega arith) ready
                (ap (render args text k) ps) (subst (Texts m k) ps ready.4))
        | inr (inr (inl x)) ↦
            let ps : pieces false (37 ∷ d ∷ ds) ≡ char ∷ pieces false ds = ground arith in
            let no_hex : (m (format + 1) == 120) ≡ false = ground arith in
            let no_int : (m (format + 1) == 100) ≡ false = ground arith in
            let is : (m (format + 1) == 99) ≡ true = ground arith in
            rw (e0, e1, no_hex, no_int, is)
              (behind fuel m buf format k d ds (args k % 2 ^ 8 ∷ []) again (omega arith) ready
                (ap (render args text k) ps) (subst (Texts m k) ps ready.4))
        | inr (inr (inr (inl x))) ↦
            let ps : pieces false (37 ∷ d ∷ ds) ≡ string ∷ pieces false ds = ground arith in
            let no_hex : (m (format + 1) == 120) ≡ false = ground arith in
            let no_int : (m (format + 1) == 100) ≡ false = ground arith in
            let no_char : (m (format + 1) == 99) ≡ false = ground arith in
            let is : (m (format + 1) == 115) ≡ true = ground arith in
            let ((t, nz, apart, le), h) : Texts m k (string ∷ pieces false ds) =
              subst (Texts m k) ps ready.4 in
            let size = ap length (ap (render args text k) ps) ∙ length-++ (text k) _ in
            let room = ready.2 in
            let low = ready.1 in
            rw
              (
                e0,
                e1,
                no_hex,
                no_int,
                no_char,
                is,
                print_string-written (suc fuel) m buf (args k) (text k) (omega arith) (omega arith)
                    (omega arith) nz t (omega arith),
              )
              (behind fuel m buf format k d ds (text k) again (omega arith) ready
                (ap (render args text k) ps) h)
        | inr (inr (inr (inr none_of))) ↦
            unknown_stored fuel m buf format k (d ∷ ds) lt again ready (pieces-unknown d ds none_of)
              (omega arith)
      ]

  pub format_loop-stored :
      (fuel : ℕ) (m : Mem) (buf format k : ℕ) (cs : List ℕ)
      → 0 < lo
      → hi < 2 ^ 32
      → ((j : ℕ) → args j < 2 ^ 32)
      → length cs + n < fuel
      → Prepared m buf format k cs
      → format_loop fuel m buf format args k ≡ stored m buf (render args text k (pieces false cs))
  unfolding format_loop pieces render written
  format_loop-stored zero m buf format k cs pos top small lt ready = absurd (omega arith)
  format_loop-stored (suc fuel) m buf format k [] pos top small lt ready =
      let s = ready.0 in
      let e : (m format == 0) ≡ true = ground arith in
      let z : buf + 0 ≡ buf = omega arith in rw (e, z) refl
  format_loop-stored (suc fuel) m buf format k (c ∷ cs) pos top small lt ready =
      let (e, ne, s) = ready.0 in
      let e0 : (m format == 0) ≡ false = ground arith in
      elim (Bool-cases (c == 37)) [
        | inl percent ↦
            let is : c ≡ 37 = ==→≡ c 37 percent in
            subst
              (λ x.
                Prepared m buf format k (x ∷ cs)
                → format_loop (suc fuel) m buf format args k
                  ≡ stored m buf (render args text k (pieces false (x ∷ cs))))
              (sym is)
              (conversion_stored fuel m buf format k cs pos top small (omega arith)
                (λ m b f k cs lt r. format_loop-stored fuel m b f k cs pos top small lt r))
              ready
        | inr other ↦
            let e1 : (m format == 37) ≡ false = ground arith in
            let ps = pieces-plain c cs (ground arith) in
            let after =
              Prepared-after m buf format (format + 1) k k (c ∷ cs) cs (c ∷ []) ready
                (ap (render args text k) ps) (omega arith) (omega arith) s
                (subst (Texts m k) ps ready.4) in
            let rest =
              format_loop-stored fuel (update m buf c) (buf + 1) (format + 1) k cs pos top small
                (omega arith) after in
            rw (e0, e1, ps, e) (rest ∙ joined m buf (c ∷ []) _)
      ]
