-- ===== src/Console/Whole.antt =====
-- The calls of device/console.c never mix their characters.
use mathlib.Core.List.{append-nil, append_assoc}
use holo_os.Base.{
  ℕ, ◌≡◌, ◌≢◌, ◌⊎◌, refl, sym, ap, subst, ◌∙◌, inl, inr, Bool, Bool-cases, true, false, ◌==◌, ==→≡,
  some, List, [], ◌∷◌, ◌++◌, arith,
}
use holo_os.Sync.{
  Lock, lock_init, Place, outside, inside, check_holder, try_first, take_spin, append, try_again,
  withdraw, leave_spin, block, drop_spin, asleep, release_spin, take_waiter, end_empty, end_spin,
  wake, null, set, step_at, Reachable, start, next, relinked,
}
use holo_os.Sync.Moves.{Apart, step_at-Apart, step_at-inside}
use holo_os.Sync.Exclusion.{mutual_exclusion}
use holo_os.Console.{
  Console, console_init, prints, releases, Step, call, print, release, go, preempt, Runs, begin,
  continue,
}

abbrev pub concat : List (List ℕ) → List ℕ
concat [] = []
concat (m ∷ ms) = m ++ concat ms

concat-snoc : (ms : List (List ℕ)) (m : List ℕ) → concat (ms ++ m ∷ []) ≡ concat ms ++ m
concat-snoc [] m = append-nil m
concat-snoc (x ∷ ms) m = ap (λ l. x ++ l) (concat-snoc ms m) ∙ sym (append_assoc x (concat ms) m)

-- No thread is between `consoleAcquire` and `consoleRelease`.
abbrev pub Nobody : Console → Type 0
Nobody s = (t : ℕ) → t ≢ null → s.lock.place t ≢ inside

record IsWhole (s : Console) : Type 0 where
  reach : Reachable s.lock
  -- the thread that prints
  partly :
      (t : ℕ)
      → t ≢ null
      → s.lock.place t ≡ inside
      → s.screen ++ s.left t ≡ concat s.messages ++ s.text t
  whole : Nobody s → s.screen ≡ concat s.messages
  fresh : (t : ℕ) → t ≢ null → s.lock.place t ≢ inside → s.left t ≡ s.text t

-- Two threads inside are one.
alone :
    {l : Lock} (t u : ℕ)
    → Reachable l
    → t ≢ null
    → u ≢ null
    → l.place t ≡ inside
    → l.place u ≡ inside
    → t ≡ u
alone t u r nt nu ht hu = (mutual_exclusion t u r nt nu (rw ht refl) (rw hu refl)).0

moved :
    (s l : Lock) (t : ℕ)
    → step_at s t (s.place t) ≡ some l
    → (u : ℕ) → u ≢ t
    → l.place u ≡ s.place u
moved s l t e = subst (Apart s t) e (step_at-Apart s t (s.place t))

-- A step of a thread that does not print.
enters :
    (s : Console) (t : ℕ) (l : Lock) (text left : ℕ → List ℕ)
    → t ≢ null
    → s.lock.place t ≢ inside
    → step_at s.lock t (s.lock.place t) ≡ some l
    → ((u : ℕ) → u ≢ t → (text u ≡ s.text u) × (left u ≡ s.left u))
    → left t ≡ text t
    → IsWhole s
    → IsWhole (record s { lock = l; text = text; left = left })
enters s t l text left nt out e same mine v =
    let others = moved s.lock l t e in
    let reach = next v.reach t nt e in
    record {
      reach = reach;
      partly = λ u nu h. elim (Bool-cases (u == t)) [
        | inl is ↦
            let eq = ==→≡ u t is in
            let nobody : Nobody s = λ w nw inside_w.
              let apart : w ≢ t = λ eq'. out (rw eq' at inside_w) in
              apart (alone w t reach nw nt (others w apart ∙ inside_w) (rw eq at h)) in
            rw (eq, mine) (ap (λ x. x ++ text t) (v.whole nobody))
        | inr other ↦
            let ne : u ≢ t = ground arith in
            let (a, b) = same u ne in rw (a, b) (v.partly u nu (sym (others u ne) ∙ h))
      ];
      whole = λ nobody. v.whole (λ u nu h. elim (Bool-cases (u == t)) [
        | inl is ↦ let eq = ==→≡ u t is in out (rw eq at h)
        | inr other ↦ let ne : u ≢ t = ground arith in nobody u nu (others u ne ∙ h)
      ]);
      fresh = λ u nu h. elim (Bool-cases (u == t)) [
        | inl is ↦ let eq = ==→≡ u t is in rw eq mine
        | inr other ↦
            let ne : u ≢ t = ground arith in
            let (a, b) = same u ne in rw (a, b) (v.fresh u nu (λ h'. h (others u ne ∙ h')))
      ];
    }

set_other : (f : ℕ → List ℕ) (t : ℕ) (x : List ℕ) (u : ℕ) → u ≢ t → set f t x u ≡ f u
set_other f t x u ne = ground arith

set_self : (f : ℕ → List ℕ) (t : ℕ) (x : List ℕ) → set f t x t ≡ x
set_self f t x = ground arith

prints-IsWhole :
    (s : Console) (t c : ℕ) (cs : List ℕ)
    → t ≢ null
    → s.lock.place t ≡ inside
    → s.left t ≡ c ∷ cs
    → IsWhole s
    → IsWhole (prints s t c cs)
prints-IsWhole s t c cs nt here rest v = record {
  reach = v.reach;
  partly = λ u nu h.
      let eq = alone u t v.reach nu nt h here in
      rw (eq, set_self s.left t cs)
        (append_assoc s.screen (c ∷ []) cs
          ∙ ap (λ l. s.screen ++ l) (sym rest)
          ∙ v.partly t nt here);
  whole = λ nobody. absurd (nobody t nt here);
  fresh = λ u nu h. elim (Bool-cases (u == t)) [
    | inl is ↦ let eq = ==→≡ u t is in absurd (h (rw eq here))
    | inr other ↦ let ne : u ≢ t = ground arith in rw (set_other s.left t cs u ne) (v.fresh u nu h)
  ];
}

releases-IsWhole :
    (s : Console) (t : ℕ) (l : Lock)
    → t ≢ null
    → s.lock.place t ≡ inside
    → s.left t ≡ []
    → step_at s.lock t (s.lock.place t) ≡ some l
    → IsWhole s
    → IsWhole (releases s t l)
releases-IsWhole s t l nt here rest e v =
    let others = moved s.lock l t e in
    let left_it = step_at-inside s.lock t (rw here at e) in
    let all : s.screen ≡ concat (s.messages ++ s.text t ∷ []) =
      sym (append-nil s.screen)
      ∙ ap (λ x. s.screen ++ x) (sym rest)
      ∙ v.partly t nt here
      ∙ sym (concat-snoc s.messages (s.text t)) in
    record {
      reach = next v.reach t nt e;
      partly = λ u nu h. elim (Bool-cases (u == t)) [
        | inl is ↦ let eq = ==→≡ u t is in let h' = rw eq at h in absurd cc
        | inr other ↦
            let ne : u ≢ t = ground arith in
            absurd (ne (alone u t v.reach nu nt (sym (others u ne) ∙ h) here))
      ];
      whole = λ nobody. all;
      fresh = λ u nu h. elim (Bool-cases (u == t)) [
        | inl is ↦ let eq = ==→≡ u t is in rw (eq, set_self s.left t [], set_self s.text t []) refl
        | inr other ↦
            let ne : u ≢ t = ground arith in
            rw (set_other s.left t [] u ne, set_other s.text t [] u ne)
              (v.fresh u nu (λ h'. ne (alone u t v.reach nu nt h' here)))
      ];
    }

Step-IsWhole : {s s' : Console} → Step s s' → IsWhole s → IsWhole s'
Step-IsWhole {s} (call t cs {l} nt at_outside e) v =
    enters s t l (set s.text t cs) (set s.left t cs) nt (rw at_outside cc) e
      (λ u ne. (set_other s.text t cs u ne, set_other s.left t cs u ne))
      (set_self s.left t cs ∙ sym (set_self s.text t cs)) v
Step-IsWhole {s} (print t c cs nt here rest) v = prints-IsWhole s t c cs nt here rest v
Step-IsWhole {s} (release t {l} nt here rest e) v = releases-IsWhole s t l nt here rest e v
Step-IsWhole {s} (go t {l} nt not_outside not_inside e) v =
    enters s t l s.text s.left nt not_inside e (λ u ne. (refl, refl)) (v.fresh t nt not_inside) v
Step-IsWhole (preempt ws bl) v = record {
  reach = relinked v.reach ws bl;
  partly = v.partly;
  whole = v.whole;
  fresh = v.fresh;
}

Runs-IsWhole : {s : Console} → Runs s → IsWhole s
unfolding console_init lock_init
Runs-IsWhole begin = record {
  reach = start;
  partly = λ t nt h. absurd cc;
  whole = λ nobody. refl;
  fresh = λ t nt h. refl;
}
Runs-IsWhole (continue r step) = Step-IsWhole step (Runs-IsWhole r)

is_inside : Place → Bool
is_inside inside = true
is_inside _ = false

is_inside-inside : (p : Place) → is_inside p ≡ true → p ≡ inside
unfolding is_inside
is_inside-inside inside e = refl
is_inside-inside outside e = absurd cc
is_inside-inside try_first e = absurd cc
is_inside-inside take_spin e = absurd cc
is_inside-inside append e = absurd cc
is_inside-inside try_again e = absurd cc
is_inside-inside withdraw e = absurd cc
is_inside-inside leave_spin e = absurd cc
is_inside-inside block e = absurd cc
is_inside-inside drop_spin e = absurd cc
is_inside-inside asleep e = absurd cc
is_inside-inside check_holder e = absurd cc
is_inside-inside release_spin e = absurd cc
is_inside-inside take_waiter e = absurd cc
is_inside-inside end_empty e = absurd cc
is_inside-inside (end_spin u) e = absurd cc
is_inside-inside (wake u) e = absurd cc

-- The lock's holder is the only one who may print.
holder_inside :
    {s : Console} (t : ℕ) → IsWhole s → t ≢ null → s.lock.place t ≡ inside → s.lock.holder ≡ t
holder_inside t v nt here = (mutual_exclusion t t v.reach nt nt (rw here refl) (rw here refl)).1

-- Whatever order the steps of the threads come in, the characters of one call of `consolePuts`,
-- `consolePutchar` or `consolePutint` stand together: what the screen has shown is what the calls
-- that are over have printed, one call behind the other; or the lock's holder is in its call, and
-- with the characters that it has left, the screen has shown those calls and then this one.
pub no_mixing :
    {s : Console}
    → Runs s
    → (s.screen ≡ concat s.messages)
      ⊎ ((s.lock.place s.lock.holder ≡ inside)
          × (s.screen ++ s.left s.lock.holder ≡ concat s.messages ++ s.text s.lock.holder))
unfolding is_inside
no_mixing {s} r =
    let v = Runs-IsWhole r in
    elim (Bool-cases (s.lock.holder == null)) [
      | inl free ↦
          inl
            (v.whole λ t nt here. let mine = holder_inside {s = s} t v nt here in nt (ground arith))
      | inr held ↦ elim (Bool-cases (is_inside (s.lock.place s.lock.holder))) [
        | inl printing ↦
            let here = is_inside-inside _ printing in
            inr (here, v.partly s.lock.holder (ground arith) here)
        | inr elsewhere ↦ inl (
            v.whole λ t nt here.
              let mine = holder_inside {s = s} t v nt here in
              let there : is_inside (s.lock.place s.lock.holder) ≡ true =
                rw (mine, here, is_inside) refl in
              absurd cc)
      ]
    ]
