-- ===== src/Sync/Semaphore/Wakeups.antt =====
-- What holds of a semaphore of kernel/sync.c after any calls, in any order.
use holo_os.Base.{
  ℕ, ◌+◌, ◌%◌, ◌^◌, ◌<◌, ◌≤◌, ◌≡◌, ◌⊎◌, inl, inr, refl, Bool-cases, ◌==◌, Option, none, some, List,
  [], ◌∷◌, ◌++◌, length, length-++, pick, pick-length, arith,
}
use holo_os.Sync.Semaphore.{
  Semaphore, semaphore_init, condition_wait, condition_signal, semaphore_down, semaphore_up, Event,
  down, again, up, History, round, happen, happen_all,
}

-- If threads wait, then the woken ones are enough to take all of the value; and the value is what the
-- calls that are over have made of the first one, `init`.
record IsCounted (init : ℕ) (h : History) : Type 0 where
  fits : h.sem.value < 2 ^ 32
  served : (h.sem.waiters ≡ []) ⊎ (h.sem.value ≤ length h.sem.woken)
  count : (h.sem.value + h.downs) % 2 ^ 32 ≡ (init + h.ups) % 2 ^ 32

module _ (init : ℕ) where
  round-IsCounted :
      (h : History) (s : Semaphore) (t : ℕ)
      → s.value ≡ h.sem.value
      → IsCounted init h
      → (s.waiters ≡ []) ⊎ (s.value ≤ 1 + length s.woken)
      → IsCounted init (round h s t)
  unfolding round semaphore_down condition_wait
  round-IsCounted h s t same v near =
      let f = v.fits in
      let c = v.count in
      elim (Bool-cases (s.value == 0)) [
        | inl z ↦
            rw z (record { fits = omega arith; served = inr (ground arith); count = omega arith })
        | inr more ↦ rw more (record {
          fits = omega arith;
          served = elim near [ inl none_wait ↦ inl none_wait | inr le ↦ inr (ground arith) ];
          count = ground arith;
        })
      ]

  up-IsCounted : (h : History) → IsCounted init h → IsCounted init (happen h up)
  unfolding happen semaphore_up condition_signal
  up-IsCounted h v = of_waiters h.sem.waiters refl
    where
      of_waiters :
          (ws : List ℕ)
          → h.sem.waiters ≡ ws
          → IsCounted init (record h {
            sem = elim ws [
              | [] ↦ record h.sem { value = (h.sem.value + 1) % 2 ^ 32 }
              | t ∷ ts ↦ record h.sem {
                value = (h.sem.value + 1) % 2 ^ 32;
                waiters = ts;
                woken = h.sem.woken ++ t ∷ [];
              }
            ];
            ups = h.ups + 1;
          })
      of_waiters [] e =
          let c = v.count in record { fits = omega arith; served = inl e; count = omega arith }
      of_waiters (t ∷ ts) e =
          let c = v.count in
          let len = length-++ h.sem.woken (t ∷ []) in
          record {
            fits = omega arith;
            served = elim v.served [ inl nil ↦ absurd cc | inr le ↦ inr (omega arith) ];
            count = omega arith;
          }

  happen-IsCounted : (h : History) (e : Event) → IsCounted init h → IsCounted init (happen h e)
  unfolding happen
  happen-IsCounted h (down t) v =
      round-IsCounted h h.sem t refl v
        (elim v.served [ inl n ↦ inl n | inr le ↦ inr (omega arith) ])
  happen-IsCounted h (again n) v = woken_one (pick n h.sem.woken) (pick-length n h.sem.woken)
    where
      woken_one :
          (o : Option (ℕ × List ℕ))
          → ((r : ℕ × List ℕ) → o ≡ some r → length h.sem.woken ≡ 1 + length r.1)
          → IsCounted init
              (elim o [ none ↦ h | some r ↦ round h (record h.sem { woken = r.1 }) r.0 ])
      woken_one none len = v
      woken_one (some r) len =
          let l = len r refl in
          round-IsCounted h (record h.sem { woken = r.1 }) r.0 refl v
            (elim v.served [ inl n ↦ inl n | inr le ↦ inr (omega arith) ])
  happen-IsCounted h up v = up-IsCounted h v

  happen_all-IsCounted :
      (es : List Event) (h : History) → IsCounted init h → IsCounted init (happen_all h es)
  unfolding happen_all
  happen_all-IsCounted [] h v = v
  happen_all-IsCounted (e ∷ es) h v = happen_all-IsCounted es (happen h e) (happen-IsCounted h e v)

-- A new semaphore, with no call over.
abbrev pub fresh : ℕ → History
fresh init = record { sem = semaphore_init init; downs = 0; ups = 0 }

-- After any calls of `semaphoreDown` and `semaphoreUp`, in any order, the value is the first one, plus
-- the calls of `semaphoreUp` and less those of `semaphoreDown` that are over; and if a thread still
-- sleeps, then the woken threads that have not run yet are at least as many as the value.
pub happen_all_lem :
    (init : ℕ) (es : List Event)
    → (((happen_all (fresh init) es).sem.value + (happen_all (fresh init) es).downs) % 2 ^ 32
        ≡ (init + (happen_all (fresh init) es).ups) % 2 ^ 32)
      × (((happen_all (fresh init) es).sem.waiters ≡ [])
          ⊎ ((happen_all (fresh init) es).sem.value
              ≤ length (happen_all (fresh init) es).sem.woken))
unfolding semaphore_init
happen_all_lem init es =
    let v =
      happen_all-IsCounted init es (fresh init)
        (record { fits = omega arith; served = inl refl; count = omega arith }) in
    (v.count, v.served)
