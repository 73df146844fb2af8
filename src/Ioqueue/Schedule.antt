-- ===== src/Ioqueue/Schedule.antt =====
-- Any sequence of calls of `ioqueueGetchar` and `ioqueuePutchar` (device/ioqueue.c), against a queue
-- that is a list.
use mathlib.Core.List.{append-nil, append_assoc}
use holo_os.Base.{
  ℕ, ◌≤◌, ◌≡◌, refl, sym, ap, ap₂, ◌∙◌, inl, inr, Bool-cases, ltb, if◌then◌else◌, List, [], ◌∷◌,
  ◌++◌, length, arith,
}
use holo_os.Ioqueue.{Ioqueue, Call, get, put, Outcome, waits, stored, got, serve, serve_all}
use holo_os.Ioqueue.Ring.{IsQueue, getchar-empty, getchar_lem, putchar-full, putchar_lem}

-- What a bounded queue of 63 characters does with a call.
pub serve_list : Call → List ℕ → Outcome × List ℕ
serve_list get [] = (waits, [])
serve_list get (x ∷ xs) = (got x, xs)
serve_list (put ch) xs = if ltb (length xs) 63 then (stored, xs ++ ch ∷ []) else (waits, xs)

pub serve_list_all : List ℕ → List Call → List Outcome × List ℕ
serve_list_all xs [] = ([], xs)
serve_list_all xs (call ∷ calls) =
    let (out, xs1) = serve_list call xs in
    let (outs, xs') = serve_list_all xs1 calls in (out ∷ outs, xs')

serve_lem :
    (q : Ioqueue) (xs : List ℕ) (call : Call)
    → IsQueue q xs
    → ((serve q call).0 ≡ (serve_list call xs).0) × IsQueue (serve q call).1 (serve_list call xs).1
unfolding serve serve_list
serve_lem q [] get v = let e = getchar-empty q v in rw (e, serve) (refl, v)
serve_lem q (x ∷ xs) get v = let (q', e, v') = getchar_lem q x xs v in rw (e, serve) (refl, v')
serve_lem q xs (put ch) v = elim (Bool-cases (ltb (length xs) 63)) [
  | inl room ↦
      let (q', e, v') = putchar_lem q ch xs v (ground arith) in rw (e, room, serve) (refl, v')
  | inr full ↦
      let e = putchar-full q ch xs v (ground (arith, v.short)) in rw (e, full, serve) (refl, v)
]

-- After any sequence of calls the ring has given every call the same answer as a queue of 63
-- characters that is a list (a character, stored, or that it waits), and holds the same characters
-- in the same order.
pub serve_all_refines :
    (q : Ioqueue) (xs : List ℕ) (calls : List Call)
    → IsQueue q xs
    → ((serve_all q calls).0 ≡ (serve_list_all xs calls).0)
      × IsQueue (serve_all q calls).1 (serve_list_all xs calls).1
unfolding serve_all serve_list_all
serve_all_refines q xs [] v = (refl, v)
serve_all_refines q xs (call ∷ calls) v =
    let (e, v1) = serve_lem q xs call v in
    let (e', v') = serve_all_refines (serve q call).1 (serve_list call xs).1 calls v1 in
    (ap₂ (λ o os. o ∷ os) e e', v')

abbrev stored_by : Call → Outcome → List ℕ
stored_by (put ch) stored = ch ∷ []
stored_by (put ch) waits = []
stored_by (put ch) (got x) = []
stored_by get out = []

abbrev got_by : Outcome → List ℕ
got_by (got ch) = ch ∷ []
got_by waits = []
got_by stored = []

-- The characters that were stored, and those that were got, in their order.
pub stored_chars : List Call → List Outcome → List ℕ
stored_chars [] outs = []
stored_chars (call ∷ calls) [] = []
stored_chars (call ∷ calls) (out ∷ outs) = stored_by call out ++ stored_chars calls outs

pub got_chars : List Outcome → List ℕ
got_chars [] = []
got_chars (out ∷ outs) = got_by out ++ got_chars outs

step_order :
    (call : Call) (xs : List ℕ)
    → xs ++ stored_by call (serve_list call xs).0
      ≡ got_by (serve_list call xs).0 ++ (serve_list call xs).1
unfolding serve_list
step_order get [] = refl
step_order get (x ∷ xs) = append-nil (x ∷ xs)
step_order (put ch) xs = elim (Bool-cases (ltb (length xs) 63)) [
  | inl room ↦ rw room refl
  | inr full ↦ rw full (append-nil xs)
]

list_order :
    (calls : List Call) (xs : List ℕ)
    → xs ++ stored_chars calls (serve_list_all xs calls).0
      ≡ got_chars (serve_list_all xs calls).0 ++ (serve_list_all xs calls).1
unfolding serve_list_all stored_chars got_chars
list_order [] xs = append-nil xs
list_order (call ∷ calls) xs =
    let out = (serve_list call xs).0 in
    let xs1 = (serve_list call xs).1 in
    let outs = (serve_list_all xs1 calls).0 in
    let ys = (serve_list_all xs1 calls).1 in
    let step = step_order call xs in
    let rest = list_order calls xs1 in
    sym (append_assoc xs (stored_by call out) (stored_chars calls outs))
    ∙ ap (λ l. l ++ stored_chars calls outs) step
    ∙ append_assoc (got_by out) xs1 (stored_chars calls outs)
    ∙ ap (λ l. got_by out ++ l) rest
    ∙ sym (append_assoc (got_by out) (got_chars outs) ys)

-- In any sequence of calls characters are got in the order in which they were stored, none is lost
-- and none is doubled: the characters got, followed by those left in the ring, are those that were
-- in it at first followed by those stored. The ring never holds more than 63.
pub serve_all_fifo :
    (q : Ioqueue) (xs : List ℕ) (calls : List Call)
    → IsQueue q xs
    → (ys : List ℕ) × IsQueue (serve_all q calls).1 ys
      × (xs ++ stored_chars calls (serve_all q calls).0 ≡ got_chars (serve_all q calls).0 ++ ys)
      × (length ys ≤ 63)
serve_all_fifo q xs calls v =
    let (e, v') = serve_all_refines q xs calls v in
    ((serve_list_all xs calls).1, v', rw e (list_order calls xs), v'.short)
