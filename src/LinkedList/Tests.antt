-- ===== src/LinkedList/Tests.antt =====
-- The functions of lib/list.c on a list of two nodes, and the theorems there.
use holo_os.Base.{◌≡◌, refl, List, [], ◌∷◌, arith}
use holo_os.Base.Run.{ok}
use holo_os.LinkedList.{Links, list_init, list_insert, list_append, list_len}
use holo_os.LinkedList.Refine.{Op, push, append, pop, remove, run, replay, run_refines}
use holo_os.LinkedList.Segment.{IsList}
use holo_os.LinkedList.Sequence.{list_init_lem}
use holo_os.LinkedList.Update.{Untouched}
use holo_os.LinkedList.Walk.{list_len_lem}

abbrev blank : Links
blank = record { prev = λ a. 0; next = λ a. 0 }

-- A list at 100 with the nodes 200 and 300.
abbrev links : Links
unfolding list_init list_append list_insert
links = list_append (list_append (list_init blank 100) 100 200) 100 300

links-IsList : IsList links 100 (200 ∷ 300 ∷ [])
unfolding links
links-IsList = record { chain = (refl, refl, (refl, refl, (refl, refl))); apart = omega arith }

list_init_lem_example :
    IsList (list_init links 400) 400 [] × Untouched links (list_init links 400) (400 ∷ 408 ∷ [])
list_init_lem_example = list_init_lem links 400 (omega arith)

list_len_lem_example : list_len 3 links 100 ≡ ok 2
list_len_lem_example = list_len_lem (200 ∷ 300 ∷ []) links-IsList 3 (omega arith)

abbrev script : List Op
script = push 400 ∷ remove 200 ∷ append 200 ∷ pop ∷ pop ∷ pop ∷ pop ∷ []

run_refines_example :
    ((run 100 links script).0 ≡ 400 ∷ 300 ∷ 200 ∷ 0 ∷ []) × IsList (run 100 links script).1 100 []
unfolding replay
run_refines_example = run_refines script links-IsList (omega arith, (refl, (omega arith, tt)))
