-- ===== src/Collections/DoublyLinkedList/Tests.antt =====
-- The list at concrete inputs.
use libhermit_mpk.Prelude.{ℕ, ◌≡◌, refl, none, some, [], ◌∷◌, ◌==◌, if◌then◌else◌}
use libhermit_mpk.Collections.DoublyLinkedList.{
  Nodes, DoublyLinkedList, new_node, insert_before, insert_after, remove, iterate,
}
use libhermit_mpk.Collections.DoublyLinkedList.Links.{Lists}
use libhermit_mpk.Collections.DoublyLinkedList.Laws.{Unmounted, Yields}
use libhermit_mpk.Collections.DoublyLinkedList.Inserts.{insert-Yields}
use libhermit_mpk.Collections.DoublyLinkedList.Removes.{remove-Yields}

-- Nodes 1 and 2 are linked, node 3 is free.
abbrev nodes : Nodes ℕ
nodes a =
    if a == 1
    then record { value = 10; prev = none; next = some 2 }
    else if a == 2
    then record { value = 20; prev = some 1; next = none }
    else new_node 30

abbrev list : DoublyLinkedList
list = record { head = some 1; tail = some 2 }

two_nodes : Lists nodes list (1 ∷ 2 ∷ [])
two_nodes = record {
  distinct = (refl, (refl, tt));
  links = (refl, refl, (refl, refl, tt));
  head = refl;
  tail = refl;
}

iterate_test : iterate 5 nodes list.head ≡ 1 ∷ 2 ∷ []
unfolding iterate
iterate_test = refl

insert-Yields_example :
    Yields nodes list (insert_before nodes list 3 2) (1 ∷ 3 ∷ 2 ∷ [])
    × Yields nodes list (insert_after nodes list 3 2) (1 ∷ 2 ∷ 3 ∷ [])
insert-Yields_example =
    insert-Yields nodes list 3 2 (1 ∷ []) [] two_nodes
      (record { absent = refl; no_prev = refl; no_next = refl })

remove-Yields_example :
    Lists (remove nodes list 1).0 (remove nodes list 1).1 (2 ∷ [])
    × Unmounted (remove nodes list 1).0 (remove nodes list 1).1 1 (2 ∷ [])
remove-Yields_example = remove-Yields nodes list 1 [] (2 ∷ []) two_nodes
