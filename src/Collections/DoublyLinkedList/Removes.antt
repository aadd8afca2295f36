-- ===== src/Collections/DoublyLinkedList/Removes.antt =====
-- `remove` and the iterator.
use libhermit_mpk.Prelude.{
  ℕ, zero, suc, ◌<◌, ◌≡◌, refl, sym, ap, ◌∙◌, false, Option, none, some, List, [], ◌∷◌, ◌++◌,
  if◌then◌else◌, arith, is_some, length,
}
use libhermit_mpk.Collections.DoublyLinkedList.{
  Nodes, DoublyLinkedList, set_prev, set_next, set_prev_of, set_next_of, remove, iterate,
}
use libhermit_mpk.Collections.DoublyLinkedList.Links.{
  has, first_or, last_or, Links, Lists, last-has, has-append, last_or-append, Distinct-append,
  ==_own, front-out, Links-append, Links-set_next, Links-set_prev, keep_prev, keep_next,
  keep_next_of, keep_prev_of,
}
use libhermit_mpk.Collections.DoublyLinkedList.Inserts.{back-out}
use libhermit_mpk.Collections.DoublyLinkedList.Laws.{
  not_first, first_out, set_prev_of-other, set_next_of-other, Unmounted, at, not_last, is_node_out,
}

module _ {ℓ} {T : Type ℓ} (nodes : Nodes T) (list : DoublyLinkedList) where
  -- The pointers of a node on its way out are cleared, and it is not touched again.
  abbrev cleared : ℕ → Nodes T
  cleared n = set_next (set_prev nodes n none) n none

  head_removed :
      (n : ℕ) (ys zs : List ℕ)
      → list.head ≡ first_or (ys ++ n ∷ zs) none
      → (if is_some (last_or none ys) then list.head else first_or zs none)
        ≡ first_or (ys ++ zs) none
  head_removed n [] zs e = refl
  head_removed n (y ∷ ys) zs e = let (z, last, _) = last-has y ys in rw last e

  tail_removed :
      (n : ℕ) (ys zs : List ℕ)
      → list.tail ≡ last_or none (ys ++ n ∷ zs)
      → (if is_some (first_or zs none) then list.tail else last_or none ys)
        ≡ last_or none (ys ++ zs)
  tail_removed n ys [] e = sym (last_or-append none ys [])
  tail_removed n ys (z ∷ zs) e =
      e ∙ last_or-append none ys (n ∷ z ∷ zs) ∙ sym (last_or-append none ys (z ∷ zs))

  -- `remove` takes a node out of the list: the other nodes keep their order, the links, the head and
  -- the tail are those of the shorter list, and the node is in no list and can be mounted again.
  pub remove-Yields :
      (n : ℕ) (ys zs : List ℕ)
      → Lists nodes list (ys ++ n ∷ zs)
      → Lists (remove nodes list n).0 (remove nodes list n).1 (ys ++ zs)
        × Unmounted (remove nodes list n).0 (remove nodes list n).1 n (ys ++ zs)
  unfolding remove
  remove-Yields n ys zs l =
      let a = at nodes list ys n zs l in
      let n_ys = front-out ys zs n a.parts in
      let n_zs : has n zs ≡ false = a.parts.back.0 in
      rw (a.back.0, a.back.1)
        (
          record {
            distinct = Distinct-append ys zs (record {
              front = a.parts.front;
              back = a.parts.back.1;
              apart = λ c inside. back-out c n zs (a.parts.apart c inside);
            });
            links =
                Links-append
                  (set_prev_of (set_next_of (cleared n) (last_or none ys) (first_or zs none))
                    (first_or zs none) (last_or none ys))
                  none none ys zs
                  (keep_prev_of (set_next_of (cleared n) (last_or none ys) (first_or zs none))
                    (first_or zs none) (last_or none ys) none (first_or zs none) ys
                    (λ b e.
                      not_first ys zs b (λ c inside. back-out c n zs (a.parts.apart c inside)) e)
                    (Links-set_next (cleared n) none (some n) (first_or zs none) ys a.parts.front (
                      keep_next (set_prev nodes n none) n none none (some n) ys n_ys
                        (keep_prev nodes n none none (some n) ys n_ys a.front))))
                  (Links-set_prev (set_next_of (cleared n) (last_or none ys) (first_or zs none))
                    (some n) (last_or none ys) none zs a.parts.back.1
                    (keep_next_of (cleared n) (last_or none ys) (first_or zs none) (some n) none zs
                      (λ b e. back-out b n zs (not_last nodes list ys (n ∷ zs) b a.parts e))
                      (keep_next (set_prev nodes n none) n none (some n) none zs n_zs
                        (keep_prev nodes n none (some n) none zs n_zs a.back.2))));
            head = head_removed n ys zs l.head;
            tail = tail_removed n ys zs l.tail;
          },
          record {
            absent = ground (arith, has-append n ys zs);
            no_prev =
                rw
                  (
                    set_prev_of-other (set_next_of (cleared n) (last_or none ys) (first_or zs none))
                        (first_or zs none) (last_or none ys) n (first_out n zs n_zs),
                    set_next_of-other (cleared n) (last_or none ys) (first_or zs none) n
                        (is_node_out nodes list ys n n_ys),
                    ==_own n,
                  )
                  refl;
            no_next =
                rw
                  (
                    set_prev_of-other (set_next_of (cleared n) (last_or none ys) (first_or zs none))
                        (first_or zs none) (last_or none ys) n (first_out n zs n_zs),
                    set_next_of-other (cleared n) (last_or none ys) (first_or zs none) n
                        (is_node_out nodes list ys n n_ys),
                    ==_own n,
                  )
                  refl;
          },
        )

  -- The iterator yields the nodes in order. The fuel is one more than their number.
  pub iterate-Links :
      (p : Option ℕ) (xs : List ℕ) (fuel : ℕ)
      → length xs < fuel
      → Links nodes p xs none
      → iterate fuel nodes (first_or xs none) ≡ xs
  unfolding iterate
  iterate-Links p xs zero lt l = absurd (omega arith)
  iterate-Links p [] (suc fuel) lt l = refl
  iterate-Links p (x ∷ xs) (suc fuel) lt l =
      rw (l.1) (ap (◌∷◌ x) (iterate-Links (some x) xs fuel (omega arith) l.2))

  -- From the head the iterator yields exactly the nodes of the list.
  pub iterate-Lists :
      (xs : List ℕ) → Lists nodes list xs → iterate (suc (length xs)) nodes list.head ≡ xs
  iterate-Lists xs l =
      ap (iterate (suc (length xs)) nodes) (l.head)
      ∙ iterate-Links none xs (suc (length xs)) (omega arith) l.links
