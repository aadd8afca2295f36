-- ===== src/Collections/DoublyLinkedList/Inserts.antt =====
-- `insert_before` and `insert_after`.
use libhermit_mpk.Prelude.{
  ℕ, ◌≡◌, refl, sym, ◌∙◌, true, false, Option, none, some, List, [], ◌∷◌, ◌++◌, ◌==◌, if◌then◌else◌,
  arith, is_some,
}
use libhermit_mpk.Collections.DoublyLinkedList.{
  Nodes, DoublyLinkedList, set_prev, set_next, set_prev_of, set_next_of, insert_before,
  insert_after,
}
use libhermit_mpk.Collections.DoublyLinkedList.Links.{
  has, first_or, last_or, Lists, last-has, has_ne, has-append, first_or-append, last_or-append,
  Distinct-append, ==_flip, ==_own, front-out, Links-append, Links-set_next, Links-set_prev,
  keep_prev, keep_next, keep_next_of, keep_prev_of,
}
use libhermit_mpk.Collections.DoublyLinkedList.Laws.{
  not_first, first_out, set_prev_of-other, Yields, Unmounted, at, inserted-Distinct, not_last,
  is_node_out,
}

behind :
    (c n f : ℕ) (zs : List ℕ)
    → has c (n ∷ zs) ≡ false
    → (f == c) ≡ false
    → has c (n ∷ f ∷ zs) ≡ false
behind c n f zs out other = ground (arith, out, other)

pub back-out : (c n : ℕ) (zs : List ℕ) → has c (n ∷ zs) ≡ false → has c zs ≡ false
back-out c n zs out = ground (arith, out)

module _ {ℓ} {T : Type ℓ} (nodes : Nodes T) (list : DoublyLinkedList) where
  head_before :
      (f n : ℕ) (ys zs : List ℕ)
      → list.head ≡ first_or (ys ++ n ∷ zs) none
      → (if is_some (last_or none ys) then list else record list { head = some f }).head
        ≡ first_or (ys ++ f ∷ n ∷ zs) none
  head_before f n [] zs e = refl
  head_before f n (y ∷ ys) zs e = let (z, last, _) = last-has y ys in rw last e

  tail_before :
      (f : ℕ) (o : Option ℕ)
      → (if is_some o then list else record list { head = some f }).tail ≡ list.tail
  tail_before f none = refl
  tail_before f (some a) = refl

  -- The new node goes in front of the given node of the list.
  pub insert_before-Yields :
      (f n : ℕ) (ys zs : List ℕ)
      → Lists nodes list (ys ++ n ∷ zs)
      → Unmounted nodes list f (ys ++ n ∷ zs)
      → Yields nodes list (insert_before nodes list f n) (ys ++ f ∷ n ∷ zs)
  unfolding insert_before
  insert_before-Yields f n ys zs l u =
      let a = at nodes list ys n zs l in
      let o = last_or none ys in
      let f_out : (has f ys ≡ false) × (has f (n ∷ zs) ≡ false) =
        ground (arith, has-append f ys (n ∷ zs), u.absent) in
      let n_out : has n ys ≡ false = front-out ys zs n a.parts in
      let differ : (f == n) ≡ false = ground (arith, f_out.1) in
      let differ' : (n == f) ≡ false = ground (arith, f_out.1) in
      let own : (f == f) ≡ true = ==_own f in
      let n1 = set_next_of nodes o (some f) in
      let n2 = set_prev n1 f o in
      let n3 = set_next n2 f (some n) in
      (
        set_prev n3 n (some f),
        (if is_some o then list else record list { head = some f }),
        rw
            (
              differ,
              u.no_prev,
              u.no_next,
              a.back.0,
              is_node_out nodes list ys f f_out.0,
              is_node_out nodes list ys n n_out,
            )
            refl,
        record {
          distinct = inserted-Distinct nodes list ys f (n ∷ zs) l.distinct u.absent;
          links =
              Links-append (set_prev n3 n (some f)) none none ys (f ∷ n ∷ zs)
                (keep_prev n3 n (some f) none (some f) ys n_out (
                  keep_next n2 f (some n) none (some f) ys f_out.0 (
                    keep_prev n1 f o none (some f) ys f_out.0
                      (Links-set_next nodes none (some n) (some f) ys a.parts.front a.front))))
                (
                  rw (differ', own) refl,
                  rw (differ', own) refl,
                  Links-set_prev n3 o (some f) none (n ∷ zs) a.parts.back (
                      keep_next n2 f (some n) o none (n ∷ zs) f_out.1 (
                        keep_prev n1 f o o none (n ∷ zs) f_out.1 (
                          keep_next_of nodes o (some f) o none (n ∷ zs)
                            (λ b e. not_last nodes list ys (n ∷ zs) b a.parts e) a.back))),
                );
          head = head_before f n ys zs l.head;
          tail =
              tail_before f o
              ∙ l.tail
              ∙ last_or-append none ys (n ∷ zs)
              ∙ sym (last_or-append none ys (f ∷ n ∷ zs));
        },
      )

  tail_after :
      (f n : ℕ) (ys zs : List ℕ)
      → list.tail ≡ last_or (some n) zs
      → (if is_some (first_or zs none) then list else record list { tail = some f }).tail
        ≡ last_or (some f) zs
  tail_after f n ys [] e = refl
  tail_after f n ys (z ∷ zs) e = e

  head_after :
      (f : ℕ) (o : Option ℕ)
      → (if is_some o then list else record list { tail = some f }).head ≡ list.head
  head_after f none = refl
  head_after f (some a) = refl

  -- The new node goes behind the given node of the list.
  pub insert_after-Yields :
      (f n : ℕ) (ys zs : List ℕ)
      → Lists nodes list (ys ++ n ∷ zs)
      → Unmounted nodes list f (ys ++ n ∷ zs)
      → Yields nodes list (insert_after nodes list f n) (ys ++ n ∷ f ∷ zs)
  unfolding insert_after
  insert_after-Yields f n ys zs l u =
      let a = at nodes list ys n zs l in
      let o = first_or zs none in
      let f_out : (has f ys ≡ false) × (has f (n ∷ zs) ≡ false) =
        ground (arith, has-append f ys (n ∷ zs), u.absent) in
      let f_zs : has f zs ≡ false = ground (arith, f_out.1) in
      let n_ys = front-out ys zs n a.parts in
      let n_zs : has n zs ≡ false = a.parts.back.0 in
      let differ' : (n == f) ≡ false = ground (arith, f_out.1) in
      let differ : (f == n) ≡ false = ==_flip n f differ' in
      let own : (f == f) ≡ true = ==_own f in
      let own' : (n == n) ≡ true = ==_own n in
      let n1 = set_prev_of nodes o (some f) in
      let n2 = set_next n1 f o in
      let n3 = set_prev n2 f (some n) in
      (
        set_next n3 n (some f),
        (if is_some o then list else record list { tail = some f }),
        rw (differ, u.no_prev, u.no_next, a.back.1, first_out f zs f_zs, first_out n zs n_zs) refl,
        record {
          distinct = Distinct-append ys (n ∷ f ∷ zs) (record {
            front = a.parts.front;
            back = (rw differ n_zs, (f_zs, a.parts.back.1));
            apart = λ c inside.
                behind c n f zs (a.parts.apart c inside)
                  (==_flip c f (has_ne c f ys inside f_out.0));
          });
          links =
              Links-append (set_next n3 n (some f)) none none ys (n ∷ f ∷ zs)
                (keep_next n3 n (some f) none (some n) ys n_ys (
                  keep_prev n2 f (some n) none (some n) ys f_out.0 (
                    keep_next n1 f o none (some n) ys f_out.0 (
                      keep_prev_of nodes o (some f) none (some n) ys
                        (λ b e.
                          not_first ys zs b (λ c inside. back-out c n zs (a.parts.apart c inside))
                            e)
                        a.front))))
                (
                  rw (own', differ, set_prev_of-other nodes o (some f) n (first_out n zs n_zs))
                      (a.back.0),
                  rw own' refl,
                  (
                    rw (differ', own) refl,
                    rw (differ', own) refl,
                    keep_next n3 n (some f) (some f) none zs n_zs (
                        keep_prev n2 f (some n) (some f) none zs f_zs (
                          keep_next n1 f o (some f) none zs f_zs (
                            Links-set_prev nodes (some n) (some f) none zs a.parts.back.1
                              a.back.2))),
                  ),
                );
          head =
              head_after f o
              ∙ l.head
              ∙ first_or-append ys (n ∷ zs) none
              ∙ sym (first_or-append ys (n ∷ f ∷ zs) none);
          tail =
              tail_after f n ys zs (l.tail ∙ last_or-append none ys (n ∷ zs))
              ∙ sym (last_or-append none ys (n ∷ f ∷ zs));
        },
      )

  -- A node that is in no list is inserted in front of a node of the list by `insert_before` and behind
  -- it by `insert_after`: both return, the other nodes keep their order, and the links, the head and
  -- the tail are those of the new list.
  pub insert-Yields :
      (f n : ℕ) (ys zs : List ℕ)
      → Lists nodes list (ys ++ n ∷ zs)
      → Unmounted nodes list f (ys ++ n ∷ zs)
      → Yields nodes list (insert_before nodes list f n) (ys ++ f ∷ n ∷ zs)
        × Yields nodes list (insert_after nodes list f n) (ys ++ n ∷ f ∷ zs)
  insert-Yields f n ys zs l u =
      (insert_before-Yields f n ys zs l u, insert_after-Yields f n ys zs l u)
