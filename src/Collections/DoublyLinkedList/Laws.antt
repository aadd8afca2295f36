-- ===== src/Collections/DoublyLinkedList/Laws.antt =====
-- What the operations do to the list that a doubly linked list stands for.
use libhermit_mpk.Prelude.{
  Bool-cases, inl, inr, ℕ, subst, ◌≡◌, refl, sym, ap, ◌∙◌, true, false, Option, none, some, List,
  [], ◌∷◌, ◌++◌, ◌==◌, arith,
}
use libhermit_mpk.Collections.DoublyLinkedList.{
  Nodes, DoublyLinkedList, is_node, set_prev, set_next, set_prev_of, set_next_of, push,
}
use libhermit_mpk.Collections.DoublyLinkedList.Links.{
  has, Distinct, first_or, last_or, Links, Lists, last-has, has_ne, has-append, last_or-append,
  Parts, Distinct-Parts, Distinct-append, last_or-has, Links-split, ==_flip, ==_own, Links-append,
  Links-set_next, keep_prev,
}

module _ {ℓ} {T : Type ℓ} (nodes : Nodes T) (list : DoublyLinkedList) where
  -- An operation returns, and leaves a list with exactly these nodes.
  abbrev pub Yields : Option (Nodes T × DoublyLinkedList) → List ℕ → Type ℓ
  Yields r xs =
      (nodes' : Nodes T) × (list' : DoublyLinkedList) × (r ≡ some (nodes', list'))
      × Lists nodes' list' xs

  -- A node in no list.
  pub record Unmounted (node : ℕ) (xs : List ℕ) : Type 0 where
    pub absent : has node xs ≡ false
    pub no_prev : (nodes node).prev ≡ none
    pub no_next : (nodes node).next ≡ none

  snoc-Distinct : (n : ℕ) (xs : List ℕ) → Distinct xs → has n xs ≡ false → Distinct (xs ++ n ∷ [])
  snoc-Distinct n xs d out = Distinct-append xs (n ∷ []) (record {
    front = d;
    back = (refl, tt);
    apart = λ a inside.
        let other : (n == a) ≡ false = ground (arith, has_ne a n xs inside out) in rw other refl;
  })

  push_some :
      (n x : ℕ) (xs : List ℕ)
      → Lists nodes list (x ∷ xs)
      → Unmounted n (x ∷ xs)
      → Yields (push nodes list n) (x ∷ xs ++ n ∷ [])
  unfolding push
  push_some n x xs l u =
      let (z, e, inside) = last-has x xs in
      let other : (z == n) ≡ false = has_ne z n (x ∷ xs) inside u.absent in
      let other' : (n == z) ≡ false = ==_flip z n other in
      let own : (n == n) ≡ true = ==_own n in
      (
        set_prev (set_next nodes z (some n)) n (some z),
        record list { tail = some n },
        rw (u.no_prev, u.no_next, l.tail, e, other') refl,
        record {
          distinct = snoc-Distinct n (x ∷ xs) l.distinct u.absent;
          links =
              Links-append (set_prev (set_next nodes z (some n)) n (some z)) none none (x ∷ xs)
                (n ∷ [])
                (keep_prev (set_next nodes z (some n)) n (some z) none (some n) (x ∷ xs) u.absent (
                  subst (λ o. Links (set_next_of nodes o (some n)) none (x ∷ xs) (some n)) e
                    (Links-set_next nodes none none (some n) (x ∷ xs) l.distinct l.links)))
                (rw (e, own) refl, rw (own, other) (u.no_next), tt);
          head = l.head;
          tail = sym (last_or-append none (x ∷ xs) (n ∷ []));
        },
      )

  push_none : (n : ℕ) → Lists nodes list [] → Unmounted n [] → Yields (push nodes list n) (n ∷ [])
  unfolding push
  push_none n l u = (
    nodes,
    record { head = some n; tail = some n },
    rw (u.no_prev, u.no_next, l.tail) refl,
    record { distinct = (refl, tt); links = (u.no_prev, u.no_next, tt); head = refl; tail = refl },
  )

  -- A node that is in no list is appended.
  pub push-Yields :
      (n : ℕ) (xs : List ℕ)
      → Lists nodes list xs
      → Unmounted n xs
      → Yields (push nodes list n) (xs ++ n ∷ [])
  push-Yields n [] l u = push_none n l u
  push-Yields n (x ∷ xs) l u = push_some n x xs l u

  -- Where a node stands in the list.
  pub record At (ys : List ℕ) (n : ℕ) (zs : List ℕ) : Type ℓ where
    pub parts : Parts ys (n ∷ zs)
    pub front : Links nodes none ys (some n)
    pub back : Links nodes (last_or none ys) (n ∷ zs) none

  pub at : (ys : List ℕ) (n : ℕ) (zs : List ℕ) → Lists nodes list (ys ++ n ∷ zs) → At ys n zs
  at ys n zs l = record {
    parts = Distinct-Parts ys (n ∷ zs) l.distinct;
    front = (Links-split nodes none none ys (n ∷ zs) l.links).0;
    back = (Links-split nodes none none ys (n ∷ zs) l.links).1;
  }

  pub inserted-Distinct :
      (ys : List ℕ) (f : ℕ) (zs : List ℕ)
      → Distinct (ys ++ zs)
      → has f (ys ++ zs) ≡ false
      → Distinct (ys ++ f ∷ zs)
  inserted-Distinct ys f zs d out =
      let r = Distinct-Parts ys zs d in
      Distinct-append ys (f ∷ zs) (record {
        front = r.front;
        back = (ground (arith, has-append f ys zs), r.back);
        apart = λ a inside.
            let other : (a == f) ≡ false =
              has_ne a f ys inside (ground (arith, has-append f ys zs)) in
            ground (arith, r.apart a inside);
      })

  -- A pointer to the last node of the front is not to a node behind it.
  pub not_last :
      (ys zs : List ℕ) (a : ℕ) → Parts ys zs → last_or none ys ≡ some a → has a zs ≡ false
  not_last ys zs a r e = r.apart a (last_or-has ys a e)

  pub is_node_out : (ys : List ℕ) (n : ℕ) → has n ys ≡ false → is_node n (last_or none ys) ≡ false
  is_node_out [] n out = refl
  is_node_out (y ∷ ys) n out =
      let (z, e, inside) = last-has y ys in
      let other : (n == z) ≡ false = ground (arith, has_ne z n (y ∷ ys) inside out) in rw e other

pub first_or-has : (zs : List ℕ) (b : ℕ) → first_or zs none ≡ some b → has b zs ≡ true
first_or-has [] b e = absurd (cc)
first_or-has (z ∷ zs) b e =
    let same : z ≡ b = cc in
    let test : (z == b) ≡ true = ap (◌==◌ z) (sym same) ∙ ==_own z in rw test refl

-- A pointer to the first node of the back is not to a node before it.
pub not_first :
    (ys zs : List ℕ) (b : ℕ)
    → ((c : ℕ) → has c ys ≡ true → has c zs ≡ false)
    → first_or zs none ≡ some b
    → has b ys ≡ false
not_first ys zs b apart e = elim (Bool-cases (has b ys)) [
  | inl inside ↦ let both : true ≡ false = sym (first_or-has zs b e) ∙ apart b inside in absurd (cc)
  | inr out ↦ out
]

pub first_out : (a : ℕ) (zs : List ℕ) → has a zs ≡ false → is_node a (first_or zs none) ≡ false
first_out a [] out = refl
first_out a (z ∷ zs) out = ground arith

module _ {ℓ} {T : Type ℓ} where
  -- An assignment to another node.
  pub set_prev_of-other :
      (nodes : Nodes T) (o v : Option ℕ) (n : ℕ)
      → is_node n o ≡ false
      → set_prev_of nodes o v n ≡ nodes n
  set_prev_of-other nodes none v n e = refl
  set_prev_of-other nodes (some b) v n e = rw (==_flip n b e) refl

  pub set_next_of-other :
      (nodes : Nodes T) (o v : Option ℕ) (n : ℕ)
      → is_node n o ≡ false
      → set_next_of nodes o v n ≡ nodes n
  set_next_of-other nodes none v n e = refl
  set_next_of-other nodes (some b) v n e = rw (==_flip n b e) refl
