-- ===== src/Collections/DoublyLinkedList/Links.antt =====
-- Which list of nodes a doubly linked list stands for.
use libhermit_mpk.Prelude.{
  Bool-cases, inl, inr, ℕ, ◌≡◌, refl, sym, ap, ◌∙◌, Bool, true, false, ◌||◌, Option, none, some,
  List, [], ◌∷◌, ◌++◌, ◌==◌, arith,
}
use native.Mathlib.Decide.{ℕ_discrete}
use libhermit_mpk.Collections.DoublyLinkedList.{
  Nodes, DoublyLinkedList, set_prev, set_next, set_prev_of, set_next_of,
}

abbrev pub has : ℕ → List ℕ → Bool
has a [] = false
has a (x ∷ xs) = (x == a) || has a xs

abbrev pub Distinct : List ℕ → Type 0
Distinct [] = Unit
Distinct (x ∷ xs) = (has x xs ≡ false) × Distinct xs

-- The first node, or what comes behind an empty list; the last node, or what comes before it.
abbrev pub first_or : List ℕ → Option ℕ → Option ℕ
first_or [] q = q
first_or (x ∷ xs) q = some x

abbrev pub last_or : Option ℕ → List ℕ → Option ℕ
last_or p [] = p
last_or p (x ∷ xs) = last_or (some x) xs

pub last-has :
    (y : ℕ) (xs : List ℕ) → (z : ℕ) × (last_or (some y) xs ≡ some z) × (has z (y ∷ xs) ≡ true)
last-has y [] = (y, refl, ground arith)
last-has y (x ∷ xs) = let (z, e, inside) = last-has x xs in (z, e, ground (arith, inside))

-- A node of the list is another than one that is not in it.
pub has_ne : (z x : ℕ) (xs : List ℕ) → has z xs ≡ true → has x xs ≡ false → (z == x) ≡ false
has_ne z x xs inside out = elim (ℕ_discrete z x) [
  | yes e ↦ let both : true ≡ false = sym inside ∙ ap (λ t. has t xs) e ∙ out in absurd (cc)
  | no ne ↦ ground arith
]

pub has-append : (a : ℕ) (xs ys : List ℕ) → has a (xs ++ ys) ≡ (has a xs || has a ys)
has-append a [] ys = refl
has-append a (x ∷ xs) ys = ground (arith, has-append a xs ys)

pub first_or-append :
    (xs ys : List ℕ) (q : Option ℕ) → first_or (xs ++ ys) q ≡ first_or xs (first_or ys q)
first_or-append [] ys q = refl
first_or-append (x ∷ xs) ys q = refl

pub last_or-append :
    (p : Option ℕ) (xs ys : List ℕ) → last_or p (xs ++ ys) ≡ last_or (last_or p xs) ys
last_or-append p [] ys = refl
last_or-append p (x ∷ xs) ys = last_or-append (some x) xs ys

-- The parts of a list without repetitions.
pub record Parts (xs ys : List ℕ) : Type 0 where
  pub front : Distinct xs
  pub back : Distinct ys
  pub apart : (a : ℕ) → has a xs ≡ true → has a ys ≡ false

pub Distinct-Parts : (xs ys : List ℕ) → Distinct (xs ++ ys) → Parts xs ys
Distinct-Parts [] ys d = record { front = tt; back = d; apart = λ a h. absurd (cc) }
Distinct-Parts (x ∷ xs) ys d =
    let r = Distinct-Parts xs ys d.1 in
    record {
      front = (ground (arith, d.0, has-append x xs ys), r.front);
      back = r.back;
      apart = λ a h. elim (ℕ_discrete x a) [
        | yes e ↦ ap (λ t. has t ys) (sym e) ∙ ground (arith, d.0, has-append x xs ys)
        | no ne ↦ r.apart a (ground (arith, h))
      ];
    }

pub Distinct-append : (xs ys : List ℕ) → Parts xs ys → Distinct (xs ++ ys)
Distinct-append [] ys r = r.back
Distinct-append (x ∷ xs) ys r = (
  ground (arith, has-append x xs ys, r.front.0, r.apart x (ground arith)),
  Distinct-append xs ys
      (record { front = r.front.1; back = r.back; apart = λ a h. r.apart a (ground (arith, h)) }),
)

-- The last node is in the list.
pub last_or-has : (xs : List ℕ) (z : ℕ) → last_or none xs ≡ some z → has z xs ≡ true
last_or-has [] z e = absurd (cc)
last_or-has (x ∷ xs) z e =
    let (l, e', inside) = last-has x xs in
    let same : l ≡ z = cc in ap (λ t. has t (x ∷ xs)) (sym same) ∙ inside

pub front-out : (ys zs : List ℕ) (n : ℕ) → Parts ys (n ∷ zs) → has n ys ≡ false
front-out ys zs n r = elim (Bool-cases (has n ys)) [
  | inl inside ↦
      let own : has n (n ∷ zs) ≡ true = ground arith in
      let both : true ≡ false = sym own ∙ r.apart n inside in absurd (cc)
  | inr out ↦ out
]

pub ==_flip : (a b : ℕ) → (a == b) ≡ false → (b == a) ≡ false
==_flip a b e = ground arith

pub ==_own : (a : ℕ) → (a == a) ≡ true
==_own a = ground arith

module _ {ℓ} {T : Type ℓ} where
  -- The nodes `xs` are linked to one another, with `p` before the first and `q` behind the last.
  abbrev pub Links : Nodes T → Option ℕ → List ℕ → Option ℕ → Type 0
  Links nodes p [] q = Unit
  Links nodes p (x ∷ xs) q =
      ((nodes x).prev ≡ p) × ((nodes x).next ≡ first_or xs q) × Links nodes (some x) xs q

  -- The list has exactly the nodes `xs`, in this order.
  pub record Lists (nodes : Nodes T) (list : DoublyLinkedList) (xs : List ℕ) : Type 0 where
    pub distinct : Distinct xs
    pub links : Links nodes none xs none
    pub head : list.head ≡ first_or xs none
    pub tail : list.tail ≡ last_or none xs

  -- The links of a list depend on its own nodes.
  pub Links-frame :
      (nodes nodes' : Nodes T) (p q : Option ℕ) (xs : List ℕ)
      → ((a : ℕ)
          → has a xs ≡ true
          → (((nodes' a).prev ≡ (nodes a).prev) × ((nodes' a).next ≡ (nodes a).next)))
      → Links nodes p xs q
      → Links nodes' p xs q
  Links-frame nodes nodes' p q [] same l = l
  Links-frame nodes nodes' p q (x ∷ xs) same l =
      let s = same x (ground arith) in
      (
        s.0 ∙ l.0,
        s.1 ∙ l.1,
        Links-frame nodes nodes' (some x) q xs (λ a h. same a (ground arith)) l.2,
      )

  pub Links-split :
      (nodes : Nodes T) (p q : Option ℕ) (xs ys : List ℕ)
      → Links nodes p (xs ++ ys) q
      → Links nodes p xs (first_or ys q) × Links nodes (last_or p xs) ys q
  Links-split nodes p q [] ys l = (tt, l)
  Links-split nodes p q (x ∷ []) ys l = ((l.0, l.1, tt), l.2)
  Links-split nodes p q (x ∷ y ∷ xs) ys l =
      let r = Links-split nodes (some x) q (y ∷ xs) ys l.2 in ((l.0, l.1, r.0), r.1)

  pub Links-append :
      (nodes : Nodes T) (p q : Option ℕ) (xs ys : List ℕ)
      → Links nodes p xs (first_or ys q)
      → Links nodes (last_or p xs) ys q
      → Links nodes p (xs ++ ys) q
  Links-append nodes p q [] ys l r = r
  Links-append nodes p q (x ∷ []) ys l r = (l.0, l.1, r)
  Links-append nodes p q (x ∷ y ∷ xs) ys l r =
      (l.0, l.1, Links-append nodes (some x) q (y ∷ xs) ys l.2 r)

  -- A list gets another node behind its last one.
  pub Links-set_next :
      (nodes : Nodes T) (p q q' : Option ℕ) (xs : List ℕ)
      → Distinct xs
      → Links nodes p xs q
      → Links (set_next_of nodes (last_or none xs) q') p xs q'
  Links-set_next nodes p q q' [] d l = tt
  Links-set_next nodes p q q' (x ∷ []) d l = ground (arith, l.0)
  Links-set_next nodes p q q' (x ∷ y ∷ xs) d l =
      let (z, e, inside) = last-has y xs in
      let other : (z == x) ≡ false = ground (arith, has_ne z x (y ∷ xs) inside d.0) in
      (
        rw e (rw other (l.0)),
        rw e (rw other (l.1)),
        Links-set_next nodes (some x) q q' (y ∷ xs) d.1 l.2,
      )

  -- A list gets another node before its first one.
  pub Links-set_prev :
      (nodes : Nodes T) (p p' q : Option ℕ) (xs : List ℕ)
      → Distinct xs
      → Links nodes p xs q
      → Links (set_prev_of nodes (first_or xs none) p') p' xs q
  Links-set_prev nodes p p' q [] d l = tt
  Links-set_prev nodes p p' q (x ∷ xs) d l =
      let own : (x == x) ≡ true = ground arith in
      (
        rw own refl,
        rw own (l.1),
        Links-frame nodes (set_prev nodes x p') (some x) q xs
            (λ a inside.
              let other : (x == a) ≡ false = ground (arith, has_ne a x xs inside d.0) in
              rw other (refl, refl))
            l.2,
      )

  -- Assignments to nodes outside a list.
  pub keep_prev :
      (nodes : Nodes T) (a : ℕ) (v p q : Option ℕ) (xs : List ℕ)
      → has a xs ≡ false
      → Links nodes p xs q
      → Links (set_prev nodes a v) p xs q
  keep_prev nodes a v p q xs out = Links-frame nodes (set_prev nodes a v) p q xs λ b inside.
      let other : (a == b) ≡ false = ground (arith, has_ne b a xs inside out) in
      rw other (refl, refl)

  pub keep_next :
      (nodes : Nodes T) (a : ℕ) (v p q : Option ℕ) (xs : List ℕ)
      → has a xs ≡ false
      → Links nodes p xs q
      → Links (set_next nodes a v) p xs q
  keep_next nodes a v p q xs out = Links-frame nodes (set_next nodes a v) p q xs λ b inside.
      let other : (a == b) ≡ false = ground (arith, has_ne b a xs inside out) in
      rw other (refl, refl)

  pub keep_next_of :
      (nodes : Nodes T) (o v p q : Option ℕ) (xs : List ℕ)
      → ((a : ℕ) → o ≡ some a → has a xs ≡ false)
      → Links nodes p xs q
      → Links (set_next_of nodes o v) p xs q
  keep_next_of nodes none v p q xs out l = l
  keep_next_of nodes (some a) v p q xs out l = keep_next nodes a v p q xs (out a refl) l

  pub keep_prev_of :
      (nodes : Nodes T) (o v p q : Option ℕ) (xs : List ℕ)
      → ((a : ℕ) → o ≡ some a → has a xs ≡ false)
      → Links nodes p xs q
      → Links (set_prev_of nodes o v) p xs q
  keep_prev_of nodes none v p q xs out l = l
  keep_prev_of nodes (some a) v p q xs out l = keep_prev nodes a v p q xs (out a refl) l
