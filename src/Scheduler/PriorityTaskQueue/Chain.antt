-- ===== src/Scheduler/PriorityTaskQueue/Chain.antt =====
-- A list of tasks in the store: linked forwards and backwards, each task once.
use libhermit_mpk.Prelude.{
  ℕ, ◌≡◌, refl, ap, ◌∙◌, Bool, true, false, ◌||◌, Option, none, some, List, [], ◌∷◌, ◌++◌, ◌==◌,
  arith,
}
use libhermit_mpk.Scheduler.Task.{Tasks, set_next, set_prev, set_links}

abbrev pub has : ℕ → List ℕ → Bool
has a [] = false
has a (x ∷ xs) = (x == a) || has a xs

-- From `head` the tasks `xs` are linked, with `before` in front of the first; `tail` is the last.
abbrev pub Chain : Tasks → Option ℕ → Option ℕ → Option ℕ → List ℕ → Type 0
Chain ts before head tail [] = (head ≡ none) × (tail ≡ before)
Chain ts before head tail (x ∷ xs) =
    (head ≡ some x)
    × ((ts x).prev ≡ before)
    × (has x xs ≡ false)
    × Chain ts (some x) (ts x).next tail xs

-- A change outside the tasks of a chain leaves it.
pub Chain-frame :
    (ts us : Tasks) (before head tail : Option ℕ) (xs : List ℕ)
    → ((a : ℕ) → has a xs ≡ true → us a ≡ ts a)
    → Chain ts before head tail xs
    → Chain us before head tail xs
Chain-frame ts us before head tail [] same c = c
Chain-frame ts us before head tail (x ∷ xs) same c =
    let e : us x ≡ ts x = same x (ground arith) in
    rw e (
      c.0,
      c.1,
      c.2,
      Chain-frame ts us (some x) (ts x).next tail xs (λ a m. same a (ground arith)) c.3,
    )

pub has-append : (a : ℕ) (xs ys : List ℕ) → has a (xs ++ ys) ≡ (has a xs || has a ys)
has-append a [] ys = refl
has-append a (x ∷ xs) ys = ground (arith, has-append a xs ys)

-- The tail of a chain that is not empty is one of its tasks.
pub tail-mem :
    (ts : Tasks) (before head : Option ℕ) (l x : ℕ) (xs : List ℕ)
    → Chain ts before head (some l) (x ∷ xs)
    → has l (x ∷ xs) ≡ true
tail-mem ts before head l x [] c = ground arith
tail-mem ts before head l x (y ∷ ys) c = ground (arith, tail-mem ts (some x) (ts x).next l y ys c.3)

-- A task that is not in the chain is linked behind its tail.
pub Chain-snoc :
    (ts : Tasks) (t : ℕ) (before head : Option ℕ) (l x : ℕ) (xs : List ℕ)
    → has t (x ∷ xs) ≡ false
    → Chain ts before head (some l) (x ∷ xs)
    → Chain
        (set_links (set_next ts l (some t)) t none (some l))
        before
        head
        (some t)
        (x ∷ xs ++ t ∷ [])
Chain-snoc ts t before head l x [] out c = ground arith
Chain-snoc ts t before head l x (y ∷ ys) out c = (
  c.0,
  ap (λ r. r.prev) same ∙ c.1,
  ground (arith, has-append x ys (t ∷ [])),
  rw same (Chain-snoc ts t (some x) (ts x).next l y ys (ground arith) c.3),
)
  where
    same : set_links (set_next ts l (some t)) t none (some l) x ≡ ts x
    same = ground (arith, tail-mem ts (some x) (ts x).next l y ys c.3)

-- The head of a chain is taken off, and no link leads to it any more.
pub Chain-uncons :
    (ts : Tasks) (before head tail : Option ℕ) (x y : ℕ) (ys : List ℕ)
    → Chain ts before head tail (x ∷ y ∷ ys)
    → Chain (set_links (set_prev ts y none) x none none) none (some y) tail (y ∷ ys)
Chain-uncons ts before head tail x y ys c = (
  refl,
  ground arith,
  c.3.2,
  rw next_lem (
      Chain-frame ts (set_links (set_prev ts y none) x none none) (some y) (ts y).next tail ys
        (λ a m. ground arith) c.3.3),
)
  where
    next_lem : (set_links (set_prev ts y none) x none none y).next ≡ (ts y).next
    next_lem = ground arith
