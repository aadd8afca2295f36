-- ===== src/Scheduler/PriorityTaskQueue/Unlinks.antt =====
-- `remove` of a task that is not the last of its list.
use libhermit_mpk.Prelude.{
  ℕ, ◌≡◌, ◌≢◌, refl, sym, ap, ◌∙◌, subst, true, false, Option, none, some, List, [], ◌∷◌, ◌++◌,
  arith,
}
use libhermit_mpk.Scheduler.Task.{Tasks}
use libhermit_mpk.Scheduler.PriorityTaskQueue.{relink_next, relink_prev}
use libhermit_mpk.Scheduler.PriorityTaskQueue.Chain.{has, has-append, Chain, Chain-frame}

abbrev pub head_of : List ℕ → Option ℕ → ℕ → Option ℕ
head_of [] head y = some y
head_of (x ∷ xs) head y = head

-- The task in front of `t` is one of `x ∷ xs`.
pub prev-mem :
    (ts : Tasks) (before head tail : Option ℕ) (x : ℕ) (xs : List ℕ) (t : ℕ) (rest : List ℕ)
    → Chain ts before head tail (x ∷ xs ++ t ∷ rest)
    → (l : ℕ) × ((ts t).prev ≡ some l) × (has l (x ∷ xs) ≡ true)
prev-mem ts before head tail x [] t rest c = (x, c.3.1, ground arith)
prev-mem ts before head tail x (z ∷ zs) t rest c =
    let (l, e, m) = prev-mem ts (some x) (ts x).next tail z zs t rest c.3 in (l, e, ground arith)

abbrev pub unlinked : Tasks → Option ℕ → ℕ → Tasks
unlinked ts p y = relink_prev (relink_next ts p (some y)) (some y) p

pub unlinked-other :
    (ts : Tasks) (p : Option ℕ) (y a : ℕ) → p ≢ some a → a ≢ y → unlinked ts p y a ≡ ts a
unlinked-other ts none y a np ny = ground arith
unlinked-other ts (some l) y a np ny = ground (arith, λ (e : l ≡ a). np (ap some e))

unlinked-y :
    (ts : Tasks) (p : Option ℕ) (y : ℕ)
    → p ≢ some y
    → ((unlinked ts p y y).prev ≡ p) × ((unlinked ts p y y).next ≡ (ts y).next)
unlinked-y ts none y ne = (ground arith, ground arith)
unlinked-y ts (some l) y ne =
    let other : l ≢ y = λ (e : l ≡ y). ne (ap some e) in (ground arith, ground arith)

unlinked-p :
    (ts : Tasks) (y l : ℕ)
    → l ≢ y
    → ((unlinked ts (some l) y l).next ≡ some y) × ((unlinked ts (some l) y l).prev ≡ (ts l).prev)
unlinked-p ts y l ne = (ground arith, ground arith)

-- No task of the list is the one in front of it.
abbrev pub NotIn : Option ℕ → List ℕ → Type 0
NotIn before xs = (a : ℕ) → has a xs ≡ true → before ≢ some a

pub NotIn-some : (x : ℕ) (xs : List ℕ) → has x xs ≡ false → NotIn (some x) xs
NotIn-some x xs out a m e = ground arith

pub has-removed :
    (x : ℕ) (xs : List ℕ) (t : ℕ) (ys : List ℕ)
    → has x (xs ++ t ∷ ys) ≡ false
    → (has x (xs ++ ys) ≡ false) × (has x xs ≡ false) × (has x ys ≡ false)
has-removed x xs t ys out =
    let e = has-append x xs (t ∷ ys) in
    let e' = has-append x xs ys in (ground arith, ground arith, ground arith)

-- The first task of a list is taken out.
Chain-unlink_first :
    (ts : Tasks) (before head tail : Option ℕ) (t y : ℕ) (ys : List ℕ)
    → NotIn before (t ∷ y ∷ ys)
    → Chain ts before head tail (t ∷ y ∷ ys)
    → Chain (unlinked ts (ts t).prev y) before (some y) tail (y ∷ ys)
Chain-unlink_first ts before head tail t y ys out c =
    let ny : before ≢ some y = out y (ground arith) in
    let at = unlinked-y ts before y ny in
    subst (λ p. Chain (unlinked ts p y) before (some y) tail (y ∷ ys)) (sym c.1)
      (
        refl,
        at.0,
        c.3.2,
        subst (λ n. Chain (unlinked ts before y) (some y) n tail ys) (sym at.1)
            (Chain-frame ts (unlinked ts before y) (some y) (ts y).next tail ys
              (λ a m. unlinked-other ts before y a (out a (ground arith)) (ground arith)) c.3.3),
      )

pub Chain-unlink :
    (ts : Tasks) (before head tail : Option ℕ) (xs : List ℕ) (t y : ℕ) (ys : List ℕ)
    → NotIn before (xs ++ t ∷ y ∷ ys)
    → Chain ts before head tail (xs ++ t ∷ y ∷ ys)
    → Chain (unlinked ts (ts t).prev y) before (head_of xs head y) tail (xs ++ y ∷ ys)
Chain-unlink ts before head tail [] t y ys out c =
    Chain-unlink_first ts before head tail t y ys out c
Chain-unlink ts before head tail (x ∷ []) t y ys out c =
    let rest =
      Chain-unlink_first ts (some x) (ts x).next tail t y ys (NotIn-some x (t ∷ y ∷ ys) c.2) c.3 in
    let at = unlinked-p ts y x (ground arith) in
    (
      c.0,
      ap (λ p. (unlinked ts p y x).prev) c.3.1 ∙ at.1 ∙ c.1,
      ground arith,
      subst (λ n. Chain (unlinked ts (ts t).prev y) (some x) n tail (y ∷ ys))
          (sym (ap (λ p. (unlinked ts p y x).next) c.3.1 ∙ at.0)) rest,
    )
Chain-unlink ts before head tail (x ∷ z ∷ zs) t y ys out c =
    let rest =
      Chain-unlink ts (some x) (ts x).next tail (z ∷ zs) t y ys
        (NotIn-some x (z ∷ zs ++ t ∷ y ∷ ys) c.2) c.3 in
    let (l, pe, lm) = prev-mem ts (some x) (ts x).next tail z zs t (y ∷ ys) c.3 in
    let gone = has-removed x (z ∷ zs) t (y ∷ ys) c.2 in
    let same : unlinked ts (ts t).prev y x ≡ ts x =
      unlinked-other ts (ts t).prev y x (λ e. NotIn-some x (z ∷ zs) gone.1 l lm (sym e ∙ pe))
        (ground (arith, gone.2)) in
    (
      c.0,
      ap (λ r. r.prev) same ∙ c.1,
      gone.0,
      subst (λ n. Chain (unlinked ts (ts t).prev y) (some x) n tail (z ∷ zs ++ y ∷ ys))
          (sym (ap (λ r. r.next) same)) rest,
    )
