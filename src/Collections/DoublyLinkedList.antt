-- ===== src/Collections/DoublyLinkedList.antt =====
-- src/collections/doublylinkedlist.rs: a doubly linked list of shared nodes. A node is its number in
-- a store. `none` is a failed assertion, or a `borrow_mut` of a node that is borrowed already.
pub mod Links
pub mod Laws
pub mod Inserts
pub mod Removes
mod Tests
use libhermit_mpk.Prelude.{
  ℕ, zero, suc, Bool, true, false, not, ◌&&◌, Option, none, some, List, [], ◌∷◌, ◌==◌,
  if◌then◌else◌, ◌>>=◌, ◌>>◌, require, is_some,
}

pub record Node {ℓ} (T : Type ℓ) : Type ℓ where
  pub value : T
  pub prev : Option ℕ
  pub next : Option ℕ

pub record DoublyLinkedList : Type 0 where
  pub head : Option ℕ
  pub tail : Option ℕ

abbrev pub Nodes {ℓ} : Type ℓ → Type ℓ
Nodes T = ℕ → Node T

abbrev pub new_node {ℓ} : {T : Type ℓ} → T → Node T
new_node value = record { value = value; prev = none; next = none }

abbrev pub new : DoublyLinkedList
new = record { head = none; tail = none }

-- Whether a pointer is to the given node.
abbrev pub is_node : ℕ → Option ℕ → Bool
is_node a none = false
is_node a (some b) = a == b

module _ {ℓ} {T : Type ℓ} where
  abbrev pub set_prev : Nodes T → ℕ → Option ℕ → Nodes T
  set_prev nodes a p b = if a == b then record (nodes b) { prev = p } else nodes b

  abbrev pub set_next : Nodes T → ℕ → Option ℕ → Nodes T
  set_next nodes a n b = if a == b then record (nodes b) { next = n } else nodes b

  -- An assignment through a pointer, if it is not null.
  abbrev pub set_next_of : Nodes T → Option ℕ → Option ℕ → Nodes T
  set_next_of nodes none n = nodes
  set_next_of nodes (some a) n = set_next nodes a n

  abbrev pub set_prev_of : Nodes T → Option ℕ → Option ℕ → Nodes T
  set_prev_of nodes none p = nodes
  set_prev_of nodes (some a) p = set_prev nodes a p

  abbrev pub is_unmounted : Node T → Bool
  is_unmounted node = not (is_some node.prev) && not (is_some node.next)

  unfoldable pub push : Nodes T → DoublyLinkedList → ℕ → Option (Nodes T × DoublyLinkedList)
  push nodes list node = do
    require (is_unmounted (nodes node))
    require (not (is_node node list.tail))
    some (elim list.tail [
      | none ↦ (nodes, record { head = some node; tail = some node })
      | some tail ↦ (
        set_prev (set_next nodes tail (some node)) node (some tail),
        record list { tail = some node },
      )
    ])

  unfoldable pub insert_before :
      Nodes T → DoublyLinkedList → ℕ → ℕ → Option (Nodes T × DoublyLinkedList)
  insert_before nodes list fresh node = do
    require (not (fresh == node))
    require (is_unmounted (nodes fresh))
    let before = (nodes node).prev
    require (not (is_node fresh before) && not (is_node node before))
    some (
      set_prev
          (set_next (set_prev (set_next_of nodes before (some fresh)) fresh before) fresh
            (some node))
          node (some fresh),
      (if is_some before then list else record list { head = some fresh }),
    )

  unfoldable pub insert_after :
      Nodes T → DoublyLinkedList → ℕ → ℕ → Option (Nodes T × DoublyLinkedList)
  insert_after nodes list fresh node = do
    require (not (fresh == node))
    require (is_unmounted (nodes fresh))
    let after = (nodes node).next
    require (not (is_node fresh after) && not (is_node node after))
    some (
      set_next
          (set_prev (set_next (set_prev_of nodes after (some fresh)) fresh after) fresh (some node))
          node (some fresh),
      (if is_some after then list else record list { tail = some fresh }),
    )

  unfoldable pub remove : Nodes T → DoublyLinkedList → ℕ → Nodes T × DoublyLinkedList
  remove nodes list node =
      let before = (nodes node).prev in
      let after = (nodes node).next in
      let unmounted = set_next (set_prev nodes node none) node none in
      (
        set_prev_of (set_next_of unmounted before after) after before,
        record {
          head = if is_some before then list.head else after;
          tail = if is_some after then list.tail else before;
        },
      )

  -- `Iter::next`: the node that it yields, and its new current node.
  unfoldable pub next_node : Nodes T → Option ℕ → Option (ℕ × Option ℕ)
  next_node nodes none = none
  next_node nodes (some node) = some (node, (nodes node).next)

  -- The nodes that an iterator yields, at most as many as the fuel.
  unfoldable pub iterate : ℕ → Nodes T → Option ℕ → List ℕ
  unfolding next_node
  iterate zero nodes current = []
  iterate (suc fuel) nodes current = elim (next_node nodes current) [
    | none ↦ []
    | some (node, after) ↦ node ∷ iterate fuel nodes after
  ]
