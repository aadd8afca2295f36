-- ===== src/Collections.antt =====
-- src/collections: the list behind the free lists and the queues of blocked tasks.
pub mod DoublyLinkedList
