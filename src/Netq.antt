-- ===== src/Netq.antt =====
-- netq.c over the list functions of t_list.h. A `list_t` is the list of its nodes from the head on;
-- a node is told from the others by its address, `addr`, as LL_DELETE of utlist.h does. A pointer
-- that walks along the list is the position it has reached.
pub mod Order
pub mod Remove
mod Tests
use tinydtls.Base.{
  ℕ, zero, suc, ◌+◌, Bool, true, false, ◌&&◌, Option, none, some, List, [], ◌∷◌, length, Bytes, leb,
  ◌==◌, if◌then◌else◌,
}

-- netq_t; `data` holds its `length` bytes, and `peer` is the address of the peer.
pub record Node : Type 0 where
  pub addr : ℕ
  pub t : ℕ
  pub timeout : ℕ
  pub peer : ℕ
  pub epoch : ℕ
  pub content_type : ℕ
  pub retransmit_cnt : ℕ
  pub bytes : Bytes

abbrev pub Queue : Type 0
Queue = List Node

unfoldable pub list_head : Queue → Option Node
list_head [] = none
list_head (x ∷ q) = some x

unfoldable pub list_push : Queue → Node → Queue
list_push q item = item ∷ q

-- LL_DELETE: the first node at that address is unlinked; where there is none, nothing happens.
unfoldable pub list_remove : Queue → ℕ → Queue
list_remove [] item = []
list_remove (x ∷ q) item = if x.addr == item then q else x ∷ list_remove q item

-- The node that is returned, and the list that is left.
unfoldable pub list_pop : Queue → Option Node × Queue
unfolding list_head list_remove
list_pop [] = (none, [])
list_pop (x ∷ q) = (some x, list_remove (x ∷ q) x.addr)

-- list_insert with `previtem` at position `i`.
unfoldable pub list_insert : Queue → ℕ → Node → Queue
list_insert [] i new = new ∷ []
list_insert (x ∷ q) zero new = x ∷ new ∷ q
list_insert (x ∷ q) (suc i) new = x ∷ list_insert q i new

-- The loop of netq_insert_node: the position of `p` when it stops, for `p` at the head of a list.
--   while(p && p->t <= node->t && list_item_next(p)) p = list_item_next(p);
pub insert_pos : Queue → Node → ℕ
insert_pos [] node = 0
insert_pos (p ∷ []) node = 0
insert_pos (p ∷ next ∷ q) node = if leb p.t node.t then suc (insert_pos (next ∷ q) node) else 0

-- The result is always 1.
unfoldable pub insert_node : Queue → Node → Queue
unfolding list_push list_insert insert_pos
insert_node [] node = list_push [] node
insert_node (p ∷ q) node = list_insert (p ∷ q) (insert_pos (p ∷ q) node) node

unfoldable pub head : Queue → Option Node
unfolding list_head
head q = list_head q

unfoldable pub remove : Queue → Node → Queue
unfolding list_remove
remove q p = list_remove q p.addr

unfoldable pub pop_first : Queue → Option Node × Queue
unfolding list_pop
pop_first q = list_pop q

-- while((p = list_pop(queue))) netq_free_node(p); with a count of rounds: the addresses that are
-- freed, in order, and the queue that is left.
pub delete_loop : ℕ → Queue → List ℕ × Queue
delete_loop zero q = ([], q)
delete_loop (suc rounds) q =
    let (p, q') = list_pop q in
    elim p [
      | none ↦ ([], q')
      | some n ↦ let (freed, left) = delete_loop rounds q' in (n.addr ∷ freed, left)
    ]

-- netq_delete_all; a queue of n nodes is popped n + 1 times.
pub delete_all : Queue → List ℕ × Queue
delete_all q = delete_loop (suc (length q)) q
