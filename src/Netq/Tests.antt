-- ===== src/Netq/Tests.antt =====
-- Runs of the queue.
use tinydtls.Netq.{Node, Queue, insert_node}
use tinydtls.Base.{[], arith, ℕ, ◌↔◌, ◌∷◌}
use tinydtls.Netq.Order.{IsSorted, AllUpTo, insert_node-IsSorted_iff}

abbrev node_at : ℕ → ℕ → Node
node_at a t = record {
  addr = a;
  t = t;
  timeout = 2;
  peer = 0;
  epoch = 0;
  content_type = 22;
  retransmit_cnt = 0;
  bytes = 1 ∷ [];
}

abbrev waiting : Queue
waiting = node_at 1 10 ∷ node_at 2 20 ∷ node_at 3 30 ∷ []

waiting-IsSorted : IsSorted waiting
waiting-IsSorted = ((omega arith, (omega arith, tt)), ((omega arith, tt), (tt, tt)))

insert_node-IsSorted_iff_example :
    IsSorted (insert_node waiting (node_at 4 20)) ↔ AllUpTo (node_at 4 20) waiting
insert_node-IsSorted_iff_example = insert_node-IsSorted_iff waiting (node_at 4 20) waiting-IsSorted
