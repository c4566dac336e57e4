-- ===== src/Netq/Remove.antt =====
-- netq_remove, netq_pop_first and netq_delete_all: what is unlinked, and what stays.
use tinydtls.Base.{
  false, length, subst, sym, true, zero, ◌<◌, ◌≢◌, All, arith, if◌then◌else◌, suc, ◌==◌, ℕ, ◌∷◌,
  refl, ◌≡◌,
}
use mathlib.Core.List.{[], ◌∷◌, map}
use tinydtls.Netq.{Node, Queue, list_pop, list_remove, remove, delete_loop, delete_all}
use tinydtls.Netq.Order.{IsSorted}

-- The nodes at other addresses, in their order.
abbrev pub others : ℕ → Queue → Queue
others a [] = []
others a (x ∷ q) = if x.addr == a then others a q else x ∷ others a q

-- No two nodes stand at one address.
abbrev pub HasDistinctAddrs : Queue → Type 0
HasDistinctAddrs [] = Unit
HasDistinctAddrs (x ∷ q) = All (λ (y : Node). x.addr ≢ y.addr) q × HasDistinctAddrs q

others_absent : (a : ℕ) (q : Queue) → All (λ (y : Node). a ≢ y.addr) q → others a q ≡ q
others_absent a [] h = refl
others_absent a (x ∷ q) h = ground (arith, others_absent a q h.1, h.0)

list_remove-eq-others : (q : Queue) (a : ℕ) → HasDistinctAddrs q → list_remove q a ≡ others a q
unfolding list_remove
list_remove-eq-others [] a h = refl
list_remove-eq-others (x ∷ q) a h =
    ground (arith, list_remove-eq-others q a h.1, others_absent x.addr q h.0)

All-others : (P : Node → Type 0) (a : ℕ) (q : Queue) → All P q → All P (others a q)
All-others P a [] h = h
All-others P a (x ∷ q) h =
    elim (x.addr == a) as (λ b. All P (if b then others a q else x ∷ others a q)) [
      | true ↦ All-others P a q h.1
      | false ↦ (h.0, All-others P a q h.1)
    ]

IsSorted-others : (a : ℕ) (q : Queue) → IsSorted q → IsSorted (others a q)
IsSorted-others a [] s = s
IsSorted-others a (x ∷ q) s =
    elim (x.addr == a) as (λ b. IsSorted (if b then others a q else x ∷ others a q)) [
      | true ↦ IsSorted-others a q s.1
      | false ↦ (All-others _ a q s.0, IsSorted-others a q s.1)
    ]

-- `netq_remove` unlinks the node and no other, and a queue in order of time stays so, where no two
-- nodes stand at one address.
pub remove_lem :
    (q : Queue) (n : Node)
    → HasDistinctAddrs q
    → IsSorted q
    → (remove q n ≡ others n.addr q) × IsSorted (remove q n)
unfolding remove
remove_lem q n h s = (
  list_remove-eq-others q n.addr h,
  subst IsSorted (sym (list_remove-eq-others q n.addr h)) (IsSorted-others n.addr q s),
)

delete_loop_lem :
    (q : Queue) (rounds : ℕ)
    → length q < rounds
    → delete_loop rounds q ≡ (map (λ (n : Node). n.addr) q, [])
unfolding delete_loop list_pop
delete_loop_lem q zero h = absurd (omega arith)
delete_loop_lem [] (suc rounds) h = refl
delete_loop_lem (x ∷ q) (suc rounds) h = ground (arith, delete_loop_lem q rounds)

-- `netq_delete_all` frees every node of the queue once, in order, and leaves the queue empty.
pub delete_all_lem : (q : Queue) → delete_all q ≡ (map (λ (n : Node). n.addr) q, [])
unfolding delete_all
delete_all_lem q = delete_loop_lem q (suc (length q)) (omega arith)
