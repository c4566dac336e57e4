-- ===== src/Netq/Order.antt =====
-- netq_insert_node: which nodes the queue holds afterwards, and when they are in order of time.
use tinydtls.Base.{
  false, true, ◌↔◌, inr, inl, leb, Bool-cases, arith, ◌++◌, ◌≡◌, ℕ, zero, suc, ◌≤◌, [], ◌∷◌, All,
  refl, sym, leb→le,
}
use tinydtls.Netq.{insert_pos, Node, Queue, insert_node, list_insert}
use mathlib.Core.List.{Perm}
use mathlib.Core.Path.{subst}
use mathlib.Core.List.Perm

-- The time stamps do not fall from the head on.
abbrev pub IsSorted : Queue → Type 0
IsSorted [] = Unit
IsSorted (x ∷ q) = All (λ (y : Node). x.t ≤ y.t) q × IsSorted q

-- No stamp of the queue is later than that of the node.
abbrev pub AllUpTo : Node → Queue → Type 0
AllUpTo n q = All (λ (y : Node). y.t ≤ n.t) q

list_insert-perm : (q : Queue) (i : ℕ) (n : Node) → Perm (list_insert q i n) (n ∷ q)
unfolding list_insert
list_insert-perm [] i n = Perm.refl _
list_insert-perm (x ∷ q) zero n = Perm.swap n x q
list_insert-perm (x ∷ q) (suc i) n =
    Perm.trans (Perm.cons x (list_insert-perm q i n)) (Perm.swap n x q)

-- `netq_insert_node` adds the node and loses none.
pub insert_node-perm : (q : Queue) (n : Node) → Perm (insert_node q n) (n ∷ q)
unfolding insert_node
insert_node-perm [] n = Perm.refl _
insert_node-perm (x ∷ q) n = list_insert-perm (x ∷ q) _ n

list_insert_last :
    (x : Node) (q : Queue) (n : Node)
    → AllUpTo n (x ∷ q)
    → list_insert (x ∷ q) (insert_pos (x ∷ q) n) n ≡ (x ∷ q) ++ (n ∷ [])
unfolding list_insert insert_pos
list_insert_last x [] n h = refl
list_insert_last x (y ∷ q) n h = ground (arith, list_insert_last y q n h.1)

-- A node that is due last is put at the end.
pub insert_node_last : (q : Queue) (n : Node) → AllUpTo n q → insert_node q n ≡ q ++ (n ∷ [])
unfolding insert_node
insert_node_last [] n h = refl
insert_node_last (x ∷ q) n h = list_insert_last x q n h

AllUpTo-append :
    (x n : Node) (q : Queue)
    → x.t ≤ n.t
    → All (λ (y : Node). x.t ≤ y.t) q
    → All (λ (y : Node). x.t ≤ y.t) (q ++ (n ∷ []))
AllUpTo-append x n [] h a = (h, tt)
AllUpTo-append x n (y ∷ q) h a = (a.0, AllUpTo-append x n q h a.1)

IsSorted-append : (q : Queue) (n : Node) → IsSorted q → AllUpTo n q → IsSorted (q ++ (n ∷ []))
IsSorted-append [] n s h = (tt, tt)
IsSorted-append (x ∷ q) n s h = (AllUpTo-append x n q h.0 s.0, IsSorted-append q n s.1 h.1)

-- One round of the loop, and its end at a later node.
insert_on :
    (x y : Node) (q : Queue) (n : Node)
    → leb x.t n.t ≡ true
    → list_insert (x ∷ y ∷ q) (insert_pos (x ∷ y ∷ q) n) n
      ≡ x ∷ list_insert (y ∷ q) (insert_pos (y ∷ q) n) n
unfolding list_insert insert_pos
insert_on x y q n e = rw e

insert_stop :
    (x y : Node) (q : Queue) (n : Node)
    → leb x.t n.t ≡ false
    → list_insert (x ∷ y ∷ q) (insert_pos (x ∷ y ∷ q) n) n ≡ x ∷ n ∷ y ∷ q
unfolding list_insert insert_pos
insert_stop x y q n e = rw e

AllUpTo-of_IsSorted :
    (x : Node) (q : Queue) (n : Node)
    → IsSorted (list_insert (x ∷ q) (insert_pos (x ∷ q) n) n)
    → AllUpTo n (x ∷ q)
unfolding list_insert insert_pos
AllUpTo-of_IsSorted x [] n s = (s.0.0, tt)
AllUpTo-of_IsSorted x (y ∷ q) n s = elim (Bool-cases (leb x.t n.t)) [
  | inl e ↦
      let s' = subst IsSorted (insert_on x y q n e) s in
      (leb→le x.t n.t e, AllUpTo-of_IsSorted y q n s'.1)
  | inr e ↦ let s' = subst IsSorted (insert_stop x y q n e) s in absurd (ground (arith, s'.0.0))
]

-- A queue in order of time stays in order under `netq_insert_node` exactly when no node of it is
-- due later than the new one.
pub insert_node-IsSorted_iff :
    (q : Queue) (n : Node) → IsSorted q → (IsSorted (insert_node q n) ↔ AllUpTo n q)
unfolding insert_node
insert_node-IsSorted_iff [] n s = (λ _. tt, λ _. (tt, tt))
insert_node-IsSorted_iff (x ∷ q) n s = (
  AllUpTo-of_IsSorted x q n,
  λ h. subst IsSorted (sym (list_insert_last x q n h)) (IsSorted-append (x ∷ q) n s h),
)
