-- ===== src/Handshake/Waiting.antt =====
-- The queue of the messages that came too early, as handle_handshake searches, fills and empties it.
use tinydtls.Base.{
  Option, ap, false, length, refl, subst, suc, sym, true, zero, ◌∙◌, All, Bool-cases, [], arith,
  inl, inr, none, some, ℕ, ◌<◌, ◌==◌, ◌∷◌, ◌≡◌, ◌≢◌, ◌≤◌,
}
use tinydtls.Header.{message_seq}
use tinydtls.Handshake.Reorder.{stored, find_seq}
use tinydtls.Netq.{Node, Queue, insert_node, list_insert, list_push, list_remove, remove}

-- The message number of a node.
abbrev pub seq_of : Node → ℕ
seq_of x = message_seq x.bytes

abbrev pub Apart : Node → Node → Type 0
Apart x y = x.addr ≢ y.addr × seq_of x ≢ seq_of y

-- No two nodes share an address or a number.
abbrev pub AllApart : Queue → Type 0
AllApart [] = Unit
AllApart (x ∷ q) = All (Apart x) q × AllApart q

abbrev pub AllFrom : ℕ → Queue → Type 0
AllFrom n q = All (λ (x : Node). n ≤ seq_of x) q

-- Every node waits for a message that is still to come.
abbrev pub AllAfter : ℕ → Queue → Type 0
AllAfter n q = All (λ (x : Node). n < seq_of x) q

-- The queue between two calls of handle_handshake, for the counter `n`.
abbrev pub IsWaiting : ℕ → Queue → Type 0
IsWaiting n q = AllAfter n q × AllApart q

AllAfter-of_Apart :
    (n : ℕ) (x : Node) (q : Queue) → seq_of x ≡ n → All (Apart x) q → AllFrom n q → AllAfter n q
AllAfter-of_Apart n x [] e a h = tt
AllAfter-of_Apart n x (y ∷ q) e a h =
    (ground (arith, a.0.1, h.0), AllAfter-of_Apart n x q e a.1 h.1)

pub find_seq-none : (n : ℕ) (q : Queue) → find_seq n q ≡ none → AllFrom n q → AllAfter n q
unfolding find_seq
find_seq-none n [] e h = tt
find_seq-none n (x ∷ q) e h = elim (Bool-cases (seq_of x == n)) [
  | inl hit ↦ absurd (ground (arith, e))
  | inr miss ↦ ground (arith, find_seq-none n q, h.0, h.1)
]

find_hit : (n : ℕ) (x : Node) (q : Queue) → (seq_of x == n) ≡ true → find_seq n (x ∷ q) ≡ some x
unfolding find_seq
find_hit n x q e = rw e refl

find_miss :
    (n : ℕ) (x : Node) (q : Queue) → (seq_of x == n) ≡ false → find_seq n (x ∷ q) ≡ find_seq n q
unfolding find_seq
find_miss n x q e = rw e refl

-- What holds of every node holds of the one that is found.
pub find_seq-All :
    (P : Node → Type 0) (n : ℕ) (q : Queue) (y : Node) → find_seq n q ≡ some y → All P q → P y
unfolding find_seq
find_seq-All P n [] y e h = absurd (cc e)
find_seq-All P n (x ∷ q) y e h = elim (Bool-cases (seq_of x == n)) [
  | inl hit ↦ subst P (cc (find_hit n x q hit, e)) h.0
  | inr miss ↦ find_seq-All P n q y (sym (find_miss n x q miss) ∙ e) h.1
]

list_remove-All : (P : Node → Type 0) (q : Queue) (a : ℕ) → All P q → All P (list_remove q a)
unfolding list_remove
list_remove-All P [] a h = tt
list_remove-All P (x ∷ q) a h = elim (Bool-cases (x.addr == a)) [
  | inl hit ↦ rw hit h.1
  | inr miss ↦ rw miss (h.0, list_remove-All P q a h.1)
]

-- The node that is found leaves, and the others then come after its number.
pub remove-found :
    (n : ℕ) (q : Queue) (y : Node)
    → find_seq n q ≡ some y
    → AllFrom n q
    → AllApart q
    → IsWaiting n (remove q y) × (suc (length (remove q y)) ≡ length q)
unfolding remove list_remove find_seq
remove-found n [] y e h a = absurd (cc e)
remove-found n (x ∷ q) y e h a = elim (Bool-cases (seq_of x == n)) [
  | inl hit ↦
      let same : x.addr ≡ y.addr =
        ap (λ (o : Option Node). elim o [ none ↦ 0 | some z ↦ z.addr ])
          (sym (find_hit n x q hit) ∙ e) in
      let this : (x.addr == y.addr) ≡ true = ground (arith, same) in
      rw this ((AllAfter-of_Apart n x q (ground (arith, hit)) a.0 h.1, a.1), refl)
  | inr miss ↦
      let later = sym (find_miss n x q miss) ∙ e in
      let rest = remove-found n q y later h.1 a.1 in
      let other = find_seq-All (Apart x) n q y later a.0 in
      let differ : (x.addr == y.addr) ≡ false = ground (arith, other.0) in
      rw differ (
        ((ground (arith, miss, h.0), rest.0.0), (list_remove-All _ q y.addr a.0, rest.0.1)),
        ap suc rest.1,
      )
]

Apart-sym : (x y : Node) → Apart x y → Apart y x
Apart-sym x y h = (λ e. h.0 (sym e), λ e. h.1 (sym e))

list_insert-All :
    (P : Node → Type 0) (q : Queue) (i : ℕ) (x : Node) → P x → All P q → All P (list_insert q i x)
unfolding list_insert
list_insert-All P [] i x h a = (h, tt)
list_insert-All P (y ∷ q) zero x h a = (a.0, (h, a.1))
list_insert-All P (y ∷ q) (suc i) x h a = (a.0, list_insert-All P q i x h a.1)

list_insert-AllApart :
    (q : Queue) (i : ℕ) (x : Node) → All (Apart x) q → AllApart q → AllApart (list_insert q i x)
unfolding list_insert
list_insert-AllApart [] i x h a = (tt, tt)
list_insert-AllApart (y ∷ q) zero x h a = ((Apart-sym x y h.0, a.0), (h.1, a.1))
list_insert-AllApart (y ∷ q) (suc i) x h a =
    (list_insert-All (Apart y) q i x (Apart-sym x y h.0) a.0, list_insert-AllApart q i x h.1 a.1)

-- A number that is not stored is apart from all.
stored-Apart :
    (x : Node) (q : Queue)
    → stored (seq_of x) q ≡ false
    → All (λ (y : Node). x.addr ≢ y.addr) q
    → All (Apart x) q
unfolding stored
stored-Apart x [] e f = tt
stored-Apart x (y ∷ q) e f =
    ((f.0, λ same. absurd (ground (arith, e, same))), stored-Apart x q (ground (arith, e)) f.1)

-- A node at a new address, with a new number from further on, may join.
pub insert_node-IsWaiting :
    (n : ℕ) (q : Queue) (x : Node)
    → n < seq_of x
    → stored (seq_of x) q ≡ false
    → All (λ (y : Node). x.addr ≢ y.addr) q
    → IsWaiting n q
    → IsWaiting n (insert_node q x)
unfolding insert_node list_push
insert_node-IsWaiting n [] x h e f w = ((h, tt), (tt, tt))
insert_node-IsWaiting n (y ∷ q) x h e f w = (
  list_insert-All _ (y ∷ q) _ x h w.0,
  list_insert-AllApart (y ∷ q) _ x (stored-Apart x (y ∷ q) e f) w.1,
)

pub insert_node-All :
    (P : Node → Type 0) (q : Queue) (x : Node) → P x → All P q → All P (insert_node q x)
unfolding insert_node list_push
insert_node-All P [] x h a = (h, a)
insert_node-All P (y ∷ q) x h a = list_insert-All P (y ∷ q) _ x h a

pub remove-All : (P : Node → Type 0) (q : Queue) (x : Node) → All P q → All P (remove q x)
unfolding remove
remove-All P q x a = list_remove-All P q x.addr a
