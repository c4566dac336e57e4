-- ===== src/Handshake/Order.antt =====
-- What one call of handle_handshake_msg does to the receive counter and to the queue of the messages
-- that came too early: the checks and sending functions leave them alone, and only an accepted
-- message moves the counter.
use tinydtls.Base.{
  [], Bool, Bytes, Option, ap, false, if◌then◌else◌, none, refl, some, subst, sym, true, u16, ℕ,
  ◌+◌, ◌≡◌,
}
use tinydtls.Handshake.{
  Step, Peer, after, update_hs_hash, clear_hs_hash, finish, ok, fail, Outcome, Calls,
}
use tinydtls.Alert.{Result}
use tinydtls.Peer.{Handshake}
use tinydtls.Netq.{Queue}
use tinydtls.Cipher.{Context}
use tinydtls.Handshake.States.{Keeps}
use mathlib.Core.Option

-- The counter and the queue, where there are handshake parameters.
abbrev pub order_in : Option Handshake → Option (ℕ × Queue)
order_in none = none
order_in (some h) = some (h.mseq_r, h.reorder_queue)

abbrev pub order_of : Peer → Option (ℕ × Queue)
order_of p = order_in p.handshake

abbrev pub order_after : {W : Type 0} → Outcome W → Option (ℕ × Queue)
order_after (r, (none, w)) = none
order_after (r, (some p, w)) = order_of p

-- From a counter and a queue, or from no parameters: all stays, the parameters are freed, the counter
-- moves, or there are new parameters with an empty queue.
pub data Advance (o : Option (ℕ × Queue)) : Result ℕ → Option (ℕ × Queue) → Type 0 where
  same : {r : Result ℕ} → Advance o r o
  freed : {r : Result ℕ} → Advance o r none
  next : {n k : ℕ} {q : Queue} → o ≡ some (n, q) → Advance o (ok k) (some (u16 (n + 1), q))
  created : {n : ℕ} {r : Result ℕ} → o ≡ none → Advance o r (some (n, []))

-- What new parameters become.
pub Advance-created :
    {m : ℕ} {r : Result ℕ} {x : Option (ℕ × Queue)} → Advance (some (m, [])) r x → Advance none r x
Advance-created same = created refl
Advance-created freed = freed
Advance-created (next {n = n} {k = k} {q = q} e) =
    subst (λ (q : Queue). Advance none (ok k) (some (u16 (n + 1), q)))
      (ap (λ (o : Option (ℕ × Queue)). elim o [ none ↦ [] | some y ↦ y.1 ]) e) (created refl)
Advance-created (created e) = absurd (cc e)

module _ {W : Type 0} (ctx : Context) (calls : Calls W) (keeps : Keeps order_of calls)
    (o : Option (ℕ × Queue)) where
  abbrev pub Advances : Outcome W → Type 0
  Advances x = Advance o x.0 (order_after x)

  abbrev pub InOrder : Peer → Type 0
  InOrder p = order_of p ≡ o

  pub stays-Advances : (r : Result ℕ) (p : Peer) (w : W) → InOrder p → Advances (r, (some p, w))
  stays-Advances r p w e = subst (Advance o r) (sym e) same

  pub after-Advances :
      (step : Step W) (rest : ℕ → Peer → W → Outcome W)
      → InOrder step.1.0
      → ((k : ℕ) (p : Peer) (w : W) → InOrder p → Advances (rest k p w))
      → Advances (after step rest)
  after-Advances (ok k, (p, w)) rest e passed = passed k p w e
  after-Advances (fail k, (p, w)) rest e passed = stays-Advances (fail k) p w e

  finish_with :
      (x : Option Handshake) (k : ℕ)
      → order_in x ≡ o
      → Advance o
          (ok k)
          (order_in (Option.map (λ (h : Handshake). record h { mseq_r = u16 (h.mseq_r + 1) }) x))
  finish_with none k e = subst (λ (y : Option (ℕ × Queue)). Advance o (ok k) y) (sym e) same
  finish_with (some h) k e = next (sym e)

  pub finish-Advances : (err : ℕ) (p : Peer) (w : W) → InOrder p → Advances (finish err p w)
  unfolding finish
  finish-Advances err p w e = finish_with p.handshake err e

  -- The digest of the messages is another field.
  map_same :
      (f : Handshake → Handshake) (o : Option Handshake)
      → ((h : Handshake) → (f h).mseq_r ≡ h.mseq_r × (f h).reorder_queue ≡ h.reorder_queue)
      → order_in (Option.map f o) ≡ order_in o
  map_same f none kept = refl
  map_same f (some h) kept = rw ((kept h).0, (kept h).1) refl

  pub update_hs_hash-order : (p : Peer) (d : Bytes) → order_of (update_hs_hash p d) ≡ order_of p
  unfolding update_hs_hash
  update_hs_hash-order p d = map_same _ p.handshake (λ h. (refl, refl))

  pub clear_hs_hash-order : (p : Peer) → order_of (clear_hs_hash p) ≡ order_of p
  unfolding clear_hs_hash
  clear_hs_hash-order p = map_same _ p.handshake (λ h. (refl, refl))

  pub if-Advances :
      (b : Bool) (x y : Outcome W) → Advances x → Advances y → Advances (if b then x else y)
  if-Advances true x y h h' = h
  if-Advances false x y h h' = h'
