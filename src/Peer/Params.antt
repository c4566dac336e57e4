-- ===== src/Peer/Params.antt =====
-- The security parameters of two epochs through a change of keys.
use tinydtls.Base.{
  Option, ap, arith, false, ltb, refl, ◌==◌, none, some, true, u16, ◌+◌, ◌<◌, ◌^◌, ◌≡◌,
}
use tinydtls.Peer.{Peer, security_new, params_epoch, params_next, params_free_other, params_switch}
use tinydtls.Header.{Security}
use mathlib.Core.Option

-- The peer after the key change: the parameters of the next epoch were made and the two
-- switched.
abbrev pub changed : Peer → Peer
changed p = params_switch (params_next true p).0

-- The parameters that the change makes.
abbrev pub next_params : Security → Security
next_params s = record security_new { epoch = u16 (s.epoch + 1) }

abbrev with_params : Peer → Option Security → Option Security → Peer
with_params p a b = record p { params0 = a; params1 = b }

changed_lem :
    (p : Peer) (s : Security)
    → p.params0 ≡ some s
    → changed p ≡ with_params p (some (next_params s)) (some s)
unfolding params_next params_switch
changed_lem p s e =
    ap (λ (o : Option Security). with_params p (Option.map (λ (x : Security). next_params x) o) o) e

-- The lookups with the parameters of an epoch and of the one before it.
lookups :
    (p : Peer) (n s : Security)
    → n.epoch ≡ s.epoch + 1
    → (params_epoch (with_params p (some n) (some s)) (s.epoch + 1) ≡ some n)
      × (params_epoch (with_params p (some n) (some s)) s.epoch ≡ some s)
      × (params_epoch (params_free_other (with_params p (some n) (some s))) (s.epoch + 1) ≡ some n)
      × (params_epoch (params_free_other (with_params p (some n) (some s))) s.epoch ≡ none)
unfolding params_epoch params_free_other
lookups p n s e =
    let new_found : (n.epoch == s.epoch + 1) ≡ true = ground arith in
    let not_old : (n.epoch == s.epoch) ≡ false = ground arith in
    let old_found : (s.epoch == s.epoch) ≡ true = ground arith in
    let older : ltb n.epoch s.epoch ≡ false = ground arith in
    (
      rw new_found refl,
      rw (not_old, old_found) refl,
      rw (older, new_found) refl,
      rw (older, not_old) refl,
    )

-- Through a change of keys, below the last epoch, the parameters of the new epoch and those of the old one are
-- both found by their epoch; once the other parameters are dropped, the new ones are still found and the old
-- ones are not.
pub params_epoch-changed :
    (p : Peer) (s : Security)
    → p.params0 ≡ some s
    → s.epoch + 1 < 2 ^ 16
    → (params_epoch (changed p) (s.epoch + 1) ≡ some (next_params s))
      × (params_epoch (changed p) s.epoch ≡ some s)
      × (params_epoch (params_free_other (changed p)) (s.epoch + 1) ≡ some (next_params s))
      × (params_epoch (params_free_other (changed p)) s.epoch ≡ none)
params_epoch-changed p s e h =
    let wraps : (next_params s).epoch ≡ s.epoch + 1 = omega (arith, h) in
    rw (changed_lem p s e) (lookups p (next_params s) s wraps)
