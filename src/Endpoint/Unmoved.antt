-- ===== src/Endpoint/Unmoved.antt =====
-- dtls.c: a check of the handshake parameters and a message that is sent assign no state of the peer
-- and change neither its receive counter nor its queue of early messages.
use mathlib.Core.Option
use tinydtls.Base.{
  ap, sym, ◌++◌, false, true, Option, Bool, refl, ◌∙◌, ◌≡◌, ℕ, List, Bytes, some, none,
}
use tinydtls.Handshake.{Step, update_hs_hash}
use tinydtls.Handshake.Order.{order_of, order_in}
use tinydtls.Send.{set_mseq, Net, send_parts, send_handshake_msg_hash, hash_if}
use tinydtls.Endpoint.{asked_once, Host, and_then, on_params, send_body}
use tinydtls.Endpoint.Order.{order_h, order_left}
use tinydtls.Alert.{fail, ok, Result}
use tinydtls.Peer.{Peer, Session, Handshake, params_switch}

-- A step that leaves the state of the peer `p`, its receive counter and its queue of early messages.
unfoldable pub Unmoved : Peer → Step Net → Type 0
Unmoved p s = (s.1.0.state ≡ p.state) × (order_of s.1.0 ≡ order_of p)

pub and_then-Unmoved :
    (p : Peer) (s : Step Net) (rest : ℕ → Peer → Net → Step Net)
    → Unmoved p s
    → ((n : ℕ) (q : Peer) (w : Net) → Unmoved q (rest n q w))
    → Unmoved p (and_then s rest)
unfolding Unmoved
and_then-Unmoved p (fail n, (q, w)) rest e next = e
and_then-Unmoved p (ok n, (q, w)) rest e next = let (s, o) = next n q w in (s ∙ e.0, o ∙ e.1)

pub kept : (r : Result ℕ) (p : Peer) (w : Net) → Unmoved p (r, (p, w))
unfolding Unmoved
kept r p w = (refl, refl)

map_hash-order :
    (d : Bytes) (o : Option Handshake)
    → order_in (Option.map (λ (h : Handshake). record h { hs_hash = h.hs_hash ++ d }) o)
      ≡ order_in o
map_hash-order d none = refl
map_hash-order d (some h) = refl

update_hs_hash-order : (p : Peer) (d : Bytes) → order_of (update_hs_hash p d) ≡ order_of p
unfolding update_hs_hash
update_hs_hash-order p d = map_hash-order d p.handshake

update_hs_hash-state : (p : Peer) (d : Bytes) → (update_hs_hash p d).state ≡ p.state
unfolding update_hs_hash
update_hs_hash-state p d = refl

pub behind-update_hs_hash :
    (p : Peer) (d : Bytes) (s : Step Net) → Unmoved (update_hs_hash p d) s → Unmoved p s
unfolding Unmoved
behind-update_hs_hash p d s e = (e.0 ∙ update_hs_hash-state p d, e.1 ∙ update_hs_hash-order p d)

pub behind-params_switch : (p : Peer) (s : Step Net) → Unmoved (params_switch p) s → Unmoved p s
unfolding Unmoved params_switch
behind-params_switch p s e = e

behind-params :
    (p : Peer) (h h' : Handshake)
    → p.handshake ≡ some h
    → order_h h' ≡ order_h h
    → (s : Step Net) → Unmoved (record p { handshake = some h' }) s
    → Unmoved p s
unfolding Unmoved
behind-params p h h' e same s u = (u.0, u.1 ∙ ap some same ∙ ap order_in (sym e))

pub state_kept : (p : Peer) (s : Step Net) → Unmoved p s → s.1.0.state ≡ p.state
unfolding Unmoved
state_kept p s e = e.0

pub order_kept : (p : Peer) (s : Step Net) → Unmoved p s → order_of s.1.0 ≡ order_of p
unfolding Unmoved
order_kept p s e = e.1

hash_if-kept :
    (add_hash : Bool) (d : Bytes) (p : Peer)
    → ((hash_if add_hash d p).state ≡ p.state) × (order_of (hash_if add_hash d p) ≡ order_of p)
hash_if-kept true d p = (update_hs_hash-state p d, update_hs_hash-order p d)
hash_if-kept false d p = (refl, refl)

set_mseq-order : (n : Option ℕ) (o : Option Handshake) → order_in (set_mseq n o) ≡ order_in o
set_mseq-order none o = refl
set_mseq-order (some n) none = refl
set_mseq-order (some n) (some h) = refl

module _ (host : Host) where
  pub on_params-Unmoved :
      (check : Handshake → Option (Result ℕ × Handshake)) (p : Peer) (w : Net)
      → ((h : Handshake) → order_left h (check h) ≡ order_h h)
      → Unmoved p (on_params host check p w)
  unfolding on_params
  on_params-Unmoved check p w keeps = by_params p.handshake refl
    where
      by_check :
          (h : Handshake) (e : p.handshake ≡ some h) (o : Option (Result ℕ × Handshake))
          → order_left h o ≡ order_h h
          → Unmoved p (elim o [
            | none ↦ (host.beyond, (p, w))
            | some (r, h') ↦ (r, (record p { handshake = some h' }, w))
          ])
      by_check h e none k = kept host.beyond p w
      by_check h e (some (r, h')) k =
          behind-params p h h' e k _ (kept r (record p { handshake = some h' }) w)

      by_params :
          (o : Option Handshake)
          → p.handshake ≡ o
          → Unmoved p (elim o [
            | none ↦ (host.beyond, (p, w))
            | some h ↦ elim (check h) [
              | none ↦ (host.beyond, (p, w))
              | some (r, h') ↦ (r, (record p { handshake = some h' }, w))
            ]
          ])
      by_params none e = kept host.beyond p w
      by_params (some h) e = by_check h e (check h) (keeps h)

  pub send_parts-Unmoved :
      (p : Peer) (session : Session) (type : ℕ) (parts : List Bytes) (w : Net)
      → Unmoved p (send_parts host.set_key host.env p session type parts w)
  unfolding Unmoved send_parts
  send_parts-Unmoved p session type parts w = (refl, refl)

  pub send_handshake_msg_hash-Unmoved :
      (p : Peer) (session : Session) (type : ℕ) (body : Option Bytes) (add_hash : Bool) (w : Net)
      → Unmoved p (send_handshake_msg_hash host.set_key host.env p session type body add_hash w)
  unfolding Unmoved send_handshake_msg_hash send_parts
  send_handshake_msg_hash-Unmoved p session type body add_hash w =
      let hashed = hash_if-kept add_hash _ _ in (hashed.0, hashed.1 ∙ set_mseq-order _ p.handshake)

  pub send_body-Unmoved :
      (type : ℕ) (add_hash : Bool) (build : Handshake → Option (Result Bytes × Handshake))
      (p : Peer) (w : Net)
      → ((h : Handshake) → order_left h (build h) ≡ order_h h)
      → Unmoved p (send_body host type add_hash build p w)
  unfolding send_body
  send_body-Unmoved type add_hash build p w keeps = by_params p.handshake refl
    where
      out : Result Bytes × Handshake → Step Net
      out (r, h') =
          let p = record p { handshake = some h' } in
          elim r [
            | fail n ↦ (fail n, (p, w))
            | ok body ↦
                send_handshake_msg_hash host.set_key host.env p p.session type (some body) add_hash
                  (asked_once w)
          ]

      by_result :
          (r : Result Bytes) (h' : Handshake)
          → Unmoved (record p { handshake = some h' }) (out (r, h'))
      by_result (fail n) h' = kept (fail n) (record p { handshake = some h' }) w
      by_result (ok body) h' =
          send_handshake_msg_hash-Unmoved (record p { handshake = some h' }) p.session type
            (some body) add_hash (asked_once w)

      by_build :
          (h : Handshake) (e : p.handshake ≡ some h) (o : Option (Result Bytes × Handshake))
          → order_left h o ≡ order_h h
          → Unmoved p (elim o [ none ↦ (host.beyond, (p, w)) | some b ↦ out b ])
      by_build h e none k = kept host.beyond p w
      by_build h e (some (r, h')) k = behind-params p h h' e k _ (by_result r h')

      by_params :
          (o : Option Handshake)
          → p.handshake ≡ o
          → Unmoved p (elim o [
            | none ↦ (host.beyond, (p, w))
            | some h ↦ elim (build h) [ none ↦ (host.beyond, (p, w)) | some b ↦ out b ]
          ])
      by_params none e = kept host.beyond p w
      by_params (some h) e = by_build h e (build h) (keeps h)
