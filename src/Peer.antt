-- ===== src/Peer.antt =====
-- peer.h, peer.c, session.c and the constructors of crypto.c: the state of one connection. An
-- allocation is a Boolean argument that says whether memory is found.
pub mod Equality
pub mod Codes
pub mod Params
mod Tests
use tinydtls.Base.{
  Bool, Bytes, Option, [], false, if◌then◌else◌, ltb, map, none, not, replicate, some, true, u16, ℕ,
  ◌&&◌, ◌+◌, ◌==◌, ◌||◌, ◌∷◌,
}
use tinydtls.Crypto.{Role, client}
use tinydtls.Header.{Security}
use tinydtls.Netq.{Queue}
use mathlib.Core.Option

-- dtls_state_t, in the order of the enumeration
pub data State : Type 0 where
  init wait_clienthello wait_clientcertificate wait_clientkeyexchange : State
  wait_certificateverify wait_changecipherspec wait_finished finished : State
  clienthello wait_servercertificate wait_serverkeyexchange wait_serverhellodone : State
  connected closing closed : State

abbrev pub state_code : State → ℕ
state_code init = 0
state_code wait_clienthello = 1
state_code wait_clientcertificate = 2
state_code wait_clientkeyexchange = 3
state_code wait_certificateverify = 4
state_code wait_changecipherspec = 5
state_code wait_finished = 6
state_code finished = 7
state_code clienthello = 8
state_code wait_servercertificate = 9
state_code wait_serverkeyexchange = 10
state_code wait_serverhellodone = 11
state_code connected = 12
state_code closing = 13
state_code closed = 14

-- p->state == q
abbrev pub state_eq : State → State → Bool
state_eq p q = state_code p == state_code q

-- The part of session_t that its family makes use of.
pub data Address : Type 0 where
  sin : ℕ → Bytes → Address
  sin6 : ℕ → Bytes → Address
  other_family : ℕ → Address

abbrev pub family : Address → ℕ
family (sin port addr) = 2
family (sin6 port addr) = 10
family (other_family f) = f

-- session_t
pub record Session : Type 0 where
  pub size : ℕ
  pub addr : Address
  pub ifindex : ℕ

-- memcmp(a, b, n) == 0, for addresses of one length
abbrev pub bytes_eq : Bytes → Bytes → Bool
bytes_eq [] [] = true
bytes_eq [] (y ∷ b) = false
bytes_eq (x ∷ a) [] = false
bytes_eq (x ∷ a) (y ∷ b) = x == y && bytes_eq a b

-- The switch of _dtls_address_equals_impl.
pub addr_eq : Address → Address → Bool
addr_eq (sin p a) (sin q b) = p == q && bytes_eq a b
addr_eq (sin6 p a) (sin6 q b) = p == q && bytes_eq a b
addr_eq _ _ = false

pub dtls_session_equals : Session → Session → Bool
unfolding addr_eq
dtls_session_equals a b =
    if not (a.ifindex == b.ifindex)
      || (not (a.size == b.size) || not (family a.addr == family b.addr))
    then false
    else addr_eq a.addr b.addr

-- dtls_handshake_parameters_t. `tmp` is the union of the two randoms and the master secret, and
-- `hs_hash` the bytes that the handshake hash has taken in. The members of the union `keyx` are
-- separate fields: the code reads the member that goes with the cipher.
pub record Handshake : Type 0 where
  pub tmp : Bytes
  pub mseq_s : ℕ
  pub mseq_r : ℕ
  pub hs_hash : Bytes
  pub hs_compression : ℕ
  pub hs_cipher : ℕ
  pub do_client_auth : Bool
  pub own_eph_priv : Bytes
  pub other_pub_x : Bytes
  pub other_pub_y : Bytes
  pub other_eph_pub_x : Bytes
  pub other_eph_pub_y : Bytes
  pub identity : Bytes
  pub reorder_queue : Queue

-- dtls_peer_t
pub record Peer : Type 0 where
  pub session : Session
  pub role : Role
  pub state : State
  pub params0 : Option Security
  pub params1 : Option Security
  pub handshake : Option Handshake

-- dtls_security_new, with TLS_NULL_WITH_NULL_NULL and TLS_COMPRESSION_NULL
unfoldable pub security_new : Security
security_new = record {
  compression = 0;
  cipher = 0;
  epoch = 0;
  rseq = 0;
  key_block = replicate 40 0;
}

-- dtls_handshake_new, after the memset
unfoldable pub handshake_new : Handshake
handshake_new = record {
  tmp = replicate 64 0;
  mseq_s = 0;
  mseq_r = 0;
  hs_hash = [];
  hs_compression = 0;
  hs_cipher = 0;
  do_client_auth = false;
  own_eph_priv = replicate 32 0;
  other_pub_x = replicate 32 0;
  other_pub_y = replicate 32 0;
  other_eph_pub_x = replicate 32 0;
  other_eph_pub_y = replicate 32 0;
  identity = [];
  reorder_queue = [];
}

-- dtls_new_peer: `none` where one of the three allocations fails. The role is that of the memset.
unfoldable pub new_peer : Bool → Bool → Bool → Session → Option Peer
new_peer peer_ok sec0_ok sec1_ok s =
    if not peer_ok || (not sec0_ok || not sec1_ok)
    then none
    else some (record {
      session = s;
      role = client;
      state = init;
      params0 = some security_new;
      params1 = some security_new;
      handshake = none;
    })

-- dtls_security_params_epoch
unfoldable pub params_epoch : Peer → ℕ → Option Security
params_epoch p epoch = elim p.params0 [
  | some s ↦
      if s.epoch == epoch
      then some s
      else elim p.params1 [ some t ↦ if t.epoch == epoch then some t else none | none ↦ none ]
  | none ↦ elim p.params1 [ some t ↦ if t.epoch == epoch then some t else none | none ↦ none ]
]

-- dtls_security_params_next: the old second parameters are freed and new ones made for the next
-- epoch. The code reads params[0] without a check; `none` there is the fault.
unfoldable pub params_next : Bool → Peer → Peer × Option Security
params_next new_ok p =
    let next =
      Option.map (λ (s : Security). record security_new { epoch = u16 (s.epoch + 1) }) p.params0 in
    if new_ok then (record p { params1 = next }, next) else (record p { params1 = none }, none)

-- dtls_security_params_free_other
unfoldable pub params_free_other : Peer → Peer
params_free_other p = elim p.params0 [
  | none ↦ p
  | some s ↦ elim p.params1 [
    | none ↦ p
    | some t ↦ if ltb s.epoch t.epoch then p else record p { params1 = none }
  ]
]

-- dtls_security_params_switch
unfoldable pub params_switch : Peer → Peer
params_switch p = record p { params0 = p.params1; params1 = p.params0 }
