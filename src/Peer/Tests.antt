-- ===== src/Peer/Tests.antt =====
-- A run of the comparison of sessions.
use tinydtls.Base.{arith, none, refl, some, ◌+◌, [], replicate, ◌∷◌, ◌≡◌}
use tinydtls.Peer.{params_epoch, params_free_other, Peer, wait_finished, sin, sin6, Session}
use tinydtls.Header.{Security}
use tinydtls.Peer.Params.{changed, next_params, params_epoch-changed}
use tinydtls.Crypto.{server}

abbrev local_session : Session
local_session = record { size = 16; addr = sin 5684 (127 ∷ 0 ∷ 0 ∷ 1 ∷ []); ifindex = 0 }

abbrev other_session : Session
other_session = record { size = 28; addr = sin6 5684 (replicate 16 1); ifindex = 0 }

abbrev plain : Security
plain = record { compression = 0; cipher = 0; epoch = 0; rseq = 9; key_block = [] }

abbrev peer : Peer
peer = record {
  session = local_session;
  role = server;
  state = wait_finished;
  params0 = some plain;
  params1 = none;
  handshake = none;
}

params_epoch-changed_example :
    (params_epoch (changed peer) (plain.epoch + 1) ≡ some (next_params plain))
    × (params_epoch (changed peer) plain.epoch ≡ some plain)
    × (params_epoch (params_free_other (changed peer)) (plain.epoch + 1) ≡ some (next_params plain))
    × (params_epoch (params_free_other (changed peer)) plain.epoch ≡ none)
params_epoch-changed_example = params_epoch-changed peer plain refl (omega arith)
