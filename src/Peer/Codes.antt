-- ===== src/Peer/Codes.antt =====
-- The comparison of connection states.
use tinydtls.Base.{suc, zero, List, [], ◌∷◌, ap, arith, refl, sym, true, ℕ, ◌∙◌, ◌≡◌}
use tinydtls.Peer.{
  State, state_code, state_eq, init, wait_clienthello, wait_clientcertificate,
  wait_clientkeyexchange, wait_certificateverify, wait_changecipherspec, wait_finished, finished,
  clienthello, wait_servercertificate, wait_serverkeyexchange, wait_serverhellodone, connected,
  closing, closed,
}

-- The state at a position of a list, and of a number of the enumeration.
nth : List State → ℕ → State
nth [] n = closed
nth (s ∷ states) zero = s
nth (s ∷ states) (suc n) = nth states n

of_code : ℕ → State
of_code = nth (
    init ∷ wait_clienthello ∷ wait_clientcertificate ∷ wait_clientkeyexchange
    ∷ wait_certificateverify ∷ wait_changecipherspec ∷ wait_finished ∷ finished ∷ clienthello
    ∷ wait_servercertificate ∷ wait_serverkeyexchange ∷ wait_serverhellodone ∷ connected ∷ closing
    ∷ closed ∷ [])

of_code-state_code : (s : State) → of_code (state_code s) ≡ s
unfolding of_code nth
of_code-state_code init = refl
of_code-state_code wait_clienthello = refl
of_code-state_code wait_clientcertificate = refl
of_code-state_code wait_clientkeyexchange = refl
of_code-state_code wait_certificateverify = refl
of_code-state_code wait_changecipherspec = refl
of_code-state_code wait_finished = refl
of_code-state_code finished = refl
of_code-state_code clienthello = refl
of_code-state_code wait_servercertificate = refl
of_code-state_code wait_serverkeyexchange = refl
of_code-state_code wait_serverhellodone = refl
of_code-state_code connected = refl
of_code-state_code closing = refl
of_code-state_code closed = refl

pub state_eq_sound : (s t : State) → state_eq s t ≡ true → s ≡ t
state_eq_sound s t h =
    let same : state_code s ≡ state_code t = ground arith in
    sym (of_code-state_code s) ∙ ap of_code same ∙ of_code-state_code t
