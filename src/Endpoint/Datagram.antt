-- ===== src/Endpoint/Datagram.antt =====
-- dtls.c: dtls_handle_message over the modelled checks, sending functions and key derivation.
use tinydtls.Base.{
  ◌⊎◌, sym, ◌∙◌, refl, All, Bytes, List, Option, Option-cases, drop, inl, inr, length, none, some,
  take, ℕ, ◌≡◌, ◌≤◌, true, [], ◌∷◌,
}
use tinydtls.Header.{Security, msg_type}
use tinydtls.Alert.{fail, Result}
use tinydtls.Peer.{Handshake, Session, Peer, connected, wait_finished}
use tinydtls.Handshake.{ht_finished}
use tinydtls.Handshake.Order.{order_of}
use tinydtls.KeyExchange.{verify_data}
use tinydtls.KeyExchange.Finished.{check_finished_iff, check_finished-ok}
use tinydtls.Crypto.Keys.{other_end}
use tinydtls.Send.{Net, dtls_send_alert, dtls_send, send_parts}
use tinydtls.Dispatch.{Services, Flow, go, stop, fault}
use tinydtls.Dispatch.Invariant.{AllLeft}
use tinydtls.Dispatch.Loop.{Arrives}
use tinydtls.Dispatch.Records.{dtls_handle_message, table}
use tinydtls.Dispatch.Secure.{ServicesKeep}
use tinydtls.Dispatch.Verified.{Accepted, Follows, QueueHolds, Reached, WasConnected}
use tinydtls.Dispatch.Lineage.{dtls_handle_message-Traced}
use tinydtls.Handshake.Message.{handle_handshake_msg}
use tinydtls.Crypto.{Role}
use tinydtls.Endpoint.{Host, asked_once, calculate_key_block, on_params}
use tinydtls.Endpoint.Answers.{calls_of}
use tinydtls.Endpoint.Unmoved.{state_kept, order_kept}
use tinydtls.Endpoint.Keeps.{calculate_key_block-Unmoved, calls_of-KeepsState, calls_of-KeepsOrder}
use tinydtls.Endpoint.Connected.{finished_result}

All-weaken :
    {A : Type 0} {P Q : A → Type 0} → ((x : A) → P x → Q x) → (xs : List A) → All P xs → All Q xs
All-weaken f [] h = tt
All-weaken f (x ∷ xs) (h, hs) = (f x h, All-weaken f xs hs)

AllLeft-weaken :
    {W : Type 0} {P Q : Peer → Type 0}
    → ((p : Peer) → P p → Q p)
    → (f : Flow W) → AllLeft P f
    → AllLeft Q f
AllLeft-weaken weaker (go peer others w) h = All-weaken weaker (table peer others) h
AllLeft-weaken weaker (stop r entries w) h = All-weaken weaker entries h
AllLeft-weaken weaker fault h = tt

module _ (host : Host) where
  -- What dtls_handle_message calls; the callbacks `event` and `read` act on the context.
  abbrev pub services_of :
      (Session → ℕ → ℕ → Net → Net) → (Session → Bytes → Net → Net) → Services Net
  services_of event read = record {
    send_alert = dtls_send_alert host.set_key host.env;
    key_block = calculate_key_block host;
    event = event;
    read = read;
    malloc = λ w. (host.env.node w.asked, asked_once w);
    address = λ p. host.env.self;
  }

  alert_lem :
      {A : Type 0} (f : Peer → A)
      (params : (p : Peer) (o : Option Security) → f (record p { params0 = o }) ≡ f p) (p : Peer)
      (level desc : ℕ) (w : Net)
      → f (dtls_send_alert host.set_key host.env p level desc w).0 ≡ f p
  unfolding dtls_send_alert dtls_send send_parts
  alert_lem f params p level desc w = params p _

  services_of-State :
      (event : Session → ℕ → ℕ → Net → Net) (read : Session → Bytes → Net → Net)
      → ServicesKeep (λ p. p.state) (services_of event read)
  services_of-State event read = record {
    alert_kept = λ p level desc w. alert_lem (λ p. p.state) (λ p o. refl) p level desc w;
    key_block_kept = λ p w. state_kept p _ (calculate_key_block-Unmoved host p w);
  }

  services_of-Order :
      (event : Session → ℕ → ℕ → Net → Net) (read : Session → Bytes → Net → Net)
      → ServicesKeep order_of (services_of event read)
  services_of-Order event read = record {
    alert_kept = λ p level desc w. alert_lem order_of (λ p o. refl) p level desc w;
    key_block_kept = λ p w. order_kept p _ (calculate_key_block-Unmoved host p w);
  }

  checked_none :
      (halt : Peer → Net → Net) (p : Peer) (d : Bytes) (w : Net)
      → p.handshake ≡ none
      → ((calls_of host halt).check_finished p d w).0 ≡ host.beyond
  unfolding calls_of on_params
  checked_none halt p d w e = rw e refl

  module _ (halt : Peer → Net → Net) (event : Session → ℕ → ℕ → Net → Net)
      (read : Session → Bytes → Net → Net) (session : Session) (M : Bytes → Type 0)
      (entries : List Peer) where
    -- Dispatch.Verified over what dtls_handle_message calls.
    abbrev pub Comes : Peer → Type 0
    Comes =
        Reached host.context (calls_of host halt) (services_of event read) host.set_key session M
          entries

    abbrev pub Later : Peer → Peer → Type 0
    Later =
        Follows host.context (calls_of host halt) (services_of event read) host.set_key session M

    abbrev pub HadConnected : Peer → Type 0
    HadConnected =
        WasConnected host.context (calls_of host halt) (services_of event read) host.set_key session
          M entries

    -- The entry comes from `p'`, which handle_handshake_msg made connected out of `p` for a Finished
    -- message with the property; `p` comes from an entry at the start or was made for a ClientHello,
    -- waited for the message, and the message carries the verify_data of the other end than `p`,
    -- under the master secret of `p` and over the messages that `p` has hashed.
    abbrev pub Proved : Peer → Type 0
    Proved q =
        (p p' : Peer) × (h : Handshake) × (role : Role) × (d : Bytes) × (w w' : Net) × (r : Result
          ℕ)
        × Comes p
        × (p.handshake ≡ some h)
        × (p.state ≡ wait_finished)
        × M d
        × (msg_type d ≡ ht_finished)
        × (24 ≤ length d)
        × (take 12 (drop 12 d) ≡ verify_data host.hash true true h (other_end p.role))
        × (handle_handshake_msg host.context (calls_of host halt) p session role p.state d w
            ≡ (r, (some p', w')))
        × (p'.state ≡ connected)
        × Later p' q

    module _ (digest : (m : Bytes) → length (host.hash m) ≡ 32)
        (memory : (k : ℕ) → host.found k ≡ true) (error : ℕ) (lost : host.beyond ≡ fail error) where
      Accepted-Proved :
          (q : Peer)
          → Accepted host.context
              (calls_of host halt)
              (services_of event read)
              host.set_key
              session
              M
              entries
              q
          → Proved q
      Accepted-Proved q
            (p, p', role, d, w, w', r, n, back, waits, m, type, checked, made, up, path) =
          elim (Option-cases p.handshake) [
            | inl e ↦ absurd (cc (checked_none halt p d _ e, lost, checked))
            | inr (h, e) ↦
                let zero_result =
                  check_finished-ok host.hash true true h p.role d {n = n}
                    (sym (finished_result host memory halt p h d _ e) ∙ checked) in
                let valid = (check_finished_iff host.hash digest h p.role d).0 zero_result in
                (
                  p, p', h, role, d, w, w', r, back, e, waits, m, type, valid.0, valid.1, made, up,
                  path,
                )
          ]

      -- After a datagram, an entry of the table for its session that is connected comes by steps of the
      -- code from an entry that was connected before; or from one that waited for a Finished message
      -- and that handle_handshake_msg made connected for a message with the verify_data of the other
      -- end, under the master secret of that entry and over the messages that it has hashed. That
      -- entry comes itself by steps of the code from one before the datagram, or from one that was made for
      -- a ClientHello. The message came in the datagram, or had waited in the queue of an entry: `M` is
      -- any property that every part of the datagram has, opened as a record, and every message in
      -- the queues. The checks, the sending functions, the alerts and the key block are those of the
      -- code. The hash gives 32 bytes, memory is found, and a check that C leaves open does not
      -- succeed.
      pub dtls_handle_message-Proved :
          (msg : Bytes) (w : Net)
          → Arrives host.set_key M msg
          → All (λ (p : Peer). QueueHolds M (order_of p)) entries
          → AllLeft
              (λ (q : Peer). q.state ≡ connected → HadConnected q ⊎ Proved q)
              (dtls_handle_message host.context
                (calls_of host halt)
                (services_of event read)
                host.set_key
                entries
                session
                msg
                w)
      dtls_handle_message-Proved msg w arrives waiting =
          AllLeft-weaken
            (λ q traced e. elim (traced.2 e) [
              | inl before ↦ inl before
              | inr accepted ↦ inr (Accepted-Proved q accepted)
            ])
            _
            (dtls_handle_message-Traced host.context (calls_of host halt) (services_of event read)
              host.set_key session M (calls_of-KeepsState host halt) (calls_of-KeepsOrder host halt)
              (services_of-State event read) (services_of-Order event read) entries msg w arrives
              waiting)
