-- ===== src/Dispatch/Lineage.antt =====
-- dtls_handle_message takes the entries of the table through the steps of Dispatch/Verified: an entry is
-- connected only because check_finished took a message that came in the datagram, or that had waited
-- in the queue, for that entry.

use tinydtls.Base.{[], ◌∷◌, List, ap, inl, refl, subst, sym, ◌∙◌, All, Bytes, Option, ◌≡◌}
use mathlib.Core.List.{Memᴰ}
use tinydtls.Peer.{Session}
use tinydtls.Netq.{Node}
use tinydtls.Handshake.Reorder.{node_new}
use tinydtls.Record.{decrypt_verify}
use tinydtls.Cipher.{Context}
use tinydtls.Record.State.{decrypt_verify-keeps}
use tinydtls.Dispatch.Secure.{ServicesKeep}
use tinydtls.Dispatch.Records.{dtls_handle_message}
use tinydtls.Handshake.States.{Keeps, KeepsState}
use tinydtls.Handshake.Waiting.{find_seq-All, insert_node-All, remove-All}
use tinydtls.Dispatch.{Peer, Services}
use tinydtls.Handshake.{Calls}
use tinydtls.Dispatch.Invariant.{AllLeft, Preserved}
use tinydtls.Dispatch.Loop.{Arrives, dtls_handle_message-AllLeft}
use tinydtls.Handshake.Order.{order_of, order_in}
use tinydtls.Dispatch.Verified.{
  Leaves-intro, Next, QueueHolds, Traced, Traced-first, Traced-message, Traced-step, added, alerted,
  decrypted, here, keyed, set_closed, set_closing, set_finished, taken,
}

module _ {W : Type 0} (ctx : Context) (calls : Calls W) (services : Services W)
    (set_key : Bytes → Option (Bytes → Bytes)) (session : Session) (M : Bytes → Type 0)
    (keeps_state : KeepsState calls) (keeps_order : Keeps order_of calls)
    (alerts_state : ServicesKeep (λ p. p.state) services)
    (alerts_order : ServicesKeep order_of services) (entries : List Peer) where
  Traced-same :
      (p q : Peer)
      → Next ctx calls services set_key session M p q
      → q.state ≡ p.state
      → order_of q ≡ order_of p
      → Traced ctx calls services set_key session M entries p
      → Traced ctx calls services set_key session M entries q
  Traced-same p q step s o h =
      Traced-step ctx calls services set_key session M entries p q step (λ e. sym s ∙ e)
        (subst (QueueHolds M) (sym o) (h.1)) h

  Traced-Preserved :
      Preserved ctx calls services set_key session M
        (Traced ctx calls services set_key session M entries)
  Traced-Preserved =
      let step = Traced-step ctx calls services set_key session M entries in
      record {
        message = λ p role d w m h. Leaves-intro ctx calls services set_key session M _ _ (λ q w' e.
            Traced-message ctx calls services set_key session M entries keeps_state keeps_order p q
              role d w w' m h e);
        first_message = λ d w m. Leaves-intro ctx calls services set_key session M _ _ (λ q w' e.
            Traced-first ctx calls services set_key session M entries keeps_state keeps_order q d w
              w' m e);
        decrypted = λ p msg h.
            Traced-same p (decrypt_verify set_key p msg).1 (decrypted msg refl)
              (decrypt_verify-keeps (λ p. p.state) (λ p. refl) set_key p msg)
              (decrypt_verify-keeps order_of (λ p. refl) set_key p msg) h;
        taken = λ p x n params found h.
            let waiting = subst (QueueHolds M) (ap order_in params) (h.1) in
            (
              find_seq-All (λ (x : Node). M x.bytes) x.mseq_r x.reorder_queue n found waiting,
              step p _ (taken x n params found refl) (λ e. e)
                  (remove-All (λ (x : Node). M x.bytes) x.reorder_queue n waiting) h,
            );
        added = λ p x addr self d params m h.
            step p _ (added x addr self d params m refl) (λ e. e)
              (insert_node-All (λ (x : Node). M x.bytes) x.reorder_queue (node_new addr self d) m
                (subst (QueueHolds M) (ap order_in params) (h.1)))
              h;
        closing_state = λ p h. step p _ (set_closing refl) (λ e. absurd (cc e)) (h.1) h;
        closed_state = λ p h. step p _ (set_closed refl) (λ e. absurd (cc e)) (h.1) h;
        finished_state = λ p h. step p _ (set_finished refl) (λ e. absurd (cc e)) (h.1) h;
        alerted = λ p level desc w h.
            Traced-same p (services.send_alert p level desc w).0 (alerted level desc w refl)
              (alerts_state.alert_kept p level desc w) (alerts_order.alert_kept p level desc w) h;
        keyed = λ p w h.
            Traced-same p (services.key_block p w).1.0 (keyed w refl)
              (alerts_state.key_block_kept p w) (alerts_order.key_block_kept p w) h;
      }

  at_start :
      (all xs : List Peer)
      → ((p : Peer) → Memᴰ p xs → Memᴰ p all)
      → All (λ (p : Peer). QueueHolds M (order_of p)) xs
      → All (Traced ctx calls services set_key session M all) xs
  at_start all [] within h = tt
  at_start all (p ∷ ps) within (q, h) =
      let mem = within p (Memᴰ.head refl) in
      (
        ((p, inl mem, here), q, λ e. inl (p, mem, e, here)),
        at_start all ps (λ x m. within x (Memᴰ.tail m)) h,
      )

  -- Every entry of the table for the session goes back by steps of the code to an entry before the
  -- datagram or to a peer that was made for a ClientHello. One that is connected comes from an entry that
  -- was connected before, or from one that waited for a Finished message and was made connected by one
  -- that check_finished took for it.
  pub dtls_handle_message-Traced :
      (msg : Bytes) (w : W)
      → Arrives set_key M msg
      → All (λ (p : Peer). QueueHolds M (order_of p)) entries
      → AllLeft
          (Traced ctx calls services set_key session M entries)
          (dtls_handle_message ctx calls services set_key entries session msg w)
  dtls_handle_message-Traced msg w arrives waiting =
      dtls_handle_message-AllLeft ctx calls services set_key session M
        (Traced ctx calls services set_key session M entries) Traced-Preserved entries msg w arrives
        (at_start entries entries (λ p m. m) waiting)
