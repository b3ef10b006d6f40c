-- ===== src/Handlers/Notification/Decision.antt =====
-- Which witness notifications of a known connection are taken.
use go_clarinet.Base.{◌≡◌, ◌≢◌, refl, true, Bool-cases, inl, inr, some, arith}
use go_clarinet.Base.Assoc.{lookup, lookup-put_self}
use go_clarinet.Base.Eq.{◌==◌, nat_eq}
use go_clarinet.Peer.{PeerId, Peer, peer_id_eq, id_beq_iff}
use go_clarinet.Connection.{
  Conn, WitnessNotification, is_awaiting_witness, awaiting_witness, set_witness, set_status, opened,
}
use go_clarinet.World.{World, Env, Result, ok, err, panicked, catch}
use go_clarinet.Inmem.Connections
use go_clarinet.Handlers.Notification.{expected_peer, notified, handle}
use go_clarinet.Handlers.Notification.Effect.{
  IsOtherEnd, expected_peer-IsOtherEnd, IsOtherEnd-expected_peer, is_awaiting-eq,
}

module _ {S : Type 0} (env : Env S) (peer : PeerId) (note : WitnessNotification) (c : Conn)
    (self : Peer) (s : S) where
  -- The connection waits for its witness, the other end told of it, and the application agrees.
  pub record IsTaken : Type 0 where
    pub waiting : c.status ≡ awaiting_witness
    pub from_other_end : IsOtherEnd self.id c peer
    pub approved : (env.on_witness_notification peer note s).0 ≡ ok tt

  -- What becomes of the connection, with the result of the handler.
  pub data Decided (out : Result (Unit {0}) × World S) : Type 0 where
    taken :
        IsTaken
        → out.0 ≡ ok tt
        → lookup note.connection_id out.1.conns
          ≡ some (record c { witness = note.witness; status = opened })
        → Decided out
    refused :
        ¬ IsTaken → out.0 ≢ ok tt → lookup note.connection_id out.1.conns ≡ some c → Decided out

  module _ (w : World S) (known : lookup note.connection_id w.conns ≡ some c)
      (found : env.self w.outside ≡ (ok self, s)) where
    by_verdict :
        (r : Result (Unit {0}))
        → (env.on_witness_notification peer note s).0 ≡ r
        → is_awaiting_witness c.status ≡ true
        → (peer == expected_peer self.id c) ≡ true
        → Decided (handle env peer note w)
    unfolding handle notified Connections.update catch set_status set_witness
    by_verdict (ok tt) is waits other =
        rw (known, waits, found, other, is)
          (taken
            (record {
              waiting = is_awaiting-eq c.status waits;
              from_other_end =
                  expected_peer-IsOtherEnd self.id c peer
                    ((id_beq_iff peer (expected_peer self.id c)).0 other);
              approved = is;
            })
            refl
            (lookup-put_self note.connection_id (set_status opened (set_witness note.witness c))
              w.conns))
    by_verdict (err e) is waits other =
        rw (known, waits, found, other, is)
          (refused (λ t. let agreed = t.approved in cc) (λ q. cc) known)
    by_verdict panicked is waits other =
        rw (known, waits, found, other, is)
          (refused (λ t. let agreed = t.approved in cc) (λ q. cc) known)

    -- If a node knows a connection and finds itself, a witness notification of the connection is taken
    -- exactly if the connection waits for its witness, the notification came from the other end (the
    -- receiver where this node is the sender, the sender otherwise) and the application agrees: the
    -- handler then returns no error and the connection is open with the witness that the notification
    -- names. Else the handler returns no success and the connection is as it was.
    pub handle_decides : Decided (handle env peer note w)
    unfolding handle notified Connections.update catch
    handle_decides = elim (Bool-cases (is_awaiting_witness c.status)) [
      | inr not_waiting ↦
          rw (known, not_waiting)
            (refused (λ t. let is = t.waiting in ground arith) (λ q. cc) known)
      | inl waits ↦ elim (Bool-cases (peer == expected_peer self.id c)) [
        | inl other ↦ by_verdict _ refl waits other
        | inr wrong ↦
            rw (known, waits, found, wrong)
              (refused
                (λ t.
                  let same = IsOtherEnd-expected_peer self.id c peer t.from_other_end in
                  cc ((id_beq_iff peer (expected_peer self.id c)).1 same, wrong))
                (λ q. cc) known)
      ]
    ]
