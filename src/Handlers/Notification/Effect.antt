-- ===== src/Handlers/Notification/Effect.antt =====
-- What a witness notification does to a connection, on every branch.
use go_clarinet.Base.{◌≡◌, ◌≢◌, refl, true, Bool-cases, inl, inr, arith}
use go_clarinet.Base.Eq.{◌==◌}
use go_clarinet.Peer.{PeerId, peer_id_eq, id_beq_iff, Peer}
use go_clarinet.Connection.{
  Conn, Status, WitnessNotification, is_awaiting_witness, awaiting_witness, set_witness, set_status,
  opened,
}
use go_clarinet.World.{World, Env}
use go_clarinet.World.Rules.{
  KeepsConns, keeps_conns, Answers, Ensures-external, Ensures-catch, Ensures, Ensures-pure,
  Ensures-raise, Ensures-if,
}
use go_clarinet.Inmem.Connections.{Written}
use go_clarinet.Inmem.Connections.Effect.{Touches, Keeps, Never, update-Touches}
use go_clarinet.Handlers.Notification.{expected_peer, admit, notified, handle}

pub is_awaiting-eq : (s : Status) → is_awaiting_witness s ≡ true → s ≡ awaiting_witness
is_awaiting-eq s h = ground arith

-- The other end of the connection, for the node `self`: the receiver for the sender, and the sender
-- for any other node.
pub data IsOtherEnd (self : PeerId) (c : Conn) (peer : PeerId) : Type 0 where
  to_sender : c.sender ≡ self → peer ≡ c.receiver → IsOtherEnd self c peer
  to_another : c.sender ≢ self → peer ≡ c.sender → IsOtherEnd self c peer

-- A peer that passes the handler's test is the other end.
pub expected_peer-IsOtherEnd :
    (self : PeerId) (c : Conn) (peer : PeerId)
    → peer ≡ expected_peer self c
    → IsOtherEnd self c peer
unfolding expected_peer
expected_peer-IsOtherEnd self c peer same = elim (Bool-cases (c.sender == self)) [
  | inl own ↦ to_sender ((id_beq_iff c.sender self).0 own) (rw own at same)
  | inr other ↦ to_another (λ is. cc ((id_beq_iff c.sender self).1 is, other)) (rw other at same)
]

-- The other end passes the handler's test.
pub IsOtherEnd-expected_peer :
    (self : PeerId) (c : Conn) (peer : PeerId)
    → IsOtherEnd self c peer
    → peer ≡ expected_peer self c
unfolding expected_peer
IsOtherEnd-expected_peer self c peer (to_sender own is) = rw ((id_beq_iff c.sender self).1 own) is
IsOtherEnd-expected_peer self c peer (to_another apart is) = elim (Bool-cases (c.sender == self)) [
  | inl own ↦ absurd (apart ((id_beq_iff c.sender self).0 own))
  | inr other ↦ rw other is
]

-- The notification opens a connection that waits for it, and gives it the witness that it names; it
-- came from the other end, and the application agreed.
pub record Opens {S : Type 0} (env : Env S) (peer : PeerId) (note : WitnessNotification)
    (c c' : Conn) : Type 0 where
  pub self : Peer
  pub waiting : c.status ≡ awaiting_witness
  pub self_found : Answers env.self self
  pub from_other_end : IsOtherEnd self.id c peer
  pub approved : Answers (env.on_witness_notification peer note) tt
  pub made : c' ≡ set_status opened (set_witness note.witness c)

module _ {S : Type 0} (env : Env S) (peer : PeerId) (note : WitnessNotification) where
  notified-KeepsConns : (c : Conn) → KeepsConns (notified env peer note c)
  unfolding notified
  notified-KeepsConns c = search keeps_conns depth 8

  abbrev Kept : Conn → Written → Type 0
  Kept = Keeps (Opens env peer note)

  admit-Opens :
      (self : Peer) (c : Conn)
      → c.status ≡ awaiting_witness
      → Answers env.self self
      → Ensures (Kept c) (admit env peer note self.id c)
  unfolding admit
  admit-Opens self c waiting self_found =
      Ensures-if (Kept c) (peer == expected_peer self.id c) _ _
        (λ same.
          Ensures-catch _ (Kept c) _ _ _ (Ensures-external (env.on_witness_notification peer note))
            (λ _ approved. Ensures-pure (Kept c) _ (record {
              self = self;
              waiting = waiting;
              self_found = self_found;
              from_other_end =
                  expected_peer-IsOtherEnd self.id c peer
                    ((id_beq_iff peer (expected_peer self.id c)).0 same);
              approved = approved;
              made = refl;
            }))
            (λ e. Ensures-raise _ e))
        (λ _. Ensures-raise _ _)

  notified-Opens : (c : Conn) → Ensures (Kept c) (notified env peer note c)
  unfolding notified
  notified-Opens c =
      Ensures-if (Kept c) (is_awaiting_witness c.status) _ _
        (λ h.
          Ensures-catch _ (Kept c) _ _ _ (Ensures-external env.self)
            (λ self found. admit-Opens self c (is_awaiting-eq c.status h) found)
            (λ e. Ensures-raise _ e))
        (λ _. Ensures-raise _ _)

  -- A witness notification changes no connection but the one that it names, and that one only if it
  -- waits for its witness, the notification came from the other end (the receiver where this node is
  -- the sender, the sender otherwise), and the application agreed: it is then open with the witness
  -- that the notification names.
  pub handle-Opens :
      (w : World S)
      → Touches note.connection_id
          (Opens env peer note)
          Never
          w.conns
          (handle env peer note w).1.conns
  unfolding handle
  handle-Opens =
      update-Touches (Opens env peer note) note.connection_id (notified env peer note)
        notified-KeepsConns notified-Opens
