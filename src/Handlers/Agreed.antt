-- ===== src/Handlers/Agreed.antt =====
-- What the handlers come to where every call succeeds and every test passes.
use go_clarinet.Base.{
  ◌≡◌, refl, inl, inr, Bool-cases, true, false, not, ◌&&◌, ◌||◌, none, some, [], ◌∷◌, ◌++◌,
  if◌then◌else◌,
}
use go_clarinet.Base.Assoc.{lookup, put, lookup-put_self}
use go_clarinet.Base.Eq.{◌==◌, nat_eq}
use go_clarinet.Peer.{PeerId, Peer, peer_id_eq, id_beq_iff}
use go_clarinet.Connection.{
  Conn, ConnectRequest, ConnectResponse, WitnessRequest, WitnessResponse, WitnessNotification,
  awaiting_witness, opened, set_status, set_witness,
}
use go_clarinet.World.{World, Env, ok, catch}
use go_clarinet.Inmem.Connections
use go_clarinet.Inmem.Connections.Effect.{accepted}
use go_clarinet.Handlers.Connect as ConnectHandler
use go_clarinet.Handlers.Witness as WitnessHandler
use go_clarinet.Handlers.Notification as NotificationHandler

module _ {S : Type 0} (env : Env S) where
  -- If a connection waits for its witness, and a notification of it comes from its other end and the
  -- application agrees, the handler returns no error and the connection is open with the witness
  -- that the notification names.
  pub notified_opens :
      (peer : PeerId) (note : WitnessNotification) (c : Conn) (self : Peer) (s₁ s₂ : S)
      (w : World S)
      → lookup note.connection_id w.conns ≡ some c
      → c.status ≡ awaiting_witness
      → env.self w.outside ≡ (ok self, s₁)
      → peer ≡ NotificationHandler.expected_peer self.id c
      → env.on_witness_notification peer note s₁ ≡ (ok tt, s₂)
      → NotificationHandler.handle env peer note w ≡ (
        ok tt,
        record w {
          outside = s₂;
          conns = put note.connection_id (set_status opened (set_witness note.witness c)) w.conns;
        },
      )
  unfolding NotificationHandler.handle NotificationHandler.notified Connections.update catch
  notified_opens peer note c self s₁ s₂ w known waiting found other approved = rw (
    known,
    waiting,
    found,
    (id_beq_iff peer (NotificationHandler.expected_peer self.id c)).1 other,
    approved,
  )

  module _ (peer : PeerId) (sender receiver self : Peer) (s₁ s₂ s₃ s₄ : S) (w : World S) where
    -- If the ends of a connect request are found, the request comes from one of them, this node is one
    -- of them, the application agrees and the id is free, the application's response is returned and
    -- the connection waits for its witness; a selection is started if this node is the end that
    -- selects.
    pub connect_accepts :
        (request : ConnectRequest) (resp : ConnectResponse)
        → env.find request.sender w.outside ≡ (ok sender, s₁)
        → env.find request.receiver s₁ ≡ (ok receiver, s₂)
        → (not (sender.id == peer) && not (receiver.id == peer)) ≡ false
        → env.self s₂ ≡ (ok self, s₃)
        → (not (request.sender == self.id) && not (request.receiver == self.id)) ≡ false
        → env.on_connect peer request s₃ ≡ (ok (resp, none), s₄)
        → resp.errors ≡ []
        → resp.accepted ≡ true
        → lookup request.connection_id w.conns ≡ none
        → ConnectHandler.handle env peer request w ≡ (
          ok (resp, none),
          record w {
            outside = s₄;
            conns =
                put request.connection_id
                  (accepted request.connection_id sender receiver awaiting_witness)
                  w.conns;
            tasks =
                if ConnectHandler.selects request.options.witness_selector request self.id
                then w.tasks
                  ++ record { connection_id = request.connection_id; options = request.options }
                    ∷ []
                else w.tasks;
          },
        )
    unfolding ConnectHandler.handle Connections.accept catch
    connect_accepts request resp at_sender at_receiver from_end found to_self approved no_errors
          agreed free =
        rw (at_sender, at_receiver, from_end, found, to_self, approved, no_errors, agreed, free)
          (elim (Bool-cases
            (ConnectHandler.selects request.options.witness_selector request self.id)) [
              | inl starts ↦ rw starts refl
              | inr quiet ↦ rw quiet refl
            ])

    -- If the ends of a witness request are found, the request comes from one of them, this node is
    -- neither, the application agrees and the id is free, the application's response is returned and
    -- the connection is open with this node as its witness.
    pub witness_accepts :
        (s₅ : S) (request : WitnessRequest) (resp : WitnessResponse)
        → env.find request.sender w.outside ≡ (ok sender, s₁)
        → env.find request.receiver s₁ ≡ (ok receiver, s₂)
        → (not (sender.id == peer) && not (receiver.id == peer)) ≡ false
        → env.self s₂ ≡ (ok self, s₃)
        → (sender.id == self.id || receiver.id == self.id) ≡ false
        → env.on_witness peer request s₃ ≡ (ok (resp, none), s₄)
        → resp.errors ≡ []
        → resp.accepted ≡ true
        → lookup request.connection_id w.conns ≡ none
        → env.self s₄ ≡ (ok self, s₅)
        → WitnessHandler.handle env peer request w ≡ (
          ok (resp, none),
          record w {
            outside = s₅;
            conns =
                put request.connection_id
                  (set_witness self.id (accepted request.connection_id sender receiver opened))
                  (put request.connection_id
                    (accepted request.connection_id sender receiver opened)
                    w.conns);
          },
        )
    unfolding WitnessHandler.handle Connections.accept Connections.update catch
    witness_accepts s₅ request resp at_sender at_receiver from_end found apart approved no_errors
          agreed free again =
        rw
          (
            at_sender,
            at_receiver,
            from_end,
            found,
            apart,
            approved,
            no_errors,
            agreed,
            free,
            lookup-put_self request.connection_id
                (accepted request.connection_id sender receiver opened) w.conns,
            again,
          )
          refl
