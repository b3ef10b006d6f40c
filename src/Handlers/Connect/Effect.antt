-- ===== src/Handlers/Connect/Effect.antt =====
-- What a connect request does to the connections, on every branch, and what the selection that it
-- starts does later.
use mathlib.Core.Path.{subst}
use go_clarinet.Base.{[], ◌⊎◌, arith, ◌≡◌, refl, Option, none, true, false, not, ◌&&◌}
use go_clarinet.Base.Eq.{◌==◌}
use go_clarinet.Peer.{PeerId, Peer, peer_id_eq, id_beq_iff}
use go_clarinet.Connection.{Conn, ConnectRequest, ConnectResponse, awaiting_witness}
use go_clarinet.Connection.Error.{Err}
use go_clarinet.World.{World, Result, Env, Task, pure, raise, panicked}
use go_clarinet.Node.Witness.{handle_witness_selection}
use go_clarinet.World.Rules.{
  KeepsConns, keeps_conns, Answers, Ensures-external, Does, Does-catch_with, Does-if, Does-quiet,
  Does-then_quiet, Ensures-weaken,
}
use go_clarinet.Inmem.Connections.Effect.{
  Conns, Touches, Touches-same, Touches-weaken, Keeps, Never, Still, accepted, accept-Touches,
  update-Touches,
}
use go_clarinet.Node.Witness.Quiet.{handle_witness_selection-KeepsConns}
use go_clarinet.Node.Witness.Selection.{SelectsFrom, Selection, Selection-Keeps}
use go_clarinet.Node.Witness.Selected.{handle_witness_selection-Selected}
use go_clarinet.Handlers.Connect.{
  not_participant, not_this_node, turned_down, failed, rejected, spawn, accept, ask, admit, handle,
  run_task,
}

-- The connection that an accepted request makes: the request came from one of its ends, this node
-- is one of them, and the application agreed.
pub record Awaits {S : Type 0} (env : Env S) (peer : PeerId) (request : ConnectRequest) (c : Conn)
    : Type 0 where
  pub sender : Peer
  pub receiver : Peer
  pub self : Peer
  pub resp : ConnectResponse
  pub sender_found : Answers (env.find request.sender) sender
  pub receiver_found : Answers (env.find request.receiver) receiver
  pub self_found : Answers env.self self
  pub from_end : (sender.id ≡ peer) ⊎ (receiver.id ≡ peer)
  pub self_is_end : (request.sender ≡ self.id) ⊎ (request.receiver ≡ self.id)
  pub approved : Answers (env.on_connect peer request) (resp, none)
  pub no_errors : resp.errors ≡ []
  pub agreed : resp.accepted ≡ true
  pub made : c ≡ accepted request.connection_id sender receiver awaiting_witness

-- The tests that a request has passed.
pub passed_end : (a b p : PeerId) → (not (a == p) && not (b == p)) ≡ false → (a ≡ p) ⊎ (b ≡ p)
passed_end a b p h = ground (arith, id_beq_iff a p, id_beq_iff b p)

taken :
    (resp : ConnectResponse) (e : Option Err)
    → turned_down resp e ≡ false
    → (e ≡ none) × (resp.errors ≡ []) × (resp.accepted ≡ true)
unfolding turned_down
taken resp e h = ground arith

module _ {S : Type 0} (env : Env S) (peer : PeerId) (request : ConnectRequest) where
  abbrev Effect : Conns → Result (ConnectResponse × Option Err) → Conns → Type 0
  Effect m r m' = Touches request.connection_id Still (Awaits env peer request) m m'

  same : (m : Conns) (r : Result (ConnectResponse × Option Err)) → Effect m r m
  same m r = Touches-same Still (Awaits env peer request) request.connection_id m m refl

  answers : (resp : ConnectResponse) → Does {S = S} Effect (pure (resp, none))
  answers resp = Does-quiet Effect _ (search keeps_conns) same

  spawn-KeepsConns : (self : PeerId) → KeepsConns (spawn env request self)
  unfolding spawn
  spawn-KeepsConns self = record { at = λ w. ground arith }

  accept-Effect :
      (sender receiver : Peer) (self : PeerId) (resp : ConnectResponse)
      → ((c : Conn)
          → c ≡ accepted request.connection_id sender receiver awaiting_witness
          → Awaits env peer request c)
      → Does Effect (accept env request sender receiver self resp)
  unfolding accept
  accept-Effect sender receiver self resp awaits =
      Does-then_quiet (Touches request.connection_id Still (Awaits env peer request)) _ _ _
        (record {
          at = λ w.
              Touches-weaken (λ c c' h. h) awaits
                (accept-Touches request.connection_id sender receiver awaiting_witness w);
        })
        (λ _. search (keeps_conns, spawn-KeepsConns)) (λ e. search keeps_conns)

  module _ (sender receiver : Peer) (sender_found : Answers (env.find request.sender) sender)
      (receiver_found : Answers (env.find request.receiver) receiver) where
    ask-Effect :
        (self : Peer)
        → Answers env.self self
        → (sender.id ≡ peer) ⊎ (receiver.id ≡ peer)
        → (request.sender ≡ self.id) ⊎ (request.receiver ≡ self.id)
        → Does Effect (ask env peer request sender receiver self.id)
    unfolding ask
    ask-Effect self self_found from_end self_is_end =
        Does-catch_with _ Effect (λ m. same m panicked) _ _ _ (search keeps_conns)
          (Ensures-external (env.on_connect peer request))
          (λ (resp, e) approved.
            Does-if Effect (turned_down resp e) (pure (resp, e)) _
              (λ _. Does-quiet Effect _ (search keeps_conns) same)
              (λ h.
                let (no_err, no_errors, agreed) = taken resp e h in
                accept-Effect sender receiver self.id resp (λ c made. record {
                  sender = sender;
                  receiver = receiver;
                  self = self;
                  resp = resp;
                  sender_found = sender_found;
                  receiver_found = receiver_found;
                  self_found = self_found;
                  from_end = from_end;
                  self_is_end = self_is_end;
                  approved =
                      subst (λ x. Answers (env.on_connect peer request) (resp, x)) no_err approved;
                  no_errors = no_errors;
                  agreed = agreed;
                  made = made;
                })))
          (λ e. Does-quiet Effect (raise e) (search keeps_conns) same)

    admit-Effect : Does Effect (admit env peer request sender receiver)
    unfolding admit
    admit-Effect =
        Does-if Effect (not (sender.id == peer) && not (receiver.id == peer)) _ _
          (λ _. answers (rejected env request not_participant))
          (λ from_end.
            Does-catch_with _ Effect (λ m. same m panicked) _ _ _ (search keeps_conns)
              (Ensures-external env.self)
              (λ self self_found.
                Does-if Effect
                  (not (request.sender == self.id) && not (request.receiver == self.id)) _ _
                  (λ _. answers (rejected env request not_this_node))
                  (λ self_is_end.
                    ask-Effect self self_found (passed_end sender.id receiver.id peer from_end)
                      (passed_end request.sender request.receiver self.id self_is_end)))
              (λ e. answers (failed env request e)))

  -- A connect request changes no connection, and makes at most the one that it names: only if the
  -- request came from one of the ends, this node is one of them, and the application agreed.
  pub handle-Awaits :
      (w : World S)
      → Touches request.connection_id Still
          (Awaits env peer request)
          w.conns
          (handle env peer request w).1.conns
  unfolding handle
  handle-Awaits =
      (Does-catch_with _ Effect (λ m. same m panicked) _ _ _ (search keeps_conns)
        (Ensures-external (env.find request.sender))
        (λ sender sender_found.
          Does-catch_with _ Effect (λ m. same m panicked) _ _ _ (search keeps_conns)
            (Ensures-external (env.find request.receiver))
            (λ receiver receiver_found. admit-Effect sender receiver sender_found receiver_found)
            (λ e. answers (failed env request e)))
        (λ e. answers (failed env request e))).at

module _ {S : Type 0} (env : Env S) (task : Task) where
  -- A started selection changes no connection but its own, and that one as a selection does.
  pub run_task-Touches :
      (w : World S)
      → Touches task.connection_id
          (SelectsFrom env task.options)
          Never
          w.conns
          (run_task env task w).1.conns
  unfolding run_task
  run_task-Touches =
      (Does-then_quiet (Touches task.connection_id (SelectsFrom env task.options) Never) _ _ _
        (record {
          at =
              update-Touches (SelectsFrom env task.options) task.connection_id
                (λ c. handle_witness_selection env c task.options env.connect_options)
                (λ c. handle_witness_selection-KeepsConns env c task.options env.connect_options)
                (λ c.
                  Ensures-weaken (Selection env task.options c)
                    (Keeps (SelectsFrom env task.options) c) _ (Selection-Keeps env task.options c)
                    (handle_witness_selection-Selected env c task.options env.connect_options));
        })
        (λ _. search keeps_conns) (λ _. search keeps_conns)).at
