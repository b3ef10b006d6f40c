-- ===== src/Handlers/Witness/Effect.antt =====
-- What a witness request does to the connections, on every branch.
use mathlib.Core.Path.{subst}
use go_clarinet.Handlers.Connect.Effect.{passed_end}
use go_clarinet.Base.{[], ◌≢◌, true, false, arith, ◌≡◌, refl, ◌⊎◌, Option, none, not, ◌&&◌, ◌||◌}
use go_clarinet.Base.Eq.{◌==◌}
use go_clarinet.Peer.{PeerId, Peer, peer_id_eq, id_beq_iff}
use go_clarinet.Connection.{Conn, WitnessRequest, WitnessResponse, opened, set_witness}
use go_clarinet.Connection.Error.{Err}
use go_clarinet.World.{World, Result, panicked, Env, pure, raise}
use go_clarinet.World.Rules.{
  KeepsConns, keeps_conns, Answers, Ensures-external, Ensures-catch, Does, Does-catch_with, Does-if,
  Does-quiet, Ensures, Ensures-pure, Ensures-raise,
}
use go_clarinet.Inmem.Connections.Effect.{
  Conns, Touches, Touches-same, Touches-weaken, Keeps, Still, MadeThen, accepted,
  accept-update-Touches,
}
use go_clarinet.Handlers.Connect.{not_participant}
use go_clarinet.Handlers.Witness.{
  turned_down, self_is_participant, failed, rejected, witness_here, accept, ask, admit, handle,
}

-- This node is set as the witness, and nothing else.
abbrev pub WitnessedBySelf : {S : Type 0} → Env S → Conn → Conn → Type 0
WitnessedBySelf env c c' = (self : Peer) × Answers env.self self × (c' ≡ set_witness self.id c)

-- The connection that an accepted request makes: the request came from one of its ends, this node
-- is none of them, and the application agreed. It is open, and this node is its witness, unless the
-- node failed to find itself after it had put the connection into the store.
pub record Witnesses {S : Type 0} (env : Env S) (peer : PeerId) (request : WitnessRequest)
    (c : Conn) : Type 0 where
  pub sender : Peer
  pub receiver : Peer
  pub self : Peer
  pub resp : WitnessResponse
  pub sender_found : Answers (env.find request.sender) sender
  pub receiver_found : Answers (env.find request.receiver) receiver
  pub self_found : Answers env.self self
  pub from_end : (sender.id ≡ peer) ⊎ (receiver.id ≡ peer)
  pub self_not_sender : self.id ≢ sender.id
  pub self_not_receiver : self.id ≢ receiver.id
  pub approved : Answers (env.on_witness peer request) (resp, none)
  pub no_errors : resp.errors ≡ []
  pub agreed : resp.accepted ≡ true
  pub made :
      MadeThen (WitnessedBySelf env) (accepted request.connection_id sender receiver opened) c

-- The tests that a request has passed.
not_end : (a b s : PeerId) → (a == s || b == s) ≡ false → (s ≢ a) × (s ≢ b)
not_end a b s h = (ground (arith, id_beq_iff a s), ground (arith, id_beq_iff b s))

taken :
    (resp : WitnessResponse) (e : Option Err)
    → turned_down resp e ≡ false
    → (e ≡ none) × (resp.errors ≡ []) × (resp.accepted ≡ true)
unfolding turned_down
taken resp e h = ground arith

module _ {S : Type 0} (env : Env S) (peer : PeerId) (request : WitnessRequest) where
  abbrev Effect : Conns → Result (WitnessResponse × Option Err) → Conns → Type 0
  Effect m r m' = Touches request.connection_id Still (Witnesses env peer request) m m'

  same : (m : Conns) (r : Result (WitnessResponse × Option Err)) → Effect m r m
  same m r = Touches-same Still (Witnesses env peer request) request.connection_id m m refl

  answers : (resp : WitnessResponse) → Does {S = S} Effect (pure (resp, none))
  answers resp = Does-quiet Effect _ (search keeps_conns) same

  witness_here-KeepsConns : (c : Conn) → KeepsConns (witness_here env c)
  unfolding witness_here
  witness_here-KeepsConns c = search keeps_conns

  witness_here-WitnessedBySelf :
      (c : Conn) → Ensures (Keeps (WitnessedBySelf env) c) (witness_here env c)
  unfolding witness_here
  witness_here-WitnessedBySelf c =
      Ensures-catch _ (Keeps (WitnessedBySelf env) c) _ _ _ (Ensures-external env.self)
        (λ self found. Ensures-pure (Keeps (WitnessedBySelf env) c) _ (self, found, refl))
        (λ e. Ensures-raise _ e)

  accept-Effect :
      (sender receiver : Peer) (resp : WitnessResponse)
      → ((c : Conn)
          → MadeThen (WitnessedBySelf env) (accepted request.connection_id sender receiver opened) c
          → Witnesses env peer request c)
      → Does Effect (accept env request sender receiver resp)
  unfolding accept
  accept-Effect sender receiver resp witnesses = record {
    at = λ w.
        Touches-weaken (λ c c' h. h) witnesses
          (accept-update-Touches (WitnessedBySelf env) request.connection_id sender receiver opened
            (witness_here env) _ _ _ witness_here-KeepsConns witness_here-WitnessedBySelf
            (λ _. search keeps_conns) (λ e. search keeps_conns) (λ e. search keeps_conns) w);
  }

  module _ (sender receiver : Peer) (sender_found : Answers (env.find request.sender) sender)
      (receiver_found : Answers (env.find request.receiver) receiver) where
    ask-Effect :
        (self : Peer)
        → Answers env.self self
        → (sender.id ≡ peer) ⊎ (receiver.id ≡ peer)
        → (self.id ≢ sender.id) × (self.id ≢ receiver.id)
        → Does Effect (ask env peer request sender receiver)
    unfolding ask
    ask-Effect self self_found from_end (self_not_sender, self_not_receiver) =
        Does-catch_with _ Effect (λ m. same m panicked) _ _ _ (search keeps_conns)
          (Ensures-external (env.on_witness peer request))
          (λ (resp, e) approved.
            Does-if Effect (turned_down resp e) (pure (resp, e)) _
              (λ _. Does-quiet Effect _ (search keeps_conns) same)
              (λ h.
                let (no_err, no_errors, agreed) = taken resp e h in
                accept-Effect sender receiver resp (λ c made. record {
                  sender = sender;
                  receiver = receiver;
                  self = self;
                  resp = resp;
                  sender_found = sender_found;
                  receiver_found = receiver_found;
                  self_found = self_found;
                  from_end = from_end;
                  self_not_sender = self_not_sender;
                  self_not_receiver = self_not_receiver;
                  approved =
                      subst (λ x. Answers (env.on_witness peer request) (resp, x)) no_err approved;
                  no_errors = no_errors;
                  agreed = agreed;
                  made = made;
                })))
          (λ e. Does-quiet Effect (raise e) (search keeps_conns) same)

    admit-Effect : Does Effect (admit env peer request sender receiver)
    unfolding admit
    admit-Effect =
        Does-if Effect (not (sender.id == peer) && not (receiver.id == peer)) _ _
          (λ _. answers (rejected env request not_participant))
          (λ from_end.
            Does-catch_with _ Effect (λ m. same m panicked) _ _ _ (search keeps_conns)
              (Ensures-external env.self)
              (λ self self_found.
                Does-if Effect (sender.id == self.id || receiver.id == self.id) _ _
                  (λ _. answers (rejected env request self_is_participant))
                  (λ apart.
                    ask-Effect self self_found (passed_end sender.id receiver.id peer from_end)
                      (not_end sender.id receiver.id self.id apart)))
              (λ e. answers (failed env request e)))

  -- A witness request changes no connection, and makes at most the one that it names: only if the
  -- request came from one of the ends, this node is neither, and the application agreed.
  pub handle-Witnesses :
      (w : World S)
      → Touches request.connection_id Still
          (Witnesses env peer request)
          w.conns
          (handle env peer request w).1.conns
  unfolding handle
  handle-Witnesses =
      (Does-catch_with _ Effect (λ m. same m panicked) _ _ _ (search keeps_conns)
        (Ensures-external (env.find request.sender))
        (λ sender sender_found.
          Does-catch_with _ Effect (λ m. same m panicked) _ _ _ (search keeps_conns)
            (Ensures-external (env.find request.receiver))
            (λ receiver receiver_found. admit-Effect sender receiver sender_found receiver_found)
            (λ e. answers (failed env request e)))
        (λ e. answers (failed env request e))).at
