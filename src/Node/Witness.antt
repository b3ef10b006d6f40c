-- ===== src/Node/Witness.antt =====
-- `handleWitnessSelection` and what it calls: a witness is looked for among the trusted peers, and
-- the other end of the connection is told of it.
pub mod Quiet
pub mod Selection
pub mod Selected
pub mod Candidates
pub mod First
pub mod Opens
pub mod Course
pub mod Unwitnessed
use go_clarinet.Base.{
  Bool, true, false, ◌||◌, Option, none, some, List, [], ◌∷◌, ◌++◌, Bytes, if◌then◌else◌,
}
use go_clarinet.Base.Eq.{◌==◌, nat_eq}
use go_clarinet.Peer.{PeerId, nil_id, Peer, peer_id_eq}
use go_clarinet.Connection.{
  Conn, Options, WitnessSelector, nil_selector, sender_selects, receiver_selects, set_status,
  set_witness, awaiting_witness, requesting_witness, notifying_of_witness, opened, WitnessRequest,
  WitnessResponse,
}
use go_clarinet.Connection.Error.{
  Err, unrecognized_selector, no_witness_assigned, wrong_witness_id, witness_errors,
  witness_rejected, no_witness_found,
}
use go_clarinet.World.{
  Env, TransportOptions, M, pure, raise, panic, external, transmit, catch, witness_request,
  witness_notification, ◌>>=◌,
}
use go_clarinet.Inmem.Connections.{Written}
use go_clarinet.Inmem.Reputations

abbrev pub is_empty : List Bytes → Bool
is_empty [] = true
is_empty (s ∷ ss) = false

abbrev pub witness_request_for : Conn → Options → WitnessRequest
witness_request_for conn options = record {
  connection_id = conn.id;
  sender = conn.sender;
  receiver = conn.receiver;
  options = options;
}

module _ {S : Type 0} (env : Env S) where
  -- The callback of `reputationStore.Read`; an error is logged, and the peer is passed over.
  assess : Peer → M S Bool
  assess p =
      catch (Reputations.read p.id (λ rep. external (env.trusts rep))) (λ trusted. pure trusted)
        (λ e. pure false)

  candidates_among : Conn → List Peer → List Peer → M S (List Peer)
  candidates_among conn [] found = pure found
  candidates_among conn (p ∷ peers) found =
      if p.id == conn.receiver || p.id == conn.sender then candidates_among conn peers found else do
        trusted ← assess p
        candidates_among conn peers (if trusted then found ++ p ∷ [] else found)

  unfoldable pub witness_candidates : Conn → M S (List Peer)
  unfolding assess candidates_among
  witness_candidates conn = do peers ← external env.all_peers; candidates_among conn peers []

  -- What `requestWitness` makes of the response.
  check_witness_response : Conn → WitnessResponse → M S (Unit {0})
  check_witness_response conn resp =
      if resp.connection_id == conn.id
      then (if is_empty resp.errors
          then (if resp.accepted
              then pure tt
              else raise (witness_rejected resp.connection_id resp.reject_reasons))
          else raise (witness_errors resp.errors))
      else raise (wrong_witness_id resp.connection_id conn.id)

  unfoldable pub request_witness : Peer → Conn → Options → TransportOptions → M S (Unit {0})
  unfolding check_witness_response
  request_witness peer conn options topts =
      let request = witness_request_for conn options in
      do
        resp ← transmit peer (witness_request request) (env.exchange_witness peer topts request)
        check_witness_response conn resp

  -- The loop over the candidates: the first that agrees is the witness.
  try_candidates : List Peer → Conn → Options → TransportOptions → M S (Conn × Option Err)
  try_candidates [] conn options topts = pure (conn, some (no_witness_found conn.id))
  try_candidates (p ∷ ps) conn options topts =
      catch (request_witness p conn options topts) (λ _. pure (set_witness p.id conn, none))
        (λ e. try_candidates ps conn options topts)

  unfoldable pub find_witness : Conn → Options → TransportOptions → M S (Conn × Option Err)
  unfolding try_candidates
  find_witness conn options topts =
      let conn' = set_status requesting_witness conn in
      catch (witness_candidates conn') (λ candidates. try_candidates candidates conn' options topts)
        (λ e. pure (conn', some e))

  -- The end of the connection that this node is not; a node that is neither end panics.
  peer_to_notify : PeerId → Conn → M S PeerId
  peer_to_notify self conn =
      if conn.sender == self
      then pure conn.receiver
      else if conn.receiver == self
      then pure conn.sender
      else panic

  unfoldable pub send_witness_notification : Conn → TransportOptions → M S (Unit {0})
  unfolding peer_to_notify
  send_witness_notification conn topts =
      if conn.witness == nil_id then raise (no_witness_assigned conn.id) else do
        self ← external env.self
        other ← peer_to_notify self.id conn
        p ← external (env.find other)
        let note = witness_notification (record { connection_id = conn.id; witness = conn.witness })
        transmit p note (env.send p topts note)

  -- After `findWitness`: an error ends the selection, with the connection as it came.
  announce : Conn → TransportOptions → Option Err → M S Written
  announce conn topts (some e) = pure (some conn, some e)
  announce conn topts none =
      let conn' = set_status notifying_of_witness conn in
      catch (send_witness_notification conn' topts)
        (λ _. pure (some (set_status opened conn'), none)) (λ e. pure (some conn', some e))

  pub find_and_announce : Conn → Options → TransportOptions → M S Written
  find_and_announce conn options topts = do
    (conn', e) ← find_witness conn options topts
    announce conn' topts e

  -- The `switch` over the selector, for this node's id.
  select_as : PeerId → WitnessSelector → Conn → Options → TransportOptions → M S Written
  select_as self sender_selects conn options topts =
      if self == conn.sender
      then find_and_announce conn options topts
      else pure (some (set_status awaiting_witness conn), none)
  select_as self receiver_selects conn options topts =
      if self == conn.receiver
      then find_and_announce conn options topts
      else pure (some (set_status awaiting_witness conn), none)
  select_as self nil_selector conn options topts = pure (some conn, some unrecognized_selector)

  unfoldable pub handle_witness_selection : Conn → Options → TransportOptions → M S Written
  unfolding announce find_and_announce select_as
  handle_witness_selection conn options topts = do
    self ← external env.self
    select_as self.id options.witness_selector conn options topts
