-- ===== src/Node/Witness/Selection.antt =====
-- What may come out of `handleWitnessSelection`.
use go_clarinet.Base.{◌≡◌, ◌≢◌, true, Option, none, some, []}
use go_clarinet.Base.Eq.{nat_eq}
use go_clarinet.Peer.{PeerId, nil_id, Peer, peer_id_eq}
use go_clarinet.Connection.{
  Conn, Options, WitnessSelector, nil_selector, sender_selects, receiver_selects, WitnessResponse,
  set_status, set_witness, awaiting_witness, requesting_witness, notifying_of_witness, opened,
}
use go_clarinet.Connection.Error.{Err, unrecognized_selector}
use go_clarinet.World.{Env, TransportOptions}
use go_clarinet.World.Rules.{Answers}
use go_clarinet.Inmem.Connections.{Written}
use go_clarinet.Inmem.Connections.Effect.{Keeps}
use go_clarinet.Node.Witness.{witness_request_for}

-- A peer that is neither end of the connection.
pub record CanWitness (c : Conn) (p : PeerId) : Type 0 where
  pub not_receiver : p ≢ c.receiver
  pub not_sender : p ≢ c.sender

-- The end of a connection that a selector names as the one to select the witness.
abbrev pub selecting_end : WitnessSelector → Conn → Option PeerId
selecting_end nil_selector c = none
selecting_end sender_selects c = some c.sender
selecting_end receiver_selects c = some c.receiver

-- This node is the end that selects.
pub record IsSelecting {S : Type 0} (env : Env S) (o : Options) (c : Conn) : Type 0 where
  pub self : Peer
  pub self_found : Answers env.self self
  pub named : selecting_end o.witness_selector c ≡ some self.id

-- An end is to select, and this node is not that end.
pub record IsWaiting {S : Type 0} (env : Env S) (o : Options) (c : Conn) : Type 0 where
  pub self : Peer
  pub selector : PeerId
  pub self_found : Answers env.self self
  pub named : selecting_end o.witness_selector c ≡ some selector
  pub apart : self.id ≢ selector

-- The peer was asked to be the witness of `c` with these options, and its response agrees, for this
-- connection and with no error.
pub record Agreed {S : Type 0} (env : Env S) (o : Options) (c : Conn) (p : PeerId) : Type 0 where
  pub peer : Peer
  pub is_peer : peer.id ≡ p
  pub topts : TransportOptions
  pub resp : WitnessResponse
  pub answered : Answers (env.exchange_witness peer topts (witness_request_for c o)) resp
  pub about : resp.connection_id ≡ c.id
  pub no_errors : resp.errors ≡ []
  pub accepted : resp.accepted ≡ true

-- The connection that comes out of a selection on `c`, with the error beside it.
pub data Selected {S : Type 0} (env : Env S) (o : Options) (c c' : Conn) (e : Option Err)
    : Type 0 where
  unknown_selector :
      o.witness_selector ≡ nil_selector
      → c' ≡ c
      → e ≡ some unrecognized_selector
      → Selected env o c c' e
  left_to_other_end :
      IsWaiting env o c → c' ≡ set_status awaiting_witness c → e ≡ none → Selected env o c c' e
  not_found :
      IsSelecting env o c → c' ≡ set_status requesting_witness c → e ≢ none → Selected env o c c' e
  not_announced :
      (p : PeerId)
      → IsSelecting env o c
      → CanWitness c p
      → Agreed env o c p
      → c' ≡ set_status notifying_of_witness (set_witness p c)
      → e ≢ none
      → Selected env o c c' e
  witnessed :
      (p : PeerId)
      → IsSelecting env o c
      → CanWitness c p
      → Agreed env o c p
      → p ≢ nil_id
      → c' ≡ set_status opened (set_witness p c)
      → e ≡ none
      → Selected env o c c' e

abbrev pub Selection : {S : Type 0} → Env S → Options → Conn → Written → Type 0
Selection env o c (none, e) = ⊥
Selection env o c (some c', e) = Selected env o c c' e

-- The same for the entry of the store.
abbrev pub SelectsFrom : {S : Type 0} → Env S → Options → Conn → Conn → Type 0
SelectsFrom env o c c' = (e : Option Err) × Selected env o c c' e

pub Selection-Keeps :
    {S : Type 0} (env : Env S) (o : Options) (c : Conn) (written : Written)
    → Selection env o c written
    → Keeps (SelectsFrom env o) c written
Selection-Keeps env o c (none, e) h = tt
Selection-Keeps env o c (some c', e) h = (e, h)
