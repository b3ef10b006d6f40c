-- ===== src/Node/Witness/Quiet.antt =====
-- A witness selection has no hold on the connection store: what it decides is written by `Update`.
use go_clarinet.Base.{Option, none, some, List, [], ◌∷◌}
use go_clarinet.Base.Eq.{nat_eq}
use go_clarinet.Peer.{PeerId, Peer, peer_id_eq}
use go_clarinet.Connection.{Conn, Options, WitnessSelector, nil_selector}
use go_clarinet.Connection.Error.{Err}
use go_clarinet.World.{Env, TransportOptions}
use go_clarinet.World.Rules.{KeepsConns, KeepsConns-catch, keeps_conns}
use go_clarinet.Inmem.Reputations
use go_clarinet.Node.Witness.{
  assess, candidates_among, witness_candidates, request_witness, try_candidates, find_witness,
  send_witness_notification, announce, find_and_announce, select_as, handle_witness_selection,
}

module _ {S : Type 0} (env : Env S) where
  assess-KeepsConns : (p : Peer) → KeepsConns (assess env p)
  unfolding assess Reputations.read
  assess-KeepsConns p = search (keeps_conns, Reputations.ensure_rep_exists-KeepsConns)

  candidates_among-KeepsConns :
      (c : Conn) (ps found : List Peer) → KeepsConns (candidates_among env c ps found)
  unfolding candidates_among
  candidates_among-KeepsConns c [] found = search keeps_conns
  candidates_among-KeepsConns c (p ∷ ps) found =
      search (keeps_conns, assess-KeepsConns, λ (f : List Peer). candidates_among-KeepsConns c ps f)

  witness_candidates-KeepsConns : (c : Conn) → KeepsConns (witness_candidates env c)
  unfolding witness_candidates
  witness_candidates-KeepsConns c = search (keeps_conns, candidates_among-KeepsConns)

  request_witness-KeepsConns :
      (p : Peer) (c : Conn) (o : Options) (t : TransportOptions)
      → KeepsConns (request_witness env p c o t)
  unfolding request_witness
  request_witness-KeepsConns p c o t = search keeps_conns

  try_candidates-KeepsConns :
      (ps : List Peer) (c : Conn) (o : Options) (t : TransportOptions)
      → KeepsConns (try_candidates env ps c o t)
  unfolding try_candidates
  try_candidates-KeepsConns [] c o t = search keeps_conns
  try_candidates-KeepsConns (p ∷ ps) c o t =
      KeepsConns-catch _ _ _ (request_witness-KeepsConns p c o t) (λ _. search keeps_conns)
        (λ _. try_candidates-KeepsConns ps c o t)

  find_witness-KeepsConns :
      (c : Conn) (o : Options) (t : TransportOptions) → KeepsConns (find_witness env c o t)
  unfolding find_witness
  find_witness-KeepsConns c o t =
      search (keeps_conns, witness_candidates-KeepsConns, try_candidates-KeepsConns)

  send_witness_notification-KeepsConns :
      (c : Conn) (t : TransportOptions) → KeepsConns (send_witness_notification env c t)
  unfolding send_witness_notification
  send_witness_notification-KeepsConns c t = search keeps_conns depth 9

  announce-KeepsConns :
      (c : Conn) (t : TransportOptions) (e : Option Err) → KeepsConns (announce env c t e)
  unfolding announce
  announce-KeepsConns c t none = search (keeps_conns, send_witness_notification-KeepsConns)
  announce-KeepsConns c t (some e) = search keeps_conns

  find_and_announce-KeepsConns :
      (c : Conn) (o : Options) (t : TransportOptions) → KeepsConns (find_and_announce env c o t)
  unfolding find_and_announce
  find_and_announce-KeepsConns c o t =
      search (keeps_conns, find_witness-KeepsConns, announce-KeepsConns)

  select_as-KeepsConns :
      (self : PeerId) (s : WitnessSelector) (c : Conn) (o : Options) (t : TransportOptions)
      → KeepsConns (select_as env self s c o t)
  unfolding select_as
  select_as-KeepsConns self nil_selector c o t = search keeps_conns
  select_as-KeepsConns self _ c o t = search (keeps_conns, find_and_announce-KeepsConns)

  -- The selection leaves the connection store alone: what it makes of its connection is returned.
  pub handle_witness_selection-KeepsConns :
      (c : Conn) (o : Options) (t : TransportOptions)
      → KeepsConns (handle_witness_selection env c o t)
  unfolding handle_witness_selection
  handle_witness_selection-KeepsConns c o t = search (keeps_conns, select_as-KeepsConns)
