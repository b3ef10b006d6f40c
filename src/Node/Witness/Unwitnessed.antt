-- ===== src/Node/Witness/Unwitnessed.antt =====
-- A selection of the sender that has no candidate.
use go_clarinet.Base.{◌≡◌, refl, sym, some, List, [], Bytes}
use go_clarinet.Base.Assoc.{Assoc}
use go_clarinet.Base.Eq.{nat_eq}
use go_clarinet.Peer.{PeerId, peer_id_eq, id_beq_iff}
use go_clarinet.Reputation.{Reputation}
use go_clarinet.Connection.{Conn, set_status, requesting_witness}
use go_clarinet.Connection.Error.{no_witness_found}
use go_clarinet.World.{World, Env, TransportOptions, ok, pure, external, catch}
use go_clarinet.Node.Witness.{
  find_witness, try_candidates, announce, find_and_announce, handle_witness_selection,
}
use go_clarinet.Node.Witness.Candidates.{Judging, filter, may_witness, witness_candidates-filter}
use go_clarinet.Node.Witness.Course.{by_sender}

module _ {S : Type 0} (env : Env S) (conn : Conn) (o : TransportOptions) (w : World S)
    (judging : Judging env w.outside)
    (nobody : filter
        (may_witness judging.trusted w.reps (set_status requesting_witness conn))
        judging.peers
      ≡ []) where
  finds_none :
      (reps' : Assoc PeerId Reputation) × (find_witness env conn by_sender o w ≡ (
        ok (set_status requesting_witness conn, some (no_witness_found conn.id)),
        record w { reps = reps' },
      ))
  unfolding find_witness try_candidates catch pure set_status
  finds_none =
      let (reps', listed, same) =
        witness_candidates-filter env (set_status requesting_witness conn) w judging in
      (reps', rw (listed, nobody) refl)

  -- The connection comes out as one that asks for a witness, beside the error that there is none.
  pub selection_unwitnessed :
      (me : PeerId) (mine : S → List Bytes)
      → ((t : S) → env.self t ≡ (ok (record { id = me; addresses = mine t }), t))
      → conn.sender ≡ me
      → (reps' : Assoc PeerId Reputation) × (handle_witness_selection env conn by_sender o w ≡ (
        ok (some (set_status requesting_witness conn), some (no_witness_found conn.id)),
        record w { reps = reps' },
      ))
  unfolding handle_witness_selection announce find_and_announce catch external pure
  selection_unwitnessed me mine self own =
      let (reps', found) = finds_none in
      (reps', rw (self w.outside, (id_beq_iff me conn.sender).1 (sym own), found) refl)
