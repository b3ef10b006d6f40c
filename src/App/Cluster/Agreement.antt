-- ===== src/App/Cluster/Agreement.antt =====
-- `Connect` between nodes of main.go: the sender, the receiver and the witness.
use go_clarinet.Base.{
  ℕ, ◌≡◌, ◌∙◌, refl, ap, Bool, true, false, ◌||◌, none, some, List, ◌∷◌, ◌<◌, ◌^◌, map, Bytes,
  arith,
}
use go_clarinet.Base.Assoc.{Assoc, lookup, put, lookup-put_self}
use go_clarinet.Base.Eq.{◌==◌, nat_eq}
use go_clarinet.Peer.{PeerId, nil_id, some_id, Peer, peer_id_eq}
use go_clarinet.Reputation.{Reputation}
use go_clarinet.Connection.{
  ConnId, Conn, awaiting_witness, opened, requesting_witness, set_status, set_witness,
}
use go_clarinet.World.{World, Env, TransportOptions, ok}
use go_clarinet.Wire.Messages.{Texts}
use go_clarinet.Wire.Messages.Fields.{Faithful}
use go_clarinet.Transport.Stream.{Fault}
use go_clarinet.PeerStore.{Host}
use go_clarinet.PeerStore.Known.{peer_at}
use go_clarinet.Base.Lists.{All}
use go_clarinet.Node.Peers.Stored.{IsAddress, learned}
use go_clarinet.Node.Witness.Candidates.{filter, may_witness, filter_first}
use go_clarinet.Node.Witness.Opens.{opened_with}
use go_clarinet.Node.Witness.Course.{by_sender}
use go_clarinet.Node.Connect.{connect}
use go_clarinet.Node.Connect.Course.{asked_for, connect_course}
use go_clarinet.App.Cluster.{Around, update, around_host, cluster}
use go_clarinet.App.Cluster.Setting.{placed, judging, updated, draws}
use go_clarinet.App.Cluster.Delivered.{update_here, update_other}
use go_clarinet.App.Cluster.Calls.{between, receiver_agrees, receiver_opens, witness_opens}

beq_sym : (a b : ℕ) → (a == b) ≡ false → (b == a) ≡ false
beq_sym a b h = ground arith

-- The connection is open between `m` and `r` with the witness `v`, with the same fields at all three, of
-- which `m` is the node itself. The nodes but `r` and `v` are as they were.
pub record IsAgreed {S : Type 0} (id : ConnId) (m r v : ℕ) (w w' : World (Around S)) : Type 0 where
  pub at_sender : lookup id w'.conns ≡ some (between id m (some_id v) r opened)
  pub at_receiver : lookup id (w'.outside.nodes r).conns ≡ some (between id m (some_id v) r opened)
  pub at_witness : lookup id (w'.outside.nodes v).conns ≡ some (between id m (some_id v) r opened)
  pub elsewhere :
      (n : ℕ) → (n == r) ≡ false → (n == v) ≡ false → w'.outside.nodes n ≡ w.outside.nodes n

module _ (texts : Texts) (faithful : Faithful texts) (fault_text : Fault → Bytes) {S : Type 0}
    (hosts : ℕ → Host S) (inner : Env S) (host : Host S) where
  abbrev node : Env (Around S)
  node = cluster texts fault_text hosts inner host

  neither_end :
      (trusted : Reputation → Bool) (reps : Assoc PeerId Reputation) (c : Conn) (p : Peer)
      → may_witness trusted reps c p ≡ true
      → ((p.id == c.receiver) ≡ false) × ((p.id == c.sender) ≡ false)
  unfolding may_witness
  neither_end trusted reps c p h = (ground arith, ground arith)

  module _ (named : (n : ℕ) → (hosts n).id ≡ n) (o : TransportOptions) (r v : ℕ)
      (r_addrs v_addrs : List Bytes) (w : World (Around S)) (o₂ : S) (id : ConnId)
      (small : id < 2 ^ 128) (trusted : Reputation → Bool) (others : List Peer)
      (apart : (r == host.id) ≡ false) (addresses : All (IsAddress host) r_addrs)
      (drawn : inner.random_id (learned host r r_addrs w.outside.own) ≡ (ok id, o₂))
      (judges : (rep : Reputation) → inner.trusts rep o₂ ≡ (ok (trusted rep), o₂))
      (candidates : filter
          (may_witness trusted w.reps
            (set_status requesting_witness (asked_for id (some_id host.id) (some_id r))))
          (map (peer_at host o₂) (host.peers o₂))
        ≡ record { id = some_id v; addresses = v_addrs } ∷ others)
      (free : lookup id w.conns ≡ none) (free_r : lookup id (w.outside.nodes r).conns ≡ none)
      (free_v : lookup id (w.outside.nodes v).conns ≡ none) where
    abbrev p : Peer
    p = record { id = some_id v; addresses = v_addrs }

    v_neither : ((some_id v == some_id r) ≡ false) × ((some_id v == some_id host.id) ≡ false)
    unfolding set_status
    v_neither =
        let conn = set_status requesting_witness (asked_for id (some_id host.id) (some_id r)) in
        neither_end trusted w.reps conn p (
          filter_first (may_witness trusted w.reps conn) (map (peer_at host o₂) (host.peers o₂)) p
            others candidates)

    from_r : (v == r) ≡ false
    from_r = v_neither.0

    from_host : (v == host.id) ≡ false
    from_host = v_neither.1

    -- The nodes after the receiver agreed, after the witness agreed, and after the receiver was told.
    abbrev s₂ : Around S
    s₂ = record w.outside { own = o₂ }

    abbrev s₃ : World S → Around S
    s₃ wr = record s₂ { nodes = update w.outside.nodes r wr }

    abbrev s₄ : World S → World S → Around S
    s₄ wr wv = record s₂ { nodes = update (s₃ wr).nodes v wv }

    abbrev s₅ : World S → World S → World S → Around S
    s₅ wr wv wr' = record s₂ { nodes = update (s₄ wr wv).nodes r wr' }

    abbrev theirs : Around S → List Bytes
    theirs s = (peer_at (around_host host) s r).addresses

    v_as_before : (wr : World S) → (s₃ wr).nodes v ≡ w.outside.nodes v
    v_as_before wr = update_other w.outside.nodes r wr v from_r

    r_as_left : (wr wv : World S) → (s₄ wr wv).nodes r ≡ wr
    r_as_left wr wv =
        update_other (s₃ wr).nodes v wv r (beq_sym v r from_r) ∙ update_here w.outside.nodes r wr

    v_at_end : (wr wv wr' : World S) → (s₅ wr wv wr').nodes v ≡ wv
    v_at_end wr wv wr' =
        update_other (s₄ wr wv).nodes r wr' v from_r ∙ update_here (s₃ wr).nodes v wv

    others_at_end :
        (wr wv wr' : World S) (n : ℕ)
        → (n == r) ≡ false
        → (n == v) ≡ false
        → (s₅ wr wv wr').nodes n ≡ w.outside.nodes n
    others_at_end wr wv wr' n not_r not_v =
        update_other (s₄ wr wv).nodes r wr' n not_r
        ∙ update_other (s₃ wr).nodes v wv n not_v
        ∙ update_other w.outside.nodes r wr n not_r

    apart_from_v : (some_id host.id == some_id v || some_id r == some_id v) ≡ false
    apart_from_v = rw (beq_sym v host.id from_host, beq_sym v r from_r) refl

    still_free : (wr : World S) → lookup id ((s₃ wr).nodes v).conns ≡ none
    still_free wr = rw (v_as_before wr) free_v

    waits :
        (wr wv : World S)
        → wr.conns ≡ put id (between id host.id nil_id r awaiting_witness) (w.outside.nodes r).conns
        → lookup id ((s₄ wr wv).nodes r).conns ≡ some (between id host.id nil_id r awaiting_witness)
    waits wr wv has_r =
        ap (λ n. lookup id n.conns) (r_as_left wr wv)
        ∙ ap (λ c. lookup id c) has_r
        ∙ lookup-put_self id (between id host.id nil_id r awaiting_witness)
            (w.outside.nodes r).conns

    ends-IsAgreed :
        (wr wv wr' : World S) (w' : World (Around S))
        → w'.outside ≡ s₅ wr wv wr'
        → lookup id w'.conns ≡ some (between id host.id (some_id v) r opened)
        → lookup id wv.conns ≡ some (between id host.id (some_id v) r opened)
        → wr'.conns ≡ put id (between id host.id (some_id v) r opened) ((s₄ wr wv).nodes r).conns
        → IsAgreed id host.id r v w w'
    ends-IsAgreed wr wv wr' w' at here at_v has_r = record {
      at_sender = here;
      at_receiver =
          ap (λ s. lookup id (s.nodes r).conns) at
          ∙ ap (λ n. lookup id n.conns) (update_here (s₄ wr wv).nodes r wr')
          ∙ ap (λ c. lookup id c) has_r
          ∙ lookup-put_self id (between id host.id (some_id v) r opened) ((s₄ wr wv).nodes r).conns;
      at_witness =
          ap (λ s. lookup id (s.nodes v).conns) at
          ∙ ap (λ n. lookup id n.conns) (v_at_end wr wv wr')
          ∙ at_v;
      elsewhere = λ n not_r not_v. ap (λ s. s.nodes n) at ∙ others_at_end wr wv wr' n not_r not_v;
    }

    abbrev s₁ : Around S
    s₁ = record w.outside { own = learned host r r_addrs w.outside.own }

    -- Over streams that open, take every write whole and carry both directions, between nodes of
    -- main.go of which every host has its own id: `Connect` with the sender as selector returns the id
    -- that was drawn and no error, and the connection is then open at the sender, the receiver and the
    -- witness, with the same ends and the same witness at all three. No other node is changed. The
    -- receiver is another node, its addresses are multiaddresses, the id has 128 bits and is free at the
    -- three, and the witness is the first of the sender's peers that is neither end and is trusted.
    pub connect_agrees :
        (w' : World (Around S)) × (connect node
            (record { id = some_id r; addresses = r_addrs })
            by_sender
            o
            w
          ≡ (ok (id, none), w'))
        × IsAgreed id host.id r v w w'
    unfolding opened_with set_status set_witness placed judging
    connect_agrees =
        let receiver : Peer = record { id = some_id r; addresses = r_addrs } in
        let here_placed = placed texts faithful fault_text hosts inner host r in
        let at_call = receiver_agrees texts faithful fault_text hosts inner host o id small in
        let (wr, welcomed, has_r) = at_call s₂ (theirs s₂) r (named r) apart free_r in
        let (wv, agreed, open_v) =
          witness_opens texts faithful fault_text hosts inner host o id small (s₃ wr) v_addrs r v
            (named v) from_host apart_from_v (still_free wr) in
        let (wr', told, has_r') =
          receiver_opens texts faithful fault_text hosts inner host o id small (s₄ wr wv)
            (theirs (s₄ wr wv)) r (named r) v apart (waits wr wv has_r) in
        let (w', goes, at, here) =
          connect_course node (some_id host.id) receiver here_placed o w id s₁ s₂ (s₃ wr)
            (record {
              updated = updated texts faithful fault_text hosts inner host r r_addrs w addresses;
              drawn = draws texts faithful fault_text hosts inner host id o₂ s₁ drawn;
              welcomed = welcomed;
            })
            free p v (s₄ wr wv) (s₅ wr wv wr') refl
            (record {
              judging = judging texts faithful fault_text hosts inner host trusted (s₃ wr) judges;
              others = others;
              candidates = candidates;
              agreed = agreed;
              told = told;
            }) in
        (w', goes, ends-IsAgreed wr wv wr' w' at here open_v has_r')
