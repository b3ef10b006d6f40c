-- ===== src/App/Cluster/Unwitnessed.antt =====
-- `Connect` between nodes of main.go where no peer may be the witness.
use go_clarinet.Base.{ℕ, ◌≡◌, ◌∙◌, ap, Bool, false, none, some, List, [], ◌<◌, ◌^◌, map, Bytes}
use go_clarinet.Base.Assoc.{lookup, lookup-put_self}
use go_clarinet.Base.Eq.{◌==◌, nat_eq}
use go_clarinet.Base.Lists.{All}
use go_clarinet.Peer.{nil_id, some_id}
use go_clarinet.Reputation.{Reputation}
use go_clarinet.Connection.{ConnId, awaiting_witness, requesting_witness, set_status}
use go_clarinet.Connection.Error.{no_witness_found}
use go_clarinet.World.{World, Env, TransportOptions, ok}
use go_clarinet.Wire.Messages.{Texts}
use go_clarinet.Wire.Messages.Fields.{Faithful}
use go_clarinet.Transport.Stream.{Fault}
use go_clarinet.PeerStore.{Host}
use go_clarinet.PeerStore.Known.{peer_at}
use go_clarinet.Node.Peers.Stored.{IsAddress, learned}
use go_clarinet.Node.Witness.Candidates.{filter, may_witness}
use go_clarinet.Node.Witness.Course.{by_sender}
use go_clarinet.Node.Connect.{connect}
use go_clarinet.Node.Connect.Course.{asked_for}
use go_clarinet.Node.Connect.Unwitnessed.{connect_unwitnessed}
use go_clarinet.App.Cluster.{Around, update, around_host, cluster}
use go_clarinet.App.Cluster.Setting.{placed, judging, met, updated, draws}
use go_clarinet.App.Cluster.Delivered.{update_here, update_other}
use go_clarinet.App.Cluster.Calls.{between, receiver_agrees}

-- The sender `m` asks for a witness and the receiver `r` waits for one. The other nodes are as they
-- were.
pub record IsHalfOpen {S : Type 0} (id : ConnId) (m r : ℕ) (w w' : World (Around S)) : Type 0 where
  pub at_sender : lookup id w'.conns ≡ some (between id m nil_id r requesting_witness)
  pub at_receiver :
      lookup id (w'.outside.nodes r).conns ≡ some (between id m nil_id r awaiting_witness)
  pub elsewhere : (n : ℕ) → (n == r) ≡ false → w'.outside.nodes n ≡ w.outside.nodes n

module _ (texts : Texts) (faithful : Faithful texts) (fault_text : Fault → Bytes) {S : Type 0}
    (hosts : ℕ → Host S) (inner : Env S) (host : Host S) where
  -- Between nodes of main.go of which every host has its own id, over streams that open, take every
  -- write whole and carry both directions: if no peer that is neither end is trusted, `Connect` with the
  -- sender as selector returns the id beside the error that there is no witness; the sender's connection
  -- then asks for a witness, the receiver's waits for one, and no other node is changed. The receiver
  -- is another node, its addresses are multiaddresses, and the id has 128 bits and is free at the two.
  pub connect_half_opens :
      (named : (n : ℕ) → (hosts n).id ≡ n) (o : TransportOptions) (r : ℕ) (r_addrs : List Bytes)
      (w : World (Around S)) (o₂ : S) (id : ConnId) (small : id < 2 ^ 128)
      (trusted : Reputation → Bool)
      → (r == host.id) ≡ false
      → All (IsAddress host) r_addrs
      → inner.random_id (learned host r r_addrs w.outside.own) ≡ (ok id, o₂)
      → ((rep : Reputation) → inner.trusts rep o₂ ≡ (ok (trusted rep), o₂))
      → filter
          (may_witness trusted w.reps
            (set_status requesting_witness (asked_for id (some_id host.id) (some_id r))))
          (map (peer_at host o₂) (host.peers o₂))
        ≡ []
      → lookup id w.conns ≡ none
      → lookup id (w.outside.nodes r).conns ≡ none
      → (w' : World (Around S)) × (connect
            (cluster texts fault_text hosts inner host)
            (record { id = some_id r; addresses = r_addrs })
            by_sender
            o
            w
          ≡ (ok (id, some (no_witness_found id)), w'))
        × IsHalfOpen id host.id r w w'
  unfolding set_status placed judging
  connect_half_opens named o r r_addrs w o₂ id small trusted apart addresses drawn judges nobody
        free free_r =
      let s₁ = met texts faithful fault_text hosts inner host r r_addrs w addresses in
      let s₂ : Around S = record w.outside { own = o₂ } in
      let (wr, welcomed, has_r) =
        receiver_agrees texts faithful fault_text hosts inner host o id small s₂
          (peer_at (around_host host) s₂ r).addresses r (named r) apart free_r in
      let s₃ : Around S = record s₂ { nodes = update w.outside.nodes r wr } in
      let (w', goes, at, here) =
        connect_unwitnessed (cluster texts fault_text hosts inner host) (some_id host.id)
          (record { id = some_id r; addresses = r_addrs })
          (placed texts faithful fault_text hosts inner host r) o w id s₁ s₂ s₃
          (record {
            updated = updated texts faithful fault_text hosts inner host r r_addrs w addresses;
            drawn = draws texts faithful fault_text hosts inner host id o₂ s₁ drawn;
            welcomed = welcomed;
          })
          free (judging texts faithful fault_text hosts inner host trusted s₃ judges) nobody in
      (
        w',
        goes,
        record {
          at_sender = here;
          at_receiver =
              ap (λ s. lookup id (s.nodes r).conns) at
              ∙ ap (λ n. lookup id n.conns) (update_here w.outside.nodes r wr)
              ∙ ap (λ c. lookup id c) has_r
              ∙ lookup-put_self id (between id host.id nil_id r awaiting_witness)
                  (w.outside.nodes r).conns;
          elsewhere = λ n not_r. ap (λ s. s.nodes n) at ∙ update_other w.outside.nodes r wr n not_r;
        },
      )
