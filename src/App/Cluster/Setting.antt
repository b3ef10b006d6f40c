-- ===== src/App/Cluster/Setting.antt =====
-- What a node of main.go finds at its host, and what is left of its addresses.
use go_clarinet.Base.{ℕ, ◌≡◌, ◌∙◌, refl, ap, Bool, List, [], ◌∷◌, map, Bytes}
use go_clarinet.Base.Eq.{nat_eq}
use go_clarinet.Peer.{some_id, peer_id_eq}
use go_clarinet.Reputation.{Reputation}
use go_clarinet.Connection.{ConnId}
use go_clarinet.World.{World, Env, ok}
use go_clarinet.Wire.Messages.{Texts}
use go_clarinet.Wire.Messages.Fields.{Faithful}
use go_clarinet.Transport.Stream.{Fault}
use go_clarinet.PeerStore.{Host, with_store, self}
use go_clarinet.PeerStore.Known.{peer_at, find-peer_at, all-peer_at}
use go_clarinet.Base.Lists.{All}
use go_clarinet.Node.Peers.{update_peer}
use go_clarinet.Node.Peers.Stored.{IsAddress, learned, update_peer-learned}
use go_clarinet.Node.Witness.Candidates.{Judging}
use go_clarinet.Node.Connect.Course.{Placed}
use go_clarinet.App.{with_handlers}
use go_clarinet.App.Cluster.{Around, within, around_host, routed, cluster}

module _ (texts : Texts) (faithful : Faithful texts) (fault_text : Fault → Bytes) {S : Type 0}
    (hosts : ℕ → Host S) (inner : Env S) (host : Host S) where
  abbrev pub node : Env (Around S)
  node = cluster texts fault_text hosts inner host

  unfoldable pub placed : (r : ℕ) → Placed node (some_id host.id) (some_id r)
  unfolding cluster with_handlers with_store self peer_at around_host
  placed r = record {
    mine = λ s. (peer_at (around_host host) s host.id).addresses;
    theirs = λ s. (peer_at (around_host host) s r).addresses;
    self = λ s. ap (λ q. (q, s)) (find-peer_at texts faithful (around_host host) host.id s);
    find = λ s. ap (λ q. (q, s)) (find-peer_at texts faithful (around_host host) r s);
  }

  unfoldable pub judging :
      (trusted : Reputation → Bool) (s : Around S)
      → ((rep : Reputation) → inner.trusts rep s.own ≡ (ok (trusted rep), s.own))
      → Judging node s
  unfolding cluster with_handlers with_store around_host within
  judging trusted s judges = record {
    peers = map (peer_at (around_host host) s) (host.peers s.own);
    trusted = trusted;
    lists = rw (all-peer_at texts faithful (around_host host) s) refl;
    judges = λ rep. rw (judges rep) refl;
  }

  around-learned :
      (n : ℕ) (addrs : List Bytes) (s : Around S)
      → All (IsAddress host) addrs
      → learned (around_host host) n addrs s ≡ record s { own = learned host n addrs s.own }
  unfolding learned around_host
  around-learned n [] s h = refl
  around-learned n (addr ∷ addrs) s ((maddr, parses), h) =
      rw parses (around-learned n addrs (record s { own = host.add_addr n maddr s.own }) h)

  module _ (r : ℕ) (r_addrs : List Bytes) (w : World (Around S))
      (addresses : All (IsAddress host) r_addrs) where
    abbrev pub met : Around S
    met = record w.outside { own = learned host r r_addrs w.outside.own }

    pub updated :
        update_peer node (record { id = some_id r; addresses = r_addrs }) w
        ≡ (ok tt, record w { outside = met })
    unfolding cluster with_handlers with_store around_host
    updated =
        update_peer-learned texts faithful (around_host host)
          (with_handlers (routed texts fault_text hosts inner host)) r r_addrs w addresses
        ∙ ap (λ s. (ok tt, record w { outside = s })) (around-learned r r_addrs w.outside addresses)

  pub draws :
      (id : ConnId) (o₂ : S) (s : Around S)
      → inner.random_id s.own ≡ (ok id, o₂)
      → node.random_id s ≡ (ok id, record s { own = o₂ })
  unfolding cluster with_handlers with_store within
  draws id o₂ s drawn = rw drawn refl
