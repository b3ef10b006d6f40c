-- ===== src/Node/Peers/Stored.antt =====
-- `UpdatePeer` of a node with the peer store of libp2p.
use go_clarinet.Base.{
  ℕ, ◌≡◌, refl, ◌∙◌, Bool-cases, inl, inr, Option, none, some, List, [], ◌∷◌, Mem, Bytes,
}
use go_clarinet.Base.Lists.{All}
use go_clarinet.Peer.{some_id, Peer, peer_id_eq}
use go_clarinet.World.{World, Env, M, ok, pure, catch}
use go_clarinet.Wire.Messages.{Texts}
use go_clarinet.Wire.Messages.Fields.{Faithful}
use go_clarinet.PeerStore.{Host, add_addr, with_store}
use go_clarinet.PeerStore.Known.{Remembers, find-peer_at}
use go_clarinet.Node.Peers.{add_addresses, update_peer, verify_added}

module _ (texts : Texts) {S : Type 0} (host : Host S) (env : Env S) where
  abbrev pub stored : Env S
  stored = with_store texts host env

module _ {S : Type 0} (host : Host S) where
  abbrev pub IsAddress : Bytes → Type 0
  IsAddress addr = (maddr : Bytes) × (host.multiaddr addr ≡ some maddr)

module _ {S : Type 0} (host : Host S) (n : ℕ) where
  take_text : Option Bytes → S → S
  take_text none s = s
  take_text (some maddr) s = host.add_addr n maddr s

  -- The host once it took in those of these texts that are addresses.
  unfoldable pub learned : List Bytes → S → S
  unfolding take_text
  learned [] s = s
  learned (addr ∷ addrs) s = learned addrs (take_text (host.multiaddr addr) s)

  -- The text is an address, and the host has it for the peer.
  abbrev pub Has : S → Bytes → Type 0
  Has s addr = (maddr : Bytes) × (host.multiaddr addr ≡ some maddr) × Mem maddr (host.addrs n s)

  -- What an update comes to that returns: nothing but the host is changed, the host has each of the
  -- addresses for the peer, and has for each peer what it had.
  pub record IsUpdated (addrs : List Bytes) (w : World S) (update : M S (Unit {0})) : Type 0 where
    pub after : S
    pub returns : update w ≡ (ok tt, record w { outside = after })
    pub has : All (Has after) addrs
    pub keeps :
        (m : ℕ) (other : Bytes)
        → Mem other (host.addrs m w.outside)
        → Mem other (host.addrs m after)

module _ (texts : Texts) (faithful : Faithful texts) {S : Type 0} (host : Host S) (env : Env S)
    (n : ℕ) where
  one_added :
      (addr maddr : Bytes) (s : S)
      → host.multiaddr addr ≡ some maddr
      → (stored texts host env).add_addr (some_id n) addr s ≡ (ok tt, host.add_addr n maddr s)
  unfolding with_store add_addr
  one_added addr maddr s parses = rw (parses, faithful.peer n) refl

  then_found : (w : World S) → verify_added (stored texts host env) (some_id n) w ≡ (ok tt, w)
  unfolding verify_added with_store catch
  then_found w = elim (Bool-cases env.at_trace) [
    | inl trace ↦ rw (trace, find-peer_at texts faithful host n w.outside) refl
    | inr quiet ↦ rw quiet refl
  ]

  one_round :
      (addr maddr : Bytes) (addrs : List Bytes) (w : World S)
      → host.multiaddr addr ≡ some maddr
      → add_addresses (stored texts host env) (some_id n) (addr ∷ addrs) w
        ≡ add_addresses
            (stored texts host env)
            (some_id n)
            addrs
            (record w { outside = host.add_addr n maddr w.outside })
  unfolding add_addresses catch with_store
  one_round addr maddr addrs w parses =
      rw
        (
          one_added addr maddr w.outside parses,
          then_found (record w { outside = host.add_addr n maddr w.outside }),
        )
        refl

  rounds_learned :
      (addrs : List Bytes) (w : World S)
      → All (IsAddress host) addrs
      → add_addresses (stored texts host env) (some_id n) addrs w
        ≡ (ok tt, record w { outside = learned host n addrs w.outside })
  unfolding add_addresses pure learned
  rounds_learned [] w h = refl
  rounds_learned (addr ∷ addrs) w ((maddr, parses), h) =
      one_round addr maddr addrs w parses
      ∙ rw parses (rounds_learned addrs (record w { outside = host.add_addr n maddr w.outside }) h)

  -- If all addresses of a peer are multiaddresses, `UpdatePeer` leaves the host as it takes them in.
  pub update_peer-learned :
      (addrs : List Bytes) (w : World S)
      → All (IsAddress host) addrs
      → update_peer (stored texts host env) (record { id = some_id n; addresses = addrs }) w
        ≡ (ok tt, record w { outside = learned host n addrs w.outside })
  unfolding update_peer
  update_peer-learned addrs w h = rounds_learned addrs w h

module _ {S : Type 0} (host : Host S) (remembers : Remembers host) (n : ℕ) where
  take_text-keeps :
      (m : ℕ) (other : Bytes) (o : Option Bytes) (s : S)
      → Mem other (host.addrs m s)
      → Mem other (host.addrs m (take_text host n o s))
  unfolding take_text
  take_text-keeps m other none s here = here
  take_text-keeps m other (some maddr) s here = remembers.keeps n m maddr other s here

  learned-keeps :
      (m : ℕ) (other : Bytes) (addrs : List Bytes) (s : S)
      → Mem other (host.addrs m s)
      → Mem other (host.addrs m (learned host n addrs s))
  unfolding learned
  learned-keeps m other [] s here = here
  learned-keeps m other (addr ∷ addrs) s here =
      learned-keeps m other addrs (take_text host n (host.multiaddr addr) s)
        (take_text-keeps m other (host.multiaddr addr) s here)

  learned-Has :
      (addrs : List Bytes) (s : S)
      → All (IsAddress host) addrs
      → All (Has host n (learned host n addrs s)) addrs
  unfolding learned take_text
  learned-Has [] s h = tt
  learned-Has (addr ∷ addrs) s ((maddr, parses), h) =
      let s' = take_text host n (host.multiaddr addr) s in
      let taken : Mem maddr (host.addrs n s') = rw parses (remembers.takes n maddr s) in
      ((maddr, parses, learned-keeps n maddr addrs s' taken), learned-Has addrs s' h)

module _ (texts : Texts) (faithful : Faithful texts) {S : Type 0} (host : Host S)
    (remembers : Remembers host) (env : Env S) (n : ℕ) where
  -- If all addresses of a peer are multiaddresses, `UpdatePeer` returns without an error and without a
  -- panic, at any level of the log; it changes nothing but the host, which then has each of them for
  -- the peer, and for each peer the addresses it had. The host takes addresses in and drops none.
  pub update_peer-IsUpdated :
      (p : Peer) (w : World S)
      → p.id ≡ some_id n
      → All (IsAddress host) p.addresses
      → IsUpdated host n p.addresses w (update_peer (stored texts host env) p)
  unfolding update_peer
  update_peer-IsUpdated p w known h = rw known (record {
    after = learned host n p.addresses w.outside;
    returns = update_peer-learned texts faithful host env n p.addresses w h;
    has = learned-Has host remembers n p.addresses w.outside h;
    keeps = λ m other here. learned-keeps host remembers n m other p.addresses w.outside here;
  })
