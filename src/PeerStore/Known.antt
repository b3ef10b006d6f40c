-- ===== src/PeerStore/Known.antt =====
-- What the store knows of the host's peers.
use go_clarinet.Base.{
  ℕ, Bool-cases, inl, inr, ◌≡◌, refl, none, List, [], ◌∷◌, ◌++◌, append_assoc, append-nil, map, Mem,
  Bytes, if◌then◌else◌,
}
use go_clarinet.Base.Eq.{nat_beq}
use go_clarinet.Peer.{some_id, Peer, peer_id_eq}
use go_clarinet.World.{ok}
use go_clarinet.Wire.Messages.{Texts}
use go_clarinet.Wire.Messages.Fields.{Faithful}
use go_clarinet.PeerStore.{Host, find, all, all_from}

-- The host's store of addresses takes an address for a peer in, and drops none.
pub record Remembers {S : Type 0} (host : Host S) : Type 0 where
  pub takes : (n : ℕ) (addr : Bytes) (s : S) → Mem addr (host.addrs n (host.add_addr n addr s))
  pub keeps :
      (n m : ℕ) (addr other : Bytes) (s : S)
      → Mem other (host.addrs m s)
      → Mem other (host.addrs m (host.add_addr n addr s))

module _ {S : Type 0} (host : Host S) where
  -- The peer that the host knows under an id: itself, with the addresses it listens on, or another.
  unfoldable pub peer_at : S → ℕ → Peer
  peer_at s n = record {
    id = some_id n;
    addresses = if nat_beq n host.id then host.listen_addrs s else host.addrs n s;
  }

module _ (texts : Texts) (faithful : Faithful texts) {S : Type 0} (host : Host S) where
  pub find-peer_at : (n : ℕ) (s : S) → find texts host (some_id n) s ≡ ok (peer_at host s n)
  unfolding find peer_at
  find-peer_at n s =
      rw (faithful.peer n) (elim (Bool-cases (nat_beq n host.id)) [
        | inl own ↦ rw own refl
        | inr other ↦ rw other refl
      ])

  all_from-peer_at :
      (ns : List ℕ) (peers : List Peer) (s : S)
      → all_from texts host ns peers s ≡ ok (peers ++ map (peer_at host s) ns, none)
  unfolding all_from
  all_from-peer_at [] peers s = rw (append-nil) refl
  all_from-peer_at (n ∷ ns) peers s =
      rw (find-peer_at n s, all_from-peer_at ns (peers ++ peer_at host s n ∷ []) s, append_assoc)
        refl

  -- `All` lists each peer that the host knows, once for each time that the host lists it, in the
  -- host's order, with the addresses that `Find` gives, and returns no error.
  pub all-peer_at : (s : S) → all texts host s ≡ ok (map (peer_at host s) (host.peers s), none)
  unfolding all
  all-peer_at s = all_from-peer_at (host.peers s) [] s
