-- ===== src/Handlers/Peers.antt =====
-- `peerRequestHandlerAdapter`.
pub mod Effect
pub mod Bounds
pub mod Draws
pub mod Choice
use go_clarinet.Base.{ℕ, zero, suc, Option, none, some, List, [], ◌∷◌, ◌++◌, if◌then◌else◌}
use go_clarinet.Base.Eq.{◌==◌}
use go_clarinet.Base.Int.{ℤ, to_ℕ}
use go_clarinet.Base.Lists.{length, get_elem?}
use go_clarinet.Peer.{PeerId, Peer, peer_id_eq}
use go_clarinet.World.{Env, M, pure, panic, external, ◌>>=◌}

-- `append(peers[:ind], peers[ind+1:]...)`
unfoldable pub remove_at {ℓ} : {A : Type ℓ} → ℕ → List A → List A
remove_at i [] = []
remove_at zero (x ∷ xs) = xs
remove_at (suc i) (x ∷ xs) = x ∷ remove_at i xs

module _ {S : Type 0} (env : Env S) where
  picked : Option Peer → List Peer → M S (Peer × List Peer)
  picked none rest = panic
  picked (some p) rest = pure (p, rest)

  -- `rand.Intn` panics at 0, and an index out of range panics.
  pub draw : List Peer → M S (Peer × List Peer)
  draw [] = panic
  draw (p ∷ ps) = do
    ind ← external (env.intn (length (p ∷ ps)))
    picked (get_elem? (p ∷ ps) ind) (remove_at ind (p ∷ ps))

  -- A peer that is this node is replaced by another draw.
  draw_other : PeerId → List Peer → M S (Peer × List Peer)
  draw_other self peers = do
    (p, rest) ← draw peers
    if p.id == self then draw rest else pure (p, rest)

  -- `for i := 0; i < request.Num && len(peers) > 0; i += 1`, by the rounds that are left.
  fill : ℕ → PeerId → List Peer → List Peer → M S (List Peer)
  fill zero self peers chosen = pure chosen
  fill (suc n) self [] chosen = pure chosen
  fill (suc n) self (q ∷ qs) chosen = do
    (p, rest) ← draw_other self (q ∷ qs)
    fill n self rest (chosen ++ p ∷ [])

  -- An answer of the application is passed on as it is.
  respond : ℤ → Option (List Peer) → M S (List Peer)
  respond num (some answer) = pure answer
  respond num none = do
    peers ← external env.all_peers
    self ← external env.self
    fill (to_ℕ num) self.id peers []

  unfoldable pub handle : PeerId → ℤ → M S (List Peer)
  unfolding picked draw draw_other fill respond remove_at
  handle peer_id num = do answer ← external (env.on_peers peer_id num); respond num answer
