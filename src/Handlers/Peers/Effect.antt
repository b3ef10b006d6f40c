-- ===== src/Handlers/Peers/Effect.antt =====
-- A request for peers leaves the connections alone.
use go_clarinet.Base.{ℕ, zero, suc, Option, none, some, List, [], ◌∷◌}
use go_clarinet.Base.Int.{ℤ}
use go_clarinet.Peer.{PeerId, Peer}
use go_clarinet.World.{Env}
use go_clarinet.World.Rules.{KeepsConns, KeepsConns-catch, keeps_conns}
use go_clarinet.Handlers.Peers.{picked, draw, draw_other, fill, respond, handle}

module _ {S : Type 0} (env : Env S) where
  draw-KeepsConns : (ps : List Peer) → KeepsConns (draw env ps)
  unfolding draw
  draw-KeepsConns [] = search keeps_conns
  draw-KeepsConns (p ∷ ps) = search (keeps_conns, picked-KeepsConns)
    where
      picked-KeepsConns : (o : Option Peer) (rest : List Peer) → KeepsConns (picked env o rest)
      picked-KeepsConns none rest = unfold picked in search keeps_conns
      picked-KeepsConns (some q) rest = unfold picked in search keeps_conns

  draw_other-KeepsConns : (self : PeerId) (ps : List Peer) → KeepsConns (draw_other env self ps)
  unfolding draw_other
  draw_other-KeepsConns self ps = search (keeps_conns, draw-KeepsConns)

  fill-KeepsConns :
      (n : ℕ) (self : PeerId) (ps chosen : List Peer) → KeepsConns (fill env n self ps chosen)
  unfolding fill
  fill-KeepsConns zero self ps chosen = search keeps_conns
  fill-KeepsConns (suc n) self [] chosen = search keeps_conns
  fill-KeepsConns (suc n) self (q ∷ qs) chosen =
      KeepsConns-catch _ _ _ (draw_other-KeepsConns self (q ∷ qs))
        (λ (p, rest). fill-KeepsConns n self rest _) (λ e. search keeps_conns)

  respond-KeepsConns : (n : ℤ) (o : Option (List Peer)) → KeepsConns (respond env n o)
  unfolding respond
  respond-KeepsConns n none = search (keeps_conns, fill-KeepsConns)
  respond-KeepsConns n (some answer) = search keeps_conns

  pub handle-KeepsConns : (peer : PeerId) (n : ℤ) → KeepsConns (handle env peer n)
  unfolding handle
  handle-KeepsConns peer n = search (keeps_conns, respond-KeepsConns)
