-- ===== src/Handlers/Peers/Bounds.antt =====
-- How many peers a request for peers brings, and when it panics.
use go_clarinet.Base.{ℕ, zero, suc, ◌+◌, ◌≤◌, ◌≡◌, none, List, [], ◌∷◌, ◌++◌, arith}
use go_clarinet.Base.Int.{ℤ, pos, to_ℕ}
use go_clarinet.Base.Lists.{length, length-append}
use go_clarinet.Peer.{PeerId, Peer, peer_id_eq, id_beq_iff}
use go_clarinet.World.{World, ok, panicked, Env, catch, raise, external}
use go_clarinet.World.Rules.{
  Ensures, Ensures-pure, Ensures-raise, Ensures-catch_any, Ensures-weaken, Post, catch_ok,
}
use go_clarinet.Handlers.Peers.{fill, respond, handle}

module _ {S : Type 0} (env : Env S) where
  fill_bounds :
      (n : ℕ) (self : PeerId) (ps chosen : List Peer)
      → Ensures (λ out. length out ≤ n + length chosen) (fill env n self ps chosen)
  unfolding fill
  fill_bounds zero self ps chosen = Ensures-pure _ _ (omega arith)
  fill_bounds (suc n) self [] chosen = Ensures-pure _ _ (omega arith)
  fill_bounds (suc n) self (q ∷ qs) chosen =
      Ensures-catch_any (λ out. length out ≤ suc n + length chosen) _ _ _
        (λ (p, rest).
          Ensures-weaken (λ out. length out ≤ n + length (chosen ++ p ∷ [])) _ _
            (λ out h. omega (arith, length-append {0} chosen (p ∷ [])))
            (fill_bounds n self rest (chosen ++ p ∷ [])))
        (λ e. Ensures-raise _ e)

  respond_bounds : (num : ℤ) → Ensures (λ out. length out ≤ to_ℕ num) (respond env num none)
  unfolding respond
  respond_bounds num =
      Ensures-catch_any _ _ _ _
        (λ peers.
          Ensures-catch_any _ _ _ _
            (λ self.
              Ensures-weaken (λ out. length out ≤ to_ℕ num + 0) _ _ (λ out h. omega arith)
                (fill_bounds (to_ℕ num) self.id peers []))
            (λ e. Ensures-raise _ e))
        (λ e. Ensures-raise _ e)

  -- If the application gives no answer of its own, and the handler returns an answer, that has at most
  -- as many peers as the request asks for, and none if it asks for a negative number.
  pub handle_bounds :
      (peer : PeerId) (num : ℤ) (s : S) (w : World S)
      → env.on_peers peer num w.outside ≡ (ok none, s)
      → Post (λ out. length out ≤ to_ℕ num) (handle env peer num w).0
  unfolding handle
  handle_bounds peer num s w unanswered =
      rw
        (catch_ok (external (env.on_peers peer num)) (respond env num) raise w
          (record w { outside = s }) none (unfold external in rw unanswered))
        ((respond_bounds num).at (record w { outside = s }))

  -- If the application gives no answer of its own, and the store knows this node as its only peer, the
  -- handler panics on a request for one peer or more.
  pub handle_panics :
      (peer : PeerId) (n : ℕ) (self known : Peer) (s₁ s₂ s₃ s₄ : S) (w : World S)
      → env.on_peers peer (pos (suc n)) w.outside ≡ (ok none, s₁)
      → env.all_peers s₁ ≡ (ok (known ∷ []), s₂)
      → env.self s₂ ≡ (ok self, s₃)
      → env.intn 1 s₃ ≡ (ok 0, s₄)
      → known.id ≡ self.id
      → (handle env peer (pos (suc n)) w).0 ≡ panicked
  unfolding handle catch
  handle_panics peer n self known s₁ s₂ s₃ s₄ w unanswered all found drawn same =
      rw (unanswered, all, found, drawn, (id_beq_iff known.id self.id).1 same)
