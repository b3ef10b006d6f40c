-- ===== src/Handlers/Peers/Choice.antt =====
-- What the handler chooses from the peers that the store knows.
use mathlib.Core.Path.{subst}
use go_clarinet.Base.{
  ℕ, zero, suc, ◌+◌, ◌≤◌, ◌≡◌, ◌∙◌, ◌⊎◌, inl, inr, refl, Bool, true, false, none, List, [], ◌∷◌,
  ◌++◌, arith, if◌then◌else◌,
}
use go_clarinet.Base.Eq.{◌==◌}
use go_clarinet.Base.Int.{pos}
use go_clarinet.Base.Lists.{length, length-append, All, All-append}
use go_clarinet.Peer.{PeerId, Peer, peer_id_eq, id_beq_iff}
use go_clarinet.World.{World, ok, Env, pure, external, catch}
use go_clarinet.World.Rules.{catch_ok}
use go_clarinet.Handlers.Peers.{draw, draw_other, fill, respond, handle}
use go_clarinet.Handlers.Peers.Draws.{
  one_if, count, Draws, Returns, not_counted, Drawn, draw-Returns,
}

module _ {S : Type 0} (env : Env S) (draws : Draws env) (self : PeerId) (Q : Peer → Type 0) where
  -- A drawn peer that is another node, where the rest is enough for `n` more of them.
  record Other (n : ℕ) (drawn : Peer × List Peer) : Type 0 where
    is_other : (drawn.0.id == self) ≡ false
    once : count self drawn.1 ≤ 1
    enough : n + count self drawn.1 ≤ length drawn.1
    drawn_has : Q drawn.0
    rest_have : All Q drawn.1

  -- The second draw, after this node is out.
  draw_again :
      (n : ℕ) (ps : List Peer) (w : World S)
      → All Q ps
      → count self ps ≡ 0
      → suc n ≤ length ps
      → Returns (Other n) (draw env ps) w
  draw_again n [] w h gone enough = absurd (omega arith)
  draw_again n (p ∷ ps) w h gone enough =
      let r = draw-Returns env draws self Q p ps w h in
      let d = r.holds in
      record {
        value = r.value;
        after = r.after;
        comes = r.comes;
        holds = record {
          is_other = not_counted (r.value.0.id == self) (omega (arith, d.counted));
          once = omega (arith, d.counted);
          enough = omega (arith, d.counted, d.one_less);
          drawn_has = d.drawn_has;
          rest_have = d.rest_have;
        };
      }

  finish_draw :
      (n : ℕ) (p q : Peer) (ps rest : List Peer) (w : World S) (is_self : Bool)
      → (q.id == self) ≡ is_self
      → Drawn self Q (p ∷ ps) (q, rest)
      → count self (p ∷ ps) ≤ 1
      → suc n + count self (p ∷ ps) ≤ length (p ∷ ps)
      → Returns (Other n) (if is_self then draw env rest else pure (q, rest)) w
  unfolding pure
  finish_draw n p q ps rest w true own d once enough =
      let counted = subst (λ b. one_if b + count self rest ≡ count self (p ∷ ps)) own d.counted in
      draw_again n rest w d.rest_have (omega arith) (omega (arith, d.one_less))
  finish_draw n p q ps rest w false other d once enough =
      let counted = subst (λ b. one_if b + count self rest ≡ count self (p ∷ ps)) other d.counted in
      record {
        value = (q, rest);
        after = w.outside;
        comes = refl;
        holds = record {
          is_other = other;
          once = omega arith;
          enough = omega (arith, d.one_less);
          drawn_has = d.drawn_has;
          rest_have = d.rest_have;
        };
      }

  draw_other-Returns :
      (n : ℕ) (p : Peer) (ps : List Peer) (w : World S)
      → All Q (p ∷ ps)
      → count self (p ∷ ps) ≤ 1
      → suc n + count self (p ∷ ps) ≤ length (p ∷ ps)
      → Returns (Other n) (draw_other env self (p ∷ ps)) w
  unfolding draw_other
  draw_other-Returns n p ps w h once enough =
      let r = draw-Returns env draws self Q p ps w h in
      let q = r.value.0 in
      let rest = r.value.1 in
      let next =
        finish_draw n p q ps rest (record w { outside = r.after }) (q.id == self) refl r.holds once
          enough in
      record {
        value = next.value;
        after = next.after;
        comes = catch_ok _ _ _ w (record w { outside = r.after }) r.value r.comes ∙ next.comes;
        holds = next.holds;
      }

  -- Other nodes than this one, for which `Q` holds.
  abbrev pub Chosen : List Peer → Type 0
  Chosen = All (λ p. ((p.id == self) ≡ false) × Q p)

  fill-Returns :
      (n : ℕ) (ps chosen : List Peer) (w : World S)
      → All Q ps
      → count self ps ≤ 1
      → n + count self ps ≤ length ps
      → Chosen chosen
      → Returns (λ out. (length out ≡ n + length chosen) × Chosen out) (fill env n self ps chosen) w
  unfolding fill pure
  fill-Returns zero ps chosen w h once enough so_far = record {
    value = chosen;
    after = w.outside;
    comes = refl;
    holds = (omega arith, so_far);
  }
  fill-Returns (suc n) [] chosen w h once enough so_far = absurd (omega arith)
  fill-Returns (suc n) (p ∷ ps) chosen w h once enough so_far =
      let r = draw_other-Returns n p ps w h once enough in
      let q = r.value.0 in
      let d = r.holds in
      let next =
        fill-Returns n r.value.1 (chosen ++ q ∷ []) (record w { outside = r.after }) d.rest_have
          d.once d.enough (All-append _ chosen (q ∷ []) so_far ((d.is_other, d.drawn_has), tt)) in
      record {
        value = next.value;
        after = next.after;
        comes = catch_ok _ _ _ w (record w { outside = r.after }) r.value r.comes ∙ next.comes;
        holds = (omega (arith, next.holds.0, length-append {0} chosen (q ∷ [])), next.holds.1);
      }

module _ {S : Type 0} (env : Env S) (draws : Draws env) where
  -- If the application gives no answer of its own, the store lists this node once at most, and it
  -- lists as many other nodes as are asked for, the handler returns exactly as many peers as are asked
  -- for: all are other nodes, and whatever holds of all listed peers holds of them. It changes nothing
  -- but the outside.
  pub handle_chooses :
      (peer : PeerId) (n : ℕ) (listed : List Peer) (self : Peer) (s₁ s₂ s₃ : S) (w : World S)
      → (Q : Peer → Type 0) → env.on_peers peer (pos n) w.outside ≡ (ok none, s₁)
      → env.all_peers s₁ ≡ (ok listed, s₂)
      → env.self s₂ ≡ (ok self, s₃)
      → count self.id listed ≤ 1
      → n + count self.id listed ≤ length listed
      → All Q listed
      → Returns
          (λ out. (length out ≡ n) × All (λ p. ((p.id == self.id) ≡ false) × Q p) out)
          (handle env peer (pos n))
          w
  unfolding handle respond catch external
  handle_chooses peer n listed self s₁ s₂ s₃ w Q unanswered all found once enough h =
      let r =
        fill-Returns env draws self.id Q n listed [] (record w { outside = s₃ }) h once enough tt in
      record {
        value = r.value;
        after = r.after;
        comes = rw (unanswered, all, found) r.comes;
        holds = (omega (arith, r.holds.0), r.holds.1);
      }

  others_are :
      (self asker : PeerId) (out : List Peer)
      → All (λ p. ((p.id == self) ≡ false) × ((p.id ≡ self) ⊎ (p.id ≡ asker))) out
      → All (λ p. p.id ≡ asker) out
  others_are self asker [] h = tt
  others_are self asker (p ∷ out) ((other, one), h) = (
    elim one [
      | inl is_self ↦ cc ((id_beq_iff p.id self).1 is_self, other)
      | inr is_asker ↦ is_asker
    ],
    others_are self asker out h,
  )

  -- If the application gives no answer of its own, and the store lists the node that asks and no other
  -- but this one, which it lists once at most, the handler answers a request for one peer with the
  -- node that asks.
  pub handle_offers_asker :
      (asker : PeerId) (listed : List Peer) (self : Peer) (s₁ s₂ s₃ : S) (w : World S)
      → env.on_peers asker (pos 1) w.outside ≡ (ok none, s₁)
      → env.all_peers s₁ ≡ (ok listed, s₂)
      → env.self s₂ ≡ (ok self, s₃)
      → count self.id listed ≤ 1
      → 1 + count self.id listed ≤ length listed
      → All (λ p. (p.id ≡ self.id) ⊎ (p.id ≡ asker)) listed
      → Returns (λ out. (length out ≡ 1) × All (λ p. p.id ≡ asker) out) (handle env asker (pos 1)) w
  handle_offers_asker asker listed self s₁ s₂ s₃ w unanswered all found once enough h =
      let r =
        handle_chooses asker 1 listed self s₁ s₂ s₃ w (λ p. (p.id ≡ self.id) ⊎ (p.id ≡ asker))
          unanswered all found once enough h in
      record {
        value = r.value;
        after = r.after;
        comes = r.comes;
        holds = (r.holds.0, others_are self.id asker r.value r.holds.1);
      }
