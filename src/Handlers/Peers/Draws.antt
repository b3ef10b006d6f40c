-- ===== src/Handlers/Peers/Draws.antt =====
-- One draw from the peers that the store knows.
use mathlib.Core.Path.{subst}
use mathlib.Core.Option.{some-injective}
use go_clarinet.Base.{
  sym, ap, ℕ, zero, suc, ◌+◌, ◌<◌, ◌≡◌, refl, Bool, true, false, some, List, [], ◌∷◌, arith,
}
use go_clarinet.Base.Eq.{◌==◌}
use go_clarinet.Base.Lists.{length, get_elem?, All}
use go_clarinet.Peer.{PeerId, Peer, peer_id_eq}
use go_clarinet.World.{World, M, ok, Env, pure, external, catch}
use go_clarinet.Handlers.Peers.{remove_at, picked, draw}

abbrev pub one_if : Bool → ℕ
one_if true = 1
one_if false = 0

-- How often a node is among the peers.
unfoldable pub count : PeerId → List Peer → ℕ
count self [] = 0
count self (p ∷ ps) = one_if (p.id == self) + count self ps

-- The random source picks a number below the bound.
pub record Draws {S : Type 0} (env : Env S) : Type 0 where
  pub index : ℕ → S → ℕ
  pub next : ℕ → S → S
  pub returns : (n : ℕ) (s : S) → env.intn (suc n) s ≡ (ok (index n s), next n s)
  pub below : (n : ℕ) (s : S) → index n s < suc n

-- An action returns a value of this kind and changes the outside alone.
pub record Returns {S A : Type 0} (P : A → Type 0) (m : M S A) (w : World S) : Type 0 where
  pub value : A
  pub after : S
  pub comes : m w ≡ (ok value, record w { outside = after })
  pub holds : P value

module _ {A : Type 0} where
  at : (i : ℕ) (xs : List A) → i < length xs → (x : A) × (get_elem? xs i ≡ some x)
  at i [] h = absurd (omega arith)
  at zero (x ∷ xs) h = (x, refl)
  at (suc i) (x ∷ xs) h = at i xs (omega arith)

  pub length-remove_at :
      (i : ℕ) (xs : List A) (x : A)
      → get_elem? xs i ≡ some x
      → suc (length (remove_at i xs)) ≡ length xs
  unfolding remove_at
  length-remove_at i [] x h = absurd (ground arith)
  length-remove_at zero (y ∷ xs) x h = refl
  length-remove_at (suc i) (y ∷ xs) x h = omega (arith, length-remove_at i xs x h)

  All-remove_at : (Q : A → Type 0) (i : ℕ) (xs : List A) → All Q xs → All Q (remove_at i xs)
  unfolding remove_at
  All-remove_at Q i [] h = tt
  All-remove_at Q zero (x ∷ xs) (hx, h) = h
  All-remove_at Q (suc i) (x ∷ xs) (hx, h) = (hx, All-remove_at Q i xs h)

  All-at : (Q : A → Type 0) (i : ℕ) (xs : List A) (x : A) → All Q xs → get_elem? xs i ≡ some x → Q x
  All-at Q i [] x h q = absurd (ground arith)
  All-at Q zero (y ∷ xs) x (hy, h) q = subst Q (some-injective y x q) hy
  All-at Q (suc i) (y ∷ xs) x (hy, h) q = All-at Q i xs x h q

pub count-remove_at :
    (self : PeerId) (i : ℕ) (ps : List Peer) (p : Peer)
    → get_elem? ps i ≡ some p
    → one_if (p.id == self) + count self (remove_at i ps) ≡ count self ps
unfolding count remove_at
count-remove_at self i [] p h = absurd (ground arith)
count-remove_at self zero (q ∷ ps) p h =
    ap (λ x. one_if (x.id == self) + count self ps) (sym (some-injective q p h))
count-remove_at self (suc i) (q ∷ ps) p h = omega (arith, count-remove_at self i ps p h)

pub not_counted : (b : Bool) → one_if b ≡ 0 → b ≡ false
not_counted true h = absurd (omega arith)
not_counted false h = refl

-- A draw takes one peer out.
pub record Drawn (self : PeerId) (Q : Peer → Type 0) (peers : List Peer) (drawn : Peer × List Peer)
    : Type 0 where
  pub one_less : suc (length drawn.1) ≡ length peers
  pub counted : one_if (drawn.0.id == self) + count self drawn.1 ≡ count self peers
  pub drawn_has : Q drawn.0
  pub rest_have : All Q drawn.1

module _ {S : Type 0} (env : Env S) (draws : Draws env) (self : PeerId) (Q : Peer → Type 0) where
  pub draw-Returns :
      (p : Peer) (ps : List Peer) (w : World S)
      → All Q (p ∷ ps)
      → Returns (Drawn self Q (p ∷ ps)) (draw env (p ∷ ps)) w
  unfolding draw picked pure catch external
  draw-Returns p ps w h =
      let i = draws.index (length ps) w.outside in
      let (x, here) = at i (p ∷ ps) (draws.below (length ps) w.outside) in
      record {
        value = (x, remove_at i (p ∷ ps));
        after = draws.next (length ps) w.outside;
        comes = rw (draws.returns (length ps) w.outside, here) refl;
        holds = record {
          one_less = length-remove_at i (p ∷ ps) x here;
          counted = count-remove_at self i (p ∷ ps) x here;
          drawn_has = All-at Q i (p ∷ ps) x h here;
          rest_have = All-remove_at Q i (p ∷ ps) h;
        };
      }
