-- ===== src/Node/Peers/Bounds.antt =====
-- How many peers `RequestPeers` returns, and what it reports of an answer that is too long.
use go_clarinet.Base.{◌≤◌, ◌≡◌, refl, ◌≢◌, true, Option, none, some, List, [], ◌∷◌, Bytes, arith}
use go_clarinet.Base.Int.{ℤ, pos, negsuc, to_ℕ, lt_one, exceeds}
use go_clarinet.Base.Lists.{length, take, length-take_le}
use go_clarinet.Peer.{PeerId, Peer}
use go_clarinet.Connection.Error.{Err, Errs, no_errs, add_err, add_nil, no_peers_requested}
use go_clarinet.World.{Env, TransportOptions}
use go_clarinet.World.Rules.{
  Ensures, Ensures-catch, Ensures-pure, Ensures-raise, Ensures-if, Ensures-catch_any,
}
use go_clarinet.Node.Peers.{
  truncated, excess, collected, learn, learn_addresses, learn_peers, request_peers,
}

truncated_bounds :
    {S : Type 0} (env : Env S) (num : ℤ) (ps : List Peer) → length (truncated env num ps) ≤ to_ℕ num
unfolding truncated
truncated_bounds env (pos n) ps = ground (arith, length-take_le n ps)
truncated_bounds env (negsuc n) ps = omega arith

module _ {S : Type 0} (env : Env S) where
  learn_bounds :
      (num : ℤ) (ps : List Peer) → Ensures (λ out. length out.0 ≤ to_ℕ num) (learn env num ps)
  unfolding learn
  learn_bounds num ps =
      Ensures-catch_any (λ out. length out.0 ≤ to_ℕ num) _ _ _
        (λ errs. Ensures-pure _ _ (truncated_bounds env num ps)) (λ e. Ensures-raise _ e)

  -- Whenever `RequestPeers` returns, it returns at most as many peers as it asked for, and none for a
  -- negative number.
  pub request_peers_bounds :
      (p : Peer) (num : ℤ) (t : TransportOptions)
      → Ensures (λ out. length out.0 ≤ to_ℕ num) (request_peers env p num t)
  unfolding request_peers
  request_peers_bounds p num t =
      Ensures-catch_any Short _ _ _
        (λ _.
          Ensures-if Short (lt_one num) _ _
            (λ _. Ensures-pure Short ([], some no_peers_requested) (omega arith))
            (λ _.
              Ensures-catch_any Short _ _ _ (λ peers. learn_bounds num peers)
                (λ e. Ensures-pure Short ([], some e) (omega arith))))
        (λ e. Ensures-pure Short ([], some e) (omega arith))
    where
      Short : List Peer × Option Err → Type 0
      Short out = length out.0 ≤ to_ℕ num

  collected-ne_none : (errs : Errs) → errs ≢ no_errs → collected env errs ≢ none
  unfolding collected
  collected-ne_none no_errs h = absurd (h refl)
  collected-ne_none (add_err errs e) h = λ q. cc
  collected-ne_none (add_nil errs) h = λ q. cc

  learn_addresses-ne_no_errs :
      (id : PeerId) (addrs : List Bytes) (errs : Errs)
      → errs ≢ no_errs
      → Ensures (λ errs'. errs' ≢ no_errs) (learn_addresses env id addrs errs)
  unfolding learn_addresses
  learn_addresses-ne_no_errs id [] errs h = Ensures-pure _ errs h
  learn_addresses-ne_no_errs id (addr ∷ addrs) errs h =
      Ensures-catch_any _ _ _ _ (λ _. learn_addresses-ne_no_errs id addrs errs h)
        (λ e. learn_addresses-ne_no_errs id addrs _ (λ q. cc))

  learn_peers-ne_no_errs :
      (ps : List Peer) (errs : Errs)
      → errs ≢ no_errs
      → Ensures (λ errs'. errs' ≢ no_errs) (learn_peers env ps errs)
  unfolding learn_peers
  learn_peers-ne_no_errs [] errs h = Ensures-pure _ errs h
  learn_peers-ne_no_errs (p ∷ ps) errs h =
      Ensures-catch _ _ _ _ _ (learn_addresses-ne_no_errs p.id p.addresses errs h)
        (λ errs' h'. learn_peers-ne_no_errs ps errs' h') (λ e. Ensures-raise _ e)

  excess-ne_no_errs :
      (num : ℤ) (ps : List Peer) → exceeds (length ps) num ≡ true → excess env num ps ≢ no_errs
  unfolding excess
  excess-ne_no_errs num ps long = rw long (λ q. cc)

  -- Whenever more peers come in than were asked for, and they are taken over, the first of them are
  -- returned, as many as were asked for, beside an error.
  pub learn_reports :
      (num : ℤ) (ps : List Peer)
      → exceeds (length ps) num ≡ true
      → Ensures (λ out. (out.0 ≡ take (to_ℕ num) ps) × (out.1 ≢ none)) (learn env num ps)
  unfolding learn truncated
  learn_reports num ps long =
      Ensures-catch _ _ _ _ _
        (learn_peers-ne_no_errs (truncated env num ps) (excess env num ps)
          (excess-ne_no_errs num ps long))
        (λ errs h. Ensures-pure _ _ (rw long, collected-ne_none errs h)) (λ e. Ensures-raise _ e)
