-- ===== src/Node/Witness/Candidates.antt =====
-- Which peers may be asked to be the witness.
use go_clarinet.Base.{
  ◌≡◌, ◌∙◌, refl, ap, Bool, true, false, Bool-cases, inl, inr, not, ◌||◌, ◌&&◌, List, [], ◌∷◌, ◌++◌,
  append_assoc, append-nil, if◌then◌else◌,
}
use go_clarinet.Base.Assoc.{Assoc}
use go_clarinet.Base.Eq.{◌==◌, nat_eq}
use go_clarinet.Peer.{PeerId, Peer, peer_id_eq}
use go_clarinet.Reputation.{Reputation}
use go_clarinet.Connection.{Conn}
use go_clarinet.World.{World, Env, ok, pure, raise, external, catch}
use go_clarinet.World.Rules.{catch_ok}
use go_clarinet.Inmem.Reputations.View.{reputation_of, SameView, trans_view, read_view}
use go_clarinet.Node.Witness.{assess, candidates_among, witness_candidates}

-- In the state `s`, the outside lists these peers, judges as a function does, and keeps its state.
pub record Judging {S : Type 0} (env : Env S) (s : S) : Type 0 where
  pub peers : List Peer
  pub trusted : Reputation → Bool
  pub lists : env.all_peers s ≡ (ok peers, s)
  pub judges : (rep : Reputation) → env.trusts rep s ≡ (ok (trusted rep), s)

unfoldable pub filter : (Peer → Bool) → List Peer → List Peer
filter test [] = []
filter test (p ∷ ps) = if test p then p ∷ filter test ps else filter test ps

pub filter_first :
    (test : Peer → Bool) (ps : List Peer) (p : Peer) (rest : List Peer)
    → filter test ps ≡ p ∷ rest
    → test p ≡ true
unfolding filter
filter_first test [] p rest h = cc
filter_first test (q ∷ ps) p rest h = elim (Bool-cases (test q)) [
  | inl yes_to ↦ (let here : q ∷ filter test ps ≡ p ∷ rest = rw yes_to at h in cc)
  | inr no_to ↦ filter_first test ps p rest (rw no_to at h)
]

module _ (trusted : Reputation → Bool) where
  -- Neither end of the connection, and trusted.
  unfoldable pub may_witness : Assoc PeerId Reputation → Conn → Peer → Bool
  may_witness reps conn p =
      not (p.id == conn.receiver || p.id == conn.sender) && trusted (reputation_of reps p.id)

  may_witness-SameView :
      (reps reps' : Assoc PeerId Reputation) (conn : Conn)
      → SameView reps reps'
      → (p : Peer) → may_witness reps' conn p ≡ may_witness reps conn p
  unfolding may_witness
  may_witness-SameView reps reps' conn same p = rw (same p.id) refl

  filter-SameView :
      (reps reps' : Assoc PeerId Reputation) (conn : Conn)
      → SameView reps reps'
      → (ps : List Peer) → filter (may_witness reps' conn) ps ≡ filter (may_witness reps conn) ps
  unfolding filter
  filter-SameView reps reps' conn same [] = refl
  filter-SameView reps reps' conn same (p ∷ ps) =
      rw (may_witness-SameView reps reps' conn same p, filter-SameView reps reps' conn same ps) refl

  with_trusted :
      (conn : Conn) (p : Peer) (found : List Peer) (reps : Assoc PeerId Reputation) (trusts : Bool)
      (ps : List Peer)
      → (p.id == conn.receiver || p.id == conn.sender) ≡ false
      → trusted (reputation_of reps p.id) ≡ trusts
      → (if trusts then found ++ p ∷ [] else found) ++ filter (may_witness reps conn) ps
        ≡ found ++ filter (may_witness reps conn) (p ∷ ps)
  unfolding filter may_witness
  with_trusted conn p found reps true ps apart is = rw (apart, is, append_assoc) refl
  with_trusted conn p found reps false ps apart is = rw (apart, is) refl

  filter_skips :
      (reps : Assoc PeerId Reputation) (conn : Conn) (p : Peer) (ps : List Peer)
      → (p.id == conn.receiver || p.id == conn.sender) ≡ true
      → filter (may_witness reps conn) (p ∷ ps) ≡ filter (may_witness reps conn) ps
  unfolding filter may_witness
  filter_skips reps conn p ps end = rw end refl

module _ {S : Type 0} (env : Env S) where
  assessed :
      (p : Peer) (w : World S) (judging : Judging env w.outside)
      → (reps' : Assoc PeerId Reputation) × (assess env p w
          ≡ (ok (judging.trusted (reputation_of w.reps p.id)), record w { reps = reps' }))
        × SameView w.reps reps'
  unfolding assess catch external pure
  assessed p w judging =
      let (reps', seen, same) = read_view p.id (λ rep. external (env.trusts rep)) w in
      (reps', rw (seen, judging.judges (reputation_of w.reps p.id)) refl, same)

  candidates_are :
      (conn : Conn) (ps found : List Peer) (w : World S) (judging : Judging env w.outside)
      → (reps' : Assoc PeerId Reputation) × (candidates_among env conn ps found w ≡ (
        ok (found ++ filter (may_witness judging.trusted w.reps conn) ps),
        record w { reps = reps' },
      ))
        × SameView w.reps reps'
  unfolding candidates_among pure
  candidates_are conn [] found w judging = (w.reps, unfold filter in rw append-nil refl, λ id. refl)
  candidates_are conn (p ∷ ps) found w judging =
      elim (Bool-cases (p.id == conn.receiver || p.id == conn.sender)) [
        | inl end ↦
            (let (reps', comes, same) = candidates_are conn ps found w judging in
              (
                reps',
                rw (end, comes, filter_skips judging.trusted w.reps conn p ps end) refl,
                same,
              ))
        | inr apart ↦
            (let t = judging.trusted (reputation_of w.reps p.id) in
              let (reps₁, judged, same₁) = assessed p w judging in
              let w₁ = record w { reps = reps₁ } in
              let (reps₂, comes, same₂) =
                candidates_are conn ps (if t then found ++ p ∷ [] else found) w₁ judging in
              (
                reps₂,
                rw apart (
                    catch_ok (assess env p)
                      (λ trusted.
                        candidates_among env conn ps (if trusted then found ++ p ∷ [] else found))
                      raise w w₁ t judged
                    ∙ comes
                    ∙ rw (filter-SameView judging.trusted w.reps reps₁ conn same₁ ps) (
                        ap (λ ps'. (ok ps', record w { reps = reps₂ }))
                          (with_trusted judging.trusted conn p found w.reps t ps apart refl))),
                trans_view w.reps reps₁ reps₂ same₁ same₂,
              ))
      ]

  -- The candidates are the store's peers that may be the witness, in their order.
  pub witness_candidates-filter :
      (conn : Conn) (w : World S) (judging : Judging env w.outside)
      → (reps' : Assoc PeerId Reputation) × (witness_candidates env conn w ≡ (
        ok (filter (may_witness judging.trusted w.reps conn) judging.peers),
        record w { reps = reps' },
      ))
        × SameView w.reps reps'
  unfolding witness_candidates catch external
  witness_candidates-filter conn w judging =
      let (reps', listed, same) = candidates_are conn judging.peers [] w judging in
      (reps', rw (judging.lists, listed) refl, same)
