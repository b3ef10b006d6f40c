-- ===== src/Inmem/Reputations/View.antt =====
-- What is seen of the reputation store, which gets new reputations as it is read.
use go_clarinet.Base.{◌≡◌, ◌∙◌, refl, sym, ap, Bool, true, false, Option, none, some}
use go_clarinet.Base.Assoc.{Assoc, lookup, put, lookup-put}
use go_clarinet.Base.Eq.{◌==◌, nat_eq}
use go_clarinet.Peer.{PeerId, peer_id_eq, id_beq_iff}
use go_clarinet.Reputation.{Reputation, new_reputation}
use go_clarinet.World.{World, M, ok, raise}
use go_clarinet.World.Rules.{catch_ok}
use go_clarinet.Inmem.Reputations.{ensure_rep_exists, read}

or_new : PeerId → Option Reputation → Reputation
or_new id none = new_reputation id
or_new id (some rep) = rep

-- The reputation of a peer, which is a new one where the store has none.
unfoldable pub reputation_of : Assoc PeerId Reputation → PeerId → Reputation
unfolding or_new
reputation_of reps id = or_new id (lookup id reps)

-- Each peer has the same reputation in both.
abbrev pub SameView : Assoc PeerId Reputation → Assoc PeerId Reputation → Type 0
SameView reps reps' = (id : PeerId) → reputation_of reps' id ≡ reputation_of reps id

pub trans_view :
    (reps reps' reps'' : Assoc PeerId Reputation)
    → SameView reps reps'
    → SameView reps' reps''
    → SameView reps reps''
trans_view reps reps' reps'' h h' id = h' id ∙ h id

reputation_of-created :
    (reps : Assoc PeerId Reputation) (id id' : PeerId) (same : Bool)
    → lookup id reps ≡ none
    → (id == id') ≡ same
    → reputation_of (put id (new_reputation id) reps) id' ≡ reputation_of reps id'
unfolding reputation_of
reputation_of-created reps id id' true new same =
    let eq = (id_beq_iff id id').0 same in
    let gone = ap (λ i. lookup i reps) (sym eq) ∙ new in
    rw (lookup-put id id' (new_reputation id) reps, same, gone, eq) refl
reputation_of-created reps id id' false new same =
    rw (lookup-put id id' (new_reputation id) reps, same) refl

module _ {S : Type 0} where
  created :
      (w : World S) (id : PeerId) (found : Option Reputation)
      → lookup id w.reps ≡ found
      → (reps' : Assoc PeerId Reputation) × (ensure_rep_exists id w
          ≡ (ok (reputation_of w.reps id), record w { reps = reps' }))
        × SameView w.reps reps'
  unfolding ensure_rep_exists reputation_of
  created w id (some rep) q = (w.reps, rw q refl, λ id'. refl)
  created w id none q = (
    put id (new_reputation id) w.reps,
    rw q refl,
    λ id'. reputation_of-created w.reps id id' (id == id') q refl,
  )

module _ {S A : Type 0} where
  -- What `Read` hands to its callback, and to the store.
  pub read_view :
      (id : PeerId) (read_func : Reputation → M S A) (w : World S)
      → (reps' : Assoc PeerId Reputation) × (read id read_func w
          ≡ read_func (reputation_of w.reps id) (record w { reps = reps' }))
        × SameView w.reps reps'
  unfolding read
  read_view id read_func w =
      let (reps', made, same) = created w id (lookup id w.reps) refl in
      (
        reps',
        catch_ok (ensure_rep_exists id) read_func raise w (record w { reps = reps' })
            (reputation_of w.reps id) made,
        same,
      )
