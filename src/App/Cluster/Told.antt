-- ===== src/App/Cluster/Told.antt =====
-- The nodes of main.go once a close request came to some of them.
use go_clarinet.Base.{
  ℕ, ◌≡◌, ◌∙◌, refl, sym, ap, Bool, true, false, Bool-cases, inl, inr, ◌||◌, Option, none, some,
  List, [], ◌∷◌, if◌then◌else◌, arith,
}
use go_clarinet.Base.Assoc.{lookup}
use go_clarinet.Base.Eq.{◌==◌, nat_eq, nat_beq_iff}
use go_clarinet.Peer.{PeerId, nil_id, some_id, peer_id_eq}
use go_clarinet.Connection.{ConnId, Conn, set_status}
use go_clarinet.World.{Env}
use go_clarinet.Wire.Messages.{Texts}
use go_clarinet.PeerStore.{Host}
use go_clarinet.Node.Close.Course.{told}
use go_clarinet.App.Cluster.{Around, update}
use go_clarinet.App.Cluster.Delivered.{update_here, update_other}
use go_clarinet.App.Cluster.Closing.{closed_of, closed_world, closes_for_anyone}

abbrev pub among : ℕ → List PeerId → Bool
among n [] = false
among n (id ∷ ids) = some_id n == id || among n ids

unfoldable pub closed_if : Bool → Option Conn → Option Conn
closed_if false found = found
closed_if true found = closed_of found

closed_if_twice :
    (a b : Bool) (found : Option Conn) → closed_if a (closed_if b found) ≡ closed_if (b || a) found
unfolding closed_if set_status
closed_if_twice false false found = refl
closed_if_twice false true found = refl
closed_if_twice true false found = refl
closed_if_twice true true none = refl
closed_if_twice true true (some c) = refl

not_same : (n k m : ℕ) → (n == m) ≡ false → (k == m) ≡ true → (n == k) ≡ false
not_same n k m h e = ground arith

neither : (a b : Bool) → (a || b) ≡ false → (a ≡ false) × (b ≡ false)
neither a b h = (ground arith, ground arith)

module _ (texts : Texts) {S : Type 0} (hosts : ℕ → Host S) (inner : Env S) (host : Host S)
    (id : ConnId) where
  -- The outside once the node `n` was told.
  unfoldable pub after : ℕ → Around S → Around S
  after n s = record s {
    nodes = update s.nodes n (closed_world texts (hosts n) inner (some_id host.id) id (s.nodes n));
  }

  after_at :
      (n k : ℕ) (s : Around S) (same : Bool)
      → (n == k) ≡ same
      → lookup id ((after k s).nodes n).conns ≡ closed_if same (lookup id (s.nodes n).conns)
  unfolding after closed_if
  after_at n k s false apart =
      ap (λ u. lookup id u.conns)
        (update_other s.nodes k
          (closed_world texts (hosts k) inner (some_id host.id) id (s.nodes k)) n apart)
  after_at n k s true same =
      let eq = (nat_beq_iff n k).0 same in
      ap (λ m. lookup id ((after k s).nodes m).conns) eq
      ∙ ap (λ u. lookup id u.conns)
          (update_here s.nodes k
            (closed_world texts (hosts k) inner (some_id host.id) id (s.nodes k)))
      ∙ closes_for_anyone texts (hosts k) inner (some_id host.id) id (s.nodes k)
      ∙ ap (λ m. closed_of (lookup id (s.nodes m).conns)) (sym eq)

  abbrev pub told_of : List PeerId → Around S → Around S
  told_of ids s = told (some_id host.id) after ids s

  told_own :
      (k : ℕ) (ids : List PeerId) (s : Around S)
      → (k == host.id) ≡ true
      → told_of (some_id k ∷ ids) s ≡ told_of ids s
  unfolding told
  told_own k ids s own =
      let stays : (if k == host.id then s else after k s) ≡ s = rw own refl in
      ap (told_of ids) stays

  told_other :
      (k : ℕ) (ids : List PeerId) (s : Around S)
      → (k == host.id) ≡ false
      → told_of (some_id k ∷ ids) s ≡ told_of ids (after k s)
  unfolding told
  told_other k ids s other =
      let goes : (if k == host.id then s else after k s) ≡ after k s = rw other refl in
      ap (told_of ids) goes

  pub told_at :
      (n : ℕ) (ids : List PeerId) (s : Around S)
      → (n == host.id) ≡ false
      → lookup id ((told_of ids s).nodes n).conns
        ≡ closed_if (among n ids) (lookup id (s.nodes n).conns)
  unfolding told closed_if
  told_at n [] s other = refl
  told_at n (nil_id ∷ ids) s other = told_at n ids s other
  told_at n (some_id k ∷ ids) s other = elim (Bool-cases (k == host.id)) [
    | inl own ↦
        ap (λ t. lookup id (t.nodes n).conns) (told_own k ids s own)
        ∙ told_at n ids s other
        ∙ ap (λ b. closed_if (b || among n ids) (lookup id (s.nodes n).conns))
            (sym (not_same n k host.id other own))
    | inr apart ↦
        ap (λ t. lookup id (t.nodes n).conns) (told_other k ids s apart)
        ∙ told_at n ids (after k s) other
        ∙ ap (closed_if (among n ids)) (after_at n k s (n == k) refl)
        ∙ closed_if_twice (among n ids) (n == k) (lookup id (s.nodes n).conns)
  ]

  pub told_elsewhere :
      (n : ℕ) (ids : List PeerId) (s : Around S)
      → among n ids ≡ false
      → (told_of ids s).nodes n ≡ s.nodes n
  unfolding told after
  told_elsewhere n [] s out = refl
  told_elsewhere n (nil_id ∷ ids) s out = told_elsewhere n ids s out
  told_elsewhere n (some_id k ∷ ids) s out =
      let (apart, rest) = neither (n == k) (among n ids) out in
      elim (Bool-cases (k == host.id)) [
        | inl own ↦ ap (λ t. t.nodes n) (told_own k ids s own) ∙ told_elsewhere n ids s rest
        | inr other ↦
            ap (λ t. t.nodes n) (told_other k ids s other)
            ∙ told_elsewhere n ids (after k s) rest
            ∙ update_other s.nodes k
                (closed_world texts (hosts k) inner (some_id host.id) id (s.nodes k)) n apart
      ]
