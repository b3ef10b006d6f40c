-- ===== src/App/Trust/Fresh.antt =====
-- Whom the trust function trusts while nobody has been penalized.
use go_clarinet.Base.{
  ℕ, zero, suc, ◌+◌, ◌<◌, ◌≤◌, ◌^◌, ◌≡◌, ◌∙◌, refl, sym, ap, true, false, List, [], ◌∷◌, ◌++◌,
  append_assoc, append-nil, map, leb, arith,
}
use go_clarinet.Base.Assoc.{Assoc}
use go_clarinet.Base.Int.{pos}
use go_clarinet.Base.Lists.{length}
use go_clarinet.Peer.{PeerId, Peer}
use go_clarinet.Reputation.{Reputation}
use go_clarinet.World.{World, Env, ok, pure, external, catch}
use go_clarinet.World.Rules.{catch_ok}
use go_clarinet.Inmem.Reputations.{read}
use go_clarinet.Inmem.Reputations.View.{reputation_of, SameView, trans_view, read_view}
use go_clarinet.App.Trust.{
  Floats, less_one, float_value, total_from, mean, squares_from, variance, is_ordinary, values_from,
  trust_func,
}

-- Whole numbers up to 2 ^ 53 are exact, and 0 / 0 is NaN, which comes of any sum with it and compares
-- as false.
pub record IsExact (floats : Floats) : Type 0 where
  pub nan : floats.Float
  pub counts :
      (n : ℕ)
      → n < 2 ^ 53
      → floats.add (floats.of_int (pos n)) (floats.of_int (pos 1)) ≡ floats.of_int (pos (suc n))
  pub ratio_self :
      (n : ℕ)
      → n < 2 ^ 53
      → floats.div (floats.of_int (pos (suc n))) (floats.of_int (pos (suc n)))
        ≡ floats.of_int (pos 1)
  pub one_less_one :
      floats.sub (floats.of_int (pos 1)) (floats.of_int (pos 1)) ≡ floats.of_int (pos 0)
  pub square_zero : floats.square (floats.of_int (pos 0)) ≡ floats.of_int (pos 0)
  pub zero_add : floats.add (floats.of_int (pos 0)) (floats.of_int (pos 0)) ≡ floats.of_int (pos 0)
  pub zero_ratio :
      (n : ℕ)
      → n < 2 ^ 53
      → floats.div (floats.of_int (pos 0)) (floats.of_int (pos (suc n))) ≡ floats.of_int (pos 0)
  pub sqrt_zero : floats.sqrt (floats.of_int (pos 0)) ≡ floats.of_int (pos 0)
  pub less_zero : floats.sub (floats.of_int (pos 1)) (floats.of_int (pos 0)) ≡ floats.of_int (pos 1)
  pub one_ge_one : floats.gef (floats.of_int (pos 1)) (floats.of_int (pos 1)) ≡ true
  pub half_lt_one : floats.ltf (floats.of_int (pos 1)) floats.half ≡ false
  pub zero_by_zero : floats.div (floats.of_int (pos 0)) (floats.of_int (pos 0)) ≡ nan
  pub sqrt_nan : floats.sqrt nan ≡ nan
  pub less_nan : (x : floats.Float) → floats.sub x nan ≡ nan
  pub nan_less : (x : floats.Float) → floats.sub nan x ≡ nan
  pub ge_nan : (x : floats.Float) → floats.gef x nan ≡ false

module _ (floats : Floats) {S : Type 0} (env : Env S) where
  abbrev values : Assoc PeerId Reputation → List Peer → List floats.Float
  values reps peers = map (λ p. float_value floats (reputation_of reps p.id)) peers

  values-SameView :
      (reps reps' : Assoc PeerId Reputation)
      → SameView reps reps'
      → (peers : List Peer) → values reps' peers ≡ values reps peers
  values-SameView reps reps' same [] = refl
  values-SameView reps reps' same (p ∷ peers) =
      rw (same p.id, values-SameView reps reps' same peers) refl

  reads_values :
      (peers : List Peer) (vs : List floats.Float) (w : World S)
      → (reps' : Assoc PeerId Reputation) × (values_from floats env peers vs w
          ≡ (ok (vs ++ values w.reps peers), record w { reps = reps' }))
        × SameView w.reps reps'
  unfolding values_from pure
  reads_values [] vs w = (w.reps, rw append-nil refl, λ id. refl)
  reads_values (p ∷ peers) vs w =
      let v = float_value floats (reputation_of w.reps p.id) in
      let (reps₁, is_read, same₁) =
        read_view p.id (λ rep. pure (vs ++ float_value floats rep ∷ [])) w in
      let (reps₂, rest, same₂) = reads_values peers (vs ++ v ∷ []) (record w { reps = reps₁ }) in
      (
        reps₂,
        catch_ok (read p.id (λ rep. pure (vs ++ float_value floats rep ∷ [])))
              (λ vs'. values_from floats env peers vs') (λ e. values_from floats env peers vs) w
              (record w { reps = reps₁ }) (vs ++ v ∷ []) is_read
            ∙ rest
            ∙ rw (values-SameView w.reps reps₁ same₁ peers, append_assoc) refl,
        trans_view w.reps reps₁ reps₂ same₁ same₂,
      )

leb_two : (n : ℕ) → leb 2 (suc (suc n)) ≡ true
leb_two n = ground arith

module _ (floats : Floats) (exact : IsExact floats) where
  abbrev one : floats.Float
  one = floats.of_int (pos 1)

  abbrev ones : ℕ → List floats.Float
  ones zero = []
  ones (suc n) = one ∷ ones n

  length-ones : (n : ℕ) → length (ones n) ≡ n
  length-ones zero = refl
  length-ones (suc n) = ap (λ i. suc i) (length-ones n)

  total_from-ones :
      (n k : ℕ)
      → n + k ≤ 2 ^ 53
      → total_from floats (floats.of_int (pos k)) (ones n) ≡ floats.of_int (pos (n + k))
  unfolding total_from
  total_from-ones zero k small = ap (λ i. floats.of_int (pos i)) (omega arith)
  total_from-ones (suc n) k small =
      ap (λ t. total_from floats t (ones n)) (exact.counts k (omega arith))
      ∙ total_from-ones n (suc k) (omega arith)
      ∙ ap (λ i. floats.of_int (pos i)) (omega arith)

  mean-ones : (n : ℕ) → n < 2 ^ 53 → mean floats (ones (suc n)) ≡ one
  unfolding mean
  mean-ones n small =
      ap (λ t. floats.div t (floats.of_int (pos (length (ones (suc n))))))
        (total_from-ones (suc n) 0 (omega arith))
      ∙ ap (λ i. floats.div (floats.of_int (pos (suc n + 0))) (floats.of_int (pos (suc i))))
          (length-ones n)
      ∙ ap (λ i. floats.div (floats.of_int (pos i)) (floats.of_int (pos (suc n)))) (omega arith)
      ∙ exact.ratio_self n small

  square_one : floats.square (floats.sub one one) ≡ floats.of_int (pos 0)
  square_one = rw (exact.one_less_one, exact.square_zero) refl

  squares_from-ones :
      (n : ℕ) → squares_from floats one (floats.of_int (pos 0)) (ones n) ≡ floats.of_int (pos 0)
  unfolding squares_from
  squares_from-ones zero = refl
  squares_from-ones (suc n) =
      ap (λ t. squares_from floats one t (ones n)) (rw (square_one, exact.zero_add) refl)
      ∙ squares_from-ones n

  variance-ones :
      (n : ℕ)
      → n < 2 ^ 53
      → variance floats (ones (suc n)) ≡ floats.div (floats.of_int (pos 0)) (floats.of_int (pos n))
  unfolding variance less_one
  variance-ones n small =
      ap
        (λ m.
          floats.div (squares_from floats m (floats.of_int (pos 0)) (ones (suc n)))
            (floats.of_int (pos (length (ones n)))))
        (mean-ones n small)
      ∙ ap (λ t. floats.div t (floats.of_int (pos (length (ones n))))) (squares_from-ones (suc n))
      ∙ ap (λ i. floats.div (floats.of_int (pos 0)) (floats.of_int (pos i))) (length-ones n)

  mean_none : mean floats [] ≡ exact.nan
  unfolding mean total_from
  mean_none = exact.zero_by_zero

  ordinary_as :
      (vs : List floats.Float) (m s : floats.Float)
      → mean floats vs ≡ m
      → variance floats vs ≡ s
      → is_ordinary floats one vs ≡ floats.gef one (floats.sub m (floats.sqrt s))
  unfolding is_ordinary
  ordinary_as vs m s is_mean is_variance =
      ap (λ x. floats.gef one (floats.sub x (floats.sqrt (variance floats vs)))) is_mean
      ∙ ap (λ x. floats.gef one (floats.sub m (floats.sqrt x))) is_variance

  is_ordinary-ones : (n : ℕ) → n ≤ 2 ^ 53 → is_ordinary floats one (ones n) ≡ leb 2 n
  is_ordinary-ones zero small =
      ordinary_as [] exact.nan (variance floats []) mean_none refl
      ∙ rw (exact.nan_less (floats.sqrt (variance floats []))) (exact.ge_nan one)
  is_ordinary-ones (suc zero) small =
      ordinary_as (ones 1) one exact.nan (mean-ones 0 (omega arith))
        (variance-ones 0 (omega arith) ∙ exact.zero_by_zero)
      ∙ rw (exact.sqrt_nan, exact.less_nan one) (exact.ge_nan one)
  is_ordinary-ones (suc (suc n)) small =
      ordinary_as (ones (suc (suc n))) one (floats.of_int (pos 0)) (mean-ones (suc n) (omega arith))
        (variance-ones (suc n) (omega arith) ∙ exact.zero_ratio n (omega arith))
      ∙ rw (exact.sqrt_zero, exact.less_zero, exact.one_ge_one) (sym (leb_two n))

  module _ {S : Type 0} (env : Env S) where
    values-ones :
        (reps : Assoc PeerId Reputation)
        → ((id : PeerId) → float_value floats (reputation_of reps id) ≡ one)
        → (peers : List Peer) → values floats env reps peers ≡ ones (length peers)
    values-ones reps whole [] = refl
    values-ones reps whole (p ∷ peers) = rw (whole p.id, values-ones reps whole peers) refl

    -- While the value of every reputation is 1, the trust function trusts a reputation of the value 1 if
    -- and only if the peer store lists two peers or more. It leaves each peer's reputation as it is.
    -- There are at most 2 ^ 53 peers, and float64 is exact on whole numbers up to there.
    pub trust_func-fresh :
        (rep : Reputation) (peers : List Peer) (s : S) (w : World S)
        → env.all_peers w.outside ≡ (ok peers, s)
        → ((id : PeerId) → float_value floats (reputation_of w.reps id) ≡ one)
        → float_value floats rep ≡ one
        → length peers ≤ 2 ^ 53
        → (reps' : Assoc PeerId Reputation) × (trust_func floats env rep w
            ≡ (ok (leb 2 (length peers)), record w { outside = s; reps = reps' }))
          × SameView w.reps reps'
    unfolding trust_func pure external catch
    trust_func-fresh rep peers s w lists whole new small =
        let (reps', is_read, same) = reads_values floats env peers [] (record w { outside = s }) in
        (
          reps',
          rw (new, exact.half_lt_one, lists, is_read, values-ones w.reps whole peers)
              (ap (λ t. (ok t, record w { outside = s; reps = reps' }))
                (is_ordinary-ones (length peers) small)),
          same,
        )
