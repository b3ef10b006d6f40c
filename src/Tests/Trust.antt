-- ===== src/Tests/Trust.antt =====
-- The trust function over numbers that count halves.
use go_clarinet.Base.{
  ℕ, suc, ◌+◌, ◌-◌, ◌*◌, ◌/◌, ◌≡◌, refl, ap, Bool, true, false, Option, none, some, List, [], ◌∷◌,
  if◌then◌else◌, ltb, leb, arith,
}
use go_clarinet.Base.Assoc.{Assoc, lookup}
use go_clarinet.Base.Eq.{◌==◌, nat_eq}
use go_clarinet.Base.Int.{pos, negsuc}
use go_clarinet.Peer.{PeerId, some_id}
use go_clarinet.Reputation.{Reputation, new_reputation, value}
use go_clarinet.World.{Env, ok}
use go_clarinet.Inmem.Reputations.View.{SameView, reputation_of}
use go_clarinet.App.Trust.{Floats, float_value, trust_func}
use go_clarinet.App.Trust.Fresh.{IsExact, trust_func-fresh}
use go_clarinet.Tests.Sample.{peer}
use go_clarinet.Tests.App.{outer, empty}

lift : (ℕ → ℕ → Option ℕ) → Option ℕ → Option ℕ → Option ℕ
lift f (some a) (some b) = f a b
lift f (some a) none = none
lift f none b = none

compare : (ℕ → ℕ → Bool) → Option ℕ → Option ℕ → Bool
compare f (some a) (some b) = f a b
compare f (some a) none = false
compare f none b = false

ratio : ℕ → ℕ → Option ℕ
ratio a b = if b == 0 then none else if a == b then some 2 else some (2 * a / b)

ratio_self : (n : ℕ) → ratio (2 * suc n) (2 * suc n) ≡ some 2
unfolding ratio
ratio_self n = ground arith

ratio_zero : (n : ℕ) → ratio (2 * 0) (2 * suc n) ≡ some 0
unfolding ratio
ratio_zero n = ground arith

abbrev halves : Floats
halves = record {
  Float = Option ℕ;
  of_int = λ z. elim z [ pos n ↦ some (2 * n) | negsuc n ↦ none ];
  half = some 1;
  add = lift (λ a b. some (a + b));
  sub = lift (λ a b. some (a - b));
  div = lift ratio;
  square = λ a. lift (λ b c. some (b * c / 2)) a a;
  sqrt = λ a. a;
  ltf = compare ltb;
  gef = compare (λ a b. leb b a);
}

halves-IsExact : IsExact halves
unfolding lift compare ratio
halves-IsExact = record {
  nan = none;
  counts = λ n small. ap (λ i. some i) (omega arith);
  ratio_self = λ n small. ratio_self n;
  one_less_one = refl;
  square_zero = refl;
  zero_add = refl;
  zero_ratio = λ n small. ratio_zero n;
  sqrt_zero = refl;
  less_zero = refl;
  one_ge_one = refl;
  half_lt_one = refl;
  zero_by_zero = refl;
  sqrt_nan = refl;
  less_nan = λ x. elim x as (λ x. halves.sub x none ≡ none) [ none ↦ refl | some a ↦ refl ];
  nan_less = λ x. refl;
  ge_nan = λ x. elim x as (λ x. halves.gef x none ≡ false) [ none ↦ refl | some a ↦ refl ];
}

abbrev two_peers : Env (List (List ℕ))
two_peers = record outer { all_peers = λ s. (ok (peer 1 ∷ peer 2 ∷ []), s) }

trust_func-fresh_example :
    (reps' : Assoc PeerId Reputation) × (trust_func halves two_peers
        (new_reputation (some_id 2))
        empty
      ≡ (ok true, record empty { reps = reps' }))
    × SameView [] reps'
unfolding lift ratio value reputation_of new_reputation lookup float_value
trust_func-fresh_example =
    trust_func-fresh halves halves-IsExact two_peers (new_reputation (some_id 2))
      (peer 1 ∷ peer 2 ∷ []) [] empty refl (λ id. refl) refl (omega arith)
