-- ===== src/Reputation/Value.antt =====
-- How rewards and penalties move the value of a reputation.
use go_clarinet.Base.{ℕ, ◌*◌, ◌≤◌, ◌≡◌, refl, false, List, [], ◌∷◌, arith}
use go_clarinet.Base.Eq.{◌==◌, nat_eq}
use native.Mathlib.Decide.{dec_lt}
use go_clarinet.Peer.{PeerId}
use go_clarinet.Reputation.{
  Reputation, Ratio, value, new_reputation, reward, strong_penalize, weak_penalize,
}

-- `<=` on fractions
abbrev pub AtMost : Ratio → Ratio → Type 0
AtMost r r' = r.num * r'.den ≤ r'.num * r.den

pub data Mark : Type 0 where
  rewarded strongly_penalized weakly_penalized : Mark

unfoldable pub marked : Mark → Reputation → Reputation
unfolding reward strong_penalize weak_penalize
marked rewarded r = reward r
marked strongly_penalized r = strong_penalize r
marked weakly_penalized r = weak_penalize r

unfoldable pub history : PeerId → List Mark → Reputation
unfolding new_reputation
history id [] = new_reputation id
history id (m ∷ ms) = marked m (history id ms)

-- A reputation's value is a number from 0 to 1, and 1 if the peer has no points; a reward does not lower
-- it, a penalty does not raise it, and a strong penalty leaves no more than a weak one.
pub record IsFair (r : Reputation) : Type 0 where
  pub defined : 1 ≤ (value r).den
  pub at_most_one : (value r).num ≤ (value r).den
  pub one_at_first : r.total ≡ 0 → (value r).num ≡ (value r).den
  pub rewards : AtMost (value r) (value (reward r))
  pub penalizes : AtMost (value (weak_penalize r)) (value r)
  pub strongly : AtMost (value (strong_penalize r)) (value (weak_penalize r))

good-le-total : (id : PeerId) (ms : List Mark) → (history id ms).good ≤ (history id ms).total
unfolding history marked
good-le-total id [] = omega arith
good-le-total id (rewarded ∷ ms) = omega (arith, good-le-total id ms)
good-le-total id (strongly_penalized ∷ ms) = omega (arith, good-le-total id ms)
good-le-total id (weakly_penalized ∷ ms) = omega (arith, good-le-total id ms)

not_zero : (n : ℕ) → 1 ≤ n → (n == 0) ≡ false
not_zero n h = ground arith

value_pos : (r : Reputation) → 1 ≤ r.total → value r ≡ record { num = r.good; den = r.total }
unfolding value
value_pos r h = rw (not_zero r.total h) refl

IsFair-new : (r : Reputation) → r.total ≡ 0 → r.good ≡ 0 → IsFair r
unfolding value reward strong_penalize weak_penalize
IsFair-new r none_at_all no_good = record {
  defined = rw none_at_all (omega arith);
  at_most_one = rw none_at_all (omega arith);
  one_at_first = λ _. rw none_at_all refl;
  rewards = rw (none_at_all, no_good) (omega arith);
  penalizes = rw (none_at_all, no_good) (omega arith);
  strongly = rw (none_at_all, no_good) (omega arith);
}

IsFair-more : (r : Reputation) → 1 ≤ r.total → r.good ≤ r.total → IsFair r
unfolding reward strong_penalize weak_penalize
IsFair-more r some_at_all h = record {
  defined = rw (value_pos r some_at_all) some_at_all;
  at_most_one = rw (value_pos r some_at_all) h;
  one_at_first = λ no_points. absurd (omega arith);
  rewards = rw (value_pos r some_at_all, value_pos (reward r) (omega arith)) (omega arith);
  penalizes = rw (value_pos r some_at_all, value_pos (weak_penalize r) (omega arith)) (omega arith);
  strongly =
      rw (value_pos (strong_penalize r) (omega arith), value_pos (weak_penalize r) (omega arith))
        (omega arith);
}

-- Whatever rewards and penalties a peer has had, the value of its reputation is a number from 0 to 1
-- (the total it is divided by is never 0), and 1 while the total is 0; a reward does not lower it, a
-- penalty does not raise it, and a strong penalty leaves no more than a weak one. The value is taken
-- as a fraction of whole numbers.
pub history-IsFair : (id : PeerId) (ms : List Mark) → IsFair (history id ms)
history-IsFair id ms = elim (dec_lt 0 (history id ms).total) [
  | yes h ↦ IsFair-more (history id ms) (omega arith) (good-le-total id ms)
  | no h ↦ IsFair-new (history id ms) (omega arith) (omega (arith, good-le-total id ms))
]
