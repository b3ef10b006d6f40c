-- ===== src/App/Trust.antt =====
-- The trust function of main.go. The float64 numbers and the functions of math are a parameter.
pub mod Fresh
use go_clarinet.Base.{ℕ, zero, suc, Bool, false, List, [], ◌∷◌, ◌++◌, if◌then◌else◌}
use go_clarinet.Base.Int.{ℤ, pos, negsuc}
use go_clarinet.Base.Lists.{length}
use go_clarinet.Peer.{Peer}
use go_clarinet.Reputation.{Reputation, value}
use go_clarinet.World.{Env, M, pure, external, catch, ◌>>=◌}
use go_clarinet.Inmem.Reputations.{read}

-- float64, with `<` as `ltf`, `>=` as `gef`, and `math.Pow` to the second as `square`.
pub record Floats : Type 1 where
  pub Float : Type 0
  pub of_int : ℤ → Float
  pub half : Float
  pub add : Float → Float → Float
  pub sub : Float → Float → Float
  pub div : Float → Float → Float
  pub square : Float → Float
  pub sqrt : Float → Float
  pub ltf : Float → Float → Bool
  pub gef : Float → Float → Bool

-- `len(repVals) - 1`
less_one : ℕ → ℤ
less_one zero = negsuc 0
less_one (suc n) = pos n

module _ (floats : Floats) where
  -- `Value`
  unfoldable pub float_value : Reputation → floats.Float
  float_value rep =
      floats.div (floats.of_int (pos (value rep).num)) (floats.of_int (pos (value rep).den))

  total_from : floats.Float → List floats.Float → floats.Float
  total_from t [] = t
  total_from t (v ∷ vs) = total_from (floats.add t v) vs

  mean : List floats.Float → floats.Float
  unfolding total_from
  mean vs = floats.div (total_from (floats.of_int (pos 0)) vs) (floats.of_int (pos (length vs)))

  squares_from : floats.Float → floats.Float → List floats.Float → floats.Float
  squares_from m t [] = t
  squares_from m t (v ∷ vs) = squares_from m (floats.add t (floats.square (floats.sub v m))) vs

  variance : List floats.Float → floats.Float
  unfolding squares_from mean less_one
  variance vs =
      floats.div (squares_from (mean vs) (floats.of_int (pos 0)) vs)
        (floats.of_int (less_one (length vs)))

  unfoldable pub is_ordinary : floats.Float → List floats.Float → Bool
  unfolding mean variance
  is_ordinary v vs = floats.gef v (floats.sub (mean vs) (floats.sqrt (variance vs)))

  module _ {S : Type 0} (env : Env S) where
    -- A reputation that is not read is logged, and left out.
    values_from : List Peer → List floats.Float → M S (List floats.Float)
    unfolding float_value
    values_from [] vs = pure vs
    values_from (p ∷ peers) vs =
        catch (read p.id (λ rep. pure (vs ++ float_value rep ∷ []))) (λ vs'. values_from peers vs')
          (λ e. values_from peers vs)

    unfoldable pub trust_func : Reputation → M S Bool
    unfolding float_value values_from is_ordinary
    trust_func rep = if floats.ltf (float_value rep) floats.half then pure false else do
      peers ← external env.all_peers
      vs ← values_from peers []
      pure (is_ordinary (float_value rep) vs)
