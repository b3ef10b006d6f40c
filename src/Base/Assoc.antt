-- ===== src/Base/Assoc.antt =====
-- Maps as association lists: a write replaces the binding of its key in place, or adds one at the end.
use mathlib.Core.Path.{◌≡◌, refl}
use mathlib.Core.Logic.{◌≢◌}
use mathlib.Core.List.{List, [], ◌∷◌}
use mathlib.Core.Option.{Option, none, some}
use native.Mathlib.Omega.{arith}
use go_clarinet.Base.Eq.{HasEq}
use go_clarinet.Base.Tests.{if◌then◌else◌}

abbrev pub Assoc {ℓ κ} : Type ℓ → Type κ → Type (ℓ ⊔ κ)
Assoc K V = List (K × V)

module _ {ℓ κ} {K : Type ℓ} {V : Type κ} ⦃e : HasEq K⦄ where
  unfoldable pub lookup : K → Assoc K V → Option V
  lookup k [] = none
  lookup k ((j, v) ∷ m) = if e.eqb j k then some v else lookup k m

  unfoldable pub put : K → V → Assoc K V → Assoc K V
  put k v [] = (k, v) ∷ []
  put k v ((j, w) ∷ m) = if e.eqb j k then (k, v) ∷ m else (j, w) ∷ put k v m

  pub lookup-put :
      (k j : K) (v : V) (m : Assoc K V)
      → lookup j (put k v m) ≡ (if e.eqb k j then some v else lookup j m)
  unfolding lookup put
  lookup-put k j v [] = refl
  lookup-put k j v ((i, w) ∷ m) =
      ground (arith, lookup-put k j v m, e.eqb_iff i k, e.eqb_iff i j, e.eqb_iff k j)

  pub lookup-put_self : (k : K) (v : V) (m : Assoc K V) → lookup k (put k v m) ≡ some v
  lookup-put_self k v m = ground (arith, lookup-put k k v m, e.eqb_iff k k)

  pub lookup-put_ne : (k j : K) (v : V) (m : Assoc K V) → j ≢ k → lookup j (put k v m) ≡ lookup j m
  lookup-put_ne k j v m h = ground (arith, lookup-put k j v m, e.eqb_iff k j)
