-- ===== src/World/Rules/Effects.antt =====
-- What an action does to the connections, by its result.
use mathlib.Core.Path.{subst}
use go_clarinet.Base.{◌≡◌, refl, sym, Bool, true, false, if◌then◌else◌}
use go_clarinet.Base.Assoc.{Assoc}
use go_clarinet.Connection.{ConnId, Conn}
use go_clarinet.Connection.Error.{Err}
use go_clarinet.World.{World, Result, ok, err, panicked, M, catch, continue}
use go_clarinet.World.Rules.Conns.{KeepsConns, KeepsConns-continue}
use go_clarinet.World.Rules.Results.{Post, Ensures}

-- How the connections before, the result and the connections after hang together.
pub record Does {S A : Type 0} (Q : Assoc ConnId Conn → Result A → Assoc ConnId Conn → Type 0)
    (m : M S A) : Type 0 where
  pub at : (w : World S) → Q w.conns (m w).0 (m w).1.conns

module _ {S A B : Type 0} (Q : Assoc ConnId Conn → Result B → Assoc ConnId Conn → Type 0)
    (stop : (c : Assoc ConnId Conn) → Q c panicked c) where
  Does-continue :
      (r : Result A) (k : A → M S B) (h : Err → M S B)
      → ((a : A) → Does Q (k a))
      → ((e : Err) → Does Q (h e))
      → (w : World S) → Q w.conns (continue k h r w).0 (continue k h r w).1.conns
  Does-continue (ok a) k h kk kh w = (kk a).at w
  Does-continue (err e) k h kk kh w = (kh e).at w
  Does-continue panicked k h kk kh w = stop w.conns

  -- A first action that leaves the connections alone.
  pub Does-catch :
      (m : M S A) (k : A → M S B) (h : Err → M S B)
      → KeepsConns m
      → ((a : A) → Does Q (k a))
      → ((e : Err) → Does Q (h e))
      → Does Q (catch m k h)
  unfolding catch
  Does-catch m k h km kk kh = record {
    at = λ w.
        subst (λ c. Q c (continue k h (m w).0 (m w).1).0 (continue k h (m w).0 (m w).1).1.conns)
          (km.at w) (Does-continue (m w).0 k h kk kh (m w).1);
  }

module _ {S A : Type 0} (Q : Assoc ConnId Conn → Result A → Assoc ConnId Conn → Type 0) where
  pub Does-if :
      (b : Bool) (m n : M S A)
      → (b ≡ true → Does Q m)
      → (b ≡ false → Does Q n)
      → Does Q (if b then m else n)
  Does-if true m n km kn = km refl
  Does-if false m n km kn = kn refl

  pub Does-quiet :
      (m : M S A) → KeepsConns m → ((c : Assoc ConnId Conn) (r : Result A) → Q c r c) → Does Q m
  Does-quiet m km same = record {
    at = λ w. subst (λ c. Q w.conns (m w).0 c) (sym (km.at w)) (same w.conns (m w).0);
  }

module _ {S A B : Type 0} (R : Assoc ConnId Conn → Assoc ConnId Conn → Type 0) where
  -- An action before others that leave the connections alone.
  pub Does-then_quiet :
      (m : M S A) (k : A → M S B) (h : Err → M S B)
      → Does (λ c r c'. R c c') m
      → ((a : A) → KeepsConns (k a))
      → ((e : Err) → KeepsConns (h e))
      → Does (λ c r c'. R c c') (catch m k h)
  unfolding catch
  Does-then_quiet m k h dm kk kh = record {
    at = λ w.
        subst (λ c. R w.conns c) (sym (KeepsConns-continue (m w).0 k h kk kh (m w).1)) (dm.at w);
  }

module _ {S A B : Type 0} (P : A → Type 0)
    (Q : Assoc ConnId Conn → Result B → Assoc ConnId Conn → Type 0)
    (stop : (c : Assoc ConnId Conn) → Q c panicked c) where
  Does-continue_with :
      (r : Result A) (k : A → M S B) (h : Err → M S B)
      → Post P r
      → ((a : A) → P a → Does Q (k a))
      → ((e : Err) → Does Q (h e))
      → (w : World S) → Q w.conns (continue k h r w).0 (continue k h r w).1.conns
  Does-continue_with (ok a) k h pr kk kh w = (kk a pr).at w
  Does-continue_with (err e) k h pr kk kh w = (kh e).at w
  Does-continue_with panicked k h pr kk kh w = stop w.conns

  -- The same, where the rest may use what the first action ensures.
  pub Does-catch_with :
      (m : M S A) (k : A → M S B) (h : Err → M S B)
      → KeepsConns m
      → Ensures P m
      → ((a : A) → P a → Does Q (k a))
      → ((e : Err) → Does Q (h e))
      → Does Q (catch m k h)
  unfolding catch
  Does-catch_with m k h km pm kk kh = record {
    at = λ w.
        subst (λ c. Q c (continue k h (m w).0 (m w).1).0 (continue k h (m w).0 (m w).1).1.conns)
          (km.at w) (Does-continue_with (m w).0 k h (pm.at w) kk kh (m w).1);
  }
