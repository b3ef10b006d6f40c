-- ===== src/World/Rules/Results.antt =====
-- What is known of the value that an action returns.
use go_clarinet.Base.{◌≡◌, refl, Bool, true, false, if◌then◌else◌}
use go_clarinet.Peer.{Peer}
use go_clarinet.Connection.Error.{Err}
use go_clarinet.World.{
  World, Result, ok, err, panicked, Message, Call, M, pure, raise, panic, external, transmit, catch,
  continue,
}

abbrev pub Post : {A : Type 0} → (A → Type 0) → Result A → Type 0
Post Q (ok a) = Q a
Post Q (err e) = Unit
Post Q panicked = Unit

-- If `m` returns a value without raising an error, the value satisfies `Q`.
pub record Ensures {S A : Type 0} (Q : A → Type 0) (m : M S A) : Type 0 where
  pub at : (w : World S) → Post Q (m w).0

module _ {S A B : Type 0} where
  Ensures-continue :
      (P : A → Type 0) (Q : B → Type 0) (r : Result A) (k : A → M S B) (h : Err → M S B)
      → Post P r
      → ((a : A) → P a → Ensures Q (k a))
      → ((e : Err) → Ensures Q (h e))
      → (w : World S) → Post Q (continue k h r w).0
  Ensures-continue P Q (ok a) k h pr kk kh w = (kk a pr).at w
  Ensures-continue P Q (err e) k h pr kk kh w = (kh e).at w
  Ensures-continue P Q panicked k h pr kk kh w = tt

  pub Ensures-catch :
      (P : A → Type 0) (Q : B → Type 0) (m : M S A) (k : A → M S B) (h : Err → M S B)
      → Ensures P m
      → ((a : A) → P a → Ensures Q (k a))
      → ((e : Err) → Ensures Q (h e))
      → Ensures Q (catch m k h)
  unfolding catch
  Ensures-catch P Q m k h pm kk kh = record {
    at = λ w. Ensures-continue P Q (m w).0 k h (pm.at w) kk kh (m w).1;
  }

module _ {S A : Type 0} (Q : A → Type 0) where
  pub Ensures-pure : (a : A) → Q a → Ensures {S = S} Q (pure a)
  unfolding pure
  Ensures-pure a h = record { at = λ w. h }

  pub Ensures-raise : (e : Err) → Ensures {S = S} Q (raise e)
  unfolding raise
  Ensures-raise e = record { at = λ w. tt }

  pub Ensures-panic : Ensures {S = S} Q panic
  unfolding panic
  Ensures-panic = record { at = λ w. tt }

  pub Ensures-if :
      (b : Bool) (m n : M S A)
      → (b ≡ true → Ensures Q m)
      → (b ≡ false → Ensures Q n)
      → Ensures Q (if b then m else n)
  Ensures-if true m n km kn = km refl
  Ensures-if false m n km kn = kn refl

Post-holds : {A Q : Type 0} (r : Result A) → Q → Post (λ _. Q) r
Post-holds (ok a) h = h
Post-holds (err e) h = tt
Post-holds panicked h = tt

Post-weaken :
    {A : Type 0} (P Q : A → Type 0) (r : Result A) → ((a : A) → P a → Q a) → Post P r → Post Q r
Post-weaken P Q (ok a) imp h = imp a h
Post-weaken P Q (err e) imp h = tt
Post-weaken P Q panicked imp h = tt

module _ {S A : Type 0} where
  -- A fact that is at hand holds of whatever an action returns.
  pub Ensures-holds : (Q : Type 0) (m : M S A) → Q → Ensures (λ _. Q) m
  Ensures-holds Q m h = record { at = λ w. Post-holds (m w).0 h }

  -- Nothing is known of what another package returns.
  pub Ensures-any : (m : M S A) → Ensures (λ _. Unit) m
  Ensures-any m = Ensures-holds Unit m tt

  pub Ensures-weaken :
      (P Q : A → Type 0) (m : M S A) → ((a : A) → P a → Q a) → Ensures P m → Ensures Q m
  Ensures-weaken P Q m imp h = record { at = λ w. Post-weaken P Q (m w).0 imp (h.at w) }

module _ {S A B : Type 0} where
  pub Ensures-catch_any :
      (Q : B → Type 0) (m : M S A) (k : A → M S B) (h : Err → M S B)
      → ((a : A) → Ensures Q (k a))
      → ((e : Err) → Ensures Q (h e))
      → Ensures Q (catch m k h)
  Ensures-catch_any Q m k h kk kh =
      Ensures-catch (λ _. Unit) Q m k h (Ensures-any m) (λ a _. kk a) kh

-- A call of the environment came back with this value, in some state of the outside.
abbrev pub Answers : {S A : Type 0} → Call S A → A → Type 0
Answers {S} call a = (s : S) × (s' : S) × (call s ≡ (ok a, s'))

module _ {S A : Type 0} (call : Call S A) where
  answered : (s : S) (r : Result A) (s' : S) → call s ≡ (r, s') → Post (Answers call) r
  answered s (ok a) s' e = (s, s', e)
  answered s (err x) s' e = tt
  answered s panicked s' e = tt

  pub Ensures-external : Ensures (Answers call) (external call)
  unfolding external
  Ensures-external = record {
    at = λ w. answered w.outside (call w.outside).0 (call w.outside).1 refl;
  }

  pub Ensures-transmit : (p : Peer) (m : Message) → Ensures (Answers call) (transmit p m call)
  unfolding transmit
  Ensures-transmit p m = record {
    at = λ w. answered w.outside (call w.outside).0 (call w.outside).1 refl;
  }

pub ruleset ensures = (Ensures-pure, Ensures-raise, Ensures-panic, Ensures-if, Ensures-catch_any)
