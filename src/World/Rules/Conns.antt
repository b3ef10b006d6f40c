-- ===== src/World/Rules/Conns.antt =====
-- Actions that leave the connections alone.
use go_clarinet.Base.{◌≡◌, refl, ◌∙◌, Bool, true, false, if◌then◌else◌}
use go_clarinet.Peer.{Peer}
use go_clarinet.Connection.Error.{Err}
use go_clarinet.World.{
  World, Result, ok, err, panicked, Message, Call, M, pure, raise, panic, external, transmit, catch,
  continue,
}

-- Whatever `m` comes to, it leaves the connections as they are.
pub record KeepsConns {S A : Type 0} (m : M S A) : Type 0 where
  pub at : (w : World S) → (m w).1.conns ≡ w.conns

module _ {S A : Type 0} where
  pub KeepsConns-pure : (a : A) → KeepsConns {S = S} (pure a)
  unfolding pure
  KeepsConns-pure a = record { at = λ w. refl }

  pub KeepsConns-raise : (e : Err) → KeepsConns {S = S} {A = A} (raise e)
  unfolding raise
  KeepsConns-raise e = record { at = λ w. refl }

  pub KeepsConns-panic : KeepsConns {S = S} {A = A} panic
  unfolding panic
  KeepsConns-panic = record { at = λ w. refl }

  pub KeepsConns-external : (call : Call S A) → KeepsConns (external call)
  unfolding external
  KeepsConns-external call = record { at = λ w. refl }

  pub KeepsConns-transmit :
      (p : Peer) (m : Message) (call : Call S A) → KeepsConns (transmit p m call)
  unfolding transmit
  KeepsConns-transmit p m call = record { at = λ w. refl }

  pub KeepsConns-if :
      (b : Bool) (m n : M S A) → KeepsConns m → KeepsConns n → KeepsConns (if b then m else n)
  KeepsConns-if true m n km kn = km
  KeepsConns-if false m n km kn = kn

module _ {S A B : Type 0} where
  pub KeepsConns-continue :
      (r : Result A) (k : A → M S B) (h : Err → M S B)
      → ((a : A) → KeepsConns (k a))
      → ((e : Err) → KeepsConns (h e))
      → (w : World S) → (continue k h r w).1.conns ≡ w.conns
  KeepsConns-continue (ok a) k h kk kh w = (kk a).at w
  KeepsConns-continue (err e) k h kk kh w = (kh e).at w
  KeepsConns-continue panicked k h kk kh w = refl

  pub KeepsConns-catch :
      (m : M S A) (k : A → M S B) (h : Err → M S B)
      → KeepsConns m
      → ((a : A) → KeepsConns (k a))
      → ((e : Err) → KeepsConns (h e))
      → KeepsConns (catch m k h)
  unfolding catch
  KeepsConns-catch m k h km kk kh = record {
    at = λ w. KeepsConns-continue (m w).0 k h kk kh (m w).1 ∙ km.at w;
  }

pub ruleset keeps_conns = (
  KeepsConns-pure, KeepsConns-raise, KeepsConns-panic, KeepsConns-external, KeepsConns-transmit,
  KeepsConns-if, KeepsConns-catch,
)
