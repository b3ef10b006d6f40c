-- ===== src/World/Rules.antt =====
-- Rules for proofs about actions, one for each way to build an action.
pub mod Conns
pub mod Results
pub mod Effects
use mathlib.Core.Path.{subst}
use go_clarinet.Base.{◌≡◌, refl, sym, ◌∙◌, Bool, true, false, if◌then◌else◌}
use go_clarinet.Base.Assoc.{Assoc}
use go_clarinet.Peer.{Peer}
use go_clarinet.Connection.{ConnId, Conn}
use go_clarinet.Connection.Error.{Err}
use go_clarinet.World.{
  World, Result, ok, err, panicked, Message, Call, M, pure, raise, panic, external, transmit, catch,
  continue,
}
pub use go_clarinet.World.Rules.Conns.{
  KeepsConns, KeepsConns-pure, KeepsConns-raise, KeepsConns-panic, KeepsConns-external,
  KeepsConns-transmit, KeepsConns-if, KeepsConns-catch, keeps_conns,
}
pub use go_clarinet.World.Rules.Results.*
pub use go_clarinet.World.Rules.Effects.*

-- The three ways that a `catch` goes on.
module _ {S A B : Type 0} (m : M S A) (k : A → M S B) (h : Err → M S B) (w w' : World S) where
  pub catch_ok : (a : A) → m w ≡ (ok a, w') → catch m k h w ≡ k a w'
  unfolding catch
  catch_ok a e = rw e

  pub catch_err : (e : Err) → m w ≡ (err e, w') → catch m k h w ≡ h e w'
  unfolding catch
  catch_err x e = rw e

  pub catch_panicked : m w ≡ (panicked, w') → catch m k h w ≡ (panicked, w')
  unfolding catch
  catch_panicked e = rw e
