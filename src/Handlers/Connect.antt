-- ===== src/Handlers/Connect.antt =====
-- `connectHandlerAdapter`.
pub mod Effect
pub mod Reopen
pub mod Course
use go_clarinet.Base.{
  Bool, true, false, not, ◌&&◌, ◌||◌, Option, none, some, [], ◌∷◌, ◌++◌, Bytes, codes,
  if◌then◌else◌,
}
use go_clarinet.Base.Eq.{◌==◌}
use go_clarinet.Peer.{PeerId, Peer, peer_id_eq}
use go_clarinet.Connection.{
  WitnessSelector, nil_selector, sender_selects, receiver_selects, ConnectRequest, ConnectResponse,
  awaiting_witness,
}
use go_clarinet.Connection.Error.{Err, error_text}
use go_clarinet.World.{ok, Env, Task, M, pure, external, catch, ◌>>=◌, ◌>>◌}
use go_clarinet.Inmem.Connections
use go_clarinet.Node.Witness.{handle_witness_selection, is_empty}

abbrev pub not_participant : Bytes
not_participant =
    codes "Will not accept connection from node that is not either the sender or the receiver."

abbrev pub not_this_node : Bytes
not_this_node = codes "Connection is not to or from this node."

abbrev pub is_none {ℓ} : {A : Type ℓ} → Option A → Bool
is_none none = true
is_none (some a) = false

-- The condition of the `go` statement: the selector names an end, and this node is that end.
pub selects : WitnessSelector → ConnectRequest → PeerId → Bool
selects receiver_selects request self = self == request.receiver
selects sender_selects request self = self == request.sender
selects nil_selector request self = false

-- `err != nil || len(resp.Errors) > 0 || !resp.Accepted`
turned_down : ConnectResponse → Option Err → Bool
turned_down resp e = not (is_none e) || not (is_empty resp.errors) || not resp.accepted

module _ {S : Type 0} (env : Env S) where
  pub failed : ConnectRequest → Err → ConnectResponse
  failed request e = record {
    connection_id = request.connection_id;
    errors = error_text env.texts e ∷ [];
    accepted = false;
    reject_reasons = [];
  }

  pub rejected : ConnectRequest → Bytes → ConnectResponse
  rejected request reason = record {
    connection_id = request.connection_id;
    errors = [];
    accepted = false;
    reject_reasons = reason ∷ [];
  }

  -- `go func() { … }()`
  spawn : ConnectRequest → PeerId → M S (Unit {0})
  spawn request self w = (
    ok tt,
    if selects request.options.witness_selector request self
        then record w {
          tasks =
              w.tasks
              ++ record { connection_id = request.connection_id; options = request.options } ∷ [];
        }
        else w,
  )

  -- `Accept`, once the application agrees; its error joins the errors of the response.
  accept :
      ConnectRequest → Peer → Peer → PeerId → ConnectResponse → M S (ConnectResponse × Option Err)
  accept request sender receiver self resp =
      catch (Connections.accept request.connection_id sender receiver awaiting_witness)
        (λ _. do spawn request self; pure (resp, none))
        (λ e. pure (record resp { errors = resp.errors ++ error_text env.texts e ∷ [] }, none))

  -- The application's handler, and the test on its answer.
  ask : PeerId → ConnectRequest → Peer → Peer → PeerId → M S (ConnectResponse × Option Err)
  ask peer_id request sender receiver self = do
    (resp, e) ← external (env.on_connect peer_id request)
    if turned_down resp e then pure (resp, e) else accept request sender receiver self resp

  admit : PeerId → ConnectRequest → Peer → Peer → M S (ConnectResponse × Option Err)
  admit peer_id request sender receiver =
      if not (sender.id == peer_id) && not (receiver.id == peer_id)
      then pure (rejected request not_participant, none)
      else catch (external env.self)
          (λ self.
            if not (request.sender == self.id) && not (request.receiver == self.id)
            then pure (rejected request not_this_node, none)
            else ask peer_id request sender receiver self.id)
          (λ e. pure (failed request e, none))

  unfoldable pub handle : PeerId → ConnectRequest → M S (ConnectResponse × Option Err)
  unfolding failed rejected turned_down spawn accept ask admit selects
  handle peer_id request =
      catch (external (env.find request.sender))
        (λ sender.
          catch (external (env.find request.receiver))
            (λ receiver. admit peer_id request sender receiver)
            (λ e. pure (failed request e, none)))
        (λ e. pure (failed request e, none))

  -- What the started goroutine does, whenever it runs; an error is logged.
  unfoldable pub run_task : Task → M S (Unit {0})
  run_task task =
      catch
        (Connections.update task.connection_id
          (λ conn. handle_witness_selection env conn task.options env.connect_options))
        (λ _. pure tt) (λ e. pure tt)
