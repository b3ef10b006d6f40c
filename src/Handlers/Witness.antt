-- ===== src/Handlers/Witness.antt =====
-- `witnessHandlerAdapter`.
pub mod Effect
use go_clarinet.Base.{
  Bool, false, not, ◌&&◌, ◌||◌, Option, none, some, [], ◌∷◌, ◌++◌, Bytes, codes, if◌then◌else◌,
}
use go_clarinet.Base.Eq.{◌==◌}
use go_clarinet.Peer.{PeerId, Peer, peer_id_eq}
use go_clarinet.Connection.{Conn, WitnessRequest, WitnessResponse, opened, set_witness}
use go_clarinet.Connection.Error.{Err, error_text}
use go_clarinet.World.{Env, M, pure, external, catch, ◌>>=◌}
use go_clarinet.Inmem.Connections
use go_clarinet.Inmem.Connections.{Written}
use go_clarinet.Node.Witness.{is_empty}
use go_clarinet.Handlers.Connect.{not_participant, is_none}

abbrev pub self_is_participant : Bytes
self_is_participant = codes "Cannot witness request in self is sender or receiver in."

-- `err != nil || len(resp.Errors) > 0 || !resp.Accepted`
turned_down : WitnessResponse → Option Err → Bool
turned_down resp e = not (is_none e) || not (is_empty resp.errors) || not resp.accepted

module _ {S : Type 0} (env : Env S) where
  pub failed : WitnessRequest → Err → WitnessResponse
  failed request e = record {
    connection_id = request.connection_id;
    errors = error_text env.texts e ∷ [];
    accepted = false;
    reject_reasons = [];
  }

  pub rejected : WitnessRequest → Bytes → WitnessResponse
  rejected request reason = record {
    connection_id = request.connection_id;
    errors = [];
    accepted = false;
    reject_reasons = reason ∷ [];
  }

  -- The callback of `Update`: this node is the witness.
  witness_here : Conn → M S Written
  witness_here conn = do self ← external env.self; pure (some (set_witness self.id conn), none)

  -- `Accept`, and then `Update`.
  accept : WitnessRequest → Peer → Peer → WitnessResponse → M S (WitnessResponse × Option Err)
  accept request sender receiver resp =
      catch (Connections.accept request.connection_id sender receiver opened)
        (λ _.
          catch (Connections.update request.connection_id witness_here) (λ _. pure (resp, none))
            (λ e. pure (failed request e, none)))
        (λ e. pure (record resp { errors = resp.errors ++ error_text env.texts e ∷ [] }, none))

  ask : PeerId → WitnessRequest → Peer → Peer → M S (WitnessResponse × Option Err)
  ask peer_id request sender receiver = do
    (resp, e) ← external (env.on_witness peer_id request)
    if turned_down resp e then pure (resp, e) else accept request sender receiver resp

  admit : PeerId → WitnessRequest → Peer → Peer → M S (WitnessResponse × Option Err)
  admit peer_id request sender receiver =
      if not (sender.id == peer_id) && not (receiver.id == peer_id)
      then pure (rejected request not_participant, none)
      else catch (external env.self)
          (λ self.
            if sender.id == self.id || receiver.id == self.id
            then pure (rejected request self_is_participant, none)
            else ask peer_id request sender receiver)
          (λ e. pure (failed request e, none))

  unfoldable pub handle : PeerId → WitnessRequest → M S (WitnessResponse × Option Err)
  unfolding failed rejected turned_down witness_here accept ask admit
  handle peer_id request =
      catch (external (env.find request.sender))
        (λ sender.
          catch (external (env.find request.receiver))
            (λ receiver. admit peer_id request sender receiver)
            (λ e. pure (failed request e, none)))
        (λ e. pure (failed request e, none))
