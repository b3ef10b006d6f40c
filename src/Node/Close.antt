-- ===== src/Node/Close.antt =====
-- `CloseConnection` and `requestClose`.
pub mod Effect
pub mod Agreed
pub mod Course
use go_clarinet.Base.{◌||◌, none, some, List, [], ◌∷◌, if◌then◌else◌}
use go_clarinet.Base.Eq.{◌==◌}
use go_clarinet.Peer.{PeerId, nil_id, Peer, peer_id_eq}
use go_clarinet.Connection.{ConnId, Conn, is_closed, set_status, closing, closed}
use go_clarinet.Connection.Error.{
  Errs, no_errs, add_err, add_nil, peer_not_retrieved, close_not_sent, close_failed,
}
use go_clarinet.World.{
  Env, TransportOptions, M, pure, external, transmit, catch, close_request, ◌>>=◌,
}
use go_clarinet.Inmem.Connections
use go_clarinet.Inmem.Connections.{Written}

module _ {S : Type 0} (env : Env S) where
  unfoldable pub request_close : Peer → Conn → TransportOptions → M S (Unit {0})
  request_close peer conn topts =
      let request = close_request (record { connection_id = conn.id }) in
      transmit peer request (env.send peer topts request)

  -- One round of the loop over the participants; the errors so far come in, and go on.
  close_participant : PeerId → PeerId → Conn → TransportOptions → Errs → M S Errs
  close_participant self id conn topts errs =
      if id == self || id == nil_id
      then pure errs
      else catch (external (env.find id))
          (λ p.
            catch (request_close p conn topts) (λ _. pure errs)
              (λ e. pure (add_err errs (close_not_sent p.id e))))
          (λ e. pure (add_err errs (peer_not_retrieved id e)))

  close_participants : PeerId → List PeerId → Conn → TransportOptions → Errs → M S Errs
  unfolding close_participant
  close_participants self [] conn topts errs = pure errs
  close_participants self (id ∷ ids) conn topts errs = do
    errs' ← close_participant self id conn topts errs
    close_participants self ids conn topts errs'

  -- `errs = append(errs, err)` adds the nil error of `SetStatus`.
  finish_close : Conn → Errs → M S Written
  finish_close conn no_errs = pure (some (set_status closed conn), none)
  finish_close conn (add_err errs e) =
      pure (some (set_status closing conn), some (close_failed conn.id (add_nil (add_err errs e))))
  finish_close conn (add_nil errs) =
      pure (some (set_status closing conn), some (close_failed conn.id (add_nil (add_nil errs))))

  -- The callback that `CloseConnection` gives to `Update`.
  unfoldable pub close_write : TransportOptions → Conn → M S Written
  unfolding close_participants finish_close
  close_write topts conn = if is_closed conn.status then pure (none, none) else do
    self ← external env.self
    errs ←
        close_participants self.id (conn.sender ∷ conn.witness ∷ conn.receiver ∷ []) conn topts
          no_errs
    finish_close conn errs

  unfoldable pub close_connection : ConnId → TransportOptions → M S (Unit {0})
  unfolding close_write
  close_connection id topts = Connections.update id (close_write topts)
