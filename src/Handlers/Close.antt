-- ===== src/Handlers/Close.antt =====
-- `closeHandlerAdapter`.
pub mod Effect
use go_clarinet.Base.{none, some, if◌then◌else◌}
use go_clarinet.Peer.{PeerId}
use go_clarinet.Connection.{Conn, CloseRequest, is_closed, set_status, closing, closed}
use go_clarinet.World.{Env, M, pure, external, catch}
use go_clarinet.Inmem.Connections
use go_clarinet.Inmem.Connections.{Written}

module _ {S : Type 0} (env : Env S) where
  -- The callback of `Update`.
  unfoldable pub closed_by : PeerId → CloseRequest → Conn → M S Written
  closed_by peer_id request conn =
      if is_closed conn.status
      then pure (none, none)
      else catch (external (env.on_close peer_id request))
          (λ _. pure (some (set_status closed conn), none))
          (λ e. pure (some (set_status closing conn), some e))

  unfoldable pub handle : PeerId → CloseRequest → M S (Unit {0})
  handle peer_id request = Connections.update request.connection_id (closed_by peer_id request)
