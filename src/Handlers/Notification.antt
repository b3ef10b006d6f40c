-- ===== src/Handlers/Notification.antt =====
-- `witnessNotificationHandlerAdapter`.
pub mod Effect
pub mod Decision
use go_clarinet.Base.{none, some, if◌then◌else◌}
use go_clarinet.Base.Eq.{◌==◌}
use go_clarinet.Peer.{PeerId, peer_id_eq}
use go_clarinet.Connection.{
  Conn, WitnessNotification, is_awaiting_witness, set_witness, set_status, opened,
}
use go_clarinet.Connection.Error.{not_awaiting, unexpected_notifier}
use go_clarinet.World.{Env, M, pure, raise, external, ◌>>=◌, ◌>>◌}
use go_clarinet.Inmem.Connections
use go_clarinet.Inmem.Connections.{Written}

-- The end of the connection that is not this node.
unfoldable pub expected_peer : PeerId → Conn → PeerId
expected_peer self conn = if conn.sender == self then conn.receiver else conn.sender

module _ {S : Type 0} (env : Env S) where
  admit : PeerId → WitnessNotification → PeerId → Conn → M S Written
  admit peer_id notification self conn =
      if peer_id == expected_peer self conn
      then (do
        external (env.on_witness_notification peer_id notification)
        pure (some (set_status opened (set_witness notification.witness conn)), none))
      else raise (unexpected_notifier conn.id (expected_peer self conn) peer_id)

  -- The callback of `Update`.
  unfoldable pub notified : PeerId → WitnessNotification → Conn → M S Written
  unfolding admit expected_peer
  notified peer_id notification conn =
      if is_awaiting_witness conn.status
      then (do self ← external env.self; admit peer_id notification self.id conn)
      else raise (not_awaiting peer_id conn.id)

  unfoldable pub handle : PeerId → WitnessNotification → M S (Unit {0})
  handle peer_id notification =
      Connections.update notification.connection_id (notified peer_id notification)
