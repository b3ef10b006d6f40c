-- ===== src/Process/Steps.antt =====
-- What one action does to the connections.
use go_clarinet.Base.{◌≡◌, refl}
use go_clarinet.Connection.{ConnId, Conn}
use go_clarinet.World.{World, Env}
use go_clarinet.Inmem.Connections.Effect.{Follows, Follows-same, Touches-Follows}
use go_clarinet.Node.Peers.Effect.{
  connections-KeepsConns, update_peer-KeepsConns, request_peers-KeepsConns,
}
use go_clarinet.Node.Witness.Selection.{SelectsFrom}
use go_clarinet.Node.Connect.Effect.{Connects, connect-Follows}
use go_clarinet.Node.Close.Effect.{Closes, close_connection-Touches}
use go_clarinet.Handlers.Connect.Effect as ConnectEffect
use go_clarinet.Handlers.Connect.Effect.{Awaits}
use go_clarinet.Handlers.Witness.Effect as WitnessEffect
use go_clarinet.Handlers.Witness.Effect.{Witnesses}
use go_clarinet.Handlers.Notification.Effect as NotificationEffect
use go_clarinet.Handlers.Notification.Effect.{Opens}
use go_clarinet.Handlers.Close.Effect as CloseEffect
use go_clarinet.Handlers.Peers.Effect as PeersEffect
use go_clarinet.Process.{
  Action, list_connections, update_peer, request_peers, connect, close_connection, on_connect,
  on_witness, on_notification, on_close, on_peers, run_task, perform,
}

module _ {S : Type 0} (env : Env S) where
  -- How an action may change the connection under an id.
  abbrev pub Moved : Action → ConnId → Conn → Conn → Type 0
  Moved (close_connection id t) j c c' = (j ≡ id) × Closes c c'
  Moved (on_notification peer note) j c c' = (j ≡ note.connection_id) × Opens env peer note c c'
  Moved (on_close peer request) j c c' = (j ≡ request.connection_id) × Closes c c'
  Moved (run_task task) j c c' = (j ≡ task.connection_id) × SelectsFrom env task.options c c'
  Moved _ j c c' = ⊥

  -- Which connection an action may make under an id.
  abbrev pub Made : Action → ConnId → Conn → Type 0
  Made (connect receiver o t) j c = Connects env o receiver j c
  Made (on_connect peer request) j c = (j ≡ request.connection_id) × Awaits env peer request c
  Made (on_witness peer request) j c = (j ≡ request.connection_id) × Witnesses env peer request c
  Made _ j c = ⊥

  -- Every action, on every branch, leaves each connection as it is or changes it as `Moved` says, makes
  -- connections only as `Made` says, and drops none.
  pub perform-Follows :
      (a : Action) (w : World S) → Follows (Moved a) (Made a) w.conns (perform env a w).conns
  unfolding perform
  perform-Follows list_connections w =
      Follows-same _ _ w.conns _ ((connections-KeepsConns env).at w)
  perform-Follows (update_peer p) w =
      Follows-same _ _ w.conns _ ((update_peer-KeepsConns env p).at w)
  perform-Follows (request_peers p num t) w =
      Follows-same _ _ w.conns _ ((request_peers-KeepsConns env p num t).at w)
  perform-Follows (connect receiver o t) w = connect-Follows env receiver o t w
  perform-Follows (close_connection id t) w =
      Touches-Follows (Moved (close_connection id t)) (Made (close_connection id t)) id
        (λ c c' h. (refl, h)) (λ c h. h) (close_connection-Touches env id t w)
  perform-Follows (on_connect peer request) w =
      Touches-Follows (Moved (on_connect peer request)) (Made (on_connect peer request))
        request.connection_id (λ c c' h. h) (λ c h. (refl, h))
        (ConnectEffect.handle-Awaits env peer request w)
  perform-Follows (on_witness peer request) w =
      Touches-Follows (Moved (on_witness peer request)) (Made (on_witness peer request))
        request.connection_id (λ c c' h. h) (λ c h. (refl, h))
        (WitnessEffect.handle-Witnesses env peer request w)
  perform-Follows (on_notification peer note) w =
      Touches-Follows (Moved (on_notification peer note)) (Made (on_notification peer note))
        note.connection_id (λ c c' h. (refl, h)) (λ c h. h)
        (NotificationEffect.handle-Opens env peer note w)
  perform-Follows (on_close peer request) w =
      Touches-Follows (Moved (on_close peer request)) (Made (on_close peer request))
        request.connection_id (λ c c' h. (refl, h)) (λ c h. h)
        (CloseEffect.handle-Closes env peer request w)
  perform-Follows (on_peers peer num) w =
      Follows-same _ _ w.conns _ ((PeersEffect.handle-KeepsConns env peer num).at w)
  perform-Follows (run_task task) w =
      Touches-Follows (Moved (run_task task)) (Made (run_task task)) task.connection_id
        (λ c c' h. (refl, h)) (λ c h. h) (ConnectEffect.run_task-Touches env task w)
