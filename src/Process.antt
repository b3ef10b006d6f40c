-- ===== src/Process.antt =====
-- A node as a process: whatever comes in, from the application or from the network, is one action,
-- and a run is a sequence of actions. `Update` holds an entry's lock while its callback runs, so an
-- operation on one connection is not interleaved with another on the same connection.
pub mod Steps
pub mod Invariants
use go_clarinet.Base.{List, [], ◌∷◌}
use go_clarinet.Base.Int.{ℤ}
use go_clarinet.Peer.{PeerId, Peer}
use go_clarinet.Connection.{
  ConnId, Options, ConnectRequest, WitnessRequest, WitnessNotification, CloseRequest,
}
use go_clarinet.World.{World, Env, Task, TransportOptions}
use go_clarinet.Node.Peers
use go_clarinet.Node.Connect
use go_clarinet.Node.Close
use go_clarinet.Handlers.Connect as ConnectHandler
use go_clarinet.Handlers.Witness as WitnessHandler
use go_clarinet.Handlers.Notification as NotificationHandler
use go_clarinet.Handlers.Close as CloseHandler
use go_clarinet.Handlers.Peers as PeersHandler

-- The exported operations of `Node`, the requests that its handlers take, and the selections that
-- a handler has started.
pub data Action : Type 0 where
  list_connections : Action
  update_peer : Peer → Action
  request_peers : Peer → ℤ → TransportOptions → Action
  connect : Peer → Options → TransportOptions → Action
  close_connection : ConnId → TransportOptions → Action
  on_connect : PeerId → ConnectRequest → Action
  on_witness : PeerId → WitnessRequest → Action
  on_notification : PeerId → WitnessNotification → Action
  on_close : PeerId → CloseRequest → Action
  on_peers : PeerId → ℤ → Action
  run_task : Task → Action

module _ {S : Type 0} (env : Env S) where
  -- The state that an action leaves; its answer goes to the caller or to the peer.
  unfoldable pub perform : Action → World S → World S
  perform list_connections w = (Peers.connections env w).1
  perform (update_peer p) w = (Peers.update_peer env p w).1
  perform (request_peers p num t) w = (Peers.request_peers env p num t w).1
  perform (connect receiver o t) w = (Connect.connect env receiver o t w).1
  perform (close_connection id t) w = (Close.close_connection env id t w).1
  perform (on_connect peer request) w = (ConnectHandler.handle env peer request w).1
  perform (on_witness peer request) w = (WitnessHandler.handle env peer request w).1
  perform (on_notification peer note) w = (NotificationHandler.handle env peer note w).1
  perform (on_close peer request) w = (CloseHandler.handle env peer request w).1
  perform (on_peers peer num) w = (PeersHandler.handle env peer num w).1
  perform (run_task task) w = (ConnectHandler.run_task env task w).1

  unfoldable pub run : List Action → World S → World S
  unfolding perform
  run [] w = w
  run (a ∷ actions) w = run actions (perform a w)
