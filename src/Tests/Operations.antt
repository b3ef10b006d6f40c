-- ===== src/Tests/Operations.antt =====
-- The node's operations and the connection store at concrete inputs.
use go_clarinet.Reputation.Value.{
  rewarded, strongly_penalized, weakly_penalized, marked, history, IsFair, history-IsFair,
}
use go_clarinet.Base.{◌≡◌, ◌≤◌, refl, [], ◌∷◌}
use go_clarinet.Base.Int.{pos}
use go_clarinet.Base.Lists.{length}
use go_clarinet.Peer.{some_id}
use go_clarinet.Connection.{opened}
use go_clarinet.World.Rules.{Ensures}
use go_clarinet.Inmem.Connections.Effect.{Touches, Still, Never, Follows}
use go_clarinet.Node.Close.{close_connection}
use go_clarinet.Node.Close.Effect.{Closes, close_connection-Touches}
use go_clarinet.Node.Connect.{connect}
use go_clarinet.Node.Connect.Effect.{Connects, connect-Follows}
use go_clarinet.Node.Witness.Selection.{Selection}
use go_clarinet.Node.Peers.{request_peers}
use go_clarinet.Node.Peers.Bounds.{request_peers_bounds}
use go_clarinet.Tests.Sample.{peer, no_timeouts, by_sender, agreeable, fresh, conn_in, holding}

close_connection-Touches_example :
    Touches 7 Closes Never
      (holding (conn_in opened)).conns
      (close_connection agreeable 7 no_timeouts (holding (conn_in opened))).1.conns
close_connection-Touches_example =
    close_connection-Touches agreeable 7 no_timeouts (holding (conn_in opened))

connect-Follows_example :
    Follows
      (λ j. Still)
      (Connects agreeable by_sender (peer 2))
      fresh.conns
      (connect agreeable (peer 2) by_sender no_timeouts fresh).1.conns
connect-Follows_example = connect-Follows agreeable (peer 2) by_sender no_timeouts fresh

request_peers_bounds_example :
    Ensures (λ out. length out.0 ≤ 1) (request_peers agreeable (peer 2) (pos 1) no_timeouts)
request_peers_bounds_example = request_peers_bounds agreeable (peer 2) (pos 1) no_timeouts

-- A reward and two penalties leave one point of five.
one_of_five :
    history (some_id 2) (strongly_penalized ∷ weakly_penalized ∷ rewarded ∷ [])
    ≡ record { peer_id = some_id 2; good = 1; total = 5 }
unfolding history marked
one_of_five = refl

history-IsFair_example :
    IsFair (history (some_id 2) (strongly_penalized ∷ weakly_penalized ∷ rewarded ∷ []))
history-IsFair_example =
    history-IsFair (some_id 2) (strongly_penalized ∷ weakly_penalized ∷ rewarded ∷ [])
