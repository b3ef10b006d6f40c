-- ===== src/Tests/Processes.antt =====
-- Runs of a whole node.
use go_clarinet.Base.{◌≡◌, refl, some, List, [], ◌∷◌}
use go_clarinet.Base.Assoc.{lookup}
use go_clarinet.Base.Eq.{nat_eq}
use go_clarinet.Peer.{some_id}
use go_clarinet.Connection.{Conn, opened, closed}
use go_clarinet.Process.{Action, connect, close_connection, on_close, on_notification, run}
use go_clarinet.Process.Invariants.{SameEnds, run-SameEnds, run-closed, run-IsKeyed, IsKeyed}
use go_clarinet.Tests.Sample.{
  peer, no_timeouts, agreeable, fresh, by_sender, conn_in, holding, node,
}

abbrev closing_run : List Action
closing_run = close_connection 7 no_timeouts ∷ []

-- A close request, a notification and a selection for another connection come after the close.
abbrev late_run : List Action
late_run =
    on_close (some_id 2) (record { connection_id = 7 })
    ∷ on_notification (some_id 2) (record { connection_id = 7; witness = some_id 5 })
    ∷ close_connection 7 no_timeouts
    ∷ []

connects_and_opens :
    (run agreeable (connect (peer 2) by_sender no_timeouts ∷ []) fresh).conns
    ≡ (
      100,
      record {
        id = 100;
        sender = some_id 1;
        witness = some_id 3;
        receiver = some_id 2;
        status = opened;
      },
    )
      ∷ []
unfolding node
connects_and_opens = refl

run-SameEnds_example :
    (c' : Conn) × (lookup 7 (run agreeable closing_run (holding (conn_in opened))).conns ≡ some c')
    × SameEnds (conn_in opened) c'
unfolding lookup
run-SameEnds_example =
    run-SameEnds agreeable closing_run (holding (conn_in opened)) 7 (conn_in opened) refl

run-closed_example :
    lookup 7 (run agreeable late_run (holding (conn_in closed))).conns ≡ some (conn_in closed)
unfolding lookup
run-closed_example =
    run-closed agreeable late_run (holding (conn_in closed)) 7 (conn_in closed) refl refl
      (tt, (tt, (tt, tt)))

run-IsKeyed_example :
    IsKeyed (run agreeable (connect (peer 2) by_sender no_timeouts ∷ []) fresh).conns
unfolding lookup
run-IsKeyed_example =
    run-IsKeyed agreeable (connect (peer 2) by_sender no_timeouts ∷ []) fresh (λ j c e. cc)
