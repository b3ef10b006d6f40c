-- ===== src/Tests/Handling.antt =====
-- The handlers at concrete requests.
use go_clarinet.Base.{ℕ, ◌≡◌, refl, [], ◌∷◌, true, none}
use go_clarinet.Base.Int.{pos}
use go_clarinet.Peer.{nil_id, some_id, Peer}
use go_clarinet.Connection.{
  ConnectRequest, WitnessRequest, WitnessNotification, awaiting_witness, opened, closed,
  ConnectResponse, WitnessResponse, set_witness,
}
use go_clarinet.World.{Env, Task, ok, panicked}
use go_clarinet.Inmem.Connections.Effect.{Touches, Still, Never, accepted}
use go_clarinet.Node.Close.Effect.{Closes}
use go_clarinet.Handlers.Connect as ConnectHandler
use go_clarinet.Handlers.Connect.Effect.{Awaits, handle-Awaits}
use go_clarinet.Handlers.Witness as WitnessHandler
use go_clarinet.Handlers.Witness.Effect.{Witnesses, handle-Witnesses}
use go_clarinet.Handlers.Notification as NotificationHandler
use go_clarinet.Handlers.Notification.Effect.{Opens, handle-Opens}
use go_clarinet.Handlers.Notification.Decision.{Decided, handle_decides}
use go_clarinet.Handlers.Close as CloseHandler
use go_clarinet.Handlers.Close.Effect.{handle-Closes}
use go_clarinet.Handlers.Peers as PeersHandler
use go_clarinet.Handlers.Peers.Bounds.{handle_panics}
use go_clarinet.Handlers.Agreed.{witness_accepts}
use go_clarinet.Base.Assoc.{put, lookup}
use go_clarinet.Base.Eq.{nat_eq}
use go_clarinet.Tests.Sample.{peer, by_sender, agreeable, fresh, conn_in, holding, node}

-- A request of the peer 2 to be connected to this node.
abbrev connect_request : ConnectRequest
connect_request = record {
  connection_id = 8;
  sender = some_id 2;
  receiver = some_id 1;
  options = by_sender;
}

-- A request of the peer 2 to witness its connection to the peer 3.
abbrev witness_request : WitnessRequest
witness_request = record {
  connection_id = 9;
  sender = some_id 2;
  receiver = some_id 3;
  options = by_sender;
}

abbrev note : WitnessNotification
note = record { connection_id = 7; witness = some_id 5 }

abbrev task : Task
task = record { connection_id = 7; options = by_sender }

-- A node that knows no peer but itself.
abbrev alone : Env ℕ
alone = record agreeable { all_peers = λ s. (ok (peer 1 ∷ []), s) }

handle-Awaits_example :
    Touches 8 Still
      (Awaits agreeable (some_id 2) connect_request)
      fresh.conns
      (ConnectHandler.handle agreeable (some_id 2) connect_request fresh).1.conns
handle-Awaits_example = handle-Awaits agreeable (some_id 2) connect_request fresh

handle-Witnesses_example :
    Touches 9 Still
      (Witnesses agreeable (some_id 2) witness_request)
      fresh.conns
      (WitnessHandler.handle agreeable (some_id 2) witness_request fresh).1.conns
handle-Witnesses_example = handle-Witnesses agreeable (some_id 2) witness_request fresh

handle-Opens_example :
    Touches 7
      (Opens agreeable (some_id 2) note)
      Never
      (holding (conn_in awaiting_witness)).conns
      (NotificationHandler.handle agreeable
        (some_id 2)
        note
        (holding (conn_in awaiting_witness))).1.conns
handle-Opens_example = handle-Opens agreeable (some_id 2) note (holding (conn_in awaiting_witness))

handle-Closes_example :
    Touches 7 Closes Never
      (holding (conn_in opened)).conns
      (CloseHandler.handle agreeable
        (some_id 2)
        (record { connection_id = 7 })
        (holding (conn_in opened))).1.conns
handle-Closes_example =
    handle-Closes agreeable (some_id 2) (record { connection_id = 7 }) (holding (conn_in opened))

handle_panics_example : (PeersHandler.handle alone (some_id 2) (pos 1) fresh).0 ≡ panicked
handle_panics_example =
    handle_panics alone (some_id 2) 0 (peer 1) (peer 1) 0 0 0 0 fresh refl refl refl refl refl

connect_request_waits :
    (ConnectHandler.handle agreeable (some_id 2) connect_request fresh).1.conns
    ≡ (
      8,
      record {
        id = 8;
        sender = some_id 2;
        witness = nil_id;
        receiver = some_id 1;
        status = awaiting_witness;
      },
    )
      ∷ []
unfolding node
connect_request_waits = refl

witness_request_opens :
    (WitnessHandler.handle agreeable (some_id 2) witness_request fresh).1.conns
    ≡ (
      9,
      record {
        id = 9;
        sender = some_id 2;
        witness = some_id 1;
        receiver = some_id 3;
        status = opened;
      },
    )
      ∷ []
unfolding node
witness_request_opens = refl

-- A selection that runs after a close opens the connection again.
run_task_reopens :
    (ConnectHandler.run_task agreeable task (holding (conn_in closed))).1.conns
    ≡ (7, conn_in opened) ∷ []
unfolding node
run_task_reopens = refl

handle_decides_example :
    Decided agreeable
      (some_id 2)
      note
      (conn_in awaiting_witness)
      (peer 1)
      0
      (NotificationHandler.handle agreeable (some_id 2) note (holding (conn_in awaiting_witness)))
unfolding lookup
handle_decides_example =
    handle_decides agreeable (some_id 2) note (conn_in awaiting_witness) (peer 1) 0
      (holding (conn_in awaiting_witness)) refl refl

-- What the sample application answers to the sample requests.
abbrev connect_agreed : ConnectResponse
connect_agreed = record { connection_id = 8; errors = []; accepted = true; reject_reasons = [] }

abbrev witness_agreed : WitnessResponse
witness_agreed = record { connection_id = 9; errors = []; accepted = true; reject_reasons = [] }

abbrev found : ℕ → Peer
found n = record { id = some_id n; addresses = [] }

witness_accepts_example : WitnessHandler.handle agreeable (some_id 2) witness_request fresh ≡ (
  ok (witness_agreed, none),
  record fresh {
    outside = 0;
    conns =
        put 9
          (set_witness (some_id 1) (accepted 9 (found 2) (found 3) opened))
          (put 9 (accepted 9 (found 2) (found 3) opened) []);
  },
)
unfolding lookup
witness_accepts_example =
    witness_accepts agreeable (some_id 2) (found 2) (found 3) (peer 1) 0 0 0 0 fresh 0
      witness_request witness_agreed refl refl refl refl refl refl refl refl refl refl
