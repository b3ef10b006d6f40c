-- ===== src/Tests/Agreed.antt =====
-- Runs of whole operations where everybody agrees, in the sample environment.
use go_clarinet.Base.{ℕ, ◌≡◌, refl, true, false, some, inl, inr, [], ◌∷◌, arith}
use go_clarinet.Base.Assoc.{lookup, put}
use go_clarinet.Base.Eq.{◌==◌, nat_eq}
use go_clarinet.Base.Int.{pos}
use go_clarinet.Base.Lists.{length, All}
use go_clarinet.Peer.{some_id, peer_id_eq}
use go_clarinet.Connection.{
  Conn, ConnectRequest, receiver_selects, set_status, requesting_witness, requesting_receiver,
  opened, closed,
}
use go_clarinet.World.{Env, ok}
use go_clarinet.Inmem.Connections.Effect.{accepted}
use go_clarinet.Node.Close.{close_connection}
use go_clarinet.Node.Close.Agreed.{
  Reachable, others, participants, requests, close_connection_closes,
}
use go_clarinet.Node.Witness.{find_witness}
use go_clarinet.Node.Witness.Candidates.{filter, may_witness}
use go_clarinet.Node.Witness.First.{Steady, first, agrees, chosen, find_witness-first}
use go_clarinet.Handlers.Connect as ConnectHandler
use go_clarinet.Handlers.Connect.{run_task}
use go_clarinet.Handlers.Connect.Course.{waiting, started, handle-run_task}
use go_clarinet.Handlers.Connect.Reopen.{run_task_opens}
use go_clarinet.Handlers.Peers as PeersHandler
use go_clarinet.Handlers.Peers.Draws.{count, Draws, Returns}
use go_clarinet.Handlers.Peers.Choice.{handle_chooses, handle_offers_asker}
use go_clarinet.Tests.Sample.{peer, no_timeouts, agreeable, fresh, by_sender, conn_in, holding}

abbrev reach : Reachable agreeable
reach = record {
  me = peer 1;
  peer_of = λ id. record { id = id; addresses = [] };
  self = λ s. refl;
  find = λ id s. refl;
  send = λ p o m s. refl;
}

close_connection_closes_example :
    close_connection agreeable 7 no_timeouts (holding (conn_in opened)) ≡ (
      ok tt,
      record (holding (conn_in opened)) {
        conns = put 7 (set_status closed (conn_in opened)) (holding (conn_in opened)).conns;
        sent = requests agreeable reach 7 (others (some_id 1) (participants (conn_in opened)));
      },
    )
unfolding lookup
close_connection_closes_example =
    close_connection_closes agreeable reach 7 (conn_in opened) no_timeouts
      (holding (conn_in opened)) refl refl

abbrev steady : Steady agreeable
steady = record {
  peers = peer 1 ∷ peer 2 ∷ peer 3 ∷ [];
  trusted = λ rep. true;
  answer = λ p r. record {
    connection_id = r.connection_id;
    errors = [];
    accepted = true;
    reject_reasons = [];
  };
  lists = λ s. refl;
  judges = λ rep s. refl;
  answers = λ p o r s. refl;
}

-- A connection from this node to the peer 2.
abbrev new_conn : Conn
new_conn = accepted 100 (peer 1) (peer 2) requesting_receiver

abbrev asking : Conn
asking = set_status requesting_witness new_conn

find_witness-first_example :
    (find_witness agreeable new_conn by_sender no_timeouts fresh).0
    ≡ ok (
        chosen asking (
          first
            (agrees agreeable steady asking by_sender)
            (filter (may_witness steady.trusted [] asking) steady.peers)))
find_witness-first_example =
    find_witness-first agreeable steady new_conn by_sender no_timeouts fresh

-- A selection for a connection that was closed in the meantime.
run_task_opens_example :
    ((run_task agreeable
        (record { connection_id = 7; options = by_sender })
        (holding (conn_in closed))).0
      ≡ ok tt)
    × (lookup 7
          (run_task agreeable
            (record { connection_id = 7; options = by_sender })
            (holding (conn_in closed))).1.conns
        ≡ some (record (conn_in closed) { witness = some_id 3; status = opened }))
unfolding lookup first filter may_witness agrees set_status
run_task_opens_example =
    run_task_opens agreeable reach steady (record { connection_id = 7; options = by_sender })
      (conn_in closed) (peer 3) 3 (holding (conn_in closed)) refl refl refl refl

-- A request of the peer 2 to be connected to this node, which is to select the witness.
abbrev to_here : ConnectRequest
to_here = record {
  connection_id = 8;
  sender = some_id 2;
  receiver = some_id 1;
  options = record { witness_selector = receiver_selects };
}

handle-run_task_example :
    ((ConnectHandler.handle agreeable (some_id 2) to_here fresh).1.tasks
      ≡ started agreeable reach steady (some_id 2) to_here fresh ∷ [])
    × (lookup 8
          (run_task agreeable
            (started agreeable reach steady (some_id 2) to_here fresh)
            (ConnectHandler.handle agreeable (some_id 2) to_here fresh).1).1.conns
        ≡ some (record (waiting agreeable reach steady (some_id 2) to_here fresh) {
          witness = some_id 3;
          status = opened;
        }))
unfolding lookup first filter may_witness agrees set_status
handle-run_task_example =
    handle-run_task agreeable reach steady (some_id 2) to_here fresh refl refl refl
      (record { connection_id = 8; errors = []; accepted = true; reject_reasons = [] }) (peer 3) 3
      (inl refl) refl refl refl refl refl refl

draws : Draws agreeable
draws = record {
  index = λ n s. 0;
  next = λ n s. s;
  returns = λ n s. refl;
  below = λ n s. omega arith;
}

handle_chooses_example :
    Returns
      (λ out. (length out ≡ 2) × All (λ p. ((p.id == some_id 1) ≡ false) × Unit) out)
      (PeersHandler.handle agreeable (some_id 2) (pos 2))
      fresh
handle_chooses_example =
    handle_chooses agreeable draws (some_id 2) 2 (peer 1 ∷ peer 2 ∷ peer 3 ∷ []) (peer 1) 0 0 0
      fresh (λ p. Unit) refl refl refl (unfold count in omega arith) (unfold count in omega arith)
      (tt, (tt, (tt, tt)))

-- A store that lists this node and the peer 2.
abbrev two_nodes : Env ℕ
two_nodes = record agreeable { all_peers = λ s. (ok (peer 1 ∷ peer 2 ∷ []), s) }

first_of_two : Draws two_nodes
first_of_two = record {
  index = λ n s. 0;
  next = λ n s. s;
  returns = λ n s. refl;
  below = λ n s. omega arith;
}

handle_offers_asker_example :
    Returns
      (λ out. (length out ≡ 1) × All (λ p. p.id ≡ some_id 2) out)
      (PeersHandler.handle two_nodes (some_id 2) (pos 1))
      fresh
handle_offers_asker_example =
    handle_offers_asker two_nodes first_of_two (some_id 2) (peer 1 ∷ peer 2 ∷ []) (peer 1) 0 0 0
      fresh refl refl refl (unfold count in omega arith) (unfold count in omega arith)
      (inl refl, (inr refl, tt))
