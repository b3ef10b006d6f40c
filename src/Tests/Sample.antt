-- ===== src/Tests/Sample.antt =====
-- An environment in which every call succeeds: this node has the id 1, and knows the peers 1, 2 and
-- 3, which agree to every request. The outside state counts the calls that use a number.
use go_clarinet.Base.{ℕ, ◌+◌, true, false, none, [], ◌∷◌, codes}
use go_clarinet.Peer.{some_id, Peer}
use go_clarinet.Base.Assoc.{lookup, put}
use go_clarinet.Connection.{set_status, set_witness, Conn, Status, Options, sender_selects}
use go_clarinet.World.{catch, World, Env, ok, TransportOptions}
use go_clarinet.Inmem.Connections
use go_clarinet.Inmem.Reputations
use go_clarinet.Node.Peers
use go_clarinet.Node.Witness
use go_clarinet.Node.Connect
use go_clarinet.Node.Close
use go_clarinet.Handlers.Connect as ConnectHandler
use go_clarinet.Handlers.Witness as WitnessHandler
use go_clarinet.Handlers.Notification as NotificationHandler
use go_clarinet.Handlers.Close as CloseHandler
use go_clarinet.Handlers.Peers as PeersHandler
use go_clarinet.Process.{run}

abbrev pub peer : ℕ → Peer
peer n = record { id = some_id n; addresses = codes "/ip4/10.0.0.1" ∷ [] }

abbrev pub no_timeouts : TransportOptions
no_timeouts = record { timeout = none; write_timeout = none; read_timeout = none }

abbrev pub agreeable : Env ℕ
agreeable = record {
  self = λ s. (ok (peer 1), s);
  find = λ id s. (ok (record { id = id; addresses = [] }), s);
  all_peers = λ s. (ok (peer 1 ∷ peer 2 ∷ peer 3 ∷ []), s);
  add_addr = λ id a s. (ok tt, s);
  send = λ p t m s. (ok tt, s);
  exchange_connect = λ p t r s. (
    ok (record {
      connection_id = r.connection_id;
      errors = [];
      accepted = true;
      reject_reasons = [];
    }),
    s,
  );
  exchange_witness = λ p t r s. (
    ok (record {
      connection_id = r.connection_id;
      errors = [];
      accepted = true;
      reject_reasons = [];
    }),
    s,
  );
  exchange_peers = λ p t n s. (ok (peer 4 ∷ peer 5 ∷ []), s);
  trusts = λ r s. (ok true, s);
  on_connect = λ p r s. (
    ok (
      record { connection_id = r.connection_id; errors = []; accepted = true; reject_reasons = [] },
      none,
    ),
    s,
  );
  connect_options = no_timeouts;
  on_witness = λ p r s. (
    ok (
      record { connection_id = r.connection_id; errors = []; accepted = true; reject_reasons = [] },
      none,
    ),
    s,
  );
  on_witness_notification = λ p n s. (ok tt, s);
  on_close = λ p r s. (ok tt, s);
  on_peers = λ p n s. (ok none, s);
  random_id = λ s. (ok (s + 100), s + 1);
  intn = λ n s. (ok 0, s);
  range_order = λ ids. ids;
  texts = record { uuid_text = λ n. n ∷ []; peer_text = λ n. n ∷ [] };
  at_trace = false;
}

abbrev pub fresh : World ℕ
fresh = record { outside = 0; conns = []; reps = []; sent = []; tasks = [] }

abbrev pub by_sender : Options
by_sender = record { witness_selector = sender_selects }

-- A connection from this node to the peer 2, with the witness 3.
abbrev pub conn_in : Status → Conn
conn_in status = record {
  id = 7;
  sender = some_id 1;
  witness = some_id 3;
  receiver = some_id 2;
  status = status;
}

abbrev pub holding : Conn → World ℕ
holding c = record { outside = 0; conns = (c.id, c) ∷ []; reps = []; sent = []; tasks = [] }

-- A test that unfolds this unfolds the whole node.
unfoldable pub node : Unit {0}
unfolding run catch lookup put set_status set_witness Connections.create Connections.update
    Connections.all Connections.read Reputations.read Peers.update_peer Peers.request_peers
    Peers.connections Peers.read_only Witness.handle_witness_selection Witness.find_witness
    Witness.witness_candidates Witness.request_witness Witness.send_witness_notification
    Connect.connect Connect.request_connection Close.close_connection Close.request_close
    ConnectHandler.handle ConnectHandler.run_task WitnessHandler.handle NotificationHandler.handle
    NotificationHandler.notified CloseHandler.handle CloseHandler.closed_by PeersHandler.handle
node = tt
