-- ===== src/Handlers/Connect/Reopen.antt =====
-- The selection that a connect request has started, when it runs where a peer agrees.
use go_clarinet.Base.{ℕ, ◌≡◌, refl, some}
use go_clarinet.Base.Assoc.{lookup, lookup-put_self}
use go_clarinet.Base.Eq.{nat_eq}
use go_clarinet.Peer.{some_id, Peer}
use go_clarinet.Connection.{Conn, set_status, set_witness, requesting_witness, opened}
use go_clarinet.World.{World, Env, Task, ok, catch}
use go_clarinet.Inmem.Connections
use go_clarinet.Node.Close.Agreed.{Reachable}
use go_clarinet.Node.Witness.{handle_witness_selection}
use go_clarinet.Node.Witness.Selection.{selecting_end}
use go_clarinet.Node.Witness.Candidates.{filter, may_witness}
use go_clarinet.Node.Witness.First.{Steady, first, agrees}
use go_clarinet.Node.Witness.Opens.{opened_with, selection_opens}
use go_clarinet.Handlers.Connect.{run_task}

module _ {S : Type 0} (env : Env S) (reach : Reachable env) (steady : Steady env) where
  -- A started selection opens the connection that it finds under its id, whatever the status of it is, a
  -- closed one too: if this node is the end that selects, and some peer of the store may be the
  -- witness and agrees, the connection is then open with the first such peer as its witness. This
  -- node and each peer are found, messages go out, and the outside answers as functions do.
  pub run_task_opens :
      (task : Task) (c : Conn) (p : Peer) (n : ℕ) (w : World S)
      → lookup task.connection_id w.conns ≡ some c
      → selecting_end task.options.witness_selector c ≡ some reach.me.id
      → first (agrees env steady (set_status requesting_witness c) task.options) (
          filter (may_witness steady.trusted w.reps (set_status requesting_witness c)) steady.peers)
        ≡ some p
      → p.id ≡ some_id n
      → ((run_task env task w).0 ≡ ok tt)
        × (lookup task.connection_id (run_task env task w).1.conns
            ≡ some (record c { witness = p.id; status = opened }))
  unfolding run_task Connections.update catch opened_with set_status set_witness
  run_task_opens task c p n w known named agreed is =
      let opens =
        selection_opens env reach steady c p n task.options env.connect_options w agreed is named in
      let conns = (handle_witness_selection env c task.options env.connect_options w).1.conns in
      rw (known, opens) (refl, lookup-put_self task.connection_id (opened_with p c) conns)
