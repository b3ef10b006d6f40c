-- ===== src/Handlers/Connect/Course.antt =====
-- A connect request to this node whose options let the receiver select, up to the end of the selection
-- that it starts.
use go_clarinet.Base.{
  ℕ, ◌≡◌, ◌∙◌, ◌⊎◌, refl, ap, true, false, not, ◌&&◌, none, some, [], ◌∷◌, ◌++◌, arith,
}
use go_clarinet.Base.Assoc.{lookup, put, lookup-put_self}
use go_clarinet.Base.Eq.{◌==◌, nat_eq}
use go_clarinet.Peer.{PeerId, some_id, Peer, peer_id_eq, id_beq_iff}
use go_clarinet.Connection.{
  Conn, ConnectRequest, ConnectResponse, receiver_selects, set_status, awaiting_witness,
  requesting_witness, opened,
}
use go_clarinet.World.{World, Env, Task, ok}
use go_clarinet.Inmem.Connections.Effect.{accepted}
use go_clarinet.Node.Close.Agreed.{Reachable}
use go_clarinet.Node.Witness.Candidates.{filter, may_witness}
use go_clarinet.Node.Witness.First.{Steady, first, agrees}
use go_clarinet.Handlers.Agreed.{connect_accepts}
use go_clarinet.Handlers.Connect.{selects, handle, run_task}
use go_clarinet.Handlers.Connect.Reopen.{run_task_opens}

module _ {S : Type 0} (env : Env S) (reach : Reachable env) (steady : Steady env) (peer : PeerId)
    (request : ConnectRequest) (w : World S) where
  -- The connection that the request makes.
  abbrev pub waiting : Conn
  waiting =
      accepted request.connection_id (reach.peer_of request.sender) (reach.peer_of request.receiver)
        awaiting_witness

  -- The selection that the request starts.
  abbrev pub started : Task
  started = record { connection_id = request.connection_id; options = request.options }

  module _ (selector : request.options.witness_selector ≡ receiver_selects)
      (here : request.receiver ≡ reach.me.id)
      (named : (reach.peer_of request.receiver).id ≡ request.receiver) where
    selects_here : selects request.options.witness_selector request reach.me.id ≡ true
    unfolding selects
    selects_here = rw (selector, here) ((id_beq_iff reach.me.id reach.me.id).1 refl)

    to_self : (not (request.sender == reach.me.id) && not (request.receiver == reach.me.id)) ≡ false
    to_self = ground (arith, (id_beq_iff request.receiver reach.me.id).1 here)

    one_of_ends :
        ((reach.peer_of request.sender).id ≡ peer) ⊎ ((reach.peer_of request.receiver).id ≡ peer)
        → (not ((reach.peer_of request.sender).id == peer)
            && not ((reach.peer_of request.receiver).id == peer))
          ≡ false
    one_of_ends end = ground (
      arith,
      id_beq_iff (reach.peer_of request.sender).id peer,
      id_beq_iff (reach.peer_of request.receiver).id peer,
    )

    -- If a connect request comes from one of its ends, names this node as the receiver and lets the
    -- receiver select, the application agrees, the id is free, and some peer of the store may be the
    -- witness and agrees, a selection is started, and once it has run the connection is open with the
    -- first such peer as its witness. This node and each peer are found, messages go out, and the
    -- outside answers as functions do.
    pub handle-run_task :
        (resp : ConnectResponse) (p : Peer) (n : ℕ)
        → ((reach.peer_of request.sender).id ≡ peer) ⊎ ((reach.peer_of request.receiver).id ≡ peer)
        → env.on_connect peer request w.outside ≡ (ok (resp, none), w.outside)
        → resp.errors ≡ []
        → resp.accepted ≡ true
        → lookup request.connection_id w.conns ≡ none
        → first (agrees env steady (set_status requesting_witness waiting) request.options) (
            filter
              (may_witness steady.trusted w.reps (set_status requesting_witness waiting))
              steady.peers)
          ≡ some p
        → p.id ≡ some_id n
        → ((handle env peer request w).1.tasks ≡ w.tasks ++ started ∷ [])
          × (lookup request.connection_id
                (run_task env started (handle env peer request w).1).1.conns
              ≡ some (record waiting { witness = p.id; status = opened }))
    handle-run_task resp p n from_end approved no_errors agreed free found is =
        let accepts =
          connect_accepts env peer (reach.peer_of request.sender) (reach.peer_of request.receiver)
            reach.me w.outside w.outside w.outside w.outside w request resp
            (reach.find request.sender w.outside) (reach.find request.receiver w.outside)
            (one_of_ends from_end) (reach.self w.outside) to_self approved no_errors agreed free in
        let w₁ : World S = record w {
          conns = put request.connection_id waiting w.conns;
          tasks = w.tasks ++ started ∷ [];
        } in
        rw (accepts, selects_here)
          (
            refl,
            (run_task_opens env reach steady started waiting p n w₁
                (lookup-put_self request.connection_id waiting w.conns)
                (rw selector (ap some (named ∙ here))) found is).1,
          )
