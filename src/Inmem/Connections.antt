-- ===== src/Inmem/Connections.antt =====
-- `inMemoryConnectionStore`. An entry stays in the map once it is there, so that an entry's pointer,
-- which `Update` holds across its callback, is the entry of that id when the callback is done.
pub mod Effect
use go_clarinet.Base.{Option, none, some, List, [], map}
use go_clarinet.Base.Assoc.{Assoc, lookup, put}
use go_clarinet.Base.Eq.{nat_eq}
use go_clarinet.Peer.{Peer, nil_id}
use go_clarinet.Connection.{ConnId, Conn, Status}
use go_clarinet.Connection.Error.{Err, no_connection, connection_exists}
use go_clarinet.World.{World, Result, ok, err, panicked, Env, M, external, ◌>>=◌, ◌>>◌, pure}

-- What a `writeFunc` returns: the connection to keep, if it is not nil, and an error, if it is not nil.
abbrev pub Written : Type 0
Written = Option Conn × Option Err

-- `NewConnectionStore`
unfoldable pub new_connection_store : Assoc ConnId Conn
new_connection_store = []

module _ {S : Type 0} where
  -- `if existing, ok := cs.conns[id]; ok`
  insert : ConnId → Conn → Option Conn → M S (Unit {0})
  insert id conn (some existing) w = (err (connection_exists id), w)
  insert id conn none w = (ok tt, record w { conns = put id conn w.conns })

  unfoldable pub accept : ConnId → Peer → Peer → Status → M S (Unit {0})
  unfolding insert
  accept id sender receiver status w =
      let conn : Conn = record {
        id = id;
        sender = sender.id;
        witness = nil_id;
        receiver = receiver.id;
        status = status;
      } in
      insert id conn (lookup id w.conns) w

  unfoldable pub create : Env S → Peer → Peer → Status → M S ConnId
  unfolding accept
  create env sender receiver status = do
    id ← external env.random_id
    accept id sender receiver status
    pure id

  unfoldable pub all : Env S → M S (List ConnId)
  all env w = (ok (env.range_order (map (λ entry. entry.0) w.conns)), w)

  found : ConnId → Option Conn → M S Conn
  found id none w = (err (no_connection id), w)
  found id (some conn) w = (ok conn, w)

  unfoldable pub get_conn_entry : ConnId → M S Conn
  unfolding found
  get_conn_entry id w = found id (lookup id w.conns) w

  -- `ce.conn = updated`, unless `updated` is nil
  persist : ConnId → Option Conn → World S → World S
  persist id none w = w
  persist id (some updated) w = record w { conns = put id updated w.conns }

  pub finish_update : ConnId → Result Written → World S → Result (Unit {0}) × World S
  unfolding persist
  finish_update id (ok (updated, none)) w = (ok tt, persist id updated w)
  finish_update id (ok (updated, some e)) w = (err e, persist id updated w)
  finish_update id (err e) w = (err e, w)
  finish_update id panicked w = (panicked, w)

  -- A `writeFunc` that raises an error returns a nil connection with it.
  unfoldable pub update : ConnId → (Conn → M S Written) → M S (Unit {0})
  unfolding get_conn_entry finish_update
  update id write_func = do
    conn ← get_conn_entry id
    λ w. let (r, w') = write_func conn w in finish_update id r w'

module _ {S A : Type 0} where
  unfoldable pub read : ConnId → (Conn → M S A) → M S A
  unfolding get_conn_entry
  read id read_func = get_conn_entry id >>= read_func
