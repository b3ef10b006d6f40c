-- ===== src/Node/Close/Agreed.antt =====
-- `CloseConnection` where every call succeeds.
use go_clarinet.Base.{
  ◌≡◌, refl, true, false, Bool-cases, inl, inr, ◌||◌, some, List, [], ◌∷◌, ◌++◌, append_assoc,
  append-nil, map, if◌then◌else◌,
}
use go_clarinet.Base.Assoc.{lookup, put}
use go_clarinet.Base.Eq.{◌==◌, nat_eq}
use go_clarinet.Peer.{PeerId, nil_id, Peer, peer_id_eq}
use go_clarinet.Connection.{ConnId, Conn, is_closed, set_status, closed}
use go_clarinet.Connection.Error.{no_errs}
use go_clarinet.World.{World, Env, TransportOptions, Message, close_request, ok, pure, catch}
use go_clarinet.Inmem.Connections
use go_clarinet.Node.Close.{
  request_close, close_participant, close_participants, finish_close, close_write, close_connection,
}

-- This node is one peer, each id has its peer, and every message that is sent goes out.
pub record Reachable {S : Type 0} (env : Env S) : Type 0 where
  pub me : Peer
  pub peer_of : PeerId → Peer
  pub self : (s : S) → env.self s ≡ (ok me, s)
  pub find : (id : PeerId) (s : S) → env.find id s ≡ (ok (peer_of id), s)
  pub send : (p : Peer) (o : TransportOptions) (m : Message) (s : S) → env.send p o m s ≡ (ok tt, s)

-- The participants that are known and are not this node.
unfoldable pub others : PeerId → List PeerId → List PeerId
others self [] = []
others self (id ∷ ids) =
    if id == self || id == nil_id then others self ids else id ∷ others self ids

abbrev pub participants : Conn → List PeerId
participants c = c.sender ∷ c.witness ∷ c.receiver ∷ []

module _ {S : Type 0} (env : Env S) (reach : Reachable env) where
  -- The close request of a connection, to each of these peers.
  abbrev pub requests : ConnId → List PeerId → List (Peer × Message)
  requests c ids = map (λ id. (reach.peer_of id, close_request (record { connection_id = c }))) ids

  one_sent :
      (id : PeerId) (ids : List PeerId) (c : Conn) (t : TransportOptions) (w : World S)
      → (id == reach.me.id || id == nil_id) ≡ false
      → close_participants env reach.me.id (id ∷ ids) c t no_errs w
        ≡ close_participants env reach.me.id ids c t no_errs (record w {
          sent = w.sent ++ (reach.peer_of id, close_request (record { connection_id = c.id })) ∷ [];
        })
  unfolding close_participants close_participant request_close catch
  one_sent id ids c t w other =
      rw
        (
          other,
          reach.find id w.outside,
          reach.send (reach.peer_of id) t (close_request (record { connection_id = c.id }))
              w.outside,
        )
        refl

  one_skipped :
      (id : PeerId) (ids : List PeerId) (c : Conn) (t : TransportOptions) (w : World S)
      → (id == reach.me.id || id == nil_id) ≡ true
      → close_participants env reach.me.id (id ∷ ids) c t no_errs w
        ≡ close_participants env reach.me.id ids c t no_errs w
  unfolding close_participants close_participant pure catch
  one_skipped id ids c t w skipped = rw skipped refl

  all_sent :
      (ids : List PeerId) (c : Conn) (t : TransportOptions) (w : World S)
      → close_participants env reach.me.id ids c t no_errs w
        ≡ (ok no_errs, record w { sent = w.sent ++ requests c.id (others reach.me.id ids) })
  unfolding close_participants close_participant others pure
  all_sent [] c t w = rw append-nil refl
  all_sent (id ∷ ids) c t w = elim (Bool-cases (id == reach.me.id || id == nil_id)) [
    | inl skipped ↦ rw (one_skipped id ids c t w skipped, all_sent ids c t w, skipped) refl
    | inr other ↦
        rw
          (
            one_sent id ids c t w other,
            all_sent ids c t (record w {
              sent =
                  w.sent
                  ++ (reach.peer_of id, close_request (record { connection_id = c.id })) ∷ [];
            }),
            other,
            append_assoc,
          )
          refl
  ]

  -- If the store has a connection that is not closed, this node is found, and so is each peer, and
  -- every message goes out, `CloseConnection` returns no error, the connection is closed, and a close
  -- request of it goes to its known ends and witness that are not this node, in that order, and to no
  -- other peer. Nothing else is changed.
  pub close_connection_closes :
      (id : ConnId) (c : Conn) (t : TransportOptions) (w : World S)
      → lookup id w.conns ≡ some c
      → is_closed c.status ≡ false
      → close_connection env id t w ≡ (
        ok tt,
        record w {
          conns = put id (set_status closed c) w.conns;
          sent = w.sent ++ requests c.id (others reach.me.id (participants c));
        },
      )
  unfolding close_connection close_write Connections.update finish_close catch
  close_connection_closes id c t w known live =
      rw (known, live, reach.self w.outside, all_sent (participants c) c t w) refl
