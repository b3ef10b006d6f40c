-- ===== src/App/Cluster/Closing.antt =====
-- What a close request does to a node of main.go, whoever it comes from.
use go_clarinet.Base.{
  ◌≡◌, ◌∙◌, refl, sym, ap, true, false, Bool-cases, inl, inr, Option, none, some,
}
use go_clarinet.Base.Assoc.{lookup, put, lookup-put_self}
use go_clarinet.Base.Eq.{nat_eq}
use go_clarinet.Peer.{PeerId, peer_id_eq}
use go_clarinet.Connection.{
  ConnId, Conn, Status, CloseRequest, requesting_receiver, requesting_sender, awaiting_witness,
  requesting_witness, notifying_of_witness, opened, closing, closed, is_closed, set_status,
}
use go_clarinet.Connection.Error.{no_connection}
use go_clarinet.World.{World, Result, ok, err, panicked, Env, pure, catch}
use go_clarinet.Wire.Messages.{Texts}
use go_clarinet.Wire.Payload.{close_request}
use go_clarinet.Transport.Stream.{close}
use go_clarinet.Transport.Endpoints.{endpoint}
use go_clarinet.PeerStore.{Host, with_store}
use go_clarinet.Inmem.Connections
use go_clarinet.Handlers.Close as CloseHandler
use go_clarinet.App.{no_options, with_handlers}
use go_clarinet.App.Accepts.{app_node}

-- What is left of a connection, if there is one, once it is closed.
abbrev pub closed_of : Option Conn → Option Conn
closed_of none = none
closed_of (some c) = some (set_status closed c)

is_closed-closed : (s : Status) → is_closed s ≡ true → closed ≡ s
is_closed-closed requesting_receiver h = cc
is_closed-closed requesting_sender h = cc
is_closed-closed awaiting_witness h = cc
is_closed-closed requesting_witness h = cc
is_closed-closed notifying_of_witness h = cc
is_closed-closed opened h = cc
is_closed-closed closing h = cc
is_closed-closed closed h = refl

module _ (texts : Texts) {S : Type 0} (host : Host S) (env : Env S) (peer : PeerId) (id : ConnId)
    (w : World S) where
  -- The node once the close request came in.
  abbrev pub closed_world : World S
  closed_world =
      ((endpoint (app_node texts host env) (λ p. no_options) close).handle peer
        (close_request (record { connection_id = id })) w).1

  request : CloseRequest
  request = record { connection_id = id }

  leaves :
      (r : Result (Unit {0})) (w' : World S)
      → CloseHandler.handle (app_node texts host env) peer request w ≡ (r, w')
      → closed_world ≡ w'
  unfolding endpoint catch pure request
  leaves (ok x) w' h = rw (closed_world, h) refl
  leaves (err e) w' h = rw (closed_world, h) refl
  leaves panicked w' h = rw (closed_world, h) refl

  handled_missing :
      lookup id w.conns ≡ none
      → CloseHandler.handle (app_node texts host env) peer request w ≡ (err (no_connection id), w)
  unfolding CloseHandler.handle Connections.update catch request
  handled_missing q = rw q refl

  handled_closed :
      (c : Conn)
      → lookup id w.conns ≡ some c
      → is_closed c.status ≡ true
      → CloseHandler.handle (app_node texts host env) peer request w ≡ (ok tt, w)
  unfolding CloseHandler.handle CloseHandler.closed_by Connections.update catch request pure
  handled_closed c q was = rw (q, was) refl

  handled_live :
      (c : Conn)
      → lookup id w.conns ≡ some c
      → is_closed c.status ≡ false
      → CloseHandler.handle (app_node texts host env) peer request w
        ≡ (ok tt, record w { conns = put id (set_status closed c) w.conns })
  unfolding CloseHandler.handle CloseHandler.closed_by Connections.update catch request app_node
      with_handlers with_store pure
  handled_live c q live = rw (q, live) refl

  closes_found :
      (found : Option Conn)
      → lookup id w.conns ≡ found
      → lookup id closed_world.conns ≡ closed_of found
  unfolding set_status
  closes_found none q =
      ap (λ u. lookup id u.conns) (leaves (err (no_connection id)) w (handled_missing q)) ∙ q
  closes_found (some c) q = elim (Bool-cases (is_closed c.status)) [
    | inl was ↦
        ap (λ u. lookup id u.conns) (leaves (ok tt) w (handled_closed c q was))
        ∙ q
        ∙ ap (λ s. some (record c { status = s })) (sym (is_closed-closed c.status was))
    | inr live ↦
        ap (λ u. lookup id u.conns)
          (leaves (ok tt) (record w { conns = put id (set_status closed c) w.conns })
            (handled_live c q live))
        ∙ lookup-put_self id (set_status closed c) w.conns
  ]

  -- A node of main.go closes a connection that it knows on a close request of it, whichever peer sends
  -- the request, and makes none.
  pub closes_for_anyone : lookup id closed_world.conns ≡ closed_of (lookup id w.conns)
  closes_for_anyone = closes_found (lookup id w.conns) refl
