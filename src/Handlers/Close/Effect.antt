-- ===== src/Handlers/Close/Effect.antt =====
-- What a close request does to a connection, on every branch.
use go_clarinet.Base.{none, refl}
use go_clarinet.Peer.{PeerId}
use go_clarinet.Connection.{Conn, CloseRequest, is_closed}
use go_clarinet.World.{World, Env}
use go_clarinet.World.Rules.{
  KeepsConns, keeps_conns, Ensures, Ensures-pure, Ensures-if, Ensures-catch_any, Ensures-weaken,
}
use go_clarinet.Inmem.Connections.Effect.{Touches, Keeps, Never, update-Touches}
use go_clarinet.Node.Close.Effect.{Closing, Closes, Closing-Keeps, is_closed-eq, not-is_closed}
use go_clarinet.Handlers.Close.{closed_by, handle}

module _ {S : Type 0} (env : Env S) (peer : PeerId) (request : CloseRequest) where
  closed_by-KeepsConns : (c : Conn) → KeepsConns (closed_by env peer request c)
  unfolding closed_by
  closed_by-KeepsConns c = search keeps_conns

  -- What the callback of a close request hands to `Update`: nothing for a closed connection; else the
  -- connection as closed, or, beside an error, as closing.
  pub closed_by-Closing : (c : Conn) → Ensures (Closing c) (closed_by env peer request c)
  unfolding closed_by
  closed_by-Closing c =
      Ensures-if (Closing c) (is_closed c.status) _ _
        (λ h. Ensures-pure (Closing c) (none, none) (is_closed-eq c.status h, refl))
        (λ h.
          Ensures-catch_any (Closing c) _ _ _
            (λ _. Ensures-pure (Closing c) _ (not-is_closed c.status h, refl))
            (λ e. Ensures-pure (Closing c) _ (not-is_closed c.status h, refl)))

  -- A close request changes no connection but the one that it names, and that one only from not
  -- closed to closed or closing; it makes none and drops none.
  pub handle-Closes :
      (w : World S)
      → Touches request.connection_id Closes Never w.conns (handle env peer request w).1.conns
  unfolding handle
  handle-Closes =
      update-Touches Closes request.connection_id (closed_by env peer request) closed_by-KeepsConns
        (λ c. Ensures-weaken (Closing c) (Keeps Closes c) _ (Closing-Keeps c) (closed_by-Closing c))
