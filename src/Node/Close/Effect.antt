-- ===== src/Node/Close/Effect.antt =====
-- What closing does to a connection, on every branch.
use go_clarinet.Base.{◌≡◌, refl, ◌≢◌, ◌⊎◌, inl, inr, true, false, none, some, List, [], ◌∷◌, arith}
use go_clarinet.Peer.{PeerId, peer_id_eq}
use go_clarinet.Connection.{ConnId, Conn, Status, is_closed, set_status, closing, closed}
use go_clarinet.Connection.Error.{Errs, no_errs, add_err, add_nil}
use go_clarinet.World.{World, Env, TransportOptions}
use go_clarinet.World.Rules.{
  KeepsConns, KeepsConns-catch, keeps_conns, Ensures, Ensures-pure, Ensures-raise, Ensures-if,
  Ensures-catch_any, Ensures-weaken,
}
use go_clarinet.Inmem.Connections.{Written}
use go_clarinet.Inmem.Connections.Effect.{Touches, Keeps, Never, update-Touches}
use go_clarinet.Node.Close.{
  request_close, close_participants, finish_close, close_write, close_connection,
}

-- A closed connection is left alone, with no error; any other comes out closed, or, beside an error, closing.
abbrev pub Closing : Conn → Written → Type 0
Closing c (none, e) = (c.status ≡ closed) × (e ≡ none)
Closing c (some c', none) = (c.status ≢ closed) × (c' ≡ set_status closed c)
Closing c (some c', some e) = (c.status ≢ closed) × (c' ≡ set_status closing c)

-- The same for the entry of the store.
abbrev pub Closes : Conn → Conn → Type 0
Closes c c' = (c.status ≢ closed) × ((c' ≡ set_status closed c) ⊎ (c' ≡ set_status closing c))

pub Closing-Keeps : (c : Conn) (written : Written) → Closing c written → Keeps Closes c written
Closing-Keeps c (none, e) h = tt
Closing-Keeps c (some c', none) (live, h) = (live, inl h)
Closing-Keeps c (some c', some e) (live, h) = (live, inr h)

pub is_closed-eq : (s : Status) → is_closed s ≡ true → s ≡ closed
is_closed-eq s h = ground arith

pub not-is_closed : (s : Status) → is_closed s ≡ false → s ≢ closed
not-is_closed s h = ground arith

module _ {S : Type 0} (env : Env S) where
  close_participants-KeepsConns :
      (self : PeerId) (ids : List PeerId) (c : Conn) (t : TransportOptions) (errs : Errs)
      → KeepsConns (close_participants env self ids c t errs)
  unfolding close_participants request_close
  close_participants-KeepsConns self [] c t errs = search keeps_conns
  close_participants-KeepsConns self (id ∷ ids) c t errs =
      KeepsConns-catch _ _ _ (search keeps_conns depth 8)
        (λ errs'. close_participants-KeepsConns self ids c t errs') (λ e. search keeps_conns)

  finish_close-KeepsConns : (c : Conn) (errs : Errs) → KeepsConns (finish_close env c errs)
  unfolding finish_close
  finish_close-KeepsConns c no_errs = search keeps_conns
  finish_close-KeepsConns c _ = search keeps_conns

  close_write-KeepsConns : (t : TransportOptions) (c : Conn) → KeepsConns (close_write env t c)
  unfolding close_write
  close_write-KeepsConns t c =
      search (keeps_conns, close_participants-KeepsConns, finish_close-KeepsConns) depth 8

  finish_close-Closing :
      (c : Conn) (errs : Errs) → c.status ≢ closed → Ensures (Closing c) (finish_close env c errs)
  unfolding finish_close
  finish_close-Closing c no_errs live = Ensures-pure (Closing c) _ (live, refl)
  finish_close-Closing c (add_err errs e) live = Ensures-pure (Closing c) _ (live, refl)
  finish_close-Closing c (add_nil errs) live = Ensures-pure (Closing c) _ (live, refl)

  -- What the callback of `CloseConnection` hands to `Update`: nothing for a closed connection; else
  -- the connection as closed, or, beside an error, as closing.
  pub close_write-Closing :
      (t : TransportOptions) (c : Conn) → Ensures (Closing c) (close_write env t c)
  unfolding close_write
  close_write-Closing t c =
      Ensures-if (Closing c) (is_closed c.status) _ _
        (λ h. Ensures-pure (Closing c) (none, none) (is_closed-eq c.status h, refl))
        (λ h.
          Ensures-catch_any (Closing c) _ _ _
            (λ self.
              Ensures-catch_any (Closing c) _ _ _
                (λ errs. finish_close-Closing c errs (not-is_closed c.status h))
                (λ e. Ensures-raise (Closing c) e))
            (λ e. Ensures-raise (Closing c) e))

  -- `CloseConnection` changes no connection but its own, and that one only from not closed to closed
  -- or closing.
  pub close_connection-Touches :
      (id : ConnId) (t : TransportOptions) (w : World S)
      → Touches id Closes Never w.conns (close_connection env id t w).1.conns
  unfolding close_connection
  close_connection-Touches id t w =
      update-Touches Closes id (close_write env t) (close_write-KeepsConns t)
        (λ c.
          Ensures-weaken (Closing c) (Keeps Closes c) _ (Closing-Keeps c) (close_write-Closing t c))
        w
