-- ===== src/Node/Connect/Effect.antt =====
-- What `Connect` does to the connections, on every branch.
use mathlib.Core.Path.{subst}
use go_clarinet.Base.Assoc.{lookup, put}
use go_clarinet.Base.Eq.{nat_eq}
use go_clarinet.Base.{inl, inr, Option-cases, ◌≡◌, refl, Option, none, some}
use go_clarinet.Peer.{Peer}
use go_clarinet.Connection.{ConnId, Conn, Options, requesting_receiver}
use go_clarinet.Connection.Error.{Err}
use go_clarinet.World.{
  World, Result, ok, err, panicked, Env, TransportOptions, M, pure, raise, catch, continue,
}
use go_clarinet.World.Rules.{
  KeepsConns, keeps_conns, catch_ok, catch_err, Answers, Ensures-external, Does-catch_with, Does,
  Does-then_quiet, Does-catch, Ensures, Ensures-catch_any, Ensures-weaken, Ensures-raise,
}
use go_clarinet.Inmem.Connections
use go_clarinet.Inmem.Connections.{Written}
use go_clarinet.Inmem.Connections.Effect.{
  Conns, Touches, Keeps, Never, Still, MadeThen, accepted, accept_fresh, accept_exists, Follows,
  Follows-same, Touches-Follows, Touches-made, update-Touches,
}
use go_clarinet.Node.Peers.Effect.{update_peer-KeepsConns}
use go_clarinet.Node.Witness.Quiet.{handle_witness_selection-KeepsConns}
use go_clarinet.Node.Witness.Selection.{SelectsFrom, Selection, Selection-Keeps}
use go_clarinet.Node.Witness.Selected.{handle_witness_selection-Selected}
use go_clarinet.Node.Connect.{request_connection, set_up, begin_connect, connect}

module _ {S : Type 0} (env : Env S) (o : Options) (t : TransportOptions) where
  request_connection-KeepsConns :
      (p : Peer) (c : Conn) → KeepsConns (request_connection env p c o t)
  unfolding request_connection
  request_connection-KeepsConns p c = search keeps_conns

  set_up-KeepsConns : (c : Conn) → KeepsConns (set_up env o t c)
  unfolding set_up
  set_up-KeepsConns c =
      search (keeps_conns, request_connection-KeepsConns, handle_witness_selection-KeepsConns)

  pub set_up-Selection : (c : Conn) → Ensures (Selection env o c) (set_up env o t c)
  unfolding set_up
  set_up-Selection c =
      Ensures-catch_any (Selection env o c) _ _ _
        (λ receiver.
          Ensures-catch_any (Selection env o c) _ _ _
            (λ _. handle_witness_selection-Selected env c o t)
            (λ e. Ensures-raise (Selection env o c) e))
        (λ e. Ensures-raise (Selection env o c) e)

-- The connection that `Connect` makes: from this node to the receiver, as the store made it or as
-- the callback left it.
abbrev pub Connects : {S : Type 0} → Env S → Options → Peer → ConnId → Conn → Type 0
Connects env o receiver id c =
    (self : Peer) × Answers env.self self
    × MadeThen (SelectsFrom env o) (accepted id self receiver requesting_receiver) c

-- How far `Connect` is when it has the id of its connection.
abbrev Begun : {S : Type 0} → Env S → Peer → Conns → Result ConnId → Conns → Type 0
Begun env receiver m (ok id) m' =
    (self : Peer) × Answers env.self self
    × (lookup id m ≡ none)
    × (m' ≡ put id (accepted id self receiver requesting_receiver) m)
Begun env receiver m (err e) m' = m' ≡ m
Begun env receiver m panicked m' = m' ≡ m

module _ {S : Type 0} (env : Env S) (receiver : Peer) where
  accept-Begun :
      (self : Peer) (id : ConnId)
      → Answers env.self self
      → Does {S = S}
          (Begun env receiver)
          (catch (Connections.accept id self receiver requesting_receiver) (λ _. pure id) raise)
  accept-Begun self id known_self = record { at = λ w. at w }
    where
      at :
          (w : World S)
          → Begun env receiver w.conns
              (catch
                (Connections.accept id self receiver requesting_receiver)
                (λ _. pure id)
                raise
                w).0
              (catch
                (Connections.accept id self receiver requesting_receiver)
                (λ _. pure id)
                raise
                w).1.conns
      at w = elim (Option-cases (lookup id w.conns)) [
        | inl missing ↦
            rw
              (catch_ok _ (λ _. pure id) raise w _ tt
                (accept_fresh id self receiver requesting_receiver w missing))
              (unfold pure in (self, known_self, missing, refl))
        | inr (c, known) ↦
            rw
              (catch_err _ (λ _. pure id) raise w w _
                (accept_exists id self receiver requesting_receiver w c known))
              (unfold raise in refl)
      ]

  begin_connect-Begun : Does (Begun env receiver) (begin_connect env receiver)
  unfolding begin_connect Connections.create
  begin_connect-Begun =
      Does-catch (Begun env receiver) (λ m. refl) _ _ _ (update_peer-KeepsConns env receiver)
        (λ _.
          Does-catch_with _ (Begun env receiver) (λ m. refl) _ _ _ (search keeps_conns)
            (Ensures-external env.self)
            (λ self known_self.
              Does-catch (Begun env receiver) (λ m. refl) _ _ _ (search keeps_conns)
                (λ id. accept-Begun self id known_self) raises)
            raises)
        raises
    where
      raises : (e : Err) → Does {S = S} (Begun env receiver) (raise e)
      raises e = record { at = λ w. unfold raise in refl }

module _ {S : Type 0} (env : Env S) (receiver : Peer) (o : Options) (t : TransportOptions) where
  abbrev Grows : Conns → Conns → Type 0
  Grows = Follows (λ j. Still) (Connects env o receiver)

  abbrev after : ConnId → M S (ConnId × Option Err)
  after id =
      catch (Connections.update id (set_up env o t)) (λ _. pure (id, none)) (λ e. pure (id, some e))

  abbrev before : Err → M S (ConnId × Option Err)
  before e = pure (0, some e)

  after-Touches :
      (id : ConnId) (w : World S)
      → Touches id (SelectsFrom env o) Never w.conns (after id w).1.conns
  after-Touches id =
      (Does-then_quiet (Touches id (SelectsFrom env o) Never) _ _ _
        (record {
          at =
              update-Touches (SelectsFrom env o) id (set_up env o t) (set_up-KeepsConns env o t)
                (λ c.
                  Ensures-weaken (Selection env o c) (Keeps (SelectsFrom env o) c) _
                    (Selection-Keeps env o c) (set_up-Selection env o t c));
        })
        (λ _. search keeps_conns) (λ _. search keeps_conns)).at

  finish-Grows :
      (m : Conns) (r : Result ConnId) (w : World S)
      → Begun env receiver m r w.conns
      → Grows m (continue after before r w).1.conns
  finish-Grows m (ok id) w (self, known_self, missing, made) =
      Touches-Follows (λ j. Still) (Connects env o receiver) id (λ c c' h. h)
        (λ c h. (self, known_self, h))
        (Touches-made (SelectsFrom env o) id (accepted id self receiver requesting_receiver) m _
          missing
          (subst (λ x. Touches id (SelectsFrom env o) Never x (after id w).1.conns) made
            (after-Touches id w)))
  finish-Grows m (err e) w same = Follows-same _ _ m _ (unfold pure in same)
  finish-Grows m panicked w same = Follows-same _ _ m _ same

  -- `Connect` changes no connection, and makes only connections from this node to the receiver that
  -- ask for the receiver, or that come from a selection on such a connection.
  pub connect-Follows :
      (w : World S)
      → Follows (λ j. Still) (Connects env o receiver) w.conns (connect env receiver o t w).1.conns
  unfolding connect catch
  connect-Follows w =
      finish-Grows w.conns (begin_connect env receiver w).0 (begin_connect env receiver w).1
        ((begin_connect-Begun env receiver).at w)
