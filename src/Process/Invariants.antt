-- ===== src/Process/Invariants.antt =====
-- What holds of the connections over a whole run of a node.
use mathlib.Core.Path.{subst}
use go_clarinet.Connection.Error.{Err}
use go_clarinet.Base.{
  ◌≡◌, refl, ◌∙◌, sym, ap, ◌≢◌, inl, inr, Option, none, some, List, [], ◌∷◌, arith,
}
use go_clarinet.Base.Assoc.{lookup}
use go_clarinet.Base.Eq.{nat_eq}
use go_clarinet.Base.Lists.{All}
use go_clarinet.Connection.{ConnId, Conn, Options, set_status, set_witness, closed}
use go_clarinet.World.{World, Env}
use go_clarinet.Inmem.Connections.Effect.{Conns, Moves}
use go_clarinet.Node.Witness.Selection.{
  Selected, unknown_selector, left_to_other_end, not_found, not_announced, witnessed,
}
use go_clarinet.Process.{
  Action, connect, close_connection, on_connect, on_witness, on_notification, on_close, run_task,
  perform, run,
}
use go_clarinet.Process.Steps.{Moved, Made, perform-Follows}

pub record SameEnds (c c' : Conn) : Type 0 where
  pub id : c'.id ≡ c.id
  pub sender : c'.sender ≡ c.sender
  pub receiver : c'.receiver ≡ c.receiver

Selected-SameEnds :
    {S : Type 0} (env : Env S) (o : Options) (c c' : Conn) (e : Option Err)
    → Selected env o c c' e
    → SameEnds c c'
unfolding set_status set_witness
Selected-SameEnds env o c c' e (unknown_selector is h x) = ground arith
Selected-SameEnds env o c c' e (left_to_other_end other h x) = ground arith
Selected-SameEnds env o c c' e (not_found own h x) = ground arith
Selected-SameEnds env o c c' e (not_announced p own free agreed h x) = ground arith
Selected-SameEnds env o c c' e (witnessed p own free agreed ne h x) = ground arith

Moved-SameEnds :
    {S : Type 0} (env : Env S) (a : Action) (j : ConnId) (c c' : Conn)
    → Moved env a j c c'
    → SameEnds c c'
unfolding set_status set_witness
Moved-SameEnds env (close_connection id t) j c c' (at, (live, h)) = ground arith
Moved-SameEnds env (on_notification peer note) j c c' (at, h) = let made = h.made in ground arith
Moved-SameEnds env (on_close peer request) j c c' (at, (live, h)) = ground arith
Moved-SameEnds env (run_task task) j c c' (at, (e, h)) = Selected-SameEnds env task.options c c' e h
Moved-SameEnds env _ j c c' h = absurd h

SameEnds-trans : {a b c : Conn} → SameEnds a b → SameEnds b c → SameEnds a c
SameEnds-trans h k = record {
  id = k.id ∙ h.id;
  sender = k.sender ∙ h.sender;
  receiver = k.receiver ∙ h.receiver;
}

module _ {S : Type 0} (env : Env S) where
  kept :
      (a : Action) (j : ConnId) (c : Conn) (o : Option Conn)
      → Moves (Moved env a j) (Made env a j) (some c) o
      → (c' : Conn) × (o ≡ some c') × SameEnds c c'
  kept a j c none h = absurd h
  kept a j c (some c') (inl same) = (c', refl, ground arith)
  kept a j c (some c') (inr h) = (c', refl, Moved-SameEnds env a j c c' h)

  perform-SameEnds :
      (a : Action) (w : World S) (j : ConnId) (c : Conn)
      → lookup j w.conns ≡ some c
      → (c' : Conn) × (lookup j (perform env a w).conns ≡ some c') × SameEnds c c'
  perform-SameEnds a w j c known = kept a j c (lookup j (perform env a w).conns) (
      subst (λ o. Moves (Moved env a j) (Made env a j) o (lookup j (perform env a w).conns)) known
        (perform-Follows env a w j))

  -- Over any run, a connection that the node knows stays known, under its id and with its ends.
  pub run-SameEnds :
      (actions : List Action) (w : World S) (j : ConnId) (c : Conn)
      → lookup j w.conns ≡ some c
      → (c' : Conn) × (lookup j (run env actions w).conns ≡ some c') × SameEnds c c'
  unfolding run
  run-SameEnds [] w j c known = (c, known, ground arith)
  run-SameEnds (a ∷ actions) w j c known =
      let (c', known', same) = perform-SameEnds a w j c known in
      let (c'', known'', same') = run-SameEnds actions (perform env a w) j c' known' in
      (c'', known'', SameEnds-trans same same')

-- The action starts no witness selection for the connection.
abbrev pub Spares : ConnId → Action → Type 0
Spares j (run_task task) = task.connection_id ≢ j
Spares j _ = Unit

closed_stays :
    {S : Type 0} (env : Env S) (a : Action) (j : ConnId) (c c' : Conn)
    → c.status ≡ closed
    → Spares j a
    → ¬ Moved env a j c c'
closed_stays env (close_connection id t) j c c' shut s (at, (live, h)) = live shut
closed_stays env (on_notification peer note) j c c' shut s (at, h) = cc h.waiting
closed_stays env (on_close peer request) j c c' shut s (at, (live, h)) = live shut
closed_stays env (run_task task) j c c' shut s (at, h) = s (sym at)
closed_stays env _ j c c' shut s h = h

module _ {S : Type 0} (env : Env S) where
  unmoved :
      (a : Action) (j : ConnId) (c : Conn) (o : Option Conn)
      → c.status ≡ closed
      → Spares j a
      → Moves (Moved env a j) (Made env a j) (some c) o
      → o ≡ some c
  unmoved a j c none shut s h = absurd h
  unmoved a j c (some c') shut s (inl same) = ap some same
  unmoved a j c (some c') shut s (inr h) = absurd (closed_stays env a j c c' shut s h)

  -- Over any run that starts no selection for it, a closed connection stays as it is.
  pub run-closed :
      (actions : List Action) (w : World S) (j : ConnId) (c : Conn)
      → lookup j w.conns ≡ some c
      → c.status ≡ closed
      → All (Spares j) actions
      → lookup j (run env actions w).conns ≡ some c
  unfolding run
  run-closed [] w j c known shut s = known
  run-closed (a ∷ actions) w j c known shut (s, rest) =
      run-closed actions (perform env a w) j c
        (unmoved a j c (lookup j (perform env a w).conns) shut s (
          subst (λ o. Moves (Moved env a j) (Made env a j) o (lookup j (perform env a w).conns))
            known (perform-Follows env a w j)))
        shut rest

eq_of_some : {c c' : Conn} → some c ≡ some c' → c ≡ c'
eq_of_some e = cc

-- Each connection stands under its own id.
abbrev pub IsKeyed : Conns → Type 0
IsKeyed m = (j : ConnId) (c : Conn) → lookup j m ≡ some c → c.id ≡ j

Made-id :
    {S : Type 0} (env : Env S) (a : Action) (j : ConnId) (c : Conn) → Made env a j c → c.id ≡ j
unfolding set_status set_witness
Made-id env (connect receiver o t) j c (self, found, inl h) = ground arith
Made-id env (connect receiver o t) j c (self, found, inr (e, h)) =
    (Selected-SameEnds env o _ c e h).id
Made-id env (on_connect peer request) j c (at, h) = let made = h.made in ground arith
Made-id env (on_witness peer request) j c (at, h) = let made = h.made in ground arith
Made-id env _ j c h = absurd h

module _ {S : Type 0} (env : Env S) where
  keyed :
      (a : Action) (j : ConnId) (o o' : Option Conn)
      → Moves (Moved env a j) (Made env a j) o o'
      → ((c : Conn) → o ≡ some c → c.id ≡ j)
      → (c : Conn) → o' ≡ some c
      → c.id ≡ j
  keyed a j none none m h c e = cc
  keyed a j none (some c') m h c e = ap (λ d. d.id) (sym (eq_of_some e)) ∙ Made-id env a j c' m
  keyed a j (some b) none m h c e = absurd m
  keyed a j (some b) (some c') (inl same) h c e =
      ap (λ d. d.id) (sym (eq_of_some e)) ∙ ap (λ d. d.id) same ∙ h b refl
  keyed a j (some b) (some c') (inr m) h c e =
      ap (λ d. d.id) (sym (eq_of_some e)) ∙ (Moved-SameEnds env a j b c' m).id ∙ h b refl

  -- If each connection stands under its own id, it does so after any run.
  pub run-IsKeyed :
      (actions : List Action) (w : World S) → IsKeyed w.conns → IsKeyed (run env actions w).conns
  unfolding run
  run-IsKeyed [] w h = h
  run-IsKeyed (a ∷ actions) w h = run-IsKeyed actions (perform env a w) (λ j.
      keyed a j (lookup j w.conns) (lookup j (perform env a w).conns) (perform-Follows env a w j)
        (h j))
