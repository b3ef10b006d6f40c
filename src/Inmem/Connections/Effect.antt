-- ===== src/Inmem/Connections/Effect.antt =====
-- What the connection store's operations do to the connections as a map from ids.
use mathlib.Core.Path.{subst}
use native.Mathlib.Decide.{ℕ_discrete}
use go_clarinet.Base.{
  ◌≡◌, refl, ap, ◌≢◌, ◌⊎◌, inl, inr, Option, none, some, Option-cases, arith, sym, ◌∙◌,
}
use go_clarinet.Base.Assoc.{Assoc, lookup, put, lookup-put_self, lookup-put_ne}
use go_clarinet.Base.Eq.{nat_eq}
use go_clarinet.Peer.{Peer, nil_id}
use go_clarinet.Connection.{ConnId, Conn, Status}
use go_clarinet.Connection.Error.{Err, connection_exists, no_connection}
use go_clarinet.World.{World, Result, ok, err, panicked, M, catch}
use go_clarinet.World.Rules.{KeepsConns, Ensures, Post, Does-then_quiet, catch_ok, catch_err}
use go_clarinet.Inmem.Connections.{Written, accept, get_conn_entry, finish_update, update}

-- An entry is left alone, or becomes one that `P` allows; one that is made is as `N` says; none is
-- dropped.
abbrev pub Moves : (Conn → Conn → Type 0) → (Conn → Type 0) → Option Conn → Option Conn → Type 0
Moves P N none none = Unit
Moves P N none (some c') = N c'
Moves P N (some c) none = ⊥
Moves P N (some c) (some c') = (c' ≡ c) ⊎ P c c'

pub Moves-refl : (P : Conn → Conn → Type 0) (N : Conn → Type 0) (o : Option Conn) → Moves P N o o
Moves-refl P N none = tt
Moves-refl P N (some c) = inl refl

abbrev pub Conns : Type 0
Conns = Assoc ConnId Conn

pub record Touches (id : ConnId) (P : Conn → Conn → Type 0) (N : Conn → Type 0) (m m' : Conns)
    : Type 0 where
  pub others : (j : ConnId) → j ≢ id → lookup j m' ≡ lookup j m
  pub here : Moves P N (lookup id m) (lookup id m')

module _ {P P' : Conn → Conn → Type 0} {N N' : Conn → Type 0} (p : (c c' : Conn) → P c c' → P' c c')
    (n : (c : Conn) → N c → N' c) where
  Moves-weaken : (o o' : Option Conn) → Moves P N o o' → Moves P' N' o o'
  Moves-weaken none none h = tt
  Moves-weaken none (some c') h = n c' h
  Moves-weaken (some c) none h = absurd h
  Moves-weaken (some c) (some c') (inl same) = inl same
  Moves-weaken (some c) (some c') (inr h) = inr (p c c' h)

  pub Touches-weaken : {id : ConnId} {m m' : Conns} → Touches id P N m m' → Touches id P' N' m m'
  Touches-weaken {id} {m} {m'} t = record {
    others = t.others;
    here = Moves-weaken (lookup id m) (lookup id m') t.here;
  }

-- Nothing of the kind happens.
abbrev pub Never : Conn → Type 0
Never c = ⊥

abbrev pub Still : Conn → Conn → Type 0
Still c c' = ⊥

-- Each entry, by its id: what it may become, and what one that is made may be.
abbrev pub Follows :
    (ConnId → Conn → Conn → Type 0) → (ConnId → Conn → Type 0) → Conns → Conns → Type 0
Follows P N m m' = (j : ConnId) → Moves (P j) (N j) (lookup j m) (lookup j m')

pub Follows-same :
    (P : ConnId → Conn → Conn → Type 0) (N : ConnId → Conn → Type 0) (m m' : Conns)
    → m' ≡ m
    → Follows P N m m'
Follows-same P N m m' same j = rw same (Moves-refl (P j) (N j) (lookup j m))

module _ {P : Conn → Conn → Type 0} {N : Conn → Type 0} (P' : ConnId → Conn → Conn → Type 0)
    (N' : ConnId → Conn → Type 0) (id : ConnId) (p : (c c' : Conn) → P c c' → P' id c c')
    (n : (c : Conn) → N c → N' id c) where
  pub Touches-Follows : {m m' : Conns} → Touches id P N m m' → Follows P' N' m m'
  Touches-Follows {m} {m'} t j = elim (ℕ_discrete j id) [
    | yes e ↦
        subst (λ i. Moves (P' i) (N' i) (lookup i m) (lookup i m')) (sym e)
          (Moves-weaken p n (lookup id m) (lookup id m') t.here)
    | no other ↦ rw (t.others j other) (Moves-refl (P' j) (N' j) (lookup j m))
  ]

-- What a callback of `Update` may hand back for the connection `c`.
abbrev pub Keeps : (Conn → Conn → Type 0) → Conn → Written → Type 0
Keeps P c (none, e) = Unit
Keeps P c (some c', e) = P c c'

pub get_conn_entry-KeepsConns : {S : Type 0} (id : ConnId) → KeepsConns {S = S} (get_conn_entry id)
unfolding get_conn_entry
get_conn_entry-KeepsConns id = record { at = λ w. ground arith }

module _ {S : Type 0} (id : ConnId) (f : Conn → M S Written) (w : World S) where
  pub update_missing : lookup id w.conns ≡ none → update id f w ≡ (err (no_connection id), w)
  unfolding update catch
  update_missing missing = ground arith

  pub update_found :
      (c : Conn) → lookup id w.conns ≡ some c → update id f w ≡ finish_update id (f c w).0 (f c w).1
  unfolding update catch
  update_found c known = ground arith

module _ (P : Conn → Conn → Type 0) (N : Conn → Type 0) (id : ConnId) where
  pub Touches-same : (m m' : Conns) → m' ≡ m → Touches id P N m m'
  Touches-same m m' same = record {
    others = λ j _. ap (lookup j) same;
    here = rw same (Moves-refl P N (lookup id m));
  }

module _ (P : Conn → Conn → Type 0) (id : ConnId) where
  Touches-put :
      (m m' : Conns) (c c' : Conn)
      → lookup id m ≡ some c
      → m' ≡ m
      → P c c'
      → Touches id P Never m (put id c' m')
  Touches-put m m' c c' known same p = record {
    others = λ j other. rw same (lookup-put_ne id j c' m other);
    here = rw (known, same, lookup-put_self id c' m) (inr p);
  }

module _ {S : Type 0} (P : Conn → Conn → Type 0) (id : ConnId) where
  Touches-finish :
      (w w' : World S) (c : Conn) (r : Result Written)
      → lookup id w.conns ≡ some c
      → w'.conns ≡ w.conns
      → Post (Keeps P c) r
      → Touches id P Never w.conns (finish_update id r w').1.conns
  unfolding finish_update
  Touches-finish w w' c (ok (none, none)) known same k = Touches-same P Never id _ _ same
  Touches-finish w w' c (ok (none, some e)) known same k = Touches-same P Never id _ _ same
  Touches-finish w w' c (ok (some c', none)) known same k = Touches-put P id _ _ c c' known same k
  Touches-finish w w' c (ok (some c', some e)) known same k = Touches-put P id _ _ c c' known same k
  Touches-finish w w' c (err e) known same k = Touches-same P Never id _ _ same
  Touches-finish w w' c panicked known same k = Touches-same P Never id _ _ same

  -- `Update` changes the entry of its id alone, and that one as its callback says. An error or a
  -- panic of the callback is no exception.
  pub update-Touches :
      (f : Conn → M S Written)
      → ((c : Conn) → KeepsConns (f c))
      → ((c : Conn) → Ensures (Keeps P c) (f c))
      → (w : World S) → Touches id P Never w.conns (update id f w).1.conns
  update-Touches f quiet allowed w = elim (Option-cases (lookup id w.conns)) [
    | inl missing ↦ rw (update_missing id f w missing) (Touches-same P Never id _ _ refl)
    | inr (c, known) ↦
        rw (update_found id f w c known)
          (Touches-finish w (f c w).1 c (f c w).0 known ((quiet c).at w) ((allowed c).at w))
  ]

-- The connection that `Accept` makes.
abbrev pub accepted : ConnId → Peer → Peer → Status → Conn
accepted id sender receiver status = record {
  id = id;
  sender = sender.id;
  witness = nil_id;
  receiver = receiver.id;
  status = status;
}

module _ {S : Type 0} (id : ConnId) (sender receiver : Peer) (status : Status) (w : World S) where
  pub accept_exists :
      (c : Conn)
      → lookup id w.conns ≡ some c
      → accept id sender receiver status w ≡ (err (connection_exists id), w)
  unfolding accept
  accept_exists c known = ground arith

  pub accept_fresh :
      lookup id w.conns ≡ none
      → accept id sender receiver status w
        ≡ (ok tt, record w { conns = put id (accepted id sender receiver status) w.conns })
  unfolding accept
  accept_fresh missing = ground arith

  -- `Accept` makes its connection under a free id and refuses a used one.
  pub accept-Touches :
      Touches id Still
        (λ c. c ≡ accepted id sender receiver status)
        w.conns
        (accept id sender receiver status w).1.conns
  accept-Touches = elim (Option-cases (lookup id w.conns)) [
    | inl missing ↦ rw (accept_fresh missing) (record {
      others = λ j other. lookup-put_ne id j _ w.conns other;
      here = rw (missing, lookup-put_self id (accepted id sender receiver status) w.conns) refl;
    })
    | inr (c, known) ↦ rw (accept_exists c known) (Touches-same _ _ id _ _ refl)
  ]

-- An entry that is made as `c`, and then perhaps changed.
abbrev pub MadeThen : (Conn → Conn → Type 0) → Conn → Conn → Type 0
MadeThen P c c' = (c' ≡ c) ⊎ P c c'

module _ (P : Conn → Conn → Type 0) (id : ConnId) (c : Conn) where
  Moves-made : (o : Option Conn) → Moves P Never (some c) o → Moves Still (MadeThen P c) none o
  Moves-made none h = absurd h
  Moves-made (some c') h = h

  pub Touches-made :
      (m m' : Conns)
      → lookup id m ≡ none
      → Touches id P Never (put id c m) m'
      → Touches id Still (MadeThen P c) m m'
  Touches-made m m' missing t = record {
    others = λ j other. t.others j other ∙ lookup-put_ne id j c m other;
    here = rw missing (Moves-made (lookup id m') (rw (lookup-put_self id c m) at t.here));
  }

-- `Accept`, then `Update` of the same connection, then what leaves the connections alone.
module _ {S B : Type 0} (P : Conn → Conn → Type 0) (id : ConnId) (sender receiver : Peer)
    (status : Status) (f : Conn → M S Written) (k : Unit {0} → M S B) (h h' : Err → M S B)
    (f_quiet : (c : Conn) → KeepsConns (f c)) (f_allowed : (c : Conn) → Ensures (Keeps P c) (f c))
    (k_quiet : (u : Unit {0}) → KeepsConns (k u)) (h_quiet : (e : Err) → KeepsConns (h e))
    (h'_quiet : (e : Err) → KeepsConns (h' e)) where
  update_then : (w : World S) → Touches id P Never w.conns (catch (update id f) k h w).1.conns
  update_then =
      (Does-then_quiet (Touches id P Never) (update id f) k h
        (record { at = update-Touches P id f f_quiet f_allowed }) k_quiet h_quiet).at

  pub accept-update-Touches :
      (w : World S)
      → Touches id Still
          (MadeThen P (accepted id sender receiver status))
          w.conns
          (catch (accept id sender receiver status) (λ _. catch (update id f) k h) h' w).1.conns
  accept-update-Touches w = elim (Option-cases (lookup id w.conns)) [
    | inl missing ↦
        rw
          (catch_ok _ (λ _. catch (update id f) k h) h' w _ tt
            (accept_fresh id sender receiver status w missing))
          (Touches-made P id (accepted id sender receiver status) w.conns _ missing (update_then _))
    | inr (c, known) ↦
        rw
          (catch_err _ (λ _. catch (update id f) k h) h' w w _
            (accept_exists id sender receiver status w c known))
          (Touches-same Still _ id _ _ ((h'_quiet (connection_exists id)).at w))
  ]
