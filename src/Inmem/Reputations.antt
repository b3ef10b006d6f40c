-- ===== src/Inmem/Reputations.antt =====
-- `inMemoryReputationStore`, with the default `createFunc`: an unknown peer gets a fresh reputation.
pub mod View
use go_clarinet.Base.{Option, none, some, [], arith}
use go_clarinet.Base.Assoc.{Assoc, lookup, put}
use go_clarinet.Peer.{PeerId, peer_id_eq}
use go_clarinet.Connection.Error.{Err}
use go_clarinet.Reputation.{Reputation, new_reputation}
use go_clarinet.World.Rules.{KeepsConns}
use go_clarinet.World.{World, Result, ok, err, panicked, M, ◌>>=◌}

-- `NewReputationStore`
unfoldable pub new_reputation_store : Assoc PeerId Reputation
new_reputation_store = []

module _ {S : Type 0} where
  or_created : PeerId → Option Reputation → M S Reputation
  or_created id (some rep) w = (ok rep, w)
  or_created id none w =
      (ok (new_reputation id), record w { reps = put id (new_reputation id) w.reps })

  unfoldable pub ensure_rep_exists : PeerId → M S Reputation
  unfolding or_created
  ensure_rep_exists id w = or_created id (lookup id w.reps) w

  persist : PeerId → Option Reputation → World S → World S
  persist id none w = w
  persist id (some updated) w = record w { reps = put id updated w.reps }

  finish_update :
      PeerId → Result (Option Reputation × Option Err) → World S → Result (Unit {0}) × World S
  unfolding persist
  finish_update id (ok (updated, none)) w = (ok tt, persist id updated w)
  finish_update id (ok (updated, some e)) w = (err e, persist id updated w)
  finish_update id (err e) w = (err e, w)
  finish_update id panicked w = (panicked, w)

  unfoldable pub update :
      PeerId → (Reputation → M S (Option Reputation × Option Err)) → M S (Unit {0})
  unfolding ensure_rep_exists finish_update
  update id write_func = do
    rep ← ensure_rep_exists id
    λ w. let (r, w') = write_func rep w in finish_update id r w'

module _ {S A : Type 0} where
  unfoldable pub read : PeerId → (Reputation → M S A) → M S A
  unfolding ensure_rep_exists
  read id read_func = ensure_rep_exists id >>= read_func

module _ {S : Type 0} where
  -- The reputation store has no hold on the connections.
  pub ensure_rep_exists-KeepsConns : (id : PeerId) → KeepsConns {S = S} (ensure_rep_exists id)
  unfolding ensure_rep_exists
  ensure_rep_exists-KeepsConns id = record { at = λ w. ground arith }
