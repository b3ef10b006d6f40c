-- ===== src/Node/Close/Course.antt =====
-- `CloseConnection` whose messages change the outside, where every message goes out.
use go_clarinet.Base.{
  ℕ, ◌≡◌, ◌∙◌, refl, true, false, Bool-cases, inl, inr, ◌||◌, some, List, [], ◌∷◌, ◌++◌, Bytes,
  if◌then◌else◌,
}
use go_clarinet.Base.Assoc.{lookup, put, lookup-put_self}
use go_clarinet.Base.Eq.{◌==◌, nat_eq}
use go_clarinet.Peer.{PeerId, nil_id, some_id, peer_id_eq}
use go_clarinet.Connection.{ConnId, Conn, is_closed, set_status, closed}
use go_clarinet.Connection.Error.{no_errs}
use go_clarinet.World.{
  World, Env, TransportOptions, close_request, ok, pure, external, transmit, catch,
}
use go_clarinet.Inmem.Connections
use go_clarinet.Node.Close.{
  request_close, close_participant, close_participants, finish_close, close_write, close_connection,
}
use go_clarinet.Node.Close.Agreed.{participants}

module _ {S : Type 0} (me : PeerId) (after : ℕ → S → S) where
  -- The outside once those of these peers that are known and not this node were told.
  unfoldable pub told : List PeerId → S → S
  told [] s = s
  told (nil_id ∷ ids) s = told ids s
  told (some_id n ∷ ids) s = told ids (if some_id n == me then s else after n s)

module _ {S : Type 0} (env : Env S) (me : ℕ) (mine : S → List Bytes) (at : ℕ → S → List Bytes)
    (self : (s : S) → env.self s ≡ (ok (record { id = some_id me; addresses = mine s }), s))
    (find : (n : ℕ) (s : S)
      → env.find (some_id n) s ≡ (ok (record { id = some_id n; addresses = at n s }), s))
    (t : TransportOptions) (c : Conn) (after : ℕ → S → S)
    (sends : (n : ℕ) (s : S)
      → (some_id n == some_id me) ≡ false
      → env.send
          (record { id = some_id n; addresses = at n s })
          t
          (close_request (record { connection_id = c.id }))
          s
        ≡ (ok tt, after n s)) where
  one_skipped :
      (id : PeerId) (ids : List PeerId) (w : World S)
      → (id == some_id me || id == nil_id) ≡ true
      → close_participants env (some_id me) (id ∷ ids) c t no_errs w
        ≡ close_participants env (some_id me) ids c t no_errs w
  unfolding close_participants close_participant pure catch
  one_skipped id ids w skipped = rw skipped refl

  one_sent :
      (n : ℕ) (ids : List PeerId) (w : World S)
      → (some_id n == some_id me) ≡ false
      → close_participants env (some_id me) (some_id n ∷ ids) c t no_errs w
        ≡ close_participants env (some_id me) ids c t no_errs (record w {
          outside = after n w.outside;
          sent =
              w.sent
              ++ (
                record { id = some_id n; addresses = at n w.outside },
                close_request (record { connection_id = c.id }),
              )
                ∷ [];
        })
  unfolding close_participants close_participant request_close external transmit pure catch
  one_sent n ids w other = rw (other, find n w.outside, sends n w.outside other) refl

  all_told :
      (ids : List PeerId) (w : World S)
      → (w' : World S) × (close_participants env (some_id me) ids c t no_errs w ≡ (ok no_errs, w'))
        × (w'.outside ≡ told (some_id me) after ids w.outside)
        × (w'.conns ≡ w.conns)
  unfolding close_participants pure told
  all_told [] w = (w, refl, refl, refl)
  all_told (nil_id ∷ ids) w =
      let (w', goes, at_end, same) = all_told ids w in
      (w', one_skipped nil_id ids w refl ∙ goes, at_end, same)
  all_told (some_id n ∷ ids) w = elim (Bool-cases (some_id n == some_id me)) [
    | inl own ↦
        (let (w', goes, at_end, same) = all_told ids w in
          (w', one_skipped (some_id n) ids w (rw own refl) ∙ goes, at_end ∙ rw own refl, same))
    | inr other ↦
        (let w₁ = record w {
          outside = after n w.outside;
          sent =
              w.sent
              ++ (
                record { id = some_id n; addresses = at n w.outside },
                close_request (record { connection_id = c.id }),
              )
                ∷ [];
        } in
          let (w', goes, at_end, same) = all_told ids w₁ in
          (w', one_sent n ids w other ∙ goes, at_end ∙ rw other refl, same))
  ]

  -- If the store has a connection that is not closed, `CloseConnection` returns no error, the
  -- connection is closed, and each known end and witness that is not this node was told.
  pub close_course :
      (id : ConnId) (w : World S)
      → lookup id w.conns ≡ some c
      → is_closed c.status ≡ false
      → (w' : World S) × (close_connection env id t w ≡ (ok tt, w'))
        × (w'.outside ≡ told (some_id me) after (participants c) w.outside)
        × (lookup id w'.conns ≡ some (set_status closed c))
  unfolding close_connection close_write Connections.update finish_close catch external pure
  close_course id w known live =
      let (w', goes, at_end, same) = all_told (participants c) w in
      (
        record w' { conns = put id (set_status closed c) w'.conns },
        rw (known, live, self w.outside, goes) refl,
        at_end,
        lookup-put_self id (set_status closed c) w'.conns,
      )
