-- ===== src/Node/Witness/Opens.antt =====
-- A selection where every call succeeds and a peer agrees.
use go_clarinet.Base.{
  ℕ, ◌≡◌, ◌∙◌, ◌⊎◌, inl, inr, Bool-cases, true, refl, ap, none, some, [], ◌∷◌, ◌++◌,
}
use go_clarinet.Base.Eq.{◌==◌, nat_eq}
use go_clarinet.Peer.{PeerId, some_id, Peer, peer_id_eq, id_beq_iff}
use go_clarinet.Connection.{
  Conn, Options, WitnessSelector, nil_selector, sender_selects, receiver_selects, set_status,
  set_witness, requesting_witness, notifying_of_witness, opened,
}
use go_clarinet.World.{
  World, Env, TransportOptions, witness_notification, ok, pure, external, transmit, catch,
}
use go_clarinet.Node.Close.Agreed.{Reachable}
use go_clarinet.Node.Witness.{
  find_witness, send_witness_notification, peer_to_notify, announce, find_and_announce, select_as,
  handle_witness_selection,
}
use go_clarinet.Node.Witness.Selection.{selecting_end}
use go_clarinet.Node.Witness.Candidates.{filter, may_witness}
use go_clarinet.Node.Witness.First.{Steady, first, agrees, chosen, find_witness-first}

-- The connection that comes out of a selection.
unfoldable pub opened_with : Peer → Conn → Conn
opened_with p conn = set_status opened (set_witness p.id conn)

module _ {S : Type 0} (env : Env S) (reach : Reachable env) (steady : Steady env) where
  -- One end of the connection is this node, and the notification is for the other one.
  notifies :
      (conn : Conn)
      → (conn.sender ≡ reach.me.id) ⊎ (conn.receiver ≡ reach.me.id)
      → (other : PeerId) × ((w : World S) → peer_to_notify env reach.me.id conn w ≡ (ok other, w))
  unfolding peer_to_notify pure
  notifies conn end = elim (Bool-cases (conn.sender == reach.me.id)) [
    | inl own ↦ (conn.receiver, λ w. rw own refl)
    | inr apart ↦ (
      conn.sender,
      λ w.
          let own : (conn.receiver == reach.me.id) ≡ true = elim end [
            | inl is ↦ cc ((id_beq_iff conn.sender reach.me.id).1 is, apart)
            | inr is ↦ (id_beq_iff conn.receiver reach.me.id).1 is
          ] in
          rw (apart, own) refl,
    )
  ]

  notified_of : (conn : Conn) (other : PeerId) → World S → World S
  notified_of conn other w = record w {
    sent =
        w.sent
        ++ (
          reach.peer_of other,
          witness_notification (record { connection_id = conn.id; witness = conn.witness }),
        )
          ∷ [];
  }

  notification_sent :
      (conn : Conn) (other : PeerId) (o : TransportOptions) (n : ℕ) (w : World S)
      → conn.witness ≡ some_id n
      → ((w : World S) → peer_to_notify env reach.me.id conn w ≡ (ok other, w))
      → send_witness_notification env conn o w ≡ (ok tt, notified_of conn other w)
  unfolding send_witness_notification catch external transmit notified_of
  notification_sent conn other o n w witness tells =
      rw (witness, reach.self w.outside, tells w, reach.find other w.outside)
        (rw
          (reach.send (reach.peer_of other) o
            (witness_notification (record { connection_id = conn.id; witness = some_id n }))
            w.outside)
          refl)

  announced :
      (conn : Conn) (p : Peer) (o : TransportOptions) (n : ℕ) (w : World S)
      → p.id ≡ some_id n
      → (conn.sender ≡ reach.me.id) ⊎ (conn.receiver ≡ reach.me.id)
      → (announce env (set_witness p.id (set_status requesting_witness conn)) o none w).0
        ≡ ok (some (opened_with p conn), none)
  unfolding announce catch pure opened_with set_status set_witness
  announced conn p o n w known end =
      let conn' =
        set_status notifying_of_witness (set_witness p.id (set_status requesting_witness conn)) in
      let (other, tells) = notifies conn' end in
      rw (notification_sent conn' other o n w known tells) refl

  found :
      (conn : Conn) (p : Peer) (options : Options) (o : TransportOptions) (w : World S)
      → first (agrees env steady (set_status requesting_witness conn) options) (
          filter
            (may_witness steady.trusted w.reps (set_status requesting_witness conn))
            steady.peers)
        ≡ some p
      → find_witness env conn options o w ≡ (
        ok (set_witness p.id (set_status requesting_witness conn), none),
        (find_witness env conn options o w).1,
      )
  found conn p options o w agreed =
      ap (λ r. (r, (find_witness env conn options o w).1))
        (find_witness-first env steady conn options o w
          ∙ ap (λ q. ok (chosen (set_status requesting_witness conn) q)) agreed)

  end_of_selecting :
      (selector : WitnessSelector) (conn : Conn)
      → selecting_end selector conn ≡ some reach.me.id
      → (conn.sender ≡ reach.me.id) ⊎ (conn.receiver ≡ reach.me.id)
  end_of_selecting nil_selector conn named = cc
  end_of_selecting sender_selects conn named = inl cc
  end_of_selecting receiver_selects conn named = inr cc

  searches :
      (selector : WitnessSelector) (conn : Conn) (options : Options) (o : TransportOptions)
      (w : World S)
      → selecting_end selector conn ≡ some reach.me.id
      → select_as env reach.me.id selector conn options o w ≡ find_and_announce env conn options o w
  unfolding select_as
  searches nil_selector conn options o w named = cc
  searches sender_selects conn options o w named =
      let own : reach.me.id ≡ conn.sender = cc in
      rw ((id_beq_iff reach.me.id conn.sender).1 own) refl
  searches receiver_selects conn options o w named =
      let own : reach.me.id ≡ conn.receiver = cc in
      rw ((id_beq_iff reach.me.id conn.receiver).1 own) refl

  -- If this node is the end of a connection that selects the witness, and some peer of the store may be
  -- the witness and agrees, the selection hands the connection on as open with the first such peer.
  pub selection_opens :
      (conn : Conn) (p : Peer) (n : ℕ) (options : Options) (o : TransportOptions) (w : World S)
      → first (agrees env steady (set_status requesting_witness conn) options) (
          filter
            (may_witness steady.trusted w.reps (set_status requesting_witness conn))
            steady.peers)
        ≡ some p
      → p.id ≡ some_id n
      → selecting_end options.witness_selector conn ≡ some reach.me.id
      → (handle_witness_selection env conn options o w).0 ≡ ok (some (opened_with p conn), none)
  unfolding handle_witness_selection find_and_announce catch external
  selection_opens conn p n options o w agreed known named =
      rw
        (
          reach.self w.outside,
          searches options.witness_selector conn options o w named,
          found conn p options o w agreed,
        )
        (announced conn p o n (find_witness env conn options o w).1 known
          (end_of_selecting options.witness_selector conn named))
