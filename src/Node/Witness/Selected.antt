-- ===== src/Node/Witness/Selected.antt =====
-- What `handleWitnessSelection` hands to the connection store, on every branch.
use go_clarinet.Base.{
  ◌≡◌, refl, ◌∙◌, ◌≢◌, ap, sym, Bool, true, false, ◌||◌, Option, none, some, List, [], ◌∷◌, ◌++◌,
  arith, if◌then◌else◌,
}
use go_clarinet.Base.Eq.{◌==◌, nat_eq, nat_beq_iff}
use go_clarinet.Base.Lists.{All, All-append}
use go_clarinet.Peer.{PeerId, nil_id, Peer, peer_id_eq, id_beq_iff}
use go_clarinet.Connection.{
  Conn, Options, WitnessResponse, WitnessSelector, nil_selector, sender_selects, receiver_selects,
  set_status, set_witness, awaiting_witness, requesting_witness, notifying_of_witness, opened,
}
use go_clarinet.Connection.Error.{Err}
use go_clarinet.World.{Env, TransportOptions, pure}
use go_clarinet.World.Rules.{
  Answers, Ensures-external, Ensures-transmit, Ensures, Ensures-catch, Ensures-pure, Ensures-raise,
  Ensures-if, Ensures-holds, Ensures-catch_any, ensures,
}
use go_clarinet.Node.Witness.{
  witness_request_for, is_empty, candidates_among, witness_candidates, check_witness_response,
  request_witness, try_candidates, find_witness, send_witness_notification, announce,
  find_and_announce, select_as, handle_witness_selection,
}
use go_clarinet.Node.Witness.Selection.{
  CanWitness, Agreed, selecting_end, IsSelecting, IsWaiting, unknown_selector, left_to_other_end,
  not_found, not_announced, witnessed, Selection,
}

passed-CanWitness :
    (c : Conn) (p : PeerId) → (p == c.receiver || p == c.sender) ≡ false → CanWitness c p
passed-CanWitness c p h = ground (arith, id_beq_iff p c.receiver, id_beq_iff p c.sender)

ne_nil_of_test : (p : PeerId) → (p == nil_id) ≡ false → p ≢ nil_id
ne_nil_of_test p h = ground (arith, id_beq_iff p nil_id)

some-ne-none : {e : Err} → some e ≢ none
some-ne-none h = cc

trusted-All :
    (c : Conn) (trusted : Bool) (p : Peer) (found : List Peer)
    → CanWitness c p.id
    → All (λ q. CanWitness c q.id) found
    → All (λ q. CanWitness c q.id) (if trusted then found ++ p ∷ [] else found)
trusted-All c true p found hp h = All-append _ found (p ∷ []) h (hp, tt)
trusted-All c false p found hp h = h

module _ {S : Type 0} (env : Env S) where
  -- What the loop over the candidates makes of a connection.
  Found : Options → Conn → Conn × Option Err → Type 0
  Found o c (c', none) = (p : PeerId) × CanWitness c p × Agreed env o c p × (c' ≡ set_witness p c)
  Found o c (c', some e) = c' ≡ c

  candidates_among-All :
      (c : Conn) (ps found : List Peer)
      → All (λ p. CanWitness c p.id) found
      → Ensures (All (λ p. CanWitness c p.id)) (candidates_among env c ps found)
  unfolding candidates_among
  candidates_among-All c [] found h = search ensures
  candidates_among-All c (p ∷ ps) found h =
      Ensures-if _ _ _ _ (λ _. candidates_among-All c ps found h)
        (λ passed.
          Ensures-catch_any _ _ _ _
            (λ t.
              candidates_among-All c ps (if t then found ++ p ∷ [] else found)
                (trusted-All c t p found (passed-CanWitness c p.id passed) h))
            (λ e. Ensures-raise _ e))

  witness_candidates-All :
      (c : Conn) → Ensures (All (λ p. CanWitness c p.id)) (witness_candidates env c)
  unfolding witness_candidates
  witness_candidates-All c =
      Ensures-catch_any _ _ _ _ (λ ps. candidates_among-All c ps [] tt) (λ e. Ensures-raise _ e)

  check_witness_response-Agreed :
      (peer : Peer) (c : Conn) (o : Options) (t : TransportOptions) (resp : WitnessResponse)
      → Answers (env.exchange_witness peer t (witness_request_for c o)) resp
      → Ensures (λ _. Agreed env o c peer.id) (check_witness_response env c resp)
  unfolding check_witness_response
  check_witness_response-Agreed peer c o t resp h =
      Ensures-if _ (resp.connection_id == c.id) _ _
        (λ same.
          Ensures-if _ (is_empty resp.errors) _ _
            (λ clean.
              Ensures-if _ resp.accepted _ _
                (λ yes_. Ensures-pure _ tt (record {
                  peer = peer;
                  is_peer = refl;
                  topts = t;
                  resp = resp;
                  answered = h;
                  about = (nat_beq_iff resp.connection_id c.id).0 same;
                  no_errors = ground arith;
                  accepted = yes_;
                }))
                (λ _. Ensures-raise _ _))
            (λ _. Ensures-raise _ _))
        (λ _. Ensures-raise _ _)

  request_witness-Agreed :
      (peer : Peer) (c : Conn) (o : Options) (t : TransportOptions)
      → Ensures (λ _. Agreed env o c peer.id) (request_witness env peer c o t)
  unfolding request_witness
  request_witness-Agreed peer c o t =
      Ensures-catch _ _ _ _ _ (Ensures-transmit _ peer _)
        (λ resp h. check_witness_response-Agreed peer c o t resp h) (λ e. Ensures-raise _ e)

  try_candidates-Found :
      (ps : List Peer) (c : Conn) (o : Options) (t : TransportOptions)
      → All (λ p. CanWitness c p.id) ps
      → Ensures (Found o c) (try_candidates env ps c o t)
  unfolding try_candidates Found
  try_candidates-Found [] c o t h = Ensures-pure _ _ refl
  try_candidates-Found (p ∷ ps) c o t h =
      Ensures-catch _ _ _ _ _ (request_witness-Agreed p c o t)
        (λ _ agreed. Ensures-pure _ _ (p.id, h.0, agreed, refl))
        (λ _. try_candidates-Found ps c o t h.1)

  find_witness-Found :
      (c : Conn) (o : Options) (t : TransportOptions)
      → Ensures (Found o (set_status requesting_witness c)) (find_witness env c o t)
  unfolding find_witness Found
  find_witness-Found c o t =
      Ensures-catch _ _ _ _ _ (witness_candidates-All (set_status requesting_witness c))
        (λ ps h. try_candidates-Found ps (set_status requesting_witness c) o t h)
        (λ e. Ensures-pure _ _ refl)

  send_witness_notification-ne_nil :
      (c : Conn) (t : TransportOptions)
      → Ensures (λ _. c.witness ≢ nil_id) (send_witness_notification env c t)
  unfolding send_witness_notification
  send_witness_notification-ne_nil c t =
      Ensures-if _ (c.witness == nil_id) _ _ (λ _. Ensures-raise _ _)
        (λ h. Ensures-holds _ _ (ne_nil_of_test c.witness h))

  announce-Selected :
      (o : Options) (c c' : Conn) (t : TransportOptions) (e : Option Err)
      → IsSelecting env o c
      → Found o (set_status requesting_witness c) (c', e)
      → Ensures (Selection env o c) (announce env c' t e)
  unfolding announce Found set_status set_witness
  announce-Selected o c c' t (some e) own h =
      Ensures-pure (Selection env o c) _ (not_found own h some-ne-none)
  announce-Selected o c c' t none own (p, free, agreed, h) =
      Ensures-catch (λ _. c'.witness ≢ nil_id) (Selection env o c) _ _ _
        (send_witness_notification-ne_nil (set_status notifying_of_witness c') t)
        (λ _ nonnil. Ensures-pure (Selection env o c) _ (
          witnessed p own (free_to_witness free) (agreed_to agreed)
            (λ q. nonnil (ap (λ d. d.witness) h ∙ q)) (ap (λ d. set_status opened d) h) refl))
        (λ e. Ensures-pure (Selection env o c) _ (
          not_announced p own (free_to_witness free) (agreed_to agreed)
            (ap (λ d. set_status notifying_of_witness d) h) some-ne-none))
    where
      free_to_witness : CanWitness (set_status requesting_witness c) p → CanWitness c p
      free_to_witness f = record { not_receiver = f.not_receiver; not_sender = f.not_sender }

      agreed_to : Agreed env o (set_status requesting_witness c) p → Agreed env o c p
      agreed_to a = record {
        peer = a.peer;
        is_peer = a.is_peer;
        topts = a.topts;
        resp = a.resp;
        answered = a.answered;
        about = a.about;
        no_errors = a.no_errors;
        accepted = a.accepted;
      }

  find_and_announce-Selected :
      (c : Conn) (o : Options) (t : TransportOptions)
      → IsSelecting env o c
      → Ensures (Selection env o c) (find_and_announce env c o t)
  unfolding find_and_announce
  find_and_announce-Selected c o t own =
      Ensures-catch (Found o (set_status requesting_witness c)) (Selection env o c) _ _ _
        (find_witness-Found c o t) (λ (c', e) h. announce-Selected o c c' t e own h)
        (λ e. Ensures-raise (Selection env o c) e)

  left-Selected :
      (c : Conn) (o : Options)
      → IsWaiting env o c
      → Ensures {S = S} (Selection env o c) (pure (some (set_status awaiting_witness c), none))
  left-Selected c o other = Ensures-pure (Selection env o c) _ (left_to_other_end other refl refl)

  -- The test of the end that the selector names, whichever it is.
  at_end :
      (self : Peer) (end : PeerId) (c : Conn) (o : Options) (t : TransportOptions)
      → Answers env.self self
      → selecting_end o.witness_selector c ≡ some end
      → Ensures (Selection env o c) (
          if self.id == end
          then find_and_announce env c o t
          else pure (some (set_status awaiting_witness c), none))
  at_end self end c o t found named =
      Ensures-if (Selection env o c) (self.id == end) _ _
        (λ own. find_and_announce-Selected c o t (record {
          self = self;
          self_found = found;
          named = named ∙ ap some (sym ((id_beq_iff self.id end).0 own));
        }))
        (λ apart. left-Selected c o (record {
          self = self;
          selector = end;
          self_found = found;
          named = named;
          apart = λ same. cc ((id_beq_iff self.id end).1 same, apart);
        }))

  select_as-Selected :
      (self : Peer) (s : WitnessSelector) (c : Conn) (o : Options) (t : TransportOptions)
      → Answers env.self self
      → o.witness_selector ≡ s
      → Ensures (Selection env o c) (select_as env self.id s c o t)
  unfolding select_as
  select_as-Selected self nil_selector c o t found is =
      Ensures-pure (Selection env o c) _ (unknown_selector is refl refl)
  select_as-Selected self sender_selects c o t found is =
      at_end self c.sender c o t found (rw is refl)
  select_as-Selected self receiver_selects c o t found is =
      at_end self c.receiver c o t found (rw is refl)

  pub handle_witness_selection-Selected :
      (c : Conn) (o : Options) (t : TransportOptions)
      → Ensures (Selection env o c) (handle_witness_selection env c o t)
  unfolding handle_witness_selection
  handle_witness_selection-Selected c o t =
      Ensures-catch (Answers env.self) (Selection env o c) _ _ _ (Ensures-external env.self)
        (λ self found. select_as-Selected self o.witness_selector c o t found refl)
        (λ e. Ensures-raise (Selection env o c) e)
