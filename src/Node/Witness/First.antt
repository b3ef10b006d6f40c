-- ===== src/Node/Witness/First.antt =====
-- Which witness is found: the first peer that may be one and agrees.
use go_clarinet.Base.{
  ◌≡◌, refl, Bool, true, false, Bool-cases, inl, inr, ◌&&◌, Option, none, some, List, [], ◌∷◌, ◌++◌,
  if◌then◌else◌, arith,
}
use go_clarinet.Base.Eq.{◌==◌, nat_eq}
use go_clarinet.Peer.{Peer, peer_id_eq}
use go_clarinet.Reputation.{Reputation}
use go_clarinet.Connection.{
  Conn, Options, WitnessRequest, WitnessResponse, set_status, set_witness, requesting_witness,
}
use go_clarinet.Connection.Error.{
  Err, no_witness_found, wrong_witness_id, witness_errors, witness_rejected,
}
use go_clarinet.World.{
  World, Env, TransportOptions, witness_request, ok, err, pure, raise, transmit, catch,
}
use go_clarinet.Node.Witness.{
  is_empty, witness_request_for, check_witness_response, request_witness, try_candidates,
  find_witness,
}
use go_clarinet.Node.Witness.Candidates.{Judging, filter, may_witness, witness_candidates-filter}

-- The outside keeps its state, and answers as these functions do.
pub record Steady {S : Type 0} (env : Env S) : Type 0 where
  pub peers : List Peer
  pub trusted : Reputation → Bool
  pub answer : Peer → WitnessRequest → WitnessResponse
  pub lists : (s : S) → env.all_peers s ≡ (ok peers, s)
  pub judges : (rep : Reputation) (s : S) → env.trusts rep s ≡ (ok (trusted rep), s)
  pub answers :
      (p : Peer) (o : TransportOptions) (r : WitnessRequest) (s : S)
      → env.exchange_witness p o r s ≡ (ok (answer p r), s)

unfoldable pub first : (Peer → Bool) → List Peer → Option Peer
first test [] = none
first test (p ∷ ps) = if test p then some p else first test ps

-- The end of the search: with the witness, or with the error that there is none.
abbrev pub chosen : Conn → Option Peer → Conn × Option Err
chosen conn none = (conn, some (no_witness_found conn.id))
chosen conn (some p) = (set_witness p.id conn, none)

all_hold : (a b c : Bool) → (a && b && c) ≡ true → (a ≡ true) × (b ≡ true) × (c ≡ true)
all_hold a b c h = (ground arith, ground arith, ground arith)

module _ {S : Type 0} (env : Env S) (steady : Steady env) where
  abbrev judging : (s : S) → Judging env s
  judging s = record {
    peers = steady.peers;
    trusted = steady.trusted;
    lists = steady.lists s;
    judges = λ rep. steady.judges rep s;
  }

  -- The answer is for the connection, has no errors, and accepts.
  unfoldable pub agrees : Conn → Options → Peer → Bool
  agrees conn options p =
      let resp = steady.answer p (witness_request_for conn options) in
      (resp.connection_id == conn.id) && is_empty resp.errors && resp.accepted

  asked : Conn → Options → Peer → World S → World S
  asked conn options p w = record w {
    sent = w.sent ++ (p, witness_request (witness_request_for conn options)) ∷ [];
  }

  check_passes :
      (conn : Conn) (resp : WitnessResponse) (w : World S)
      → ((resp.connection_id == conn.id) && is_empty resp.errors && resp.accepted) ≡ true
      → check_witness_response env conn resp w ≡ (ok tt, w)
  unfolding check_witness_response raise pure
  check_passes conn resp w h =
      let (same, empty, accepts) =
        all_hold (resp.connection_id == conn.id) (is_empty resp.errors) resp.accepted h in
      rw (same, empty, accepts) refl

  check_fails :
      (conn : Conn) (resp : WitnessResponse) (w : World S) (same_id no_errors accepts : Bool)
      → (resp.connection_id == conn.id) ≡ same_id
      → is_empty resp.errors ≡ no_errors
      → resp.accepted ≡ accepts
      → (same_id && no_errors && accepts) ≡ false
      → (e : Err) × (check_witness_response env conn resp w ≡ (err e, w))
  unfolding check_witness_response raise
  check_fails conn resp w false no_errors accepts same empty q h =
      (wrong_witness_id resp.connection_id conn.id, rw same refl)
  check_fails conn resp w true false accepts same empty q h =
      (witness_errors resp.errors, rw (same, empty) refl)
  check_fails conn resp w true true false same empty q h =
      (witness_rejected resp.connection_id resp.reject_reasons, rw (same, empty, q) refl)
  check_fails conn resp w true true true same empty q h = absurd (ground arith)

  request_agreed :
      (conn : Conn) (options : Options) (o : TransportOptions) (p : Peer) (w : World S)
      → agrees conn options p ≡ true
      → request_witness env p conn options o w ≡ (ok tt, asked conn options p w)
  unfolding request_witness catch transmit agrees asked
  request_agreed conn options o p w h =
      let request = witness_request_for conn options in
      rw (steady.answers p o request w.outside)
        (check_passes conn (steady.answer p request) (asked conn options p w) h)

  request_refused :
      (conn : Conn) (options : Options) (o : TransportOptions) (p : Peer) (w : World S)
      → agrees conn options p ≡ false
      → (e : Err) × (request_witness env p conn options o w ≡ (err e, asked conn options p w))
  unfolding request_witness catch transmit agrees asked
  request_refused conn options o p w h =
      let request = witness_request_for conn options in
      let (e, fails) =
        check_fails conn (steady.answer p request) (asked conn options p w) _ _ _ refl refl refl
          h in
      (e, rw (steady.answers p o request w.outside) fails)

  tried :
      (conn : Conn) (options : Options) (o : TransportOptions) (ps : List Peer) (w : World S)
      → (try_candidates env ps conn options o w).0
        ≡ ok (chosen conn (first (agrees conn options) ps))
  unfolding try_candidates first catch pure
  tried conn options o [] w = refl
  tried conn options o (p ∷ ps) w = elim (Bool-cases (agrees conn options p)) [
    | inl yes_to ↦ rw (request_agreed conn options o p w yes_to, yes_to) refl
    | inr no_to ↦
        (let (e, refused) = request_refused conn options o p w no_to in
          rw (refused, no_to) (tried conn options o ps (asked conn options p w)))
  ]

  -- The witness that is found is the first of the store's peers that is neither end of the connection,
  -- is trusted, and agrees; if there is none, the connection comes back beside an error. The outside
  -- answers as functions do.
  pub find_witness-first :
      (conn : Conn) (options : Options) (o : TransportOptions) (w : World S)
      → (let conn' = set_status requesting_witness conn in
          (find_witness env conn options o w).0
          ≡ ok (
              chosen conn' (
                first
                  (agrees conn' options)
                  (filter (may_witness steady.trusted w.reps conn') steady.peers))))
  unfolding find_witness catch
  find_witness-first conn options o w =
      let conn' = set_status requesting_witness conn in
      let (reps', listed, same) = witness_candidates-filter env conn' w (judging w.outside) in
      rw listed (
        tried conn' options o (filter (may_witness steady.trusted w.reps conn') steady.peers)
          (record w { reps = reps' }))
