-- ===== src/Transport/Serve/Outcomes.antt =====
-- What a handled message does to its stream.
use go_clarinet.Base.{
  ℕ, ◌≡◌, refl, inl, inr, Bool-cases, true, false, Option, none, some, List, [], ◌∷◌, ◌++◌,
  append-nil, append_assoc, Bytes, arith,
}
use go_clarinet.Base.Eq.{nat_eq, nat_beq_iff}
use go_clarinet.Base.Lists.{All, length, take-length}
use go_clarinet.Peer.{PeerId}
use go_clarinet.Connection.Error.{Err}
use go_clarinet.World.{World, Result, ok, err, panicked}
use go_clarinet.Wire.Base64.RoundTrip.{NoEnd}
use go_clarinet.Wire.Parts.{parsed}
use go_clarinet.Wire.Messages.{Texts}
use go_clarinet.Wire.Messages.Framing.{IsFramed}
use go_clarinet.Wire.Payload.{Payload, kind_of, deserialize}
use go_clarinet.Wire.Payload.RoundTrip.{Sent}
use go_clarinet.Transport.Stream.{
  StreamEvent, deadline, read_deadline, write_deadline, wrote, closed, reset, done, failed, crashed,
  handler, Writer, read_bytes,
}
use go_clarinet.Transport.Serve.{Endpoint, Served, respond, serve, read_deadlines, last_event}

-- `ReadBytes(';')` takes a message whole, whatever follows it.
read-append :
    (body rest : Bytes)
    → All NoEnd body
    → read_bytes (body ++ b';' ∷ rest) ≡ some (body ++ b';' ∷ [])
unfolding read_bytes
read-append [] rest h = refl
read-append (c ∷ body) rest (hc, h) = ground (arith, read-append body rest h)

read-IsFramed : (s : Bytes) → IsFramed s → read_bytes s ≡ some s
read-IsFramed s framed = rw (framed.whole) (read-append framed.body [] framed.inside)

-- The bytes that went into a stream.
unfoldable pub bytes_of : List StreamEvent → Bytes
bytes_of [] = []
bytes_of (wrote s ∷ events) = s ++ bytes_of events
bytes_of (deadline n ∷ events) = bytes_of events
bytes_of (read_deadline n ∷ events) = bytes_of events
bytes_of (write_deadline n ∷ events) = bytes_of events
bytes_of (closed ∷ events) = bytes_of events
bytes_of (reset ∷ events) = bytes_of events

bytes_of-deadlines :
    {S : Type 0} (e : Endpoint S) (o : Option ℕ) (events : List StreamEvent)
    → bytes_of (read_deadlines e.options o ++ events) ≡ bytes_of events
unfolding bytes_of read_deadlines
bytes_of-deadlines e none events = refl
bytes_of-deadlines e (some n) events = refl

-- A stream that takes every write whole.
abbrev pub whole : Writer
whole s = (length s, false)

module _ (texts : Texts) {S : Type 0} (e : Endpoint S) (w w' : World S) (peer : PeerId)
    (p : Payload) (sent : Sent texts p) (right : e.kind ≡ kind_of p) where
  reads : deserialize texts sent.bytes e.kind ≡ parsed p
  reads = rw right (sent.read)

  finished : Served S → Served S
  finished served = record served {
    events =
        (read_deadlines e.options e.options.timeout ++ served.events) ++ last_event served.outcome;
  }

  -- The message reaches the handler, and its result decides.
  serve_lem :
      (r : Result Payload)
      → e.handle peer p w ≡ (r, w')
      → serve texts e whole peer sent.bytes w ≡ finished (respond texts e whole r w')
  unfolding serve finished
  serve_lem r handled = rw (read-IsFramed sent.bytes sent.framed, reads, handled) refl

  respond_world : (r : Result Payload) → (respond texts e whole r w').world ≡ w'
  unfolding respond
  respond_world (ok resp) = elim (Bool-cases e.has_resp) [
    | inl answers ↦ rw answers refl
    | inr silent ↦ rw silent refl
  ]
  respond_world (err x) = refl
  respond_world panicked = refl

  pub serve_world :
      (r : Result Payload)
      → e.handle peer p w ≡ (r, w')
      → (serve texts e whole peer sent.bytes w).world ≡ w'
  unfolding finished
  serve_world r handled = rw (serve_lem r handled) (respond_world r)

  pub serve_answers :
      (resp : Payload) (answer : Sent texts resp)
      → e.has_resp ≡ true
      → e.handle peer p w ≡ (ok resp, w')
      → ((serve texts e whole peer sent.bytes w).outcome ≡ done tt)
        × ((serve texts e whole peer sent.bytes w).world ≡ w')
        × (bytes_of (serve texts e whole peer sent.bytes w).events ≡ answer.bytes)
  unfolding finished respond last_event
  serve_answers resp answer answers handled =
      rw
        (
          serve_lem (ok resp) handled,
          answers,
          answer.written,
          (nat_beq_iff (length answer.bytes) (length answer.bytes)).1 refl,
          take-length answer.bytes,
          append_assoc,
          bytes_of-deadlines e e.options.timeout,
        )
        (refl, refl, unfold bytes_of in append-nil answer.bytes)

  pub serve_fails :
      (x : Err)
      → e.handle peer p w ≡ (err x, w')
      → ((serve texts e whole peer sent.bytes w).outcome ≡ failed (handler x))
        × ((serve texts e whole peer sent.bytes w).world ≡ w')
  unfolding finished respond
  serve_fails x handled = rw (serve_lem (err x) handled) (refl, refl)

  pub serve_panics :
      e.handle peer p w ≡ (panicked, w')
      → ((serve texts e whole peer sent.bytes w).outcome ≡ crashed)
        × ((serve texts e whole peer sent.bytes w).world ≡ w')
  unfolding finished respond
  serve_panics handled = rw (serve_lem panicked handled) (refl, refl)
