-- ===== src/Transport/Delivery.antt =====
-- The two sides of a stream together: an exchange comes to what the handler at the other end does.
use go_clarinet.Base.{ℕ, ◌≡◌, refl, Bool, true, false, some, Bytes}
use go_clarinet.Base.Lists.{length}
use go_clarinet.Peer.{PeerId, some_id, Peer}
use go_clarinet.World.{World, Result, ok, err, panicked, TransportOptions}
use go_clarinet.Wire.Messages.{Texts}
use go_clarinet.Wire.Messages.Fields.{Faithful}
use go_clarinet.Wire.Payload.{Payload, Kind, kind_of}
use go_clarinet.Wire.Payload.RoundTrip.{IsSendable, Sent, serialize-Sent}
use go_clarinet.Transport.Stream.{Protocol, stream_fault, Outcome, done, failed, crashed, Incoming}
use go_clarinet.Transport.Serve.{Endpoint, Served, serve}
use go_clarinet.Transport.Serve.Outcomes.{
  bytes_of, whole, serve_world, serve_answers, serve_fails, serve_panics,
}
use go_clarinet.Transport.Client.{Network, protocol_of, exchange, send}
use go_clarinet.Transport.Client.Outcomes.{
  exchange_answered, exchange_broken, send_done, bytes_of-send,
}

abbrev pub is_broken : Outcome (Unit {0}) → Bool
is_broken (done x) = false
is_broken (failed e) = true
is_broken crashed = true

-- What the other side of a stream reads: all that was written, and then the end if the stream was
-- closed, or an error if it was reset or its node died.
abbrev pub reply_of : {S : Type 0} → Served S → Incoming
reply_of served = record { bytes = bytes_of served.events; broken = is_broken served.outcome }

-- The host connects the caller to an endpoint of the node `n`, in the state `w`, where the caller is
-- known as `local`: streams open, take every write whole and carry both directions.
pub record Reaches {S : Type 0} (texts : Texts) (net : Network) (n : ℕ) (e : Endpoint S)
    (local : PeerId) (w : World S) : Type 0 where
  pub dials : (protocol : Protocol) (timeout : ℕ) → net.dial n protocol timeout ≡ true
  pub takes : (s : Bytes) → net.write s ≡ (length s, false)
  pub replies : (s : Bytes) → net.reply s ≡ reply_of (serve texts e whole local s w)

-- What the caller gets for the result of a handler that answers: the answer, or an error.
abbrev pub delivered : Result Payload → Outcome Payload
delivered (ok resp) = done resp
delivered (err e) = failed stream_fault
delivered panicked = failed stream_fault

-- A result, if it is an answer, can be sent, and is of the kind.
abbrev pub Answers : Kind → Result Payload → Type 0
Answers kind (ok resp) = IsSendable resp × (kind_of resp ≡ kind)
Answers kind _ = Unit

module _ (texts : Texts) (faithful : Faithful texts) (net : Network) {S : Type 0} (e : Endpoint S)
    (local : PeerId) (w : World S) (to : Peer) (n : ℕ) (known : to.id ≡ some_id n)
    (reaches : Reaches texts net n e local w) (p : Payload) (sendable : IsSendable p)
    (right : e.kind ≡ kind_of p) (protocol : Protocol)
    (has_protocol : protocol_of p ≡ some protocol) where
  sent : Sent texts p
  sent = serialize-Sent texts faithful p sendable

  replied_broken :
      (outcome : Outcome (Unit {0}))
      → (serve texts e whole local sent.bytes w).outcome ≡ outcome
      → is_broken outcome ≡ true
      → (net.reply sent.bytes).broken ≡ true
  replied_broken outcome served broken = rw (reaches.replies sent.bytes, served) broken

  exchange_as :
      (kind : Kind) (o : TransportOptions) (w' : World S) (r : Result Payload)
      → e.has_resp ≡ true
      → e.handle local p w ≡ (r, w')
      → Answers kind r
      → (exchange texts net to o p kind).1 ≡ delivered r
  exchange_as kind o w' (ok resp) answers handled (can, right_kind) =
      let answer = serialize-Sent texts faithful resp can in
      let (is_done, same, back) =
        serve_answers texts e w w' local p sent right resp answer answers handled in
      exchange_answered texts net to n o p sent protocol known (faithful.peer n) has_protocol
        reaches.dials reaches.takes kind answer.bytes resp
        (rw (reaches.replies sent.bytes, is_done, back) refl) (rw (← right_kind) answer.read)
  exchange_as kind o w' (err x) answers handled h =
      exchange_broken texts net to n o p sent protocol known (faithful.peer n) has_protocol
        reaches.dials reaches.takes kind
        (replied_broken _ (serve_fails texts e w w' local p sent right x handled).0 refl)
  exchange_as kind o w' panicked answers handled h =
      exchange_broken texts net to n o p sent protocol known (faithful.peer n) has_protocol
        reaches.dials reaches.takes kind
        (replied_broken _ (serve_panics texts e w w' local p sent right handled).0 refl)

  pub exchange-serve :
      (kind : Kind) (o : TransportOptions)
      → e.has_resp ≡ true
      → Answers kind (e.handle local p w).0
      → (exchange texts net to o p kind).1 ≡ delivered (e.handle local p w).0
  exchange-serve kind o answers h =
      exchange_as kind o (e.handle local p w).1 (e.handle local p w).0 answers refl h

  -- What `Send` writes into its stream makes the other end run the endpoint's handler on the sent value,
  -- which leaves its node as the handler does; the caller gets no error, whatever the handler comes to.
  -- The two nodes' host carries the stream, and the value can be sent and is of the endpoint's type.
  pub send-serve :
      (o : TransportOptions)
      → ((send texts net to o p).0 ≡ done tt)
        × ((serve texts e whole local (bytes_of (send texts net to o p).1) w).world
            ≡ (e.handle local p w).1)
  send-serve o = (
    send_done texts net to n o p sent protocol known (faithful.peer n) has_protocol reaches.dials
        reaches.takes,
    rw
        (bytes_of-send texts net to n o p sent protocol known (faithful.peer n) has_protocol
          reaches.dials reaches.takes)
        (serve_world texts e w (e.handle local p w).1 local p sent right (e.handle local p w).0
          refl),
  )
