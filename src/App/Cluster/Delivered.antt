-- ===== src/App/Cluster/Delivered.antt =====
-- What comes of a call to another node, from what the handler at the other end comes to.
use mathlib.Core.Path.{subst}
use go_clarinet.Base.{ℕ, ◌≡◌, refl, sym, ap, ◌∙◌, true, false, not, some, List}
use go_clarinet.Base.Eq.{◌==◌, nat_eq, nat_beq_iff}
use go_clarinet.Peer.{some_id, Peer}
use go_clarinet.World.{World, Result, ok, TransportOptions}
use go_clarinet.Wire.Messages.{Texts}
use go_clarinet.Wire.Messages.Fields.{Faithful}
use go_clarinet.Wire.Payload.{Payload, Kind, kind_of}
use go_clarinet.Wire.Payload.RoundTrip.{IsSendable, Sent, serialize-Sent}
use go_clarinet.Transport.Stream.{Protocol, StreamEvent, done}
use go_clarinet.Transport.Serve.{Endpoint, serve}
use go_clarinet.Transport.Serve.Outcomes.{serve_world, whole, bytes_of}
use go_clarinet.Transport.Client.{protocol_of, exchange, send}
use go_clarinet.Transport.Client.Outcomes.{send_done, bytes_of-send, bytes_of-exchange}
use go_clarinet.Transport.Delivery.{Reaches, Answers, delivered, exchange-serve}
use go_clarinet.App.Cluster.{Around, update, stream_to, after_call}

module _ {A : Type 0} (f : ℕ → A) (n : ℕ) (a : A) where
  pub update_here : update f n a n ≡ a
  unfolding update
  update_here = rw ((nat_beq_iff n n).1 refl) refl

  pub update_other : (m : ℕ) → (m == n) ≡ false → update f n a m ≡ f m
  unfolding update
  update_other m apart = rw apart refl

module _ (texts : Texts) (faithful : Faithful texts) (me n : ℕ) {S : Type 0} (e : Endpoint S)
    (to : Peer) (known : to.id ≡ some_id n) (apart : (n == me) ≡ false) (o : TransportOptions)
    (p : Payload) (sendable : IsSendable p) (right : e.kind ≡ kind_of p) (protocol : Protocol)
    (has_protocol : protocol_of p ≡ some protocol) where
  dials : not (n == me) ≡ true
  dials = ap not apart

  sent : Sent texts p
  sent = serialize-Sent texts faithful p sendable

  module _ (w w' : World S) (r : Result Payload)
      (handled : e.handle (some_id me) p w ≡ (r, w')) where
    came_in : (serve texts e whole (some_id me) sent.bytes w).world ≡ w'
    came_in = serve_world texts e w w' (some_id me) p sent right r handled

  reaches : (w : World S) → Reaches texts (stream_to texts me e w) n e (some_id me) w
  reaches w = record { dials = λ q t. dials; takes = λ b. refl; replies = λ b. refl }

  arrives :
      (events : List StreamEvent) (s : Around S) (w' : World S) (r : Result Payload)
      → bytes_of events ≡ sent.bytes
      → e.handle (some_id me) p (s.nodes n) ≡ (r, w')
      → after_call texts me n e events s ≡ record s { nodes = update s.nodes n w' }
  unfolding after_call
  arrives events s w' r written handled =
      ap (λ w. record s { nodes = update s.nodes n w })
        (rw written (came_in (s.nodes n) w' r handled))

  -- After what `Send` wrote, the other node is left as the handler leaves it.
  pub sent_arrives :
      (s : Around S) (w' : World S) (r : Result Payload)
      → e.handle (some_id me) p (s.nodes n) ≡ (r, w')
      → after_call texts me n e (send texts (stream_to texts me e (s.nodes n)) to o p).1 s
        ≡ record s { nodes = update s.nodes n w' }
  sent_arrives s w' r handled =
      arrives _ s w' r
        (bytes_of-send texts (stream_to texts me e (s.nodes n)) to n o p sent protocol known
          (faithful.peer n) has_protocol (λ q t. dials) (λ b. refl))
        handled

  -- After what `Exchange` wrote, the other node is left as the handler leaves it.
  pub exchange_arrives :
      (kind : Kind) (s : Around S) (w' : World S) (r : Result Payload)
      → e.handle (some_id me) p (s.nodes n) ≡ (r, w')
      → after_call texts me n e (exchange texts (stream_to texts me e (s.nodes n)) to o p kind).2 s
        ≡ record s { nodes = update s.nodes n w' }
  exchange_arrives kind s w' r handled =
      arrives _ s w' r
        (bytes_of-exchange texts (stream_to texts me e (s.nodes n)) to n o p sent protocol known
          (faithful.peer n) has_protocol (λ q t. dials) (λ b. refl) kind)
        handled

  -- The caller of an exchange gets the answer of the handler.
  pub answered :
      (w w' : World S) (kind : Kind) (resp : Payload)
      → e.has_resp ≡ true
      → e.handle (some_id me) p w ≡ (ok resp, w')
      → Answers kind (ok resp)
      → (exchange texts (stream_to texts me e w) to o p kind).1 ≡ done resp
  answered w w' kind resp answers handled can =
      exchange-serve texts faithful (stream_to texts me e w) e (some_id me) w to n known (reaches w)
        p sendable right protocol has_protocol kind o answers
        (subst (Answers kind) (sym (ap (λ q. q.0) handled)) can)
      ∙ ap (λ q. delivered q.0) handled

  pub was_sent : (w : World S) → (send texts (stream_to texts me e w) to o p).0 ≡ done tt
  was_sent w =
      send_done texts (stream_to texts me e w) to n o p sent protocol known (faithful.peer n)
        has_protocol (λ q t. dials) (λ b. refl)
