-- ===== src/Transport/Client/Outcomes.antt =====
-- What the caller of an exchange gets, and what goes into its stream.
use go_clarinet.Base.{
  ℕ, ◌≡◌, refl, inl, inr, Bool-cases, true, false, some, [], ◌∷◌, Bytes, append-nil,
}
use go_clarinet.Base.Lists.{length, take-length}
use go_clarinet.Peer.{some_id, Peer}
use go_clarinet.World.{TransportOptions}
use go_clarinet.Wire.Parts.{parsed}
use go_clarinet.Wire.Messages.{Texts}
use go_clarinet.Wire.Payload.{Payload, Kind, deserialize}
use go_clarinet.Wire.Payload.RoundTrip.{Sent}
use go_clarinet.Transport.Stream.{
  Protocol, stream_fault, done, failed, write_deadline, wrote, or_default,
}
use go_clarinet.Transport.Serve.Outcomes.{bytes_of}
use go_clarinet.Transport.Client.{
  Network, protocol_of, started, open_stream, send_internal, send, exchange,
}

module _ (texts : Texts) (net : Network) (to : Peer) (n : ℕ) (o : TransportOptions) (p : Payload)
    (sent : Sent texts p) (protocol : Protocol) (known : to.id ≡ some_id n)
    (decodes : texts.peer_decode (texts.peer_string n) ≡ some n)
    (has_protocol : protocol_of p ≡ some protocol)
    (dials : (protocol : Protocol) (timeout : ℕ) → net.dial n protocol timeout ≡ true)
    (takes : (s : Bytes) → net.write s ≡ (length s, false)) where
  pub starts :
      send_internal texts net to o p
      ≡ started sent.bytes (write_deadline (or_default o.write_timeout) ∷ wrote sent.bytes ∷ [])
  unfolding send_internal open_stream
  starts = (rw (has_protocol, known, decodes, dials, sent.written, takes, take-length) refl)

  pub exchange_answered :
      (kind : Kind) (bytes : Bytes) (resp : Payload)
      → net.reply sent.bytes ≡ record { bytes = bytes; broken = false }
      → deserialize texts bytes kind ≡ parsed resp
      → (exchange texts net to o p kind).1 ≡ done resp
  unfolding exchange
  exchange_answered kind bytes resp replied back = rw (starts, replied, back) refl

  pub exchange_broken :
      (kind : Kind)
      → (net.reply sent.bytes).broken ≡ true
      → (exchange texts net to o p kind).1 ≡ failed stream_fault
  unfolding exchange
  exchange_broken kind broken = rw (starts, broken) refl

  pub send_done : (send texts net to o p).0 ≡ done tt
  unfolding send
  send_done = rw (starts) refl

  -- `Send` and `Exchange` write the serialized request, and nothing else.
  pub bytes_of-send : bytes_of (send texts net to o p).1 ≡ sent.bytes
  unfolding send bytes_of
  bytes_of-send = rw (starts) (append-nil sent.bytes)

  pub bytes_of-exchange : (kind : Kind) → bytes_of (exchange texts net to o p kind).2 ≡ sent.bytes
  unfolding exchange bytes_of
  bytes_of-exchange kind = elim (Bool-cases (net.reply sent.bytes).broken) [
    | inl broken ↦ rw (starts, broken) (append-nil sent.bytes)
    | inr live ↦ rw (starts, live) (append-nil sent.bytes)
  ]
