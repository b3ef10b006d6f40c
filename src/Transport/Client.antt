-- ===== src/Transport/Client.antt =====
-- `Send`, `Exchange`, `sendInternal` and `openStream`.
pub mod Outcomes
use go_clarinet.Base.{
  ℕ, Bool, true, false, Option, none, some, List, [], ◌∷◌, ◌++◌, Bytes, if◌then◌else◌,
}
use go_clarinet.Base.Lists.{length, take}
use go_clarinet.Peer.{PeerId, nil_id, some_id, Peer}
use go_clarinet.World.{TransportOptions}
use go_clarinet.Wire.Parts.{Parse, parsed, failed as unreadable, crashed as unsafe}
use go_clarinet.Wire.Messages.{Texts}
use go_clarinet.Wire.Payload.{
  Payload, connect_request, witness_request, witness_notification, close_request, peers_request,
  Kind, serialize, deserialize,
}
use go_clarinet.Transport.Stream.{
  Protocol, connect, witness, peers, witness_notification as notification, close, StreamEvent,
  read_deadline, write_deadline, wrote, closed, reset, Fault, stream_fault, no_such_peer,
  unsupported_type, undecodable, unencodable, Outcome, done, failed, crashed, Incoming, Writer,
  or_default,
}

-- The libp2p host, for one stream: whether `NewStream` opens it, how many bytes it takes, and what
-- comes back once these bytes went into it.
pub record Network : Type 0 where
  pub dial : ℕ → Protocol → ℕ → Bool
  pub write : Writer
  pub reply : Bytes → Incoming

unfoldable pub protocol_of : Payload → Option Protocol
protocol_of (connect_request r) = some connect
protocol_of (witness_request r) = some witness
protocol_of (close_request r) = some close
protocol_of (witness_notification n) = some notification
protocol_of (peers_request num) = some peers
protocol_of _ = none

-- How far `sendInternal` comes: without a stream, with a stream and an error, or with the bytes that
-- went into the stream.
pub data Started : Type 0 where
  no_stream : Fault → Started
  stream_failed : Fault → List StreamEvent → Started
  started : Bytes → List StreamEvent → Started
  start_crashed : Started

module _ (texts : Texts) (net : Network) where
  dialled : Option ℕ → Protocol → TransportOptions → Outcome (Unit {0})
  unfolding or_default
  dialled none protocol o = failed no_such_peer
  dialled (some id) protocol o =
      if net.dial id protocol (or_default o.timeout) then done tt else failed stream_fault

  -- `peer.ID().String()` is a call on a nil interface where the id is nil.
  unfoldable pub open_stream : PeerId → Protocol → TransportOptions → Outcome (Unit {0})
  unfolding dialled
  open_stream nil_id protocol o = crashed
  open_stream (some_id n) protocol o = dialled (texts.peer_decode (texts.peer_string n)) protocol o

  -- A short write without an error goes unnoticed.
  write_data : TransportOptions → Parse Bytes → Started
  unfolding or_default
  write_data o unsafe = start_crashed
  write_data o (unreadable e) =
      stream_failed (unencodable e) (write_deadline (or_default o.write_timeout) ∷ [])
  write_data o (parsed enc) =
      let sent = take (net.write enc).0 enc in
      let events = write_deadline (or_default o.write_timeout) ∷ wrote sent ∷ [] in
      if (net.write enc).1 then stream_failed stream_fault events else started sent events

  after_open : TransportOptions → Payload → Outcome (Unit {0}) → Started
  unfolding write_data
  after_open o p (done x) = write_data o (serialize texts p)
  after_open o p (failed e) = no_stream e
  after_open o p crashed = start_crashed

  send_as : Option Protocol → Peer → TransportOptions → Payload → Started
  unfolding after_open
  send_as none to o p = no_stream unsupported_type
  send_as (some protocol) to o p = after_open o p (open_stream to.id protocol o)

  unfoldable pub send_internal : Peer → TransportOptions → Payload → Started
  unfolding send_as
  send_internal to o p = send_as (protocol_of p) to o p

  finish_send : Started → Outcome (Unit {0}) × List StreamEvent
  finish_send (no_stream e) = (failed e, [])
  finish_send (stream_failed e events) = (failed e, events ++ reset ∷ [])
  finish_send (started sent events) = (done tt, events ++ closed ∷ [])
  finish_send start_crashed = (crashed, [])

  unfoldable pub send : Peer → TransportOptions → Payload → Outcome (Unit {0}) × List StreamEvent
  unfolding finish_send
  send to o p = finish_send (send_internal to o p)

  decoded : Parse Payload → Outcome Payload
  decoded (parsed p) = done p
  decoded (unreadable e) = failed (undecodable e)
  decoded unsafe = crashed

  -- `io.ReadAll` returns what it read beside its error.
  received : Kind → Incoming → List StreamEvent → ℕ × Outcome Payload × List StreamEvent
  unfolding decoded
  received kind incoming events =
      if incoming.broken
      then (length incoming.bytes, failed stream_fault, events ++ reset ∷ [])
      else (
        length incoming.bytes,
        decoded (deserialize texts incoming.bytes kind),
        events ++ closed ∷ [],
      )

  finish_exchange : TransportOptions → Kind → Started → ℕ × Outcome Payload × List StreamEvent
  unfolding received or_default
  finish_exchange o kind (no_stream e) = (0, failed e, [])
  finish_exchange o kind (stream_failed e events) = (0, failed e, events ++ reset ∷ [])
  finish_exchange o kind (started sent events) =
      received kind (net.reply sent) (events ++ read_deadline (or_default o.read_timeout) ∷ [])
  finish_exchange o kind start_crashed = (0, crashed, [])

  -- The number of bytes that came back, the answer, and what was done to the stream.
  unfoldable pub exchange :
      Peer → TransportOptions → Payload → Kind → ℕ × Outcome Payload × List StreamEvent
  unfolding finish_exchange
  exchange to o p kind = finish_exchange o kind (send_internal to o p)
