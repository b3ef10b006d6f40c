-- ===== src/Transport/Serve.antt =====
-- `readWriteWrapper` and `streamCleanupWrapper`.
pub mod Outcomes
use go_clarinet.Base.{
  ℕ, Bool, true, false, Option, none, some, List, [], ◌∷◌, ◌++◌, Bytes, if◌then◌else◌,
}
use go_clarinet.Base.Eq.{◌==◌, nat_eq}
use go_clarinet.Base.Lists.{length, take}
use go_clarinet.Peer.{PeerId}
use go_clarinet.World.{World, Result, ok, err, panicked, TransportOptions, M}
use go_clarinet.Wire.Parts.{Parse, parsed, failed as unreadable, crashed as unsafe}
use go_clarinet.Wire.Messages.{Texts}
use go_clarinet.Wire.Payload.{Payload, Kind, serialize, deserialize}
use go_clarinet.Transport.Stream.{
  StreamEvent, deadline, read_deadline, write_deadline, wrote, closed, reset, Fault, stream_fault,
  wire, handler, short_write, Outcome, done, failed, crashed, Writer, read_bytes, or_default,
}

-- A handler with the type of what it reads, and whether it answers.
pub record Endpoint (S : Type 0) : Type 1 where
  pub kind : Kind
  pub options : TransportOptions
  pub handle : PeerId → Payload → M S Payload
  pub has_resp : Bool

-- What a handler comes to, with the state and what was done to the stream.
pub record Served (S : Type 0) : Type 0 where
  pub outcome : Outcome (Unit {0})
  pub world : World S
  pub events : List StreamEvent

unfoldable pub read_deadlines : TransportOptions → Option ℕ → List StreamEvent
unfolding or_default
read_deadlines o none = read_deadline (or_default o.read_timeout) ∷ []
read_deadlines o (some timeout) = deadline timeout ∷ read_deadline (or_default o.read_timeout) ∷ []

-- `written, err := s.Write(enc)`, and the tests on it
written : ℕ × Bool → Bytes → Outcome (Unit {0})
written (n, true) enc = failed stream_fault
written (n, false) enc = if n == length enc then done tt else failed (short_write (length enc) n)

write_response : TransportOptions → Writer → Parse Bytes → Outcome (Unit {0}) × List StreamEvent
unfolding written or_default
write_response o write (unreadable e) = (failed (wire e), [])
write_response o write unsafe = (crashed, [])
write_response o write (parsed enc) = (
  written (write enc) enc,
  write_deadline (or_default o.write_timeout) ∷ wrote (take (write enc).0 enc) ∷ [],
)

module _ (texts : Texts) {S : Type 0} (e : Endpoint S) (write : Writer) where
  respond : Result Payload → World S → Served S
  unfolding write_response
  respond (ok resp) w =
      if e.has_resp
      then (let (outcome, events) = write_response e.options write (serialize texts resp) in
          record { outcome = outcome; world = w; events = events })
      else record { outcome = done tt; world = w; events = [] }
  respond (err x) w = record { outcome = failed (handler x); world = w; events = [] }
  respond panicked w = record { outcome = crashed; world = w; events = [] }

  handle_request : PeerId → Parse Payload → World S → Served S
  unfolding respond
  handle_request peer (parsed req) w = let (r, w') = e.handle peer req w in respond r w'
  handle_request peer (unreadable x) w = record {
    outcome = failed (wire x);
    world = w;
    events = [];
  }
  handle_request peer unsafe w = record { outcome = crashed; world = w; events = [] }

  handle_raw : PeerId → Option Bytes → World S → Served S
  unfolding handle_request
  handle_raw peer none w = record { outcome = failed stream_fault; world = w; events = [] }
  handle_raw peer (some raw) w = handle_request peer (deserialize texts raw e.kind) w

  -- `readWriteWrapper`, for the bytes that come in before the stream ends, breaks or times out.
  unfoldable pub read_write : PeerId → Bytes → World S → Served S
  unfolding handle_raw read_deadlines
  read_write peer incoming w =
      let served = handle_raw peer (read_bytes incoming) w in
      record served { events = read_deadlines e.options e.options.timeout ++ served.events }

-- `streamCleanupWrapper`: what it does at the end; a panic ends the program.
unfoldable pub last_event : Outcome (Unit {0}) → List StreamEvent
last_event (done x) = closed ∷ []
last_event (failed x) = reset ∷ []
last_event crashed = []

unfoldable pub serve :
    Texts → {S : Type 0} → Endpoint S → Writer → PeerId → Bytes → World S → Served S
unfolding read_write last_event
serve texts e write peer incoming w =
    let served = read_write texts e write peer incoming w in
    record served { events = served.events ++ last_event served.outcome }
