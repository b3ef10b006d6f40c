-- ===== src/Transport/Stream.antt =====
-- Streams: what is read from them, and what is done to them.
use go_clarinet.Base.{ℕ, ◌*◌, ◌^◌, Bool, Option, none, some, [], ◌∷◌, Bytes, codes, if◌then◌else◌}
use go_clarinet.Base.Eq.{◌==◌, nat_eq}
use go_clarinet.Base.Options.{◌>>=◌}
use go_clarinet.Connection.Error.{Err}
use go_clarinet.Wire.Parts.{WireErr}

-- The protocols that a node has a handler for.
pub data Protocol : Type 0 where
  connect witness peers witness_notification close : Protocol

unfoldable pub protocol_text : Protocol → Bytes
protocol_text connect = codes "/connect"
protocol_text witness = codes "/witness"
protocol_text peers = codes "/peers"
protocol_text witness_notification = codes "/witness-notification"
protocol_text close = codes "/close"

-- The calls that change a stream, in nanoseconds from the time of the call, and the bytes that went
-- into it.
pub data StreamEvent : Type 0 where
  deadline : ℕ → StreamEvent
  read_deadline : ℕ → StreamEvent
  write_deadline : ℕ → StreamEvent
  wrote : Bytes → StreamEvent
  closed : StreamEvent
  reset : StreamEvent

-- What ends a stream early.
pub data Fault : Type 0 where
  -- an error of the host or of the stream
  stream_fault : Fault
  no_such_peer : Fault
  unsupported_type : Fault
  wire : WireErr → Fault
  handler : Err → Fault
  short_write : ℕ → ℕ → Fault
  undecodable : WireErr → Fault
  unencodable : WireErr → Fault

pub data Outcome {ℓ} (A : Type ℓ) : Type ℓ where
  done : A → Outcome A
  failed : Fault → Outcome A
  crashed : Outcome A

-- What comes in over a stream: some bytes, and then its end or an error.
pub record Incoming : Type 0 where
  pub bytes : Bytes
  pub broken : Bool

-- How many bytes a `Write` takes, and whether it returns an error.
abbrev pub Writer : Type 0
Writer = Bytes → ℕ × Bool

-- `ReadBytes(';')`: an error if the text ends, or breaks off, before a semicolon.
unfoldable pub read_bytes : Bytes → Option Bytes
read_bytes [] = none
read_bytes (c ∷ s) =
    let rest = (do raw ← read_bytes s; some (c ∷ raw)) in if c == b';' then some (c ∷ []) else rest

-- `10 * time.Second`, where an option is nil
unfoldable pub or_default : Option ℕ → ℕ
or_default none = 10 * 10 ^ 9
or_default (some timeout) = timeout
