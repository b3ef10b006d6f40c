-- ===== src/Connection.antt =====
-- v2/connection/connection.go, and the connection of starterimpl/inmem/inmem.go: statuses, options,
-- connections, and the messages that set connections up and close them.
pub mod Error
use go_clarinet.Base.{ℕ, Bool, true, false, Bytes, List}
use go_clarinet.Peer.{PeerId, nil_id, Peer}

-- A `connection.ID` is a UUID: 128 bits, compared by `==`.
abbrev pub ConnId : Type 0
ConnId = ℕ

-- The values of `Status`, which is a sealed interface; `opened` is the one that `Open()` returns.
pub data Status : Type 0 where
  requesting_receiver requesting_sender awaiting_witness requesting_witness : Status
  notifying_of_witness opened closing closed : Status

-- The interface `WitnessSelector` is sealed too, but the options' zero value leaves it nil.
pub data WitnessSelector : Type 0 where
  nil_selector sender_selects receiver_selects : WitnessSelector

-- `Status() == connection.Closed()` and `Status() == connection.AwaitingWitness()`
abbrev pub is_closed : Status → Bool
is_closed closed = true
is_closed _ = false

abbrev pub is_awaiting_witness : Status → Bool
is_awaiting_witness awaiting_witness = true
is_awaiting_witness _ = false

-- `inMemoryConnection`
pub record Conn : Type 0 where
  pub id : ConnId
  pub sender : PeerId
  pub witness : PeerId
  pub receiver : PeerId
  pub status : Status

-- `SetWitness` and `SetStatus` of an in-memory connection return a copy, and no error.
unfoldable pub set_witness : PeerId → Conn → Conn
set_witness witness conn = record {
  id = conn.id;
  sender = conn.sender;
  witness = witness;
  receiver = conn.receiver;
  status = conn.status;
}

unfoldable pub set_status : Status → Conn → Conn
set_status status conn = record {
  id = conn.id;
  sender = conn.sender;
  witness = conn.witness;
  receiver = conn.receiver;
  status = status;
}

pub record Options : Type 0 where
  pub witness_selector : WitnessSelector

pub record ConnectRequest : Type 0 where
  pub connection_id : ConnId
  pub sender : PeerId
  pub receiver : PeerId
  pub options : Options

pub record ConnectResponse : Type 0 where
  pub connection_id : ConnId
  pub errors : List Bytes
  pub accepted : Bool
  pub reject_reasons : List Bytes

pub record WitnessRequest : Type 0 where
  pub connection_id : ConnId
  pub sender : PeerId
  pub receiver : PeerId
  pub options : Options

pub record WitnessResponse : Type 0 where
  pub connection_id : ConnId
  pub errors : List Bytes
  pub accepted : Bool
  pub reject_reasons : List Bytes

pub record WitnessNotification : Type 0 where
  pub connection_id : ConnId
  pub witness : PeerId

pub record CloseRequest : Type 0 where
  pub connection_id : ConnId
