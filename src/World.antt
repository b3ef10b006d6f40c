-- ===== src/World.antt =====
-- The state that a node's operations run over, and the monad of those operations. What the
-- repository does not implement (the peer store's host, the network, the application's handlers,
-- the source of random numbers) is an `Env`: functions over an outside state of any type.
pub mod Rules
use go_clarinet.Base.{ℕ, Bool, Option, List, [], ◌∷◌, ◌++◌, Bytes}
use go_clarinet.Base.Int.{ℤ}
use go_clarinet.Base.Assoc.{Assoc}
use go_clarinet.Peer.{PeerId, Peer}
use go_clarinet.Connection.{
  ConnId, Conn, Options, ConnectRequest, ConnectResponse, WitnessRequest, WitnessResponse,
  WitnessNotification, CloseRequest,
}
use go_clarinet.Connection.Error.{Err, IdText}
use go_clarinet.Reputation.{Reputation}

-- What a call comes to: a value, an error value, or a panic.
pub data Result {ℓ} (A : Type ℓ) : Type ℓ where
  ok : A → Result A
  err : Err → Result A
  panicked : Result A

-- `transport.Options`: the timeouts in nanoseconds, where nil is the transport's default.
-- `AdditionalOptions`, which no code of the repository reads, is left out.
pub record TransportOptions : Type 0 where
  pub timeout : Option ℕ
  pub write_timeout : Option ℕ
  pub read_timeout : Option ℕ

-- What the node hands to its transport.
pub data Message : Type 0 where
  connect_request : ConnectRequest → Message
  witness_request : WitnessRequest → Message
  witness_notification : WitnessNotification → Message
  close_request : CloseRequest → Message
  peers_request : ℤ → Message

-- A witness selection that a handler has started with `go`.
pub record Task : Type 0 where
  pub connection_id : ConnId
  pub options : Options

pub record World (S : Type 0) : Type 0 where
  pub outside : S
  pub conns : Assoc ConnId Conn
  pub reps : Assoc PeerId Reputation
  pub sent : List (Peer × Message)
  pub tasks : List Task

-- A call out of the repository may answer as it likes, and differently each time.
abbrev pub Call : Type 0 → Type 0 → Type 0
Call S A = S → Result A × S

pub record Env (S : Type 0) : Type 0 where
  pub self : Call S Peer
  pub find : PeerId → Call S Peer
  pub all_peers : Call S (List Peer)
  pub add_addr : PeerId → Bytes → Call S (Unit {0})
  pub send : Peer → TransportOptions → Message → Call S (Unit {0})
  pub exchange_connect : Peer → TransportOptions → ConnectRequest → Call S ConnectResponse
  pub exchange_witness : Peer → TransportOptions → WitnessRequest → Call S WitnessResponse
  pub exchange_peers : Peer → TransportOptions → ℤ → Call S (List Peer)
  pub trusts : Reputation → Call S Bool
  pub on_connect : PeerId → ConnectRequest → Call S (ConnectResponse × Option Err)
  pub connect_options : TransportOptions
  pub on_witness : PeerId → WitnessRequest → Call S (WitnessResponse × Option Err)
  pub on_witness_notification : PeerId → WitnessNotification → Call S (Unit {0})
  pub on_close : PeerId → CloseRequest → Call S (Unit {0})
  pub on_peers : PeerId → ℤ → Call S (Option (List Peer))
  pub random_id : Call S ConnId
  pub intn : ℕ → Call S ℕ
  -- the order in which a `range` over a map meets these keys
  pub range_order : List ConnId → List ConnId
  pub texts : IdText
  pub at_trace : Bool

abbrev pub M : Type 0 → Type 0 → Type 0
M S A = World S → Result A × World S

module _ {S A : Type 0} where
  unfoldable pub pure : A → M S A
  pure a w = (ok a, w)

  -- `return …, err`
  unfoldable pub raise : Err → M S A
  raise e w = (err e, w)

  unfoldable pub panic : M S A
  panic w = (panicked, w)

  -- A call out of the repository changes the outside state alone.
  unfoldable pub external : Call S A → M S A
  external call w = let (r, s') = call w.outside in (r, record w { outside = s' })

  -- A message that is handed to the transport is on record, whatever comes of it.
  unfoldable pub transmit : Peer → Message → Call S A → M S A
  transmit p m call w =
      let (r, s') = call w.outside in (r, record w { outside = s'; sent = w.sent ++ (p, m) ∷ [] })

module _ {S A B : Type 0} where
  abbrev pub continue : (A → M S B) → (Err → M S B) → Result A → M S B
  continue k h (ok a) w = k a w
  continue k h (err e) w = h e w
  continue k h panicked w = (panicked, w)

  -- `a, err := m(); if err != nil { h }; k`. To open it opens the actions above.
  unfoldable pub catch : M S A → (A → M S B) → (Err → M S B) → M S B
  unfolding pure raise panic external transmit
  catch m k h w = let (r, w') = m w in continue k h r w'

  infixl 10 ◌>>=◌ ◌>>◌
  abbrev pub ◌>>=◌ : M S A → (A → M S B) → M S B
  m >>= k = catch m k raise

  abbrev pub ◌>>◌ : M S A → M S B → M S B
  m >> k = catch m (λ _. k) raise
