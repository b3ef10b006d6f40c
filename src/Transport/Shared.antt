-- ===== src/Transport/Shared.antt =====
-- The variable `req` of `readWriteWrapper`, which all streams of a protocol share: a stream parses its
-- request into it, and then calls the handler with what is in it.
pub mod Overlap
use go_clarinet.Base.{Option, none, some, List, [], ◌∷◌, ◌++◌, Bytes, if◌then◌else◌}
use go_clarinet.Base.Eq.{◌==◌}
use go_clarinet.Base.Options.{◌>>=◌}
use go_clarinet.Peer.{PeerId, peer_id_eq}
use go_clarinet.Wire.Parts.{Parse, parsed}
use go_clarinet.Wire.Messages.{Texts}
use go_clarinet.Wire.Payload.{Payload, Kind, deserialize}

-- The variable, the peers of the streams that have parsed and not called yet, the last first, and the
-- calls of the handler.
pub record Shared : Type 0 where
  pub req : Payload
  pub waiting : List PeerId
  pub calls : List (PeerId × Payload)

-- What a stream does next, by its peer: it parses what it has read, or it calls the handler.
pub data Turn : Type 0 where
  parses : PeerId → Bytes → Turn
  handles : PeerId → Turn

unfoldable pub remove_first : PeerId → List PeerId → Option (List PeerId)
remove_first p [] = none
remove_first p (q ∷ qs) =
    let rest = (do left ← remove_first p qs; some (q ∷ left)) in if q == p then some qs else rest

-- A request that is not read leaves the variable, and ends its stream.
took : PeerId → Parse Payload → Shared → Shared
took p (parsed req) s = record { req = req; waiting = p ∷ s.waiting; calls = s.calls }
took p _ s = s

called : PeerId → Option (List PeerId) → Shared → Shared
called p none s = s
called p (some rest) s = record { req = s.req; waiting = rest; calls = s.calls ++ (p, s.req) ∷ [] }

module _ (texts : Texts) (kind : Kind) where
  unfoldable pub turn : Turn → Shared → Shared
  unfolding took called remove_first
  turn (parses p raw) s = took p (deserialize texts raw kind) s
  turn (handles p) s = called p (remove_first p s.waiting) s

  unfoldable pub turns : List Turn → Shared → Shared
  turns [] s = s
  turns (t ∷ ts) s = turns ts (turn t s)
