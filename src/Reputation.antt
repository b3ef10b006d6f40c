-- ===== src/Reputation.antt =====
-- v2/reputation/reputation.go, and `proportionalReputation` of starterimpl/inmem/inmem.go.
pub mod Value
use go_clarinet.Base.{ℕ, ◌+◌, if◌then◌else◌}
use go_clarinet.Base.Eq.{◌==◌, nat_eq}
use go_clarinet.Peer.{PeerId}

-- The two float64 fields count whole points. A float64 holds every whole number up to 2 ^ 53.
pub record Reputation : Type 0 where
  pub peer_id : PeerId
  pub good : ℕ
  pub total : ℕ

unfoldable pub new_reputation : PeerId → Reputation
new_reputation id = record { peer_id = id; good = 0; total = 0 }

unfoldable pub reward : Reputation → Reputation
reward r = record { peer_id = r.peer_id; good = r.good + 1; total = r.total + 1 }

unfoldable pub strong_penalize : Reputation → Reputation
strong_penalize r = record { peer_id = r.peer_id; good = r.good; total = r.total + 3 }

unfoldable pub weak_penalize : Reputation → Reputation
weak_penalize r = record { peer_id = r.peer_id; good = r.good; total = r.total + 1 }

-- `Value`, as a fraction of whole numbers.
pub record Ratio : Type 0 where
  pub num : ℕ
  pub den : ℕ

unfoldable pub value : Reputation → Ratio
value r =
    if r.total == 0 then record { num = 1; den = 1 } else record { num = r.good; den = r.total }
