-- ===== src/Peer.antt =====
-- v2/peer/peer.go: peer ids, peers and the peer-list messages.
use go_clarinet.Base.{ℕ, Bool, true, false, ◌≡◌, ◌↔◌, arith, Bytes, List}
use go_clarinet.Base.Eq.{HasEq, nat_beq, nat_beq_iff}

-- A value of the interface `ID`: nil, or an id of the implementation. The ids of an
-- implementation are compared with Go's `==` alone, so they are numbered.
pub data PeerId : Type 0 where
  nil_id : PeerId
  some_id : ℕ → PeerId

abbrev pub id_beq : PeerId → PeerId → Bool
id_beq nil_id nil_id = true
id_beq nil_id (some_id b) = false
id_beq (some_id a) nil_id = false
id_beq (some_id a) (some_id b) = nat_beq a b

pub id_beq_iff : (a b : PeerId) → (id_beq a b ≡ true) ↔ (a ≡ b)
id_beq_iff nil_id nil_id = ground arith
id_beq_iff nil_id (some_id b) = ground arith
id_beq_iff (some_id a) nil_id = ground arith
id_beq_iff (some_id a) (some_id b) = ground (arith, nat_beq_iff a b)

instance abbrev pub peer_id_eq : HasEq PeerId
peer_id_eq = record { eqb = id_beq; eqb_iff = id_beq_iff }

-- `Address` is a string.
pub record Peer : Type 0 where
  pub id : PeerId
  pub addresses : List Bytes
