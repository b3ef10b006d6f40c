-- ===== src/Transport/Shared/Overlap.antt =====
-- Streams that come one after the other, and streams that overlap.
use go_clarinet.Base.{
  ◌≡◌, ◌≢◌, ◌∙◌, refl, sym, ap, false, Bool-cases, inl, inr, some, List, [], ◌∷◌, ◌++◌,
  append_assoc, append-nil, Bytes,
}
use go_clarinet.Base.Eq.{◌==◌}
use go_clarinet.Base.Lists.{All}
use go_clarinet.Peer.{PeerId, peer_id_eq, id_beq_iff}
use go_clarinet.Wire.Parts.{Parse, parsed}
use go_clarinet.Wire.Messages.{Texts}
use go_clarinet.Wire.Messages.Fields.{Faithful}
use go_clarinet.Wire.Payload.{Payload, Kind, kind_of, serialize}
use go_clarinet.Wire.Payload.RoundTrip.{IsSendable, serialize-Sent}
use go_clarinet.Transport.Shared.{
  Shared, Turn, parses, handles, turn, turns, remove_first, took, called,
}

or_nothing : Parse Bytes → Bytes
or_nothing (parsed s) = s
or_nothing _ = []

module _ (texts : Texts) where
  pub text_of : Payload → Bytes
  text_of p = or_nothing (serialize texts p)

  -- The turns of streams that come one after the other.
  unfoldable pub alone : List (PeerId × Payload) → List Turn
  alone [] = []
  alone ((p, req) ∷ rs) = parses p (text_of req) ∷ handles p ∷ alone rs

remove_head : (p : PeerId) (ps : List PeerId) → remove_first p (p ∷ ps) ≡ some ps
unfolding remove_first
remove_head p ps = rw ((id_beq_iff p p).1 refl) refl

not_same : (p q : PeerId) → p ≢ q → (q == p) ≡ false
not_same p q other = elim (Bool-cases (q == p)) [
  | inl same ↦ absurd (other (sym ((id_beq_iff q p).0 same)))
  | inr apart ↦ apart
]

remove_second : (p q : PeerId) → p ≢ q → remove_first p (q ∷ p ∷ []) ≡ some (q ∷ [])
unfolding remove_first
remove_second p q other = rw (not_same p q other, (id_beq_iff p p).1 refl) refl

module _ (texts : Texts) (faithful : Faithful texts) (kind : Kind) where
  -- A request that can be sent, of the protocol's type.
  abbrev pub IsRequest : PeerId × Payload → Type 0
  IsRequest (p, req) = IsSendable req × (kind_of req ≡ kind)

  parses_text :
      (p : PeerId) (req : Payload) (s : Shared)
      → IsRequest (p, req)
      → turn texts kind (parses p (text_of texts req)) s
        ≡ record { req = req; waiting = p ∷ s.waiting; calls = s.calls }
  unfolding turn took text_of or_nothing
  parses_text p req s (can, right) =
      let sent = serialize-Sent texts faithful req can in rw (sent.written, ← right, sent.read) refl

  handles_waiting :
      (p : PeerId) (s : Shared) (rest : List PeerId)
      → remove_first p s.waiting ≡ some rest
      → turn texts kind (handles p) s
        ≡ record { req = s.req; waiting = rest; calls = s.calls ++ (p, s.req) ∷ [] }
  unfolding turn called
  handles_waiting p s rest q = rw q refl

  both_turns :
      (p : PeerId) (req : Payload) (s : Shared)
      → IsRequest (p, req)
      → turn texts kind (handles p) (turn texts kind (parses p (text_of texts req)) s)
        ≡ record { req = req; waiting = s.waiting; calls = s.calls ++ (p, req) ∷ [] }
  both_turns p req s h =
      let after : Shared = record { req = req; waiting = p ∷ s.waiting; calls = s.calls } in
      rw (parses_text p req s h) (handles_waiting p after s.waiting (remove_head p s.waiting))

  -- If the streams of a protocol come one after the other, the handler is called with each peer and
  -- its own request, in their order.
  pub turns-alone :
      (rs : List (PeerId × Payload)) (s : Shared)
      → All IsRequest rs
      → (turns texts kind (alone texts rs) s).calls ≡ s.calls ++ rs
  unfolding turns alone
  turns-alone [] s h = rw append-nil refl
  turns-alone ((p, req) ∷ rs) s (h, hs) =
      ap (λ s'. (turns texts kind (alone texts rs) s').calls) (both_turns p req s h)
      ∙ turns-alone rs (record { req = req; waiting = s.waiting; calls = s.calls ++ (p, req) ∷ [] })
          hs
      ∙ rw append_assoc refl

  -- If a second stream parses its request before the first calls the handler, the handler is called
  -- with the first peer and the request of the second.
  pub turns_overlap :
      (p q : PeerId) (a b req : Payload)
      → IsRequest (p, a)
      → IsRequest (q, b)
      → p ≢ q
      → (turns texts kind
          (parses p (text_of texts a) ∷ parses q (text_of texts b) ∷ handles p ∷ handles q ∷ [])
          (record { req = req; waiting = []; calls = [] })).calls
        ≡ (p, b) ∷ (q, b) ∷ []
  unfolding turns
  turns_overlap p q a b req ha hb other =
      let first : Shared = record { req = a; waiting = p ∷ []; calls = [] } in
      let second : Shared = record { req = b; waiting = q ∷ p ∷ []; calls = [] } in
      let third : Shared = record { req = b; waiting = q ∷ []; calls = (p, b) ∷ [] } in
      rw
        (
          parses_text p a (record { req = req; waiting = []; calls = [] }) ha,
          parses_text q b first hb,
          handles_waiting p second (q ∷ []) (remove_second p q other),
          handles_waiting q third [] (remove_head q []),
        )
        refl
