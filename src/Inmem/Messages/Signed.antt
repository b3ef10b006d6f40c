-- ===== src/Inmem/Messages/Signed.antt =====
-- What a signature that is verified says of the message.
use go_clarinet.Base.{◌≡◌, true, none, Bytes}
use go_clarinet.Wire.Messages.{Texts}
use go_clarinet.Wire.Messages.Fields.{Faithful}
use go_clarinet.Inmem.Messages.{
  Message, PrivateKey, PublicKey, sender_segs, witness_segs, sender_sign, verify_sender,
  witness_sign, verify_witness,
}
use go_clarinet.Inmem.Messages.Segments.{
  IsMessage, SameContent, sender_segs-SameContent, witness_segs-SameContent,
}

-- The key verifies no signature for a text that was not signed with it.
pub record IsBinding (key : PrivateKey) (public_key : PublicKey) : Type 0 where
  pub only : (s t : Bytes) → public_key.verify t (key.sign s).0 ≡ (true, none) → s ≡ t

module _ (texts : Texts) (faithful : Faithful texts) (key : PrivateKey) (public_key : PublicKey)
    (binding : IsBinding key public_key) (m m' : Message) (h : IsMessage m)
    (h' : IsMessage m') where
  -- If a message carries the signature that the sender gave another one, and is verified, the two
  -- have the same connection, the same sequence number and the same data.
  pub verify_sender-SameContent :
      m'.sender_sig ≡ (sender_sign texts key m).0.sender_sig
      → verify_sender texts public_key m' ≡ (true, none)
      → SameContent m m'
  unfolding sender_sign verify_sender
  verify_sender-SameContent carried verified =
      sender_segs-SameContent texts faithful m m' h h'
        (binding.only (sender_segs texts m) (sender_segs texts m') (rw (← carried) verified))

  -- If a message carries the signature that the witness gave another one, and is verified, the two
  -- have the same connection, the same sequence number, the same data and the same signature of the
  -- sender.
  pub verify_witness-SameContent :
      m'.witness_sig ≡ (witness_sign texts key m).0.witness_sig
      → verify_witness texts public_key m' ≡ (true, none)
      → SameContent m m' × (m.sender_sig ≡ m'.sender_sig)
  unfolding witness_sign verify_witness
  verify_witness-SameContent carried verified =
      witness_segs-SameContent texts faithful m m' h h'
        (binding.only (witness_segs texts m) (witness_segs texts m') (rw (← carried) verified))
