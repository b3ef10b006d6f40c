-- ===== src/Inmem/Messages/Segments.antt =====
-- What the bytes that are signed say of the message.
use go_clarinet.Base.{◌<◌, ◌^◌, ◌≡◌, ◌≢◌, List, [], ◌∷◌, Bytes}
use go_clarinet.Base.Lists.{All}
use go_clarinet.Wire.Base64.{b64enc}
use go_clarinet.Wire.Base64.RoundTrip.{IsByte, IsPlain, NoStop, no_stop, b64dec-b64enc}
use go_clarinet.Wire.Decimal.{format_int}
use go_clarinet.Wire.Decimal.RoundTrip.{IsInt64, atoi-format_int, format_int-IsPlain}
use go_clarinet.Wire.Split.{split, join, Lacks, split-join}
use go_clarinet.Wire.Parts.RoundTrip.{All-plain, b64enc-All}
use go_clarinet.Wire.Messages.{Texts}
use go_clarinet.Wire.Messages.Fields.{Faithful, uuid-All}
use go_clarinet.Inmem.Messages.{Message, sender_segs, witness_segs}

-- The fields are as Go has them: a UUID, an `int` and byte strings.
pub record IsMessage (m : Message) : Type 0 where
  pub id_fits : m.connection_id < 2 ^ 128
  pub seq_fits : IsInt64 m.sequence_number
  pub payload_bytes : All IsByte m.payload
  pub sig_bytes : All IsByte m.sender_sig

-- What a sender signs.
pub record SameContent (m m' : Message) : Type 0 where
  pub connection_id : m.connection_id ≡ m'.connection_id
  pub sequence_number : m.sequence_number ≡ m'.sequence_number
  pub payload : m.payload ≡ m'.payload

module _ (texts : Texts) (faithful : Faithful texts) where
  stop_free : (s : Bytes) → All IsPlain s → Lacks b'.' s
  stop_free = All-plain NoStop no_stop

  sender_parts : Message → List Bytes
  sender_parts m =
      texts.uuid_string m.connection_id ∷ format_int m.sequence_number ∷ b64enc m.payload ∷ []

  split-sender_segs :
      (m : Message) → IsMessage m → split b'.' (sender_segs texts m) ≡ sender_parts m
  unfolding sender_segs sender_parts
  split-sender_segs m h =
      unfold join in
      split-join b'.' (texts.uuid_string m.connection_id)
        (format_int m.sequence_number ∷ b64enc m.payload ∷ [])
        (uuid-All texts faithful NoStop no_stop m.connection_id h.id_fits)
        (
          stop_free (format_int m.sequence_number) (format_int-IsPlain m.sequence_number),
          (b64enc-All NoStop no_stop m.payload, tt),
        )

  witness_parts : Message → List Bytes
  witness_parts m =
      texts.uuid_string m.connection_id
      ∷ format_int m.sequence_number
      ∷ b64enc m.payload
      ∷ b64enc m.sender_sig
      ∷ []

  split-witness_segs :
      (m : Message) → IsMessage m → split b'.' (witness_segs texts m) ≡ witness_parts m
  unfolding witness_segs witness_parts
  split-witness_segs m h =
      unfold join in
      split-join b'.' (texts.uuid_string m.connection_id)
        (format_int m.sequence_number ∷ b64enc m.payload ∷ b64enc m.sender_sig ∷ [])
        (uuid-All texts faithful NoStop no_stop m.connection_id h.id_fits)
        (
          stop_free (format_int m.sequence_number) (format_int-IsPlain m.sequence_number),
          (b64enc-All NoStop no_stop m.payload, (b64enc-All NoStop no_stop m.sender_sig, tt)),
        )

  -- Each part says its field.
  same_id :
      (m m' : Message)
      → IsMessage m
      → IsMessage m'
      → texts.uuid_string m.connection_id ≡ texts.uuid_string m'.connection_id
      → m.connection_id ≡ m'.connection_id
  same_id m m' h h' q =
      let back = faithful.uuid m.connection_id h.id_fits in
      let back' = faithful.uuid m'.connection_id h'.id_fits in cc

  same_number :
      (m m' : Message)
      → IsMessage m
      → IsMessage m'
      → format_int m.sequence_number ≡ format_int m'.sequence_number
      → m.sequence_number ≡ m'.sequence_number
  same_number m m' h h' q =
      let back = atoi-format_int m.sequence_number h.seq_fits in
      let back' = atoi-format_int m'.sequence_number h'.seq_fits in cc

  same_bytes : (s t : Bytes) → All IsByte s → All IsByte t → b64enc s ≡ b64enc t → s ≡ t
  same_bytes s t h h' q = let back = b64dec-b64enc s h in let back' = b64dec-b64enc t h' in cc

  parts_content :
      (m m' : Message)
      → IsMessage m
      → IsMessage m'
      → (rest rest' : List Bytes)
      → texts.uuid_string m.connection_id ∷ format_int m.sequence_number ∷ b64enc m.payload ∷ rest
        ≡ texts.uuid_string m'.connection_id
          ∷ format_int m'.sequence_number
          ∷ b64enc m'.payload
          ∷ rest'
      → SameContent m m'
  parts_content m m' h h' rest rest' q = record {
    connection_id = same_id m m' h h' cc;
    sequence_number = same_number m m' h h' cc;
    payload = same_bytes m.payload m'.payload h.payload_bytes h'.payload_bytes cc;
  }

  -- If the senders of two messages sign the same bytes, the messages have the same connection, the
  -- same sequence number and the same data.
  pub sender_segs-SameContent :
      (m m' : Message)
      → IsMessage m
      → IsMessage m'
      → sender_segs texts m ≡ sender_segs texts m'
      → SameContent m m'
  unfolding sender_parts
  sender_segs-SameContent m m' h h' q =
      let split_m = split-sender_segs m h in
      let split_m' = split-sender_segs m' h' in parts_content m m' h h' [] [] cc

  -- If the witnesses of two messages sign the same bytes, the messages have the same connection, the
  -- same sequence number, the same data and the same signature of the sender.
  pub witness_segs-SameContent :
      (m m' : Message)
      → IsMessage m
      → IsMessage m'
      → witness_segs texts m ≡ witness_segs texts m'
      → SameContent m m' × (m.sender_sig ≡ m'.sender_sig)
  unfolding witness_parts
  witness_segs-SameContent m m' h h' q =
      let split_m = split-witness_segs m h in
      let split_m' = split-witness_segs m' h' in
      (
        parts_content m m' h h' (b64enc m.sender_sig ∷ []) (b64enc m'.sender_sig ∷ []) cc,
        same_bytes m.sender_sig m'.sender_sig h.sig_bytes h'.sig_bytes cc,
      )

  -- No sender signs the bytes that a witness signs.
  pub sender_segs-ne-witness_segs :
      (m m' : Message) → IsMessage m → IsMessage m' → sender_segs texts m ≢ witness_segs texts m'
  unfolding sender_parts witness_parts
  sender_segs-ne-witness_segs m m' h h' q =
      let split_m = split-sender_segs m h in let split_m' = split-witness_segs m' h' in cc
