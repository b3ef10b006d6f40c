-- ===== src/Inmem/Messages.antt =====
-- `inMemoryMessage` and `inMemoryMessageStore`. Keys are parameters: v2/crypto/crypto.go has their
-- interfaces only.
pub mod Segments
pub mod Signed
pub mod Storing
use go_clarinet.Base.{ℕ, Bool, Option, none, some, List, [], ◌∷◌, ◌++◌, map, Bytes}
use go_clarinet.Base.Assoc.{Assoc, lookup, put}
use go_clarinet.Base.Eq.{bytes_eq}
use go_clarinet.Base.Int.{ℤ}
use go_clarinet.Connection.{ConnId}
use go_clarinet.Connection.Error.{Err}
use go_clarinet.Wire.Base64.{b64enc}
use go_clarinet.Wire.Decimal.{format_int}
use go_clarinet.Wire.Messages.{Texts}

pub record Message : Type 0 where
  pub connection_id : ConnId
  pub sequence_number : ℤ
  pub payload : Bytes
  pub sender_sig : Bytes
  pub witness_sig : Bytes

-- `crypto.PrivateKey` and `crypto.PublicKey`: a signature beside an error, and a verdict or an error.
pub record PrivateKey : Type 0 where
  pub sign : Bytes → Bytes × Option Err

abbrev pub Verdict : Type 0
Verdict = Bool × Option Err

pub record PublicKey : Type 0 where
  pub verify : Bytes → Bytes → Verdict

module _ (texts : Texts) where
  -- `%s.%d.%s` and `%s.%d.%s.%s`
  unfoldable pub sender_segs : Message → Bytes
  sender_segs m =
      texts.uuid_string m.connection_id
      ++ (b'.' ∷ (format_int m.sequence_number ++ b'.' ∷ b64enc m.payload))

  unfoldable pub witness_segs : Message → Bytes
  witness_segs m =
      texts.uuid_string m.connection_id
      ++ (b'.'
          ∷ (format_int m.sequence_number
              ++ (b'.' ∷ (b64enc m.payload ++ b'.' ∷ b64enc m.sender_sig))))

  -- The message comes beside the error, with the signature that the key returned.
  unfoldable pub sender_sign : PrivateKey → Message → Message × Option Err
  sender_sign key m = let (sig, e) = key.sign (sender_segs m) in (record m { sender_sig = sig }, e)

  unfoldable pub verify_sender : PublicKey → Message → Verdict
  verify_sender key m = key.verify (sender_segs m) m.sender_sig

  unfoldable pub witness_sign : PrivateKey → Message → Message × Option Err
  witness_sign key m =
      let (sig, e) = key.sign (witness_segs m) in (record m { witness_sig = sig }, e)

  unfoldable pub verify_witness : PublicKey → Message → Verdict
  verify_witness key m = key.verify (witness_segs m) m.witness_sig

  -- `%s:%d`
  unfoldable pub gen_key : ConnId → ℤ → Bytes
  gen_key id seq_no = texts.uuid_string id ++ b':' ∷ format_int seq_no

-- The store's map, which is nil until one is made.
abbrev pub Store : Type 0
Store = Option (Assoc Bytes Message)

unfoldable pub new_message_store : Store
new_message_store = none

pub data Added : Type 0 where
  added : Store → Added
  already_exists : Bytes → Added
  -- a write to a nil map
  panicked : Added

-- A nil map reads as an empty one.
abbrev entries : Store → Assoc Bytes Message
entries none = []
entries (some m) = m

insert : Bytes → Message → Store → Option Message → Added
insert key message store (some old) = already_exists key
insert key message none none = panicked
insert key message (some m) none = added (some (put key message m))

module _ (texts : Texts) where
  unfoldable pub add : Message → Store → Added
  unfolding insert gen_key
  add message store =
      let key = gen_key texts message.connection_id message.sequence_number in
      insert key message store (lookup key (entries store))

  -- The messages in the order of the map, which is any.
  unfoldable pub all : (List Message → List Message) → Store → List Message
  all range_order store = range_order (map (λ entry. entry.1) (entries store))

  unfoldable pub find : ConnId → ℤ → Store → Option Message
  unfolding gen_key
  find id seq_no store = lookup (gen_key texts id seq_no) (entries store)
