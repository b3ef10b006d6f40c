-- ===== src/Tests/Messages.antt =====
-- Signed messages, and a message store.
use go_clarinet.Base.{◌≡◌, ◌≢◌, refl, sym, ap, true, none, some, [], codes, arith}
use go_clarinet.Base.Eq.{bytes_eq, bytes_beq, bytes_beq_iff}
use go_clarinet.Base.Assoc.{lookup}
use go_clarinet.Base.Int.{pos}
use go_clarinet.Wire.Base64.{b64enc}
use go_clarinet.Wire.Decimal.{format_int}
use go_clarinet.Inmem.Messages.{
  Message, PrivateKey, PublicKey, sender_segs, witness_segs, sender_sign, witness_sign,
  verify_sender, verify_witness, new_message_store, panicked, add,
}
use go_clarinet.Inmem.Messages.Segments.{IsMessage, SameContent, sender_segs-ne-witness_segs}
use go_clarinet.Inmem.Messages.Signed.{
  IsBinding, verify_sender-SameContent, verify_witness-SameContent,
}
use go_clarinet.Inmem.Messages.Storing.{Adds, add-Adds}
use go_clarinet.Tests.Wire.{texts, texts-Faithful}

abbrev message : Message
message = record {
  connection_id = 3;
  sequence_number = pos 1;
  payload = codes "hello";
  sender_sig = [];
  witness_sig = [];
}

message-IsMessage : IsMessage message
message-IsMessage = record {
  id_fits = omega arith;
  seq_fits = omega arith;
  payload_bytes = ground arith;
  sig_bytes = tt;
}

-- A key that signs a text with the text itself.
abbrev key : PrivateKey
key = record { sign = λ s. (s, none) }

abbrev public_key : PublicKey
public_key = record { verify = λ s sig. (bytes_beq sig s, none) }

key-IsBinding : IsBinding key public_key
key-IsBinding = record { only = λ s t h. (bytes_beq_iff s t).0 cc }

abbrev signed : Message
signed = record message { sender_sig = codes "aaa.1.aGVsbG8" }

signed_so : (sender_sign texts key message).0 ≡ signed
unfolding sender_sign sender_segs format_int b64enc
signed_so = refl

abbrev witnessed : Message
witnessed = record message { witness_sig = codes "aaa.1.aGVsbG8." }

witnessed_so : (witness_sign texts key message).0 ≡ witnessed
unfolding witness_sign witness_segs format_int b64enc
witnessed_so = refl

-- A new store has a nil map.
add_to_new : add texts message new_message_store ≡ panicked
unfolding add new_message_store lookup
add_to_new = refl

sender_segs-ne-witness_segs_example : sender_segs texts message ≢ witness_segs texts message
sender_segs-ne-witness_segs_example =
    sender_segs-ne-witness_segs texts texts-Faithful message message message-IsMessage
      message-IsMessage

add-Adds_example : Adds texts message (some []) (add texts message (some []))
add-Adds_example = add-Adds texts texts-Faithful message message-IsMessage (some [])

signed-IsMessage : IsMessage signed
signed-IsMessage = record {
  id_fits = omega arith;
  seq_fits = omega arith;
  payload_bytes = ground arith;
  sig_bytes = ground arith;
}

witnessed-IsMessage : IsMessage witnessed
witnessed-IsMessage = record {
  id_fits = omega arith;
  seq_fits = omega arith;
  payload_bytes = ground arith;
  sig_bytes = tt;
}

signed_verified : verify_sender texts public_key signed ≡ (true, none)
unfolding verify_sender sender_segs format_int b64enc
signed_verified = refl

witnessed_verified : verify_witness texts public_key witnessed ≡ (true, none)
unfolding verify_witness witness_segs format_int b64enc
witnessed_verified = refl

verify_sender-SameContent_example : SameContent message signed
verify_sender-SameContent_example =
    verify_sender-SameContent texts texts-Faithful key public_key key-IsBinding message signed
      message-IsMessage signed-IsMessage (ap (λ m. m.sender_sig) (sym signed_so)) signed_verified

verify_witness-SameContent_example :
    SameContent message witnessed × (message.sender_sig ≡ witnessed.sender_sig)
verify_witness-SameContent_example =
    verify_witness-SameContent texts texts-Faithful key public_key key-IsBinding message witnessed
      message-IsMessage witnessed-IsMessage (ap (λ m. m.witness_sig) (sym witnessed_so))
      witnessed_verified
