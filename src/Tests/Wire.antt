-- ===== src/Tests/Wire.antt =====
-- The wire format at concrete messages, and with texts that keep what is asked of them.
use go_clarinet.Base.{
  ℕ, zero, suc, ◌≡◌, refl, false, none, some, Option, [], ◌∷◌, Bytes, codes, arith,
}
use go_clarinet.Base.Lists.{All, length}
use go_clarinet.Connection.{ConnectResponse}
use go_clarinet.Wire.Base64.{b64enc}
use go_clarinet.Wire.Split.{join}
use go_clarinet.Wire.Base64.RoundTrip.{IsByte, IsPlain}
use go_clarinet.Wire.Parts.{parsed, crashed, get_parts, serialize_slice, deserialize_slice}
use go_clarinet.Wire.Parts.RoundTrip.{deserialize-serialize_slice}
use go_clarinet.Wire.Messages.{Texts}
use go_clarinet.Base.Int.{negsuc}
use go_clarinet.Wire.Decimal.{format_int}
use go_clarinet.Wire.Payload as Payload
use go_clarinet.Wire.Payload.RoundTrip.{Sent, serialize-Sent}
use go_clarinet.Wire.Messages.Fields.{Faithful}

-- A number as so many letters.
abbrev letters : ℕ → Bytes
letters zero = []
letters (suc n) = b'a' ∷ letters n

abbrev count_before : Bytes → Option ℕ
count_before [] = none
count_before (c ∷ s) = some (length s)

abbrev pub texts : Texts
texts = record {
  uuid_string = letters;
  uuid_parse = λ s. some (length s);
  peer_string = λ n. letters (suc n);
  peer_decode = count_before;
}

length-letters : (n : ℕ) → length (letters n) ≡ n
length-letters zero = refl
length-letters (suc n) = omega (arith, length-letters n)

letters-All : (P : ℕ → Type 0) → P b'a' → (n : ℕ) → All P (letters n)
letters-All P h zero = tt
letters-All P h (suc n) = (h, letters-All P h n)

pub texts-Faithful : Faithful texts
texts-Faithful = record {
  uuid = λ id small. rw (length-letters id) refl;
  uuid_plain = λ id small. letters-All IsPlain (ground arith) id;
  peer = λ n. rw (length-letters n) refl;
  peer_bytes = λ n. letters-All IsByte (omega arith) (suc n);
  peer_some = λ n q. cc;
}

abbrev response : ConnectResponse
response = record {
  connection_id = 3;
  errors = [];
  accepted = false;
  reject_reasons = codes "no." ∷ codes "a;b" ∷ [];
}

b64enc_man : b64enc (codes "Man.") ≡ codes "TWFuLg"
unfolding b64enc
b64enc_man = refl

-- The slice of one empty string comes back empty.
slice_of_empty : deserialize_slice (serialize_slice ([] ∷ [])) ≡ parsed []
unfolding deserialize_slice serialize_slice join b64enc
slice_of_empty = refl

-- An empty message is a panic.
empty_message : get_parts [] 1 ≡ crashed
unfolding get_parts
empty_message = refl

deserialize-serialize_slice_example :
    deserialize_slice (serialize_slice (codes "a,b" ∷ [] ∷ [])) ≡ parsed (codes "a,b" ∷ [] ∷ [])
deserialize-serialize_slice_example =
    deserialize-serialize_slice (codes "a,b" ∷ [] ∷ []) (omega arith) (λ q. cc)

serialize-Sent_example : Sent texts (Payload.connect_response response)
serialize-Sent_example =
    serialize-Sent texts texts-Faithful (Payload.connect_response response)
      (omega arith, (tt, λ q. cc), ((ground arith, (ground arith, tt)), λ q. cc))

minus_42 : format_int (negsuc 41) ≡ codes "-42"
unfolding format_int
minus_42 = refl
