-- ===== src/Wire/Parts.antt =====
-- `getParts`, `serializeSlice` and `deserializeSlice`.
pub mod RoundTrip
use go_clarinet.Base.{
  ℕ, ◌≡◌, ◌≢◌, refl, ap, ◌∙◌, Option, none, some, List, [], ◌∷◌, ◌++◌, map, Bytes, arith,
  if◌then◌else◌,
}
use go_clarinet.Base.Eq.{◌==◌, nat_eq}
use go_clarinet.Base.Lists.{All, length}
use go_clarinet.Wire.Base64.{b64enc, b64dec}
use go_clarinet.Wire.Base64.RoundTrip.{
  IsByte, IsPlain, b64dec-b64enc, b64enc-IsPlain, b64enc-ne-nil,
}
use go_clarinet.Wire.Split.{split, join, Lacks, split-join, All-join}

-- The errors, without their texts.
pub data WireErr : Type 0 where
  no_terminator : WireErr
  wrong_count : ℕ → ℕ → WireErr
  bad_element : Bytes → WireErr
  bad_uuid : Bytes → WireErr
  bad_base64 : Bytes → WireErr
  bad_peer_id : Bytes → WireErr
  bad_selector : Bytes → WireErr
  bad_bool : Bytes → WireErr
  bad_number : Bytes → WireErr
  unrecognized_type : WireErr

-- What reading comes to: a value, an error, or a panic.
pub data Parse {ℓ} (A : Type ℓ) : Type ℓ where
  parsed : A → Parse A
  failed : WireErr → Parse A
  crashed : Parse A

infixl 10 ◌>>=◌
abbrev pub ◌>>=◌ {ℓ κ} : {A : Type ℓ} {B : Type κ} → Parse A → (A → Parse B) → Parse B
parsed a >>= f = f a
failed e >>= f = failed e
crashed >>= f = crashed

abbrev pub or_fail {ℓ} : {A : Type ℓ} → WireErr → Option A → Parse A
or_fail e none = failed e
or_fail e (some a) = parsed a

-- The text before its last byte, if that is a semicolon; `s[len(s)-1]` panics on the empty text.
unfoldable pub unterminated : Bytes → Parse Bytes
unterminated [] = crashed
unterminated (c ∷ []) = if c == b';' then parsed [] else failed no_terminator
unterminated (c ∷ d ∷ s) = do rest ← unterminated (d ∷ s); parsed (c ∷ rest)

unfoldable pub get_parts : Bytes → ℕ → Parse (List Bytes)
unfolding unterminated
get_parts s count = do
  body ← unterminated s
  let parts = split b'.' body
  if length parts == count then parsed parts else failed (wrong_count count (length parts))

unfoldable pub serialize_slice : List Bytes → Bytes
serialize_slice plain = join b',' (map b64enc plain)

decode_all : List Bytes → Parse (List Bytes)
decode_all [] = parsed []
decode_all (p ∷ ps) = do s ← or_fail (bad_element p) (b64dec p); ss ← decode_all ps; parsed (s ∷ ss)

unfoldable pub deserialize_slice : Bytes → Parse (List Bytes)
unfolding decode_all
deserialize_slice [] = parsed []
deserialize_slice (c ∷ enc) = decode_all (split b',' (c ∷ enc))

-- `%s.….%s;`
unfoldable pub terminated : List Bytes → Bytes
terminated parts = join b'.' parts ++ b';' ∷ []
