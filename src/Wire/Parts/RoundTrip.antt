-- ===== src/Wire/Parts/RoundTrip.antt =====
-- Parts and slices come back.
use go_clarinet.Base.{ℕ, ◌≡◌, ◌≢◌, refl, ap, ◌∙◌, List, [], ◌∷◌, ◌++◌, map, Bytes, arith}
use go_clarinet.Base.Eq.{nat_eq}
use go_clarinet.Base.Lists.{All, length}
use go_clarinet.Wire.Base64.{b64enc}
use go_clarinet.Wire.Base64.RoundTrip.{
  IsByte, IsPlain, b64enc-IsByte, b64dec-b64enc, b64enc-IsPlain, b64enc-ne-nil,
}
use go_clarinet.Wire.Split.{split, join, Lacks, split-join, All-join}
use go_clarinet.Wire.Parts.{
  parsed, unterminated, get_parts, serialize_slice, decode_all, deserialize_slice, terminated,
}

unterminated-append : (s : Bytes) → unterminated (s ++ b';' ∷ []) ≡ parsed s
unfolding unterminated
unterminated-append [] = refl
unterminated-append (c ∷ []) = refl
unterminated-append (c ∷ d ∷ s) = rw (unterminated-append (d ∷ s)) refl

-- The parts of a message come back, if there is a part and none holds a full stop.
pub get_parts-terminated :
    (p : Bytes) (ps : List Bytes)
    → All (Lacks b'.') (p ∷ ps)
    → get_parts (terminated (p ∷ ps)) (length (p ∷ ps)) ≡ parsed (p ∷ ps)
unfolding get_parts terminated
get_parts-terminated p ps (hp, hs) =
    rw (unterminated-append (join b'.' (p ∷ ps)), split-join b'.' p ps hp hs) (ground arith)

module _ (P : ℕ → Type 0) (plain : (c : ℕ) → IsPlain c → P c) where
  pub All-plain : (s : Bytes) → All IsPlain s → All P s
  All-plain [] h = tt
  All-plain (c ∷ s) (hc, h) = (plain c hc, All-plain s h)

  encoded : (ss : List Bytes) → All (All P) (map b64enc ss)
  encoded [] = tt
  encoded (s ∷ ss) = (All-plain (b64enc s) (b64enc-IsPlain s), encoded ss)

  pub b64enc-All : (s : Bytes) → All P (b64enc s)
  b64enc-All s = All-plain (b64enc s) (b64enc-IsPlain s)

-- A serialized slice holds no full stop and no semicolon.
pub serialize_slice-All :
    (P : ℕ → Type 0) (plain : (c : ℕ) → IsPlain c → P c)
    → P b','
    → (ss : List Bytes) → All P (serialize_slice ss)
unfolding serialize_slice
serialize_slice-All P plain comma ss = All-join P b',' (map b64enc ss) comma (encoded P plain ss)

decode_all-map : (ss : List Bytes) → All (All IsByte) ss → decode_all (map b64enc ss) ≡ parsed ss
unfolding decode_all
decode_all-map [] h = refl
decode_all-map (s ∷ ss) (hs, h) = rw (b64dec-b64enc s hs, decode_all-map ss h) refl

deserialize_slice-ne_nil :
    (enc : Bytes) → enc ≢ [] → deserialize_slice enc ≡ decode_all (split b',' enc)
unfolding deserialize_slice
deserialize_slice-ne_nil [] h = absurd (h refl)
deserialize_slice-ne_nil (c ∷ enc) h = refl

pub append_cons-ne_nil : (xs : Bytes) (y : ℕ) (ys : Bytes) → xs ++ y ∷ ys ≢ []
append_cons-ne_nil [] y ys = λ q. cc
append_cons-ne_nil (x ∷ xs) y ys = λ q. cc

serialize_slice-ne_nil :
    (s : Bytes) (ss : List Bytes) → s ∷ ss ≢ [] ∷ [] → serialize_slice (s ∷ ss) ≢ []
unfolding serialize_slice join
serialize_slice-ne_nil [] [] h = absurd (h refl)
serialize_slice-ne_nil (c ∷ s) [] h = b64enc-ne-nil (c ∷ s) (λ q. cc)
serialize_slice-ne_nil s (t ∷ ss) h =
    append_cons-ne_nil (b64enc s) b',' (join b',' (b64enc t ∷ map b64enc ss))

split-serialize_slice :
    (s : Bytes) (ss : List Bytes) → split b',' (serialize_slice (s ∷ ss)) ≡ map b64enc (s ∷ ss)
unfolding serialize_slice
split-serialize_slice s ss =
    split-join b',' (b64enc s) (map b64enc ss) (b64enc-All (λ c. c ≢ b',') (λ c h. h.0) s)
      (encoded (λ c. c ≢ b',') (λ c h. h.0) ss)

-- Every slice of byte strings comes back, but for the slice of one empty string.
pub deserialize-serialize_slice :
    (ss : List Bytes)
    → All (All IsByte) ss
    → ss ≢ [] ∷ []
    → deserialize_slice (serialize_slice ss) ≡ parsed ss
deserialize-serialize_slice [] h ne = unfold deserialize_slice serialize_slice join in refl
deserialize-serialize_slice (s ∷ ss) h ne =
    deserialize_slice-ne_nil (serialize_slice (s ∷ ss)) (serialize_slice-ne_nil s ss ne)
    ∙ ap decode_all (split-serialize_slice s ss)
    ∙ decode_all-map (s ∷ ss) h

encoded-IsByte : (ss : List Bytes) → All (All IsByte) ss → All (All IsByte) (map b64enc ss)
encoded-IsByte [] h = tt
encoded-IsByte (s ∷ ss) (hs, h) = (b64enc-IsByte s hs, encoded-IsByte ss h)

pub serialize_slice-IsByte :
    (ss : List Bytes) → All (All IsByte) ss → All IsByte (serialize_slice ss)
unfolding serialize_slice
serialize_slice-IsByte ss h =
    All-join IsByte b',' (map b64enc ss) (omega arith) (encoded-IsByte ss h)
