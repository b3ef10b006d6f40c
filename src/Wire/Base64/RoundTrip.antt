-- ===== src/Wire/Base64/RoundTrip.antt =====
-- Base64 texts come back.
use go_clarinet.Base.{
  ℕ, ◌+◌, ◌*◌, ◌/◌, ◌%◌, ◌<◌, ◌||◌, ◌≡◌, ◌≢◌, refl, map, false, some, List, [], ◌∷◌, Bytes, arith,
}
use go_clarinet.Base.Lists.{All}
use go_clarinet.Base.Eq.{nat_beq}
use go_clarinet.Wire.Base64.{digit, b64enc, place, b64enc, places, quanta, b64dec}

place-digit : (n : ℕ) → n < 64 → place (digit n) ≡ some n
unfolding place digit
place-digit n h = ground arith

digit_ends : (n : ℕ) → (nat_beq (digit n) 10 || nat_beq (digit n) 13) ≡ false
unfolding digit
digit_ends n = ground arith

abbrev pub IsByte : ℕ → Type 0
IsByte n = n < 256

abbrev IsSextet : ℕ → Type 0
IsSextet n = n < 64

places-digits : (ns : List ℕ) → All IsSextet ns → places (map digit ns) ≡ some ns
unfolding places
places-digits [] h = refl
places-digits (n ∷ ns) (hn, h) = rw (digit_ends n, place-digit n hn, places-digits ns h) refl

-- The places of the digits that a text is encoded to.
sextets : Bytes → List ℕ
sextets [] = []
sextets (a ∷ []) = a / 4 ∷ a % 4 * 16 ∷ []
sextets (a ∷ b ∷ []) = a / 4 ∷ (a % 4 * 16 + b / 16) ∷ b % 16 * 4 ∷ []
sextets (a ∷ b ∷ c ∷ s) = a / 4 ∷ (a % 4 * 16 + b / 16) ∷ (b % 16 * 4 + c / 64) ∷ c % 64 ∷ sextets s

b64enc-sextets : (s : Bytes) → b64enc s ≡ map digit (sextets s)
unfolding b64enc sextets
b64enc-sextets [] = refl
b64enc-sextets (a ∷ []) = refl
b64enc-sextets (a ∷ b ∷ []) = refl
b64enc-sextets (a ∷ b ∷ c ∷ s) = rw (b64enc-sextets s) refl

sextets-IsSextet : (s : Bytes) → All IsByte s → All IsSextet (sextets s)
unfolding sextets
sextets-IsSextet [] h = tt
sextets-IsSextet (a ∷ []) (ha, h) = (omega arith, (omega arith, tt))
sextets-IsSextet (a ∷ b ∷ []) (ha, (hb, h)) = (omega arith, (omega arith, (omega arith, tt)))
sextets-IsSextet (a ∷ b ∷ c ∷ s) (ha, (hb, (hc, h))) =
    (omega arith, (omega arith, (omega arith, (omega arith, sextets-IsSextet s h))))

-- The bytes that the places of their digits give back.
first : (a b : ℕ) → b < 256 → a / 4 * 4 + (a % 4 * 16 + b / 16) / 16 ≡ a
first a b hb = omega arith

second :
    (a b c : ℕ)
    → b < 256
    → c < 256
    → (a % 4 * 16 + b / 16) % 16 * 16 + (b % 16 * 4 + c / 64) / 4 ≡ b
second a b c hb hc = omega arith

third : (b c : ℕ) → c < 256 → (b % 16 * 4 + c / 64) % 4 * 64 + c % 64 ≡ c
third b c hc = omega arith

first_alone : (a : ℕ) → a / 4 * 4 + a % 4 * 16 / 16 ≡ a
first_alone a = omega arith

second_last : (a b : ℕ) → b < 256 → (a % 4 * 16 + b / 16) % 16 * 16 + b % 16 * 4 / 4 ≡ b
second_last a b hb = omega arith

quanta-sextets : (s : Bytes) → All IsByte s → quanta (sextets s) ≡ some s
unfolding quanta sextets
quanta-sextets [] h = refl
quanta-sextets (a ∷ []) (ha, h) = rw (first_alone a) refl
quanta-sextets (a ∷ b ∷ []) (ha, (hb, h)) = rw (first a b hb, second_last a b hb) refl
quanta-sextets (a ∷ b ∷ c ∷ s) (ha, (hb, (hc, h))) =
    rw (first a b hb, second a b c hb hc, third b c hc, quanta-sextets s h) refl

-- Decoding what was encoded gives the bytes back.
pub b64dec-b64enc : (s : Bytes) → All IsByte s → b64dec (b64enc s) ≡ some s
unfolding b64dec
b64dec-b64enc s h =
    rw (b64enc-sextets s, places-digits (sextets s) (sextets-IsSextet s h), quanta-sextets s h) refl

-- A byte of the encoding is no separator of the wire format.
abbrev pub IsPlain : ℕ → Type 0
IsPlain c = (c ≢ b',') × (c ≢ b'.') × (c ≢ b';') × (c ≢ b':')

abbrev pub NoStop : ℕ → Type 0
NoStop c = c ≢ b'.'

abbrev pub NoEnd : ℕ → Type 0
NoEnd c = c ≢ b';'

pub no_stop : (c : ℕ) → IsPlain c → NoStop c
no_stop c (not_comma, not_stop, not_end, not_colon) = not_stop

pub no_end : (c : ℕ) → IsPlain c → NoEnd c
no_end c (not_comma, not_stop, not_end, not_colon) = not_end

digits-IsPlain : (ns : List ℕ) → All IsPlain (map digit ns)
unfolding digit
digits-IsPlain [] = tt
digits-IsPlain (n ∷ ns) =
    ((ground arith, ground arith, ground arith, ground arith), digits-IsPlain ns)

-- The encoding of any text has none of the separators of the wire format.
pub b64enc-IsPlain : (s : Bytes) → All IsPlain (b64enc s)
b64enc-IsPlain s = rw (b64enc-sextets s) (digits-IsPlain (sextets s))

-- Only the empty text has the empty encoding.
pub b64enc-ne-nil : (s : Bytes) → s ≢ [] → b64enc s ≢ []
unfolding b64enc
b64enc-ne-nil [] h = absurd (h refl)
b64enc-ne-nil (a ∷ []) h = λ q. cc
b64enc-ne-nil (a ∷ b ∷ []) h = λ q. cc
b64enc-ne-nil (a ∷ b ∷ c ∷ s) h = λ q. cc

digits-IsByte : (ns : List ℕ) → All IsSextet ns → All IsByte (map digit ns)
unfolding digit
digits-IsByte [] h = tt
digits-IsByte (n ∷ ns) (hn, h) = (ground arith, digits-IsByte ns h)

pub b64enc-IsByte : (s : Bytes) → All IsByte s → All IsByte (b64enc s)
b64enc-IsByte s h = rw (b64enc-sextets s) (digits-IsByte (sextets s) (sextets-IsSextet s h))
