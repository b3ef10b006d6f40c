-- ===== src/Wire/Base64.antt =====
-- `b64enc` and `b64dec`: `base64.RawStdEncoding`, the standard alphabet without padding.
pub mod RoundTrip
use go_clarinet.Base.{
  ℕ, ◌+◌, ◌-◌, ◌*◌, ◌/◌, ◌%◌, Bool, true, false, ◌||◌, ◌&&◌, Option, none, some, List, [], ◌∷◌,
  Bytes, if◌then◌else◌, ltb, leb,
}
use go_clarinet.Base.Eq.{◌==◌, nat_eq}
use go_clarinet.Base.Options.{◌>>=◌}

-- `ABC…XYZabc…xyz0123456789+/` at a place below 64
unfoldable pub digit : ℕ → ℕ
digit n =
    if ltb n 26
    then n + b'A'
    else if ltb n 52
    then n - 26 + b'a'
    else if ltb n 62
    then n - 52 + b'0'
    else if n == 62
    then b'+'
    else b'/'

unfoldable pub place : ℕ → Option ℕ
place c =
    if leb b'A' c && leb c b'Z'
    then some (c - b'A')
    else if leb b'a' c && leb c b'z'
    then some (c - b'a' + 26)
    else if leb b'0' c && leb c b'9'
    then some (c - b'0' + 52)
    else if c == b'+'
    then some 62
    else if c == b'/'
    then some 63
    else none

-- Three bytes are four digits; one or two bytes at the end are two or three.
unfoldable pub b64enc : Bytes → Bytes
unfolding digit
b64enc [] = []
b64enc (a ∷ []) = digit (a / 4) ∷ digit (a % 4 * 16) ∷ []
b64enc (a ∷ b ∷ []) = digit (a / 4) ∷ digit (a % 4 * 16 + b / 16) ∷ digit (b % 16 * 4) ∷ []
b64enc (a ∷ b ∷ c ∷ s) =
    digit (a / 4)
    ∷ digit (a % 4 * 16 + b / 16)
    ∷ digit (b % 16 * 4 + c / 64)
    ∷ digit (c % 64)
    ∷ b64enc s

-- The decoder passes over line ends, and refuses every other character outside of the alphabet.
unfoldable pub places : Bytes → Option (List ℕ)
unfolding place
places [] = some []
places (c ∷ s) =
    if c == 10 || c == 13 then places s else do n ← place c; ns ← places s; some (n ∷ ns)

-- Four digits are three bytes. The bits that are left at the end are not looked at; one digit alone
-- is refused.
unfoldable pub quanta : List ℕ → Option Bytes
quanta [] = some []
quanta (a ∷ []) = none
quanta (a ∷ b ∷ []) = some ((a * 4 + b / 16) ∷ [])
quanta (a ∷ b ∷ c ∷ []) = some ((a * 4 + b / 16) ∷ (b % 16 * 16 + c / 4) ∷ [])
quanta (a ∷ b ∷ c ∷ d ∷ ns) = do
  s ← quanta ns
  some ((a * 4 + b / 16) ∷ (b % 16 * 16 + c / 4) ∷ (c % 4 * 64 + d) ∷ s)

unfoldable pub b64dec : Bytes → Option Bytes
unfolding places quanta
b64dec s = do ns ← places s; quanta ns
