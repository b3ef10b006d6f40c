-- ===== src/Log.antt =====
-- v2/log/log.go: the levels.
pub mod Order
pub mod Zap
use go_clarinet.Base.{
  ℕ, ◌+◌, Bool, true, false, ◌&&◌, Option, none, some, List, [], ◌∷◌, Bytes, codes, if◌then◌else◌,
  leb,
}
use go_clarinet.Base.Eq.{◌==◌, nat_eq, bytes_eq}

pub data Level : Type 0 where
  trace debug info warn error : Level

unfoldable pub value : Level → ℕ
value trace = 5
value debug = 4
value info = 3
value warn = 2
value error = 1

-- The level is at least as talkative as the other.
unfoldable pub at_least : Level → Level → Bool
unfolding value
at_least level other = leb (value other) (value level)

unfoldable pub level_text : Level → Bytes
level_text trace = codes "TRACE"
level_text debug = codes "DEBUG"
level_text info = codes "INFO"
level_text warn = codes "WARN"
level_text error = codes "ERROR"

-- `strings.ToLower`, as far as its result is ASCII: the letters, and the two runes outside ASCII
-- that have an ASCII letter as their lower case, U+0130 and U+212A. All other bytes stand for runes
-- whose lower case is not ASCII either.
lower_byte : ℕ → ℕ
lower_byte c = if leb b'A' c && leb c b'Z' then c + 32 else c

unfoldable pub to_lower : Bytes → Bytes
unfolding lower_byte
to_lower [] = []
to_lower (c ∷ []) = lower_byte c ∷ []
to_lower (c ∷ d ∷ []) = elim (c == 196 && d == 176) [
  | true ↦ b'i' ∷ []
  | false ↦ lower_byte c ∷ to_lower (d ∷ [])
]
to_lower (c ∷ d ∷ e ∷ s) = elim (c == 196 && d == 176) [
  | true ↦ b'i' ∷ to_lower (e ∷ s)
  | false ↦ elim (c == 226 && d == 132 && e == 170) [
    | true ↦ b'k' ∷ to_lower s
    | false ↦ lower_byte c ∷ to_lower (d ∷ e ∷ s)
  ]
]

named : Bytes → Option Level
named s =
    if s == codes "trace"
    then some trace
    else if s == codes "debug"
    then some debug
    else if s == codes "info"
    then some info
    else if s == codes "warn"
    then some warn
    else if s == codes "error"
    then some error
    else none

-- `none` is the error, which repeats the text.
unfoldable pub parse_level : Bytes → Option Level
unfolding named
parse_level s = named (to_lower s)
