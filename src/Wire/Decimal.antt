-- ===== src/Wire/Decimal.antt =====
-- `%d` of an `int`, and `strconv.Atoi`: the number of a request for peers.
pub mod RoundTrip
use go_clarinet.Base.{
  ℕ, zero, suc, ◌+◌, ◌-◌, ◌*◌, ◌/◌, ◌%◌, ◌^◌, Bool, true, false, ◌||◌, Option, none, some, List, [],
  ◌∷◌, ◌++◌, Bytes, if◌then◌else◌, ltb, leb,
}
use go_clarinet.Base.Eq.{◌==◌, nat_eq}
use go_clarinet.Base.Int.{ℤ, pos, negsuc}
use go_clarinet.Base.Options.{◌>>=◌}

-- The digits of a number; a number has fewer digits than its successor counts.
digits_within : ℕ → ℕ → Bytes
digits_within zero n = []
digits_within (suc fuel) n = elim (ltb n 10) [
  | true ↦ (b'0' + n) ∷ []
  | false ↦ digits_within fuel (n / 10) ++ (b'0' + n % 10) ∷ []
]

unfoldable pub format_nat : ℕ → Bytes
unfolding digits_within
format_nat n = digits_within (suc n) n

unfoldable pub format_int : ℤ → Bytes
unfolding format_nat
format_int (pos n) = format_nat n
format_int (negsuc n) = b'-' ∷ format_nat (suc n)

-- The number that digits spell behind `n`. The source stops at an overflow; here the whole number
-- is read, and its range is tested at the end.
read_digits : Bytes → ℕ → Option ℕ
read_digits [] n = some n
read_digits (c ∷ s) n =
    let rest = read_digits s (n * 10 + (c - b'0')) in
    if ltb c b'0' || ltb b'9' c then none else rest

read_some : Bytes → Option ℕ
read_some [] = none
read_some (c ∷ s) = read_digits (c ∷ s) 0

as_pos : ℕ → Option ℤ
as_pos n = if ltb n (2 ^ 63) then some (pos n) else none

as_neg : ℕ → Option ℤ
as_neg zero = some (pos 0)
as_neg (suc n) = if ltb n (2 ^ 63) then some (negsuc n) else none

unfoldable pub atoi : Bytes → Option ℤ
unfolding read_digits read_some as_pos as_neg
atoi [] = none
atoi (c ∷ s) =
    if c == b'-'
    then (do n ← read_some s; as_neg n)
    else if c == b'+'
    then (do n ← read_some s; as_pos n)
    else do n ← read_some (c ∷ s); as_pos n
