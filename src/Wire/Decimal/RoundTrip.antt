-- ===== src/Wire/Decimal/RoundTrip.antt =====
-- Every `int` is read back from its decimal text.
use go_clarinet.Base.{
  ℕ, zero, suc, ◌+◌, ◌*◌, ◌/◌, ◌%◌, ◌^◌, ◌<◌, ◌≤◌, ◌≡◌, ◌≢◌, refl, ap, ◌∙◌, append_assoc,
  append-nil, sym, some, [], ◌∷◌, ◌++◌, Bytes, arith,
}
use mathlib.Core.List.{concat-ne-nil}
use native.Mathlib.Decide.{dec_lt}
use go_clarinet.Base.Eq.{nat_eq}
use go_clarinet.Base.Int.{ℤ, pos, negsuc}
use go_clarinet.Base.Lists.{All, All-append}
use go_clarinet.Wire.Base64.RoundTrip.{IsPlain}
use go_clarinet.Wire.Decimal.{
  digits_within, format_nat, format_int, read_digits, read_some, as_pos, as_neg, atoi,
}

abbrev pub IsDigit : ℕ → Type 0
IsDigit c = (b'0' ≤ c) × (c ≤ b'9')

digits_small : (fuel n : ℕ) → n < 10 → digits_within (suc fuel) n ≡ (b'0' + n) ∷ []
unfolding digits_within
digits_small fuel n h = ground arith

digits_large :
    (fuel n : ℕ)
    → 10 ≤ n
    → digits_within (suc fuel) n ≡ digits_within fuel (n / 10) ++ (b'0' + n % 10) ∷ []
unfolding digits_within
digits_large fuel n h = ground arith

read_step :
    (n d : ℕ) (rest : Bytes)
    → d < 10
    → read_digits ((b'0' + d) ∷ rest) n ≡ read_digits rest (n * 10 + d)
unfolding read_digits
read_step n d rest h = ground arith

read-digits_within :
    (fuel n : ℕ) (rest : Bytes)
    → n < fuel
    → read_digits (digits_within fuel n ++ rest) 0 ≡ read_digits rest n
read-digits_within zero n rest h = elim h [ ]
read-digits_within (suc fuel) n rest h = elim (dec_lt n 10) [
  | yes small ↦
      rw (digits_small fuel n small, read_step 0 n rest small) (ap (read_digits rest) (omega arith))
  | no large ↦
      rw
        (
          digits_large fuel n (omega arith),
          append_assoc,
          read-digits_within fuel (n / 10) ((b'0' + n % 10) ∷ rest) (omega arith),
          read_step (n / 10) (n % 10) rest (omega arith),
        )
        (ap (read_digits rest) (omega arith))
]

digits_within-IsDigit : (fuel n : ℕ) → All IsDigit (digits_within fuel n)
unfolding digits_within
digits_within-IsDigit zero n = tt
digits_within-IsDigit (suc fuel) n = elim (dec_lt n 10) [
  | yes small ↦ rw (digits_small fuel n small) (omega arith)
  | no large ↦ rw (digits_large fuel n (omega arith)) (
      All-append IsDigit (digits_within fuel (n / 10)) _ (digits_within-IsDigit fuel (n / 10))
        (omega arith))
]

pub format_nat-IsDigit : (n : ℕ) → All IsDigit (format_nat n)
unfolding format_nat
format_nat-IsDigit n = digits_within-IsDigit (suc n) n

read-format_nat : (n : ℕ) → read_digits (format_nat n) 0 ≡ some n
unfolding format_nat
read-format_nat n =
    ap (λ s. read_digits s 0) (sym (append-nil (digits_within (suc n) n)))
    ∙ read-digits_within (suc n) n [] (omega arith)
    ∙ unfold read_digits in refl

pub format_nat-ne-nil : (n : ℕ) → format_nat n ≢ []
unfolding format_nat
format_nat-ne-nil n = elim (dec_lt n 10) [
  | yes small ↦ rw (digits_small n n small) (λ q. cc)
  | no large ↦
      rw (digits_large n n (omega arith)) (concat-ne-nil (b'0' + n % 10) (digits_within n (n / 10)))
]

-- Unsigned digits are read as they stand, and as the digits behind a sign.
read_unsigned : (s : Bytes) → s ≢ [] → read_some s ≡ read_digits s 0
unfolding read_some
read_unsigned [] h = absurd (h refl)
read_unsigned (c ∷ s) h = refl

read_some-format_nat : (n : ℕ) → read_some (format_nat n) ≡ some n
read_some-format_nat n = read_unsigned (format_nat n) (format_nat-ne-nil n) ∙ read-format_nat n

atoi_digits : (s : Bytes) (n : ℕ) → All IsDigit s → read_some s ≡ some n → atoi s ≡ as_pos n
unfolding atoi
atoi_digits [] n h r = cc
atoi_digits (c ∷ s) n (hc, h) r = ground (arith, r)

atoi_minus : (s : Bytes) (n : ℕ) → read_some s ≡ some n → atoi (b'-' ∷ s) ≡ as_neg n
unfolding atoi
atoi_minus s n r = rw r refl

-- An `int` of 64 bits.
abbrev pub IsInt64 : ℤ → Type 0
IsInt64 (pos n) = n < 2 ^ 63
IsInt64 (negsuc n) = n < 2 ^ 63

-- Every number of 64 bits comes back from its text.
pub atoi-format_int : (z : ℤ) → IsInt64 z → atoi (format_int z) ≡ some z
unfolding format_int
atoi-format_int (pos n) h =
    atoi_digits (format_nat n) n (format_nat-IsDigit n) (read_some-format_nat n)
    ∙ unfold as_pos in ground arith
atoi-format_int (negsuc n) h =
    atoi_minus (format_nat (suc n)) (suc n) (read_some-format_nat (suc n))
    ∙ unfold as_neg in ground arith

digits-IsPlain : (s : Bytes) → All IsDigit s → All IsPlain s
digits-IsPlain [] h = tt
digits-IsPlain (c ∷ s) ((lo, hi), h) =
    ((ground arith, ground arith, ground arith, ground arith), digits-IsPlain s h)

pub format_int-IsPlain : (z : ℤ) → All IsPlain (format_int z)
unfolding format_int
format_int-IsPlain (pos n) = digits-IsPlain (format_nat n) (format_nat-IsDigit n)
format_int-IsPlain (negsuc n) = (
  (omega arith, omega arith, omega arith, omega arith),
  digits-IsPlain (format_nat (suc n)) (format_nat-IsDigit (suc n)),
)
