-- ===== src/Log/Order.antt =====
-- The levels are in a line, and their names are theirs in any case of their letters.
use go_clarinet.Base.{
  ℕ, ◌≡◌, ◌↔◌, refl, sym, ◌∙◌, Bool, true, ◌||◌, some, Bytes, codes, arith, if◌then◌else◌,
}
use go_clarinet.Base.Eq.{nat_beq, bytes_eq, bytes_beq_iff}
use go_clarinet.Log.{
  Level, trace, debug, info, warn, error, value, at_least, level_text, to_lower, named, parse_level,
}

lower_text : Level → Bytes
lower_text trace = codes "trace"
lower_text debug = codes "debug"
lower_text info = codes "info"
lower_text warn = codes "warn"
lower_text error = codes "error"

named_text : (l : Level) → named (lower_text l) ≡ some l
unfolding named lower_text
named_text trace = refl
named_text debug = refl
named_text info = refl
named_text warn = refl
named_text error = refl

to_lower-level_text : (l : Level) → to_lower (level_text l) ≡ lower_text l
unfolding to_lower level_text lower_text
to_lower-level_text trace = refl
to_lower-level_text debug = refl
to_lower-level_text info = refl
to_lower-level_text warn = refl
to_lower-level_text error = refl

named_only : (s : Bytes) (l : Level) → named s ≡ some l → s ≡ lower_text l
unfolding named lower_text
named_only s l q =
    let is_trace = bytes_beq_iff s (codes "trace") in
    let is_debug = bytes_beq_iff s (codes "debug") in
    let is_info = bytes_beq_iff s (codes "info") in
    let is_warn = bytes_beq_iff s (codes "warn") in
    let is_error = bytes_beq_iff s (codes "error") in
    elim l [
      | trace ↦ ground arith
      | debug ↦ ground arith
      | info ↦ ground arith
      | warn ↦ ground arith
      | error ↦ ground arith
    ]

-- A text is read as a level if and only if it has the lower case of the level's name.
pub parse_level_iff :
    (s : Bytes) (l : Level) → (parse_level s ≡ some l) ↔ (to_lower s ≡ to_lower (level_text l))
unfolding parse_level
parse_level_iff s l = (
  λ q. named_only (to_lower s) l q ∙ sym (to_lower-level_text l),
  λ q. rw (q, to_lower-level_text l) (named_text l),
)

pub record IsTotalOrder (le : Level → Level → Bool) : Type 0 where
  pub transitive : (a b c : Level) → le a b ≡ true → le b c ≡ true → le a c ≡ true
  pub antisymmetric : (a b : Level) → le a b ≡ true → le b a ≡ true → a ≡ b
  pub total : (a b : Level) → (le a b || le b a) ≡ true

valued : ℕ → Level
valued n =
    if nat_beq n 5
    then trace
    else if nat_beq n 4
    then debug
    else if nat_beq n 3
    then info
    else if nat_beq n 2
    then warn
    else error

valued-value : (l : Level) → valued (value l) ≡ l
unfolding value valued
valued-value trace = refl
valued-value debug = refl
valued-value info = refl
valued-value warn = refl
valued-value error = refl

same_value : (a b : Level) → value a ≡ value b → a ≡ b
same_value a b q = let back = valued-value a in let back' = valued-value b in cc

-- The levels are totally ordered by `AtLeast`.
pub at_least-IsTotalOrder : IsTotalOrder at_least
unfolding at_least
at_least-IsTotalOrder = record {
  transitive = λ a b c h h'. ground arith;
  antisymmetric = λ a b h h'. same_value a b (ground arith);
  total = λ a b. ground arith;
}
