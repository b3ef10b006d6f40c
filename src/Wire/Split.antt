-- ===== src/Wire/Split.antt =====
-- `strings.Split` and `strings.Join` for a separator of one byte.
use go_clarinet.Base.{ℕ, ◌≡◌, ◌≢◌, refl, ap, ◌∙◌, List, [], ◌∷◌, ◌++◌, Bytes, arith, if◌then◌else◌}
use go_clarinet.Base.Eq.{◌==◌, nat_eq}
use go_clarinet.Base.Lists.{All, All-append}

module _ (sep : ℕ) where
  onto_first : ℕ → List Bytes → List Bytes
  onto_first c [] = (c ∷ []) ∷ []
  onto_first c (p ∷ ps) = (c ∷ p) ∷ ps

  unfoldable pub split : Bytes → List Bytes
  unfolding onto_first
  split [] = [] ∷ []
  split (c ∷ s) = let rest = split s in if c == sep then [] ∷ rest else onto_first c rest

  unfoldable pub join : List Bytes → Bytes
  join [] = []
  join (p ∷ []) = p
  join (p ∷ q ∷ ps) = p ++ sep ∷ join (q ∷ ps)

  abbrev pub Lacks : Bytes → Type 0
  Lacks = All (λ c. c ≢ sep)

  split-alone : (p : Bytes) → Lacks p → split p ≡ p ∷ []
  unfolding split
  split-alone [] h = refl
  split-alone (c ∷ p) (hc, h) = ground (arith, split-alone p h)

  split-append : (p s : Bytes) → Lacks p → split (p ++ sep ∷ s) ≡ p ∷ split s
  unfolding split
  split-append [] s h = ground arith
  split-append (c ∷ p) s (hc, h) = ground (arith, split-append p s h)

  -- Splitting a join gives the parts back, if there is a part and none holds the separator.
  pub split-join :
      (p : Bytes) (ps : List Bytes) → Lacks p → All Lacks ps → split (join (p ∷ ps)) ≡ p ∷ ps
  unfolding join
  split-join p [] h hs = split-alone p h
  split-join p (q ∷ ps) h (hq, hs) =
      split-append p (join (q ∷ ps)) h ∙ ap (λ x. p ∷ x) (split-join q ps hq hs)

-- What holds of the bytes of all parts and of the separator holds of the bytes of the join.
pub All-join :
    (P : ℕ → Type 0) (sep : ℕ) (ps : List Bytes) → P sep → All (All P) ps → All P (join sep ps)
unfolding join
All-join P sep [] h hs = tt
All-join P sep (p ∷ []) h (hp, hs) = hp
All-join P sep (p ∷ q ∷ ps) h (hp, hs) =
    All-append P p (sep ∷ join sep (q ∷ ps)) hp (h, All-join P sep (q ∷ ps) h hs)
