-- ===== src/Inmem/Messages/Storing.antt =====
-- What the message store keeps.
use go_clarinet.Base.{ℕ, ◌≡◌, ◌≢◌, refl, Option, none, some, [], ◌∷◌, ◌<◌, ◌^◌}
use go_clarinet.Base.Assoc.{lookup-put_self, lookup-put_ne}
use go_clarinet.Base.Eq.{bytes_eq}
use go_clarinet.Base.Int.{ℤ}
use go_clarinet.Connection.{ConnId}
use go_clarinet.Wire.Base64.RoundTrip.{IsPlain}
use go_clarinet.Wire.Decimal.{format_int}
use go_clarinet.Wire.Decimal.RoundTrip.{IsInt64, atoi-format_int, format_int-IsPlain}
use go_clarinet.Wire.Split.{split, join, split-join}
use go_clarinet.Wire.Parts.RoundTrip.{All-plain}
use go_clarinet.Wire.Messages.{Texts}
use go_clarinet.Wire.Messages.Fields.{Faithful, uuid-All}
use go_clarinet.Inmem.Messages.{
  Message, Store, Added, added, already_exists, panicked, gen_key, add, insert, find,
}
use go_clarinet.Inmem.Messages.Segments.{IsMessage}

NoColon : ℕ → Type 0
NoColon c = c ≢ b':'

no_colon : (c : ℕ) → IsPlain c → NoColon c
unfolding NoColon
no_colon c (not_comma, not_stop, not_end, not_colon) = not_colon

module _ (texts : Texts) where
  -- What an added message changes: its place was free, it is found there, and all else is found as
  -- before.
  pub record IsAdded (m : Message) (store store' : Store) : Type 0 where
    pub was_free : find texts m.connection_id m.sequence_number store ≡ none
    pub is_found : find texts m.connection_id m.sequence_number store' ≡ some m
    pub keeps :
        (id : ConnId) (z : ℤ)
        → id < 2 ^ 128
        → IsInt64 z
        → ¬ ((id ≡ m.connection_id) × (z ≡ m.sequence_number))
        → find texts id z store' ≡ find texts id z store

  -- What `Add` comes to: a nil map panics, and a used place is an error.
  abbrev pub Adds : Message → Store → Added → Type 0
  Adds m store (added store') = IsAdded m store store'
  Adds m store (already_exists key) =
      (key ≡ gen_key texts m.connection_id m.sequence_number)
      × (find texts m.connection_id m.sequence_number store ≢ none)
  Adds m store panicked = store ≡ none

module _ (texts : Texts) (faithful : Faithful texts) where
  split-gen_key :
      (id : ConnId) (z : ℤ)
      → id < 2 ^ 128
      → split b':' (gen_key texts id z) ≡ texts.uuid_string id ∷ format_int z ∷ []
  unfolding gen_key NoColon
  split-gen_key id z small =
      unfold join in
      split-join b':' (texts.uuid_string id) (format_int z ∷ [])
        (uuid-All texts faithful NoColon no_colon id small)
        (All-plain NoColon no_colon (format_int z) (format_int-IsPlain z), tt)

  gen_key_injective :
      (id id' : ConnId) (z z' : ℤ)
      → id < 2 ^ 128
      → id' < 2 ^ 128
      → IsInt64 z
      → IsInt64 z'
      → gen_key texts id z ≡ gen_key texts id' z'
      → (id ≡ id') × (z ≡ z')
  gen_key_injective id id' z z' small small' fits fits' q =
      let key = split-gen_key id z small in
      let key' = split-gen_key id' z' small' in
      let id_back = faithful.uuid id small in
      let id_back' = faithful.uuid id' small' in
      let z_back = atoi-format_int z fits in let z_back' = atoi-format_int z' fits' in (cc, cc)

  module _ (m : Message) (h : IsMessage m) where
    key_ne :
        (id : ConnId) (z : ℤ)
        → id < 2 ^ 128
        → IsInt64 z
        → ¬ ((id ≡ m.connection_id) × (z ≡ m.sequence_number))
        → gen_key texts id z ≢ gen_key texts m.connection_id m.sequence_number
    key_ne id z small fits other q =
        other (
          gen_key_injective id m.connection_id z m.sequence_number small h.id_fits fits h.seq_fits
            q)

    insert-Adds :
        (store : Store) (found : Option Message)
        → find texts m.connection_id m.sequence_number store ≡ found
        → Adds texts m store
            (insert (gen_key texts m.connection_id m.sequence_number) m store found)
    unfolding insert find
    insert-Adds store (some old) q = (refl, λ free. cc)
    insert-Adds none none q = refl
    insert-Adds (some map) none q = record {
      was_free = q;
      is_found = lookup-put_self (gen_key texts m.connection_id m.sequence_number) m map;
      keeps = λ id z small fits other.
          lookup-put_ne (gen_key texts m.connection_id m.sequence_number) (gen_key texts id z) m map
            (key_ne id z small fits other);
    }

    -- `Add` puts a message under a free connection and sequence number, where it is found, and
    -- changes nothing that is found elsewhere; it refuses a message for a used place, and panics only
    -- on a nil map.
    pub add-Adds : (store : Store) → Adds texts m store (add texts m store)
    unfolding add find
    add-Adds store = insert-Adds store (find texts m.connection_id m.sequence_number store) refl
