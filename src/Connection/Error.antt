-- ===== src/Connection/Error.antt =====
-- The errors that the Clarinet node returns, one constructor for each place that makes one, and
-- their `Error()` texts, which a handler puts into a response.
use go_clarinet.Base.{ℕ, List, [], ◌∷◌, ◌++◌, Bytes, codes, if◌then◌else◌}
use go_clarinet.Base.Eq.{◌==◌, nat_eq}
use go_clarinet.Peer.{PeerId, nil_id, some_id}

mutual
  pub data Err : Type 0 where
    outside : Bytes → Err
    no_connection : ℕ → Err
    connection_exists : ℕ → Err
    unsupported : Err
    unrecognized_selector : Err
    no_witness_assigned : ℕ → Err
    wrong_connect_id : ℕ → ℕ → Err
    connect_errors : List Bytes → Err
    connect_rejected : ℕ → List Bytes → Err
    wrong_witness_id : ℕ → ℕ → Err
    witness_errors : List Bytes → Err
    witness_rejected : ℕ → List Bytes → Err
    no_witness_found : ℕ → Err
    not_awaiting : PeerId → ℕ → Err
    unexpected_notifier : ℕ → PeerId → PeerId → Err
    peer_not_retrieved : PeerId → Err → Err
    close_not_sent : PeerId → Err → Err
    close_failed : ℕ → Errs → Err
    no_peers_requested : Err
    too_many_peers : Err
    address_not_added : Bytes → PeerId → Err → Err
    collective : Errs → Err

  -- A slice of errors, which grows at its end; an element may be a nil error.
  pub data Errs : Type 0 where
    no_errs : Errs
    add_err : Errs → Err → Errs
    add_nil : Errs → Errs

-- `append(errs, err)` for an `err` that may be nil.
-- The texts of ids, which their packages make, as `%s` prints them.
pub record IdText : Type 0 where
  pub uuid_text : ℕ → Bytes
  pub peer_text : ℕ → Bytes

-- `fmt.Sprintf` where each verb takes the next text.
sprintf : Bytes → List Bytes → Bytes
sprintf [] args = []
sprintf (c ∷ []) args = c ∷ []
sprintf (c ∷ verb ∷ rest) [] = c ∷ sprintf (verb ∷ rest) []
sprintf (c ∷ verb ∷ rest) (arg ∷ args) =
    let filled = arg ++ sprintf rest args in
    let copied = c ∷ sprintf (verb ∷ rest) (arg ∷ args) in if c == b'%' then filled else copied

-- `%v` of a slice of strings
spaced : List Bytes → Bytes
spaced [] = []
spaced (s ∷ []) = s
spaced (s ∷ t ∷ rest) = s ++ codes " " ++ spaced (t ∷ rest)

pub slice_text : List Bytes → Bytes
slice_text strings = codes "[" ++ spaced strings ++ codes "]"

module _ (t : IdText) where
  open t use {uuid_text}

  pub peer_id_text : PeerId → Bytes
  peer_id_text nil_id = codes "%!s(<nil>)"
  peer_id_text (some_id n) = t.peer_text n

  -- `Error()`; the second function lists the texts of a slice of errors.
  unfoldable mutual
    unfolding sprintf slice_text spaced peer_id_text

    pub error_text : Err → Bytes
    error_text (outside text) = text
    error_text (no_connection id) =
        sprintf (codes "No connection exists for ID %s") (uuid_text id ∷ [])
    error_text (connection_exists id) =
        sprintf (codes "A connection already exists for ID: %s") (uuid_text id ∷ [])
    error_text unsupported = codes "unsupported operation"
    error_text unrecognized_selector =
        sprintf (codes "Unrecognized WitnessSelector value %s. Supported values are [ %s, %s ]")
          (codes "%!s(<nil>)" ∷ codes "Sender" ∷ codes "Receiver" ∷ [])
    error_text (no_witness_assigned id) =
        sprintf (codes "Attempting to notify of witness for connection %s with no witness assigned")
          (uuid_text id ∷ [])
    error_text (wrong_connect_id expected got) =
        sprintf
          (codes "ConnectResponse contained the incorrect connection ID. Expected: %s, Got: %s")
          (uuid_text expected ∷ uuid_text got ∷ [])
    error_text (connect_errors texts) =
        sprintf (codes "ConnectResponse contained the follwoing errors from the receiver: %v")
          (slice_text texts ∷ [])
    error_text (connect_rejected id reasons) =
        sprintf (codes "Connection %s connect request was rejected for the following reasons: %v")
          (uuid_text id ∷ slice_text reasons ∷ [])
    error_text (wrong_witness_id got expected) =
        sprintf
          (codes "WitnessResponse contained the incorrect connection ID. Got: %s, Expected: %s")
          (uuid_text got ∷ uuid_text expected ∷ [])
    error_text (witness_errors texts) =
        sprintf (codes "Encountered the following errors while requesting witness: %v")
          (slice_text texts ∷ [])
    error_text (witness_rejected id reasons) =
        sprintf (codes "Connection %s witness request was rejected for the following reasons: %v")
          (uuid_text id ∷ slice_text reasons ∷ [])
    error_text (no_witness_found id) =
        sprintf (codes "Failed to find witness for connection %s") (uuid_text id ∷ [])
    error_text (not_awaiting peer id) =
        sprintf
          (codes
            "Received witness notification from peer %s for connection %s that is not awaiting witness notification.")
          (peer_id_text peer ∷ uuid_text id ∷ [])
    error_text (unexpected_notifier id expected got) =
        sprintf
          (codes
            "Received witness notification from unexpected peer for connection %s. Expected: %s, Got: %s")
          (uuid_text id ∷ peer_id_text expected ∷ peer_id_text got ∷ [])
    error_text (peer_not_retrieved peer err) =
        sprintf (codes "Encountered error while retrieving peer %s: %s")
          (peer_id_text peer ∷ error_text err ∷ [])
    error_text (close_not_sent peer err) =
        sprintf (codes "Encountered error sending close request to peer %s: %s")
          (peer_id_text peer ∷ error_text err ∷ [])
    error_text (close_failed id errs) =
        sprintf (codes "Errors encountered while closing connectin %s: %v")
          (uuid_text id ∷ slice_text (error_texts errs) ∷ [])
    error_text no_peers_requested = codes "Must request at least one peer."
    error_text too_many_peers = codes "Target node returned more peers than requested."
    error_text (address_not_added addr peer err) =
        sprintf (codes "Encountered error adding address %s for peer %s: %s")
          (addr ∷ peer_id_text peer ∷ error_text err ∷ [])
    error_text (collective errs) = sprintf (codes "Errors: %v") (slice_text (error_texts errs) ∷ [])

    pub error_texts : Errs → List Bytes
    error_texts no_errs = []
    error_texts (add_err errs err) = error_texts errs ++ error_text err ∷ []
    error_texts (add_nil errs) = error_texts errs ++ codes "<nil>" ∷ []
