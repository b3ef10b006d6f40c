-- ===== src/Tests/Texts.antt =====
-- Error texts at concrete errors.
use go_clarinet.Base.{◌≡◌, refl, [], ◌∷◌, ◌+◌, codes}
use go_clarinet.Peer.{some_id}
use go_clarinet.Connection.Error.{
  IdText, error_text, close_failed, close_not_sent, no_connection, add_nil, add_err, no_errs,
}

abbrev digits : IdText
digits = record { uuid_text = λ n. (n + b'0') ∷ []; peer_text = λ n. (n + b'0') ∷ [] }

error_text_nested :
    error_text digits
      (close_failed 7 (add_nil (add_err no_errs (close_not_sent (some_id 2) (no_connection 5)))))
    ≡ codes
        "Errors encountered while closing connectin 7: [Encountered error sending close request to peer 2: No connection exists for ID 5 <nil>]"
unfolding error_text
error_text_nested = refl
