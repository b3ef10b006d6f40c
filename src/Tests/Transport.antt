-- ===== src/Tests/Transport.antt =====
-- Streams between two nodes, over a host that carries everything.
use go_clarinet.Base.{◌∷◌, ℕ, ◌≡◌, refl, true, false, [], arith}
use go_clarinet.Base.Lists.{length}
use go_clarinet.Peer.{some_id}
use go_clarinet.Connection.{ConnectRequest, ConnectResponse, sender_selects}
use go_clarinet.World.{World}
use go_clarinet.Wire.Payload.{connect_request, close_request, unrecognized, a_connect_request}
use go_clarinet.Transport.Stream.{connect, close, done}
use go_clarinet.Transport.Serve.{Endpoint, serve}
use go_clarinet.Transport.Serve.Outcomes.{whole, bytes_of}
use go_clarinet.Transport.Endpoints.{endpoint}
use go_clarinet.Transport.Client.{Network, protocol_of, send}
use go_clarinet.Transport.Shared.{Shared, parses, handles, turns}
use go_clarinet.Transport.Shared.Overlap.{text_of, alone, turns-alone, turns_overlap}
use go_clarinet.Transport.Delivery.{reply_of, Reaches, send-serve}
use go_clarinet.Handlers.Connect as ConnectHandler
use go_clarinet.Tests.Sample.{peer, no_timeouts, agreeable, fresh}
use go_clarinet.Tests.Wire.{texts, texts-Faithful}

-- A host whose streams all lead to this endpoint, where the caller is the peer 2.
abbrev pub carrier : {S : Type 0} → Endpoint S → World S → Network
carrier e w = record {
  dial = λ n protocol timeout. true;
  write = λ s. (length s, false);
  reply = λ s. reply_of (serve texts e whole (some_id 2) s w);
}

pub carrier-Reaches :
    {S : Type 0} (n : ℕ) (e : Endpoint S) (w : World S)
    → Reaches texts (carrier e w) n e (some_id 2) w
carrier-Reaches n e w = record {
  dials = λ protocol timeout. refl;
  takes = λ s. refl;
  replies = λ s. refl;
}

-- From the peer 2 to the peer 1.
abbrev pub request : ConnectRequest
request = record {
  connection_id = 3;
  sender = some_id 2;
  receiver = some_id 1;
  options = record { witness_selector = sender_selects };
}

abbrev accepting : ConnectResponse
accepting = record { connection_id = 3; errors = []; accepted = true; reject_reasons = [] }

abbrev connects : Endpoint ℕ
connects = endpoint agreeable (λ protocol. no_timeouts) connect

abbrev closes : Endpoint ℕ
closes = endpoint agreeable (λ protocol. no_timeouts) close

send-serve_example :
    ((send texts
        (carrier closes fresh)
        (peer 1)
        no_timeouts
        (close_request (record { connection_id = 3 }))).0
      ≡ done tt)
    × ((serve texts closes whole
          (some_id 2)
          (bytes_of
            (send texts
              (carrier closes fresh)
              (peer 1)
              no_timeouts
              (close_request (record { connection_id = 3 }))).1)
          fresh).world
        ≡ (closes.handle (some_id 2) (close_request (record { connection_id = 3 })) fresh).1)
unfolding endpoint protocol_of
send-serve_example =
    send-serve texts texts-Faithful (carrier closes fresh) closes (some_id 2) fresh (peer 1) 1 refl
      (carrier-Reaches 1 closes fresh) (close_request (record { connection_id = 3 })) (omega arith)
      refl close refl no_timeouts

abbrev other_request : ConnectRequest
other_request = record request { connection_id = 4; sender = some_id 3 }

abbrev nothing_yet : Shared
nothing_yet = record { req = unrecognized; waiting = []; calls = [] }

turns-alone_example :
    (turns texts a_connect_request
      (alone texts
        ((some_id 2, connect_request request) ∷ (some_id 3, connect_request other_request) ∷ []))
      nothing_yet).calls
    ≡ (some_id 2, connect_request request) ∷ (some_id 3, connect_request other_request) ∷ []
turns-alone_example =
    turns-alone texts texts-Faithful a_connect_request
      ((some_id 2, connect_request request) ∷ (some_id 3, connect_request other_request) ∷ [])
      nothing_yet (((omega arith, λ q. cc), refl), (((omega arith, λ q. cc), refl), tt))

turns_overlap_example :
    (turns texts a_connect_request
      (parses (some_id 2) (text_of texts (connect_request request))
        ∷ parses (some_id 3) (text_of texts (connect_request other_request))
        ∷ handles (some_id 2)
        ∷ handles (some_id 3)
        ∷ [])
      nothing_yet).calls
    ≡ (some_id 2, connect_request other_request) ∷ (some_id 3, connect_request other_request) ∷ []
turns_overlap_example =
    turns_overlap texts texts-Faithful a_connect_request (some_id 2) (some_id 3)
      (connect_request request) (connect_request other_request) unrecognized
      ((omega arith, λ q. cc), refl) ((omega arith, λ q. cc), refl) (λ q. ground arith)
