-- ===== src/App.antt =====
-- main.go: the application's handlers, which agree to everything.
pub mod Http
pub mod Accepts
pub mod Trust
pub mod Start
pub mod Routes
pub mod Cluster
use go_clarinet.Base.{true, none, []}
use go_clarinet.Connection.{
  ConnId, ConnectRequest, ConnectResponse, WitnessRequest, WitnessResponse,
}
use go_clarinet.World.{ok, Env, TransportOptions}

-- `transport.Options{}`
unfoldable pub no_options : TransportOptions
no_options = record { timeout = none; write_timeout = none; read_timeout = none }

unfoldable pub connect_response : ConnectRequest → ConnectResponse
connect_response request = record {
  connection_id = request.connection_id;
  errors = [];
  accepted = true;
  reject_reasons = [];
}

unfoldable pub witness_response : WitnessRequest → WitnessResponse
witness_response request = record {
  connection_id = request.connection_id;
  errors = [];
  accepted = true;
  reject_reasons = [];
}

-- A node that has these handlers.
unfoldable pub with_handlers : {S : Type 0} → Env S → Env S
unfolding no_options connect_response witness_response
with_handlers env = record env {
  on_connect = λ peer request s. (ok (connect_response request, none), s);
  connect_options = no_options;
  on_witness = λ peer request s. (ok (witness_response request, none), s);
  on_peers = λ peer request s. (ok none, s);
  on_witness_notification = λ peer notification s. (ok tt, s);
  on_close = λ peer request s. (ok tt, s);
}
