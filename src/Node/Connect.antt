-- ===== src/Node/Connect.antt =====
-- `Connect` and `requestConnection`.
pub mod Effect
pub mod Agreed
pub mod Course
pub mod Unwitnessed
use go_clarinet.Base.{Option, none, some, if◌then◌else◌}
use go_clarinet.Base.Eq.{◌==◌, nat_eq}
use go_clarinet.Peer.{Peer}
use go_clarinet.Connection.{
  ConnId, Conn, Options, ConnectRequest, ConnectResponse, requesting_receiver,
}
use go_clarinet.Connection.Error.{Err, wrong_connect_id, connect_errors, connect_rejected}
use go_clarinet.World.{
  Env, TransportOptions, M, pure, raise, external, transmit, catch, connect_request, ◌>>=◌, ◌>>◌,
}
use go_clarinet.Inmem.Connections
use go_clarinet.Inmem.Connections.{Written}
use go_clarinet.Node.Peers.{update_peer}
use go_clarinet.Node.Witness.{handle_witness_selection, is_empty}

module _ {S : Type 0} (env : Env S) where
  check_connect_response : Conn → ConnectResponse → M S (Unit {0})
  check_connect_response conn resp =
      if resp.connection_id == conn.id
      then (if is_empty resp.errors
          then (if resp.accepted
              then pure tt
              else raise (connect_rejected resp.connection_id resp.reject_reasons))
          else raise (connect_errors resp.errors))
      else raise (wrong_connect_id conn.id resp.connection_id)

  unfoldable pub request_connection : Peer → Conn → Options → TransportOptions → M S (Unit {0})
  unfolding check_connect_response
  request_connection dest conn options topts =
      let request : ConnectRequest = record {
        connection_id = conn.id;
        sender = conn.sender;
        receiver = conn.receiver;
        options = options;
      } in
      do
        resp ← transmit dest (connect_request request) (env.exchange_connect dest topts request)
        check_connect_response conn resp

  -- The callback that `Connect` gives to `Update`.
  unfoldable pub set_up : Options → TransportOptions → Conn → M S Written
  set_up options topts conn = do
    receiver ← external (env.find conn.receiver)
    request_connection receiver conn options topts
    handle_witness_selection env conn options topts

  -- The part of `Connect` before `Update`.
  unfoldable pub begin_connect : Peer → M S ConnId
  begin_connect receiver = do
    update_peer env receiver
    self ← external env.self
    Connections.create env self receiver requesting_receiver

  -- The id comes beside the error of `Update`; it is the zero id where an earlier step fails.
  unfoldable pub connect : Peer → Options → TransportOptions → M S (ConnId × Option Err)
  unfolding begin_connect set_up
  connect receiver options topts =
      catch (begin_connect receiver)
        (λ id.
          catch (Connections.update id (set_up options topts)) (λ _. pure (id, none))
            (λ e. pure (id, some e)))
        (λ e. pure (0, some e))
