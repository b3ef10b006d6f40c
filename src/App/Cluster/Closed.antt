-- ===== src/App/Cluster/Closed.antt =====
-- `CloseConnection` between nodes of main.go.
use go_clarinet.Base.{ℕ, ◌≡◌, ◌∙◌, refl, ap, true, false, some, ◌<◌, ◌^◌, Bytes}
use go_clarinet.Base.Assoc.{lookup}
use go_clarinet.Base.Eq.{◌==◌, nat_eq}
use go_clarinet.Peer.{some_id, peer_id_eq}
use go_clarinet.Connection.{Conn, is_closed, closed, set_status}
use go_clarinet.World.{World, Env, TransportOptions, ok}
use go_clarinet.World as World
use go_clarinet.Wire.Messages.{Texts}
use go_clarinet.Wire.Messages.Fields.{Faithful}
use go_clarinet.Wire.Payload.{close_request}
use go_clarinet.Transport.Stream.{Fault, close}
use go_clarinet.Transport.Client.{protocol_of}
use go_clarinet.Transport.Endpoints.{endpoint}
use go_clarinet.PeerStore.{Host, with_store, self}
use go_clarinet.PeerStore.Known.{peer_at, find-peer_at}
use go_clarinet.Node.Close.{close_connection}
use go_clarinet.Node.Close.Agreed.{participants}
use go_clarinet.Node.Close.Course.{close_course}
use go_clarinet.App.{with_handlers}
use go_clarinet.App.Cluster.{
  Around, cluster, around_host, payload_of, protocol_for, endpoint_of, send_at, result_of,
}
use go_clarinet.App.Cluster.Delivered.{sent_arrives, was_sent}
use go_clarinet.App.Cluster.Told.{among, closed_if, after, told_at, told_elsewhere}
use go_clarinet.App.Cluster.Closing.{closed_of, closed_world}

-- The connection is closed at the node `m` itself, and at each other node that takes part in it and
-- knows it. The other nodes are as they were.
pub record IsClosed {S : Type 0} (c : Conn) (m : ℕ) (w w' : World (Around S)) : Type 0 where
  pub here : lookup c.id w'.conns ≡ some (set_status closed c)
  pub there :
      (n : ℕ)
      → (n == m) ≡ false
      → among n (participants c) ≡ true
      → lookup c.id (w'.outside.nodes n).conns ≡ closed_of (lookup c.id (w.outside.nodes n).conns)
  pub elsewhere :
      (n : ℕ) → among n (participants c) ≡ false → w'.outside.nodes n ≡ w.outside.nodes n

module _ (texts : Texts) (faithful : Faithful texts) (fault_text : Fault → Bytes) {S : Type 0}
    (hosts : ℕ → Host S) (inner : Env S) (host : Host S) (c : Conn) (small : c.id < 2 ^ 128)
    (o : TransportOptions) where
  abbrev node : Env (Around S)
  node = cluster texts fault_text hosts inner host

  sends :
      (n : ℕ) (s : Around S)
      → (n == host.id) ≡ false
      → node.send
          (peer_at (around_host host) s n)
          o
          (World.close_request (record { connection_id = c.id }))
          s
        ≡ (ok tt, after texts hosts inner host c.id n s)
  unfolding cluster with_handlers with_store send_at result_of endpoint protocol_of payload_of
      protocol_for peer_at after
  sends n s distinct =
      let to = peer_at (around_host host) s n in
      let e = endpoint_of texts hosts inner n close in
      let p = close_request (record { connection_id = c.id }) in
      rw
        (
          was_sent texts faithful host.id n e to refl distinct o p small refl close refl
              (s.nodes n),
          sent_arrives texts faithful host.id n e to refl distinct o p small refl close refl s
              (closed_world texts (hosts n) inner (some_id host.id) c.id (s.nodes n))
              (e.handle (some_id host.id) p (s.nodes n)).0 refl,
        )
        refl

  -- Between nodes of main.go, over streams that open, take every write whole and carry both directions:
  -- if a node has a connection of 128 bits under its id that is not closed, `CloseConnection` returns no
  -- error, the connection is closed at the node, and at each other end and witness of it that knows
  -- it, and no other node is changed.
  pub close_connection_agrees :
      (w : World (Around S))
      → lookup c.id w.conns ≡ some c
      → is_closed c.status ≡ false
      → (w' : World (Around S)) × (close_connection
            (cluster texts fault_text hosts inner host)
            c.id
            o
            w
          ≡ (ok tt, w'))
        × IsClosed c host.id w w'
  unfolding cluster with_handlers with_store self peer_at around_host closed_if
  close_connection_agrees w known live =
      let (w', goes, at_end, here) =
        close_course node host.id (λ s. (peer_at (around_host host) s host.id).addresses)
          (λ n s. (peer_at (around_host host) s n).addresses)
          (λ s. ap (λ q. (q, s)) (find-peer_at texts faithful (around_host host) host.id s))
          (λ n s. ap (λ q. (q, s)) (find-peer_at texts faithful (around_host host) n s)) o c
          (after texts hosts inner host c.id) sends c.id w known live in
      (
        w',
        goes,
        record {
          here = here;
          there = λ n other takes_part.
              ap (λ s. lookup c.id (s.nodes n).conns) at_end
              ∙ told_at texts hosts inner host c.id n (participants c) w.outside other
              ∙ ap (λ b. closed_if b (lookup c.id (w.outside.nodes n).conns)) takes_part;
          elsewhere = λ n out.
              ap (λ s. s.nodes n) at_end
              ∙ told_elsewhere texts hosts inner host c.id n (participants c) w.outside out;
        },
      )
