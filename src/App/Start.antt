-- ===== src/App/Start.antt =====
-- The start of main.go: the configuration, the logger, the key, the host and the node. The files, the
-- machine, the parsers and libp2p are parameters; `none` is where the process ends with a message.
-- The trust function is not wired in here: it is `trusts` of the outer environment, a parameter as every
-- trust function is that a node is given. App/Trust models the one that main.go passes, which also
-- reads the reputation store.
use go_clarinet.Base.{
  Bool, true, false, Option, none, some, List, [], ◌∷◌, ◌++◌, Bytes, codes, if◌then◌else◌,
}
use go_clarinet.Base.Eq.{◌==◌, bytes_eq}
use go_clarinet.Base.Int.{ℤ}
use go_clarinet.Base.Options.{◌>>=◌}
use go_clarinet.Peer.{Peer}
use go_clarinet.World.{World, Result, ok, err, panicked, Env, TransportOptions}
use go_clarinet.Wire.Decimal.{format_int}
use go_clarinet.Wire.Messages.{Texts}
use go_clarinet.Log.{parse_level}
use go_clarinet.Log.Zap.{ZapLogger, new_zap_logger}
use go_clarinet.PeerStore.{Host, with_store}
use go_clarinet.Node.Peers.{self}
use go_clarinet.Inmem.Connections.{new_connection_store}
use go_clarinet.Inmem.Reputations.{new_reputation_store}
use go_clarinet.Transport.Stream.{Protocol}
use go_clarinet.Transport.Serve.{Endpoint}
use go_clarinet.Transport.Endpoints.{endpoint}
use go_clarinet.App.{no_options, with_handlers}

pub record Config : Type 0 where
  pub libp2p_port : ℤ
  pub cert_path : Bytes
  pub admin_port : ℤ
  pub log_level : Bytes
  pub host : Bytes

-- The files and what parses them, the names and addresses of the machine, and libp2p's keys.
pub record Machine : Type 1 where
  pub StdKey : Type 0
  pub PrivKey : Type 0
  pub read_file : Bytes → Option Bytes
  pub unmarshal : Bytes → Option Config
  pub pem_block : Bytes → Option Bytes
  pub pkcs8 : Bytes → Option StdKey
  pub pkcs1 : Bytes → Option StdKey
  pub key_pair : StdKey → Option PrivKey
  pub hostname : Option Bytes
  pub lookup_host : Bytes → Option (List Bytes)
  pub is_loopback : Bytes → Bool

module _ (machine : Machine) where
  unfoldable pub load_config : List Bytes → Option Config
  load_config (program ∷ path ∷ []) = do
    contents ← machine.read_file path
    machine.unmarshal contents
  load_config _ = none

  parsed_key : Bytes → Option machine.StdKey → Option machine.StdKey
  parsed_key block none = machine.pkcs1 block
  parsed_key block (some key) = some key

  -- The key that comes beside no error, which is nil where the pair cannot be made.
  unfoldable pub load_priv_key : Bytes → Option (Option machine.PrivKey)
  unfolding parsed_key
  load_priv_key file = do
    contents ← machine.read_file file
    block ← machine.pem_block contents
    key ← parsed_key block (machine.pkcs8 block)
    some (machine.key_pair key)

  first_outer : List Bytes → Bytes
  first_outer [] = []
  first_outer (addr ∷ addrs) = if machine.is_loopback addr then first_outer addrs else addr

  unfoldable pub host_ip : Config → Option Bytes
  unfolding first_outer
  host_ip cfg = elim (cfg.host == []) [
    | false ↦ some cfg.host
    | true ↦ do
      hostname ← machine.hostname
      addrs ← machine.lookup_host hostname
      some (first_outer addrs)
  ]

  -- A `%d` behind the literals' ASCII.
  unfoldable pub listen_addr : Bytes → Config → Bytes
  listen_addr ip cfg =
      codes "/ip4/" ++ ip ++ codes "/udp/" ++ format_int cfg.libp2p_port ++ codes "/quic-v1"

  -- An identity is given where a key is configured, a nil one included. `new_host` is `lp2p.New` with
  -- the relay off.
  identity : Config → Option (Option (Option machine.PrivKey))
  unfolding load_priv_key
  identity cfg = elim (cfg.cert_path == []) [
    | true ↦ some none
    | false ↦ do key ← load_priv_key cfg.cert_path; some (some key)
  ]

  module _ {S : Type 0} (new_host : Bytes → Option (Option machine.PrivKey) → Option (Host S)) where
    unfoldable pub init_libp2p_host : Config → Option (Host S)
    unfolding host_ip listen_addr identity
    init_libp2p_host cfg = do ip ← host_ip cfg; id ← identity cfg; new_host (listen_addr ip cfg) id

-- `builds`: whether zap makes its own logger.
unfoldable pub init_logger : Bool → Config → Option ZapLogger
init_logger builds cfg = do level ← parse_level cfg.log_level; new_zap_logger builds (some level)

-- `NewNode`: the handlers behind the protocols, where the transport registers them.
unfoldable pub new_node :
    {S : Type 0} → Bool → (Protocol → TransportOptions) → Env S → Option (Protocol → Endpoint S)
new_node registers options env = if registers then some (endpoint env options) else none

-- `main`, up to the HTTP server: the logger, the node with its handlers, and the peer that it is.
pub record Started (S : Type 0) : Type 1 where
  pub logger : ZapLogger
  pub serves : Protocol → Endpoint S
  pub env : Env S
  pub world : World S
  pub me : Peer
  pub admin_port : ℤ

-- The stores of a new node, and nothing sent or started yet.
new_node_stores : {S : Type 0} → S → World S
new_node_stores s = record {
  outside = s;
  conns = new_connection_store;
  reps = new_reputation_store;
  sent = [];
  tasks = [];
}

or_die : Result Peer → Option Peer
or_die (ok me) = some me
or_die (err e) = none
or_die panicked = none

module _ (machine : Machine) (texts : Texts) (builds registers : Bool) {S : Type 0}
    (new_host : Bytes → Option (Option machine.PrivKey) → Option (Host S)) (outer : Env S) where
  unfoldable pub main : List Bytes → S → Option (Started S)
  unfolding or_die new_node_stores
  main args s = do
    cfg ← load_config machine args
    logger ← init_logger builds cfg
    host ← init_libp2p_host machine new_host cfg
    let env = with_handlers (with_store texts host outer)
    serves ← new_node registers (λ protocol. no_options) env
    let w = new_node_stores s
    me ← or_die (self env w).0
    some (record {
      logger = logger;
      serves = serves;
      env = env;
      world = w;
      me = me;
      admin_port = cfg.admin_port;
    })
