-- ===== src/Tests/App.antt =====
-- The application's node over a sample host, and its HTTP interface.
use go_clarinet.Base.{◌≡◌, ◌⊎◌, refl, true, none, some, List, [], ◌∷◌, Bytes, codes}
use mathlib.Core.List.{mem-cons_of_mem, mem-cons_self}
use go_clarinet.World.{World, Env, M, ok, err, pure}
use go_clarinet.Connection.Error.{outside}
use go_clarinet.PeerStore.{Host}
use go_clarinet.PeerStore.Known.{Remembers}
use go_clarinet.Node.Peers.{update_peer}
use go_clarinet.Node.Peers.Stored.{stored, IsUpdated, update_peer-IsUpdated}
use go_clarinet.App.Http.{Req, Body, text, Json, adapt}
use go_clarinet.App.Http.Guards.{
  IsRefused, IsHandled, handled, post, adapt-IsHandled, adapt_repeats,
}
use go_clarinet.Tests.Sample.{peer, no_timeouts}
use go_clarinet.Tests.Wire.{texts, texts-Faithful}

-- A host that keeps one list of addresses for all.
abbrev pub host : Host (List Bytes)
host = record {
  id = 1;
  listen_addrs = λ s. codes "/ip4/10.0.0.1" ∷ [];
  add_addr = λ n addr s. addr ∷ s;
  addrs = λ n s. s;
  peers = λ s. 1 ∷ 2 ∷ [];
  multiaddr = λ addr. some addr;
  multiaddr_error = λ addr. [];
  decode_error = λ id. [];
}

host-Remembers : Remembers host
host-Remembers = record {
  takes = λ n addr s. mem-cons_self;
  keeps = λ n m addr other s here. mem-cons_of_mem addr here;
}

-- All calls but those of the peer store and of the application fail.
abbrev pub outer : Env (List Bytes)
outer = record {
  self = λ s. (err (outside []), s);
  find = λ id s. (err (outside []), s);
  all_peers = λ s. (err (outside []), s);
  add_addr = λ id addr s. (err (outside []), s);
  send = λ p o m s. (err (outside []), s);
  exchange_connect = λ p o r s. (err (outside []), s);
  exchange_witness = λ p o r s. (err (outside []), s);
  exchange_peers = λ p o n s. (err (outside []), s);
  trusts = λ r s. (err (outside []), s);
  on_connect = λ p r s. (err (outside []), s);
  connect_options = no_timeouts;
  on_witness = λ p r s. (err (outside []), s);
  on_witness_notification = λ p n s. (err (outside []), s);
  on_close = λ p r s. (err (outside []), s);
  on_peers = λ p n s. (err (outside []), s);
  random_id = λ s. (ok 5, s);
  intn = λ n s. (ok 0, s);
  range_order = λ ids. ids;
  texts = record { uuid_text = λ n. n ∷ []; peer_text = λ n. n ∷ [] };
  at_trace = true;
}

abbrev pub empty : World (List Bytes)
empty = record { outside = []; conns = []; reps = []; sent = []; tasks = [] }

update_peer-IsUpdated_example :
    IsUpdated host 2
      (codes "/ip4/10.0.0.1" ∷ [])
      empty
      (update_peer (stored texts host outer) (peer 2))
update_peer-IsUpdated_example =
    update_peer-IsUpdated texts texts-Faithful host host-Remembers outer 2 (peer 2) empty refl
      ((codes "/ip4/10.0.0.1", refl), tt)

-- A body of one byte or more is taken for the peer's id, and an empty one names nothing.
abbrev pub json : Json
json = record {
  unmarshal = λ s r. (elim s [ [] ↦ r | c ∷ t ↦ record r { peer_id = c ∷ t } ], none);
  marshal = λ body. some (codes "{}");
  marshal_error = λ body. [];
}

-- A handler that gives back the peer's id.
echo : Req → M (List Bytes) Body
echo r = pure (text (codes "id") r.peer_id)

abbrev nobody : Req
nobody = record { peer_id = []; addresses = [] }

abbrev somebody : Req
somebody = record { peer_id = codes "abc"; addresses = [] }

adapt-IsHandled_example :
    IsRefused json outer echo empty (adapt json outer echo (post (codes "abc")) nobody empty)
    ⊎ IsHandled json outer echo
        (post (codes "abc"))
        nobody
        empty
        (adapt json outer echo (post (codes "abc")) nobody empty)
adapt-IsHandled_example = adapt-IsHandled json outer echo (post (codes "abc")) nobody empty

adapt_repeats_example :
    adapt json outer echo
      (post [])
      (adapt json outer echo (post (codes "abc")) nobody empty).kept
      empty
    ≡ handled json outer echo somebody empty
adapt_repeats_example =
    adapt_repeats json outer echo (codes "abc") [] nobody somebody empty empty refl refl
