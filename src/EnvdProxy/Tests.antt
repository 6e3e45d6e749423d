-- ===== src/EnvdProxy/Tests.antt =====
-- The theorems on pkg/envdproxy, at concrete inputs.
use sandbox_operator.Prelude.{
  ◌≤◌, ◌≡◌, refl, Bool, true, false, none, some, List, [], ◌∷◌, arith, if◌then◌else◌, ◌==◌,
  list_beq, length, all, codes, text_eq, nat_eq,
}
use sandbox_operator.Prelude.Dict
use sandbox_operator.Errors.{plain, ok, err}
use sandbox_operator.SandboxId.{needs_rewrite}
use sandbox_operator.Scale.NodeIndex.{new_node_index}
use sandbox_operator.Scale.Entry.{Codecs}
use sandbox_operator.EnvdProxy.{Unicode, Route, Request, internal_path, parse_port, route_of_host}
use sandbox_operator.EnvdProxy.Hosts.{is_host_char, route_of_host-sandbox_host}
use sandbox_operator.EnvdProxy.Recent.{
  Owner, RecentOwner, get_recent, after_puts, Put, PutLately, recent_owner_max,
  get_recent-PutLately, after_puts-bounded,
}
use sandbox_operator.EnvdProxy.Resolver.{Asks, Resolver, owner}
use sandbox_operator.EnvdProxy.Admission.{IsDerived, owner-IsDerived}
use sandbox_operator.EnvdProxy.Serve.{Options, Target, relays, sandbox_host, serve}
use sandbox_operator.EnvdProxy.Serve.Relayed.{Admitted, serve-Admitted}

abbrev unicode : Unicode
unicode = record { to_lower = λ s. s; trim_space = λ s. s; equal_fold = λ s t. false }

abbrev rt : Route
rt = record { sandbox_id = codes "sb-1"; port = 8080 }

id_safe : needs_rewrite (codes "sb-1") ≡ false
unfolding needs_rewrite
id_safe = refl

domain_plain : all is_host_char (codes "e.dev") ≡ true
unfolding sandbox_operator.SandboxId.is_dns_safe
domain_plain = refl

route_of_host-sandbox_host_example :
    route_of_host unicode (sandbox_host rt (codes "e.dev")) (codes "e.dev") ≡ some rt
route_of_host-sandbox_host_example =
    route_of_host-sandbox_host unicode rt (codes "e.dev") (omega arith) (omega arith) refl id_safe
      domain_plain

upper_case :
    route_of_host unicode (codes "49983-SB-1.E.dev:443") (codes "e.Dev")
    ≡ some (record { sandbox_id = codes "sb-1"; port = 49983 })
unfolding route_of_host list_beq
upper_case = refl

signed_port : parse_port unicode (codes "+22") ≡ none
unfolding parse_port
signed_port = refl

control_path : internal_path unicode (codes "//FsFreeze/") ≡ true
unfolding internal_path list_beq
control_path = refl

abbrev entry : RecentOwner
entry = record {
  owner = record { claim_id = codes "sb_1"; address = codes "n:1"; token = codes "t" };
  access = codes "t";
  until = 5;
}

abbrev puts : List Put
puts = record { id = codes "sb-1"; entry = entry; now = 3 } ∷ []

after_puts-bounded_example : length (after_puts puts) ≤ recent_owner_max
after_puts-bounded_example = after_puts-bounded puts

abbrev stored : RecentOwner
stored = record entry { until = 60000000003 }

found_again : get_recent (codes "sb-1") 7 (after_puts puts) ≡ some stored
unfolding get_recent after_puts Dict.get Dict.put list_beq
found_again = refl

get_recent-PutLately_example : PutLately (codes "sb-1") 7 stored puts
get_recent-PutLately_example = get_recent-PutLately puts (codes "sb-1") 7 stored found_again

abbrev codecs : Codecs
codecs = record {
  decimal = λ n. [];
  rfc3339 = λ n. [];
  unix = λ n. [];
  fnv = λ s. [];
  marshal = λ d. none;
  split_host = λ s. some s;
}

-- A resolver that derives an access token by copying, over a source with no inventories.
abbrev asks : Asks
asks = record {
  unicode = unicode;
  reads = record {
    codecs = codecs;
    configured = false;
    nodes = ok [];
    inventory = λ node. err (plain []);
    by_claim_ref = λ node ref. err (plain []);
    by_id = λ node id. err (plain []);
    arrival = λ nodes. nodes;
  };
  namespace = [];
  capacity = λ node. ok (codes "n:1");
  read = λ node id. ok (record { token = codes "t"; paused = false; deadline = 0 });
  derive = λ token. token;
  rewrite = λ s. s;
}

abbrev resolver : Resolver
resolver = record { index = new_node_index 10; recent = (codes "sb-1", stored) ∷ [] }

one_entry :
    (b : Bool) (e : RecentOwner)
    → (if b then some stored else none) ≡ some e
    → e.access ≡ e.owner.token
one_entry true e h = ground arith
one_entry false e h = absurd (ground arith)

resolver-IsDerived : IsDerived asks resolver
unfolding Dict.get
resolver-IsDerived = record {
  unique = (refl, tt);
  derived = λ id e h. one_entry (codes "sb-1" == id) e h;
}

owner-IsDerived_example :
    IsDerived asks (owner asks true (codes "sb-1") (codes "t") 7 resolver).1
    × ((o : Owner)
        → (owner asks true (codes "sb-1") (codes "t") 7 resolver).0 ≡ ok o
        → codes "t" ≡ o.token)
owner-IsDerived_example =
    owner-IsDerived asks true (codes "sb-1") (codes "t") 7 resolver resolver-IsDerived

abbrev options : Options
options = record { domain = codes "e.dev"; guest_http2 = false; node_token = codes "k" }

abbrev request : Request
request = record {
  id_header = [];
  port_header = [];
  host = codes "8080-sb-1.e.dev";
  path = codes "/run";
  access_token = codes "t";
  signature = [];
}

abbrev target : Target
target = record { owner = entry.owner; port = 8080; h2 = false; host = codes "8080-sb-1.e.dev" }

served : (serve asks options true 7 request resolver).0 ≡ relays target
unfolding serve list_beq Dict.get
served = refl

serve-Admitted_example :
    (internal_path unicode (codes "/run") ≡ false) × Admitted asks options request target
serve-Admitted_example =
    serve-Admitted asks options true 7 request resolver target resolver-IsDerived served
