-- ===== src/E2b/Tests.antt =====
-- The theorems on pkg/e2bcompat/server.go and lifecycle.go, at concrete inputs.
use sandbox_operator.Prelude.{
  ◌≡◌, refl, true, false, none, some, List, [], ◌∷◌, arith, list_beq, Text, codes, cut_prefix,
  text_eq,
}
use sandbox_operator.Prelude.Dict
use sandbox_operator.Prelude.Int.{pos}
use sandbox_operator.Errors.{plain, Result, ok, err}
use sandbox_operator.Scale.Claim.{Assignment}
use sandbox_operator.Scale.Entry.{Sandbox}
use sandbox_operator.Scale.Lifecycle.{Snapshot}
use sandbox_operator.E2b.{
  Call, reads, resumes, renews, releases, marks, inits, unsnaps, Backend, Server,
}
use sandbox_operator.E2b.Sandboxes.{connect}
use sandbox_operator.E2b.Leases.{KeepsLeases, connect-KeepsLeases}
use sandbox_operator.E2b.Forks.{hand_over_all, release_all, forked}
use sandbox_operator.E2b.Forks.Handed.{Settled, forked-Settled}
use sandbox_operator.E2b.Snapshots.{delete_snapshot}
use sandbox_operator.E2b.Owned.{DeletesOwned, delete_snapshot-DeletesOwned}
use sandbox_operator.E2b.Ordered.{sort_by, Distinct}
use sandbox_operator.E2b.PageKey.{compares_le, key_order}
use sandbox_operator.E2b.Page.{Base64, SandboxDetail, key_of, ListPage, list_page_of, cut_page}
use sandbox_operator.E2b.Walk.{walk}
use sandbox_operator.E2b.Walk.Whole.{walk-sort_by}

abbrev sandbox : Sandbox
sandbox = record {
  namespace = codes "team";
  name = codes "sb-1";
  labels = [];
  annotations = (codes "sandbox.cocoonstack.io/claim-id", codes "sb_1") ∷ [];
  resource_version = [];
  node_name = codes "n1";
  pod_ips = [];
  ready = true;
  reason = [];
  created = none;
}

abbrev checkpoint : Snapshot
checkpoint = record {
  id = codes "ck";
  name = codes "team/base";
  sandbox_id = codes "sb_1";
  pool = record { template = codes "i"; net = []; size = codes "small" };
  created_at = 0;
  node = codes "n1";
}

-- A store of one paused sandbox and one snapshot, in which envd takes no token.
abbrev fails_init : Call → Result (Unit {0})
fails_init (inits node id token) = err (plain [])
fails_init _ = ok tt

abbrev store : Backend
store = record {
  find = λ calls ns id matching. ok sandbox;
  read = λ calls node id. ok (record { token = codes "t"; paused = true; deadline = 9 });
  perform = λ calls c. fails_init c;
  fork = λ calls ns node id count ttl. ok [];
  snapshot = λ calls node id name. ok checkpoint;
  snapshots = λ node. ok (checkpoint ∷ []);
  nodes = ok (codes "n1" ∷ []);
  derive = λ token. token;
  left = λ calls deadline. pos 20;
  hash_document = λ token. token;
  quoted = λ s. s;
  rewrite = λ s. s;
  trim_space = λ s. s;
}

abbrev server : Server
server = record {
  namespace = codes "default";
  domain = codes "e.dev";
  envd_version = codes "1";
  default_timeout = pos 15;
  image_aliases = [];
}

-- Connecting for five seconds resumes the sandbox, and renews the lease for the twenty that are left.
connect_calls :
    (connect store server (codes "team") (codes "sb_1") none (some (pos 5)) false (some true) []).1
    ≡ renews (codes "n1") (codes "sb_1") (pos 20) (codes "archive")
      ∷ reads (codes "n1") (codes "sb_1")
      ∷ resumes (codes "n1") (codes "sb_1")
      ∷ reads (codes "n1") (codes "sb_1")
      ∷ []
unfolding connect Dict.get list_beq
connect_calls = refl

connect-KeepsLeases_example :
    KeepsLeases store
      (connect store server
        (codes "team")
        (codes "sb_1")
        none
        (some (pos 5))
        false
        (some true)
        []).1
connect-KeepsLeases_example =
    connect-KeepsLeases store server (codes "team") (codes "sb_1") none (some (pos 5)) false
      (some true) [] tt

abbrev child : Assignment
child = record {
  sandbox_name = codes "sb_2";
  node = codes "n1";
  address = codes "n1:1";
  token = codes "t2";
  deadline = 9;
  net_route = [];
}

forked-Settled_example :
    Settled store []
      (ok (child ∷ []))
      (forked store server (codes "team") (codes "sb_1") sandbox (ok (child ∷ [])) [])
forked-Settled_example =
    forked-Settled store server (codes "team") (codes "sb_1") sandbox (ok (child ∷ [])) []

-- The child of the refused fork is released.
fork_calls :
    (forked store server (codes "team") (codes "sb_1") sandbox (ok (child ∷ [])) []).1
    ≡ releases (codes "n1") (codes "sb_2")
      ∷ inits (codes "n1") (codes "sb_2") (codes "t2")
      ∷ marks (codes "n1") (codes "sb_2") (codes "t2")
      ∷ []
unfolding hand_over_all release_all
fork_calls = refl

delete_calls :
    (delete_snapshot store (codes "team") (codes "ck") []).1
    ≡ unsnaps (codes "n1") (codes "ck") ∷ []
unfolding delete_snapshot cut_prefix list_beq
delete_calls = refl

-- Another caller's namespace sees no such snapshot.
delete_elsewhere : (delete_snapshot store (codes "tea") (codes "ck") []).1 ≡ []
unfolding delete_snapshot cut_prefix
delete_elsewhere = refl

delete_snapshot-DeletesOwned_example :
    DeletesOwned store
      (codes "team")
      (codes "ck")
      []
      (delete_snapshot store (codes "team") (codes "ck") [])
delete_snapshot-DeletesOwned_example =
    delete_snapshot-DeletesOwned store (codes "team") (codes "ck") []

abbrev plain_text : Base64
plain_text = record {
  encode = λ s. s;
  decode = λ s. some s;
  decode_encode = λ s. refl;
  encode_nil = refl;
}

abbrev detail : Text → Text → SandboxDetail
detail start id = record {
  template_id = [];
  alias = [];
  sandbox_id = id;
  client_id = [];
  started_at = start;
  end_at = [];
  state = codes "running";
  envd_version = [];
  cpu_count = 1;
  memory_mb = 512;
  disk_size_mb = 0;
  metadata = [];
  envd_access_token = [];
  domain = [];
  started_at_key = start;
}

abbrev details : List SandboxDetail
details =
    detail (codes "2") (codes "a")
    ∷ detail (codes "1") (codes "b")
    ∷ detail (codes "2") (codes "c")
    ∷ []

abbrev pages : ListPage
pages = record { limit = 2; desc = true; after = ([], []) }

first_page : list_page_of plain_text (codes "2") [] [] ≡ ok pages
unfolding list_page_of
first_page = refl

first_cut :
    cut_page plain_text pages details
    ≡ (detail (codes "2") (codes "c") ∷ detail (codes "2") (codes "a") ∷ [], codes "2 a")
unfolding cut_page compares_le list_beq
first_cut = refl

details-Distinct : Distinct (key_order true) key_of details
details-Distinct =
    ((λ e. ground arith, (λ e. ground arith, tt)), ((λ e. ground arith, tt), (tt, tt)))

walk-sort_by_example :
    walk plain_text (codes "2") [] details 4 [] ≡ sort_by (key_order true) key_of details
walk-sort_by_example =
    walk-sort_by plain_text (codes "2") [] details pages first_page (omega arith) details-Distinct (
      (refl, (λ e. omega arith, tt)),
      ((refl, (λ e. omega arith, tt)), ((refl, (λ e. omega arith, tt)), tt)),
    )
