-- ===== src/Scale/Resolve/Tests.antt =====
-- Lookups of pkg/scale/sandboxstore_impl.go, and their theorems at concrete inputs.
use sandbox_operator.Prelude.{
  ◌≡◌, refl, true, false, none, some, [], ◌∷◌, list_beq, codes, cut, text_eq,
}
use sandbox_operator.Prelude.Dict
use sandbox_operator.Errors.{http_error, ok, err}
use sandbox_operator.Scale.Model.{InventoryEntry, NodeInventory, SandboxSummary}
use sandbox_operator.Scale.NodeIndex.{NodeIndex, lookup, name_key}
use sandbox_operator.Scale.KubeInventory.Reads.{is_ok}
use sandbox_operator.Scale.Entry.{
  Codecs, split_namespaced_name, entry_from_summary, entry_to_sandbox,
}
use sandbox_operator.Scale.Resolve.{
  Reads, lookup_name, resolve, get, match_on_node, name_match, rows_by_claim_ref,
}
use sandbox_operator.Scale.Resolve.Found.{get-Named}
use sandbox_operator.Scale.Resolve.Complete.{get-inventory, get-live}

abbrev codecs : Codecs
codecs = record {
  decimal = λ n. [];
  rfc3339 = λ n. [];
  unix = λ n. [];
  fnv = λ s. [];
  marshal = λ d. none;
  split_host = λ s. some s;
}

abbrev row : SandboxSummary
row = record {
  id = codes "sb_2";
  key = record { template = codes "base"; net = []; size = [] };
  deadline = 0;
  claimed_at = 0;
  hibernated = false;
  archived = false;
  claim_ref = codes "ns/y";
  token = [];
  metadata = [];
  cpu_count = 0;
  mem_total_bytes = 0;
}

abbrev entry : InventoryEntry
entry = record {
  name = codes "ns/x";
  id = codes "sb_1";
  phase = codes "Running";
  template = [];
  claim_ref = codes "ns/x";
  address = [];
  deadline = none;
  claimed_at = none;
  metadata = [];
  cpu_count = 0;
  memory_bytes = 0;
}

abbrev inventory : NodeInventory
inventory = record {
  node = codes "n1";
  entries = entry ∷ [];
  address = codes "a1";
  pools = [];
  templates = [];
  published_at = none;
}

abbrev reads : Reads
reads = record {
  codecs = codecs;
  configured = true;
  nodes = ok (codes "n1" ∷ []);
  inventory = λ node. ok inventory;
  by_claim_ref = λ node ref. ok (row ∷ []);
  by_id = λ node id. err (http_error 404 []);
  arrival = λ ns. ns;
}

-- The index names a node that has gone.
abbrev index : NodeIndex
index = record { max_entries = 4; cur = (codes "name/ns/x", codes "n0") ∷ []; prev = [] }

get-inventory_example : is_ok (get reads (codes "ns") (codes "x") index).1 ≡ true
unfolding list_beq name_match split_namespaced_name cut
get-inventory_example =
    get-inventory reads (codes "n1" ∷ []) (codes "n1") (codes "ns") (codes "x") inventory index refl
      refl (λ node ns. refl) refl refl

get-live_example : is_ok (get reads (codes "ns") (codes "y") index).1 ≡ true
unfolding list_beq name_match split_namespaced_name cut entry_from_summary rows_by_claim_ref
get-live_example =
    get-live reads (codes "n1" ∷ []) (codes "n1") (codes "ns") (codes "y") (row ∷ []) index refl
      refl (λ node ns. refl) refl refl refl

get-Named_example :
    let sb = entry_to_sandbox codecs (codes "n1") entry in
    (sb.namespace ≡ codes "ns") × (sb.name ≡ codes "x")
unfolding get lookup_name resolve match_on_node name_match list_beq split_namespaced_name cut
    Dict.get lookup name_key
get-Named_example =
    get-Named reads (codes "ns") (codes "x")
      (record { max_entries = 4; cur = (codes "name/ns/x", codes "n1") ∷ []; prev = [] })
      (entry_to_sandbox codecs (codes "n1") entry) refl
