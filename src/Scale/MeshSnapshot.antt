-- ===== src/Scale/MeshSnapshot.antt =====
-- pkg/scale/meshinventory/source.go: the snapshot that the members are published as, and its reads.
pub mod Fleet
use sandbox_operator.Prelude.{
  ℕ, Bool, true, not, Option, none, some, List, [], ◌∷◌, map, ltb, if◌then◌else◌, Text, codes,
  sorted, keys, text_eq,
}
use sandbox_operator.Scale.MeshInventory.{Member, Members}
use sandbox_operator.Prelude.Dict
use sandbox_operator.Prelude.Dict.{Dict}
use sandbox_operator.Errors.{
  Error, plain, sentinel, wrapped, err_no_advertise_addr, is, Result, ok, err, ◌>>=◌, as_http_error,
}
use sandbox_operator.Scale.Model.{
  PoolCapacity, NodeInventory, NodePools, NodeInfo, SandboxSummary, pool_capacity_from_info,
  templates_from_info,
}
use sandbox_operator.Scale.Entry.{Codecs, entry_from_summary}

pub record Snapshot : Type 0 where
  pub nodes : List Text
  pub caps : List NodePools
  pub by_key : Dict Text NodeInventory

abbrev pub Best : Type 0
Best = Dict Text (ℕ × NodeInventory)

abbrev pub better : ℕ → Option (ℕ × NodeInventory) → Bool
better fails none = true
better fails (some b) = ltb fails b.0

abbrev pub offer : ℕ → ℕ → Option NodeInventory → Best → Best
offer max_stale fails none best = best
offer max_stale fails (some inv) best =
    if ltb max_stale fails
    then best
    else if better fails (Dict.get inv.node best)
    then Dict.put inv.node (fails, inv) best
    else best

-- The first loop of `publish`: of the members of one node, the one with the fewest failures.
unfoldable pub best_of : ℕ → Members → Best → Best
best_of max_stale [] best = best
best_of max_stale ((addr, m) ∷ d) best = best_of max_stale d (offer max_stale m.fails m.inv best)

abbrev row_of : Text → Option NodeInventory → NodePools
row_of node none = record { node = node; address = []; pools = []; templates = [] }
row_of node (some inv) = record {
  node = node;
  address = inv.address;
  pools = inv.pools;
  templates = inv.templates;
}

abbrev pub inventories : Best → Dict Text NodeInventory
inventories [] = []
inventories ((key, b) ∷ best) = (key, b.1) ∷ inventories best

-- `publish`
unfoldable pub publish : ℕ → Members → Snapshot
unfolding best_of
publish max_stale members =
    let by_key = inventories (best_of max_stale members []) in
    let nodes = sorted (keys by_key) in
    record {
      nodes = nodes;
      caps = map (λ node. row_of node (Dict.get node by_key)) nodes;
      by_key = by_key;
    }

abbrev pub found : Text → Option NodeInventory → Result NodeInventory
found node none = err (wrapped node (plain (codes "meshinventory: node not in the mesh snapshot")))
found node (some inv) = ok inv

-- `NodeInventory`
unfoldable pub node_inventory : Snapshot → Text → Result NodeInventory
node_inventory s node = found node (Dict.get node s.by_key)

-- `NodeCapacity`
unfoldable pub node_capacity : Snapshot → Text → Result (Text × List PoolCapacity)
unfolding node_inventory
node_capacity s node = node_inventory s node >>= λ inv. ok (inv.address, inv.pools)
