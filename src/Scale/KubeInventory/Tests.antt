-- ===== src/Scale/KubeInventory/Tests.antt =====
-- The theorems on pkg/scale/kubeinventory/source.go, at concrete inputs.
use sandbox_operator.Prelude.{ℕ, ◌≡◌, some, List, [], ◌∷◌, map, All, Text, codes, contains, text_eq}
use sandbox_operator.Prelude.Int.{pos}
use sandbox_operator.Scale.Model.{NodeInventory}
use sandbox_operator.Scale.KubeInventory.{
  inventory, tombstone, Event, puts, drops, run, new, list_nodes, node_capacities, node_inventory,
}
use sandbox_operator.Scale.KubeInventory.Reads.{is_ok, list_nodes-node_inventory}
use sandbox_operator.Scale.KubeInventory.Rows.{RowOf, node_capacities-Rows}

abbrev node : Text → ℕ → NodeInventory
node name t = record {
  node = name;
  entries = [];
  address = codes "a";
  pools = [];
  templates = [];
  published_at = some t;
}

-- One node stopped publishing, one was deleted.
abbrev events : List Event
events =
    puts (inventory (codes "n1") (node (codes "n1") 62135596900))
    ∷ puts (inventory (codes "n2") (node (codes "n2") 62135597900))
    ∷ puts (inventory (codes "n3") (node (codes "n3") 62135597900))
    ∷ drops (tombstone (codes "n3") (node (codes "n3") 62135597900))
    ∷ []

list_nodes-node_inventory_example :
    let s = run events (new (pos 0)) in
    contains (codes "n1") (list_nodes s (pos 9000000000000))
    ≡ is_ok (node_inventory s (pos 9000000000000) (codes "n1"))
list_nodes-node_inventory_example =
    list_nodes-node_inventory (pos 0) events (pos 9000000000000) (codes "n1")

node_capacities-Rows_example :
    let s = run events (new (pos 0)) in
    (map (λ c. c.node) (node_capacities s (pos 9000000000000)) ≡ list_nodes s (pos 9000000000000))
    × All (RowOf s (pos 9000000000000)) (node_capacities s (pos 9000000000000))
node_capacities-Rows_example = node_capacities-Rows (pos 0) events (pos 9000000000000)
