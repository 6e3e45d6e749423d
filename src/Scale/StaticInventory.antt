-- ===== src/Scale/StaticInventory.antt =====
-- pkg/scale/sandboxstore_impl.go: the inventory source held in memory. Copies are values here.
use sandbox_operator.Prelude.{
  ℕ, ◌+◌, not, Option, none, some, List, [], ◌∷◌, map, if◌then◌else◌, ◌==◌, length, keep, Text,
  codes, sorted, contains, keys, text_eq, nat_eq,
}
use sandbox_operator.Prelude.Dict
use sandbox_operator.Prelude.Dict.{Dict}
use sandbox_operator.Errors.{plain, Result, ok, err, ◌>>=◌}
use sandbox_operator.Scale.Model.{PoolCapacity, NodeInventory, NodePools}

pub record StaticInventorySource : Type 0 where
  pub inv : Dict Text NodeInventory
  pub partitioned : List Text
  pub applies : ℕ

unfoldable pub new_static_inventory_source : StaticInventorySource
new_static_inventory_source = record { inv = []; partitioned = []; applies = 0 }

unfoldable pub store_inventory : NodeInventory → StaticInventorySource → StaticInventorySource
store_inventory i s = record s { inv = Dict.put i.node i s.inv }

unfoldable pub apply : NodeInventory → StaticInventorySource → StaticInventorySource
apply i s = record s { inv = Dict.put i.node i s.inv; applies = s.applies + 1 }

unfoldable pub partition : Text → StaticInventorySource → StaticInventorySource
partition node s = record s {
  partitioned = if contains node s.partitioned then s.partitioned else node ∷ s.partitioned;
}

unfoldable pub remove : Text → StaticInventorySource → StaticInventorySource
remove node s = record s {
  inv = Dict.delete node s.inv;
  partitioned = keep (λ n. not (n == node)) s.partitioned;
}

unfoldable pub static_nodes : StaticInventorySource → List Text
static_nodes s = sorted (keys s.inv)

abbrev held : Option NodeInventory → Result NodeInventory
held none = err (plain (codes "scale: no inventory published for node"))
held (some i) = ok i

unfoldable pub static_inventory : StaticInventorySource → Text → Result NodeInventory
static_inventory s node =
    if contains node s.partitioned
    then err (plain (codes "scale: node partitioned from aggregated server"))
    else held (Dict.get node s.inv)

unfoldable pub static_capacity : StaticInventorySource → Text → Result (Text × List PoolCapacity)
unfolding static_inventory
static_capacity s node = static_inventory s node >>= λ i. ok (i.address, i.pools)

abbrev row_of : Text → Option NodeInventory → NodePools
row_of node none = record { node = node; address = []; pools = []; templates = [] }
row_of node (some i) = record {
  node = node;
  address = i.address;
  pools = i.pools;
  templates = i.templates;
}

unfoldable pub static_capacities : StaticInventorySource → List NodePools
unfolding static_nodes
static_capacities s =
    map (λ node. row_of node (Dict.get node s.inv))
      (keep (λ node. not (contains node s.partitioned)) (static_nodes s))

unfoldable pub object_count : StaticInventorySource → ℕ
object_count s = length s.inv

unfoldable pub apply_count : StaticInventorySource → ℕ
apply_count s = s.applies
