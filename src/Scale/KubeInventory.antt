-- ===== src/Scale/KubeInventory.antt =====
-- pkg/scale/kubeinventory/source.go: the fleet's inventories from an informer's events. A stamp is a
-- number of nanoseconds since 1970, an int64, and its arithmetic wraps as Go's does; the clock is a
-- parameter, and an inventory's time is in seconds from Go's zero time. The informer names each
-- object with its inventory. Loading a snapshot is atomic, so each read is one step.
pub mod Reads
pub mod Rows
mod Tests
use sandbox_operator.Prelude.{
  ℕ, ◌*◌, Bool, not, Option, none, some, List, [], ◌∷◌, map, nat_beq, if◌then◌else◌, any, Text,
  codes, sorted, keys, text_eq,
}
use sandbox_operator.Prelude.Dict
use sandbox_operator.Prelude.Dict.{Dict}
use sandbox_operator.Prelude.Int.{ℤ, pos, negsuc, sub_ℕ, ◌-ℤ◌, int_ltb, int64}
use sandbox_operator.Errors.{Error, wrapped, status_error, Result, ok, err, ◌>>=◌}
use sandbox_operator.Scale.Model.{PoolCapacity, NodeInventory, NodePools}

pub record Snapshot : Type 0 where
  pub caps : List NodePools
  pub stamps : List ℤ
  pub newest : ℤ
  pub by_node : Dict Text NodeInventory

pub record Source : Type 0 where
  pub stale_after : ℤ
  pub snap : Snapshot
  pub by_node : Dict Text NodeInventory

-- The seconds from Go's zero time to 1970.
abbrev unix_epoch : ℕ
unix_epoch = 62135596800

-- `Time.UnixNano`
unfoldable pub unix_nano : ℕ → ℤ
unfolding int64
unix_nano t = int64 (sub_ℕ (t * 1000000000) (unix_epoch * 1000000000))

abbrev stamp_of : Option ℕ → ℤ
stamp_of none = pos 0
stamp_of (some t) = if nat_beq t 0 then pos 0 else unix_nano t

-- `publishedAt`
unfoldable pub published_at : NodeInventory → ℤ
unfolding unix_nano
published_at inv = stamp_of inv.published_at

abbrev pub pools_of : Text → Option NodeInventory → NodePools
pools_of node none = record { node = node; address = []; pools = []; templates = [] }
pools_of node (some inv) = record {
  node = node;
  address = inv.address;
  pools = inv.pools;
  templates = inv.templates;
}

abbrev pub stamp_at : Option NodeInventory → ℤ
stamp_at none = pos 0
stamp_at (some inv) = published_at inv

unfoldable pub newest_of : List ℤ → ℤ
newest_of [] = pos 0
newest_of (n ∷ ns) = let rest = newest_of ns in if int_ltb rest n then n else rest

-- `publish`: the names are keys of the map, so that each is found.
unfoldable pub publish : Source → Source
unfolding newest_of
publish s =
    let names = sorted (keys s.by_node) in
    let stamps = map (λ node. stamp_at (Dict.get node s.by_node)) names in
    record s {
      snap = record {
        caps = map (λ node. pools_of node (Dict.get node s.by_node)) names;
        stamps = stamps;
        newest = newest_of stamps;
        by_node = s.by_node;
      };
    }

abbrev default_stale_after : ℤ
default_stale_after = pos 90000000000

-- `cmp.Or(opts.StaleAfter, defaultStaleAfter)`
abbrev stale_after_or_default : ℤ → ℤ
stale_after_or_default (pos n) = if nat_beq n 0 then default_stale_after else pos n
stale_after_or_default (negsuc n) = negsuc n

-- `New`, before its informer's first event
unfoldable pub new : ℤ → Source
new stale_after = record {
  stale_after = stale_after_or_default stale_after;
  snap = record { caps = []; stamps = []; newest = pos 0; by_node = [] };
  by_node = [];
}

-- What an event hands over: an object of the informer's type, a tombstone of one, or neither.
pub data Object : Type 0 where
  inventory : Text → NodeInventory → Object
  tombstone : Text → NodeInventory → Object
  other : Object

unfoldable pub put : Object → Source → Source
unfolding publish
put (inventory name inv) s = publish (record s { by_node = Dict.put name inv s.by_node })
put (tombstone name inv) s = s
put other s = s

unfoldable pub drop : Object → Source → Source
unfolding publish
drop (inventory name inv) s = publish (record s { by_node = Dict.delete name s.by_node })
drop (tombstone name inv) s = publish (record s { by_node = Dict.delete name s.by_node })
drop other s = s

pub data Event : Type 0 where
  puts : Object → Event
  drops : Object → Event

unfoldable pub handle : Event → Source → Source
handle (puts o) s = put o s
handle (drops o) s = drop o s

unfoldable pub run : List Event → Source → Source
run [] s = s
run (e ∷ es) s = run es (handle e s)

-- `stale`
unfoldable pub stale : Source → ℤ → ℤ → Bool
unfolding int64
stale s stamp ref = int_ltb s.stale_after (int64 (ref -ℤ stamp))

-- The loop of `ListNodes` and of `NodeCapacities`, over the nodes and their stamps.
unfoldable pub fresh : Source → ℤ → List NodePools → List ℤ → List NodePools
unfolding stale
fresh s ref [] stamps = []
fresh s ref (c ∷ cs) [] = []
fresh s ref (c ∷ cs) (n ∷ ns) =
    let rest = fresh s ref cs ns in if stale s n ref then rest else c ∷ rest

-- The reference time of `current`.
unfoldable pub ref_time : Source → ℤ → ℤ
ref_time s now = if int_ltb now s.snap.newest then now else s.snap.newest

unfoldable pub list_nodes : Source → ℤ → List Text
unfolding fresh ref_time
list_nodes s now = map (λ c. c.node) (fresh s (ref_time s now) s.snap.caps s.snap.stamps)

unfoldable pub node_capacities : Source → ℤ → List NodePools
unfolding fresh stale ref_time
node_capacities s now =
    if not (any (λ n. stale s n (ref_time s now)) s.snap.stamps)
    then s.snap.caps
    else fresh s (ref_time s now) s.snap.caps s.snap.stamps

abbrev not_found : Text → Error
not_found node = wrapped (codes "kubeinventory: get node inventory") (status_error 404 node)

abbrev stale_error : Text → Error
stale_error node = wrapped (codes "kubeinventory: node inventory is stale") (status_error 404 node)

-- `get`, which `NodeInventory` is
unfoldable pub node_inventory : Source → ℤ → Text → Result NodeInventory
unfolding stale ref_time
node_inventory s now node = elim (Dict.get node s.snap.by_node) [
  | none ↦ err (not_found node)
  | some inv ↦
      if stale s (published_at inv) (ref_time s now) then err (stale_error node) else ok inv
]

unfoldable pub node_capacity : Source → ℤ → Text → Result (Text × List PoolCapacity)
unfolding node_inventory
node_capacity s now node = node_inventory s now node >>= λ inv. ok (inv.address, inv.pools)
