-- ===== src/WarmPool/Reconcile.antt =====
-- pkg/scale/warmpool/driver.go: one reconcile. The Kubernetes reads are arguments, and so is what
-- each node answers to its PUT; the requests that leave the driver are its result.
pub mod Reads
pub mod Safety
use sandbox_operator.Prelude.{
  ℕ, ◌%◌, ◌^◌, ◌&&◌, ◌||◌, Option, none, some, List, [], ◌∷◌, ◌++◌, map, nat_beq, if◌then◌else◌,
  ◌==◌, any, Text, codes, is_empty, text_leb, text_eq, nat_eq,
}
use sandbox_operator.Prelude.Dict.{Dict}
use sandbox_operator.Prelude.Int.{ℤ, pos}
use sandbox_operator.Errors.{
  Error, sentinel, wrapped, err_no_template_ref, Result, ok, err, ◌>>=◌, or_error, is, is_not_found,
}
use sandbox_operator.Scale.Model.{PoolKey, NodePools, NodeInfo, pool_capacity_from_info}
use sandbox_operator.Scale.Sizing.{Container, pool_key_for, net_for_annotations}
use sandbox_operator.WarmPool.{
  NodeView, DesiredPool, PoolSpec, warm_by_key, distribute, specs_for, apportion_warm,
}

-- `extv1beta1.SandboxWarmPool`, as far as it is read.
pub record WarmPool : Type 0 where
  pub namespace : Text
  pub name : Text
  pub template_ref : Text
  pub replicas : Option ℤ
  pub status_replicas : ℕ
  pub status_ready : ℕ
  pub status_selector : Text

-- `extv1beta1.SandboxTemplate`, as far as it is read.
pub record Template : Type 0 where
  pub annotations : Dict Text Text
  pub containers : List Container

pub record Put : Type 0 where
  pub addr : Text
  pub specs : List PoolSpec

pub record StatusWrite : Type 0 where
  pub namespace : Text
  pub name : Text
  pub replicas : ℕ
  pub ready_replicas : ℕ
  pub selector : Text

-- `slices.SortFunc(views, …)` by name
abbrev pub insert_view : NodeView → List NodeView → List NodeView
insert_view v [] = v ∷ []
insert_view v (w ∷ ws) =
    let rest = insert_view v ws in if text_leb v.name w.name then v ∷ (w ∷ ws) else w ∷ rest

unfoldable pub views_of : List NodePools → List NodeView
views_of [] = []
views_of (n ∷ ns) =
    let rest = views_of ns in
    let view : NodeView = record {
      name = n.node;
      addr = n.address;
      warm_by = warm_by_key n.pools [];
    } in
    if is_empty n.address then rest else insert_view view rest

-- `schedulableNodes`
unfoldable pub schedulable_nodes : Result (List NodePools) → Result (List NodeView)
unfolding views_of
schedulable_nodes capacities =
    or_error capacities (wrapped (codes "list node inventories")) >>= λ nodes. ok (views_of nodes)

-- `poolKey`
unfoldable pub pool_key : (Text → Text → Result Template) → WarmPool → Result PoolKey
pool_key template p =
    if is_empty p.template_ref
    then err (sentinel err_no_template_ref)
    else or_error (template p.namespace p.template_ref) (wrapped (codes "get SandboxTemplate"))
      >>= λ t. ok (pool_key_for t.containers (net_for_annotations t.annotations []))

-- `writeStatus`: the update sent, when the status differs; `int32` wraps at 2^32.
unfoldable pub write_status : WarmPool → ℕ → List StatusWrite
write_status p warm =
    let selector = codes "agents.x-k8s.io/warm-pool=" ++ p.name in
    let n = warm % 2 ^ 32 in
    if (nat_beq p.status_replicas n && nat_beq p.status_ready n) && p.status_selector == selector
    then []
    else record {
      namespace = p.namespace;
      name = p.name;
      replicas = n;
      ready_replicas = n;
      selector = selector;
    }
      ∷ []

abbrev pub replicas_or_one : Option ℤ → ℤ
replicas_or_one none = pos 1
replicas_or_one (some n) = n

-- The pools of the first loop, each with its place among the desired ones.
abbrev pub Wanted : Type 0
Wanted = List (WarmPool × DesiredPool)

abbrev pub add_desired :
    WarmPool
    → List NodeView
    → Result PoolKey
    → List StatusWrite × Result Wanted
    → List StatusWrite × Result Wanted
add_desired p nodes (ok key) (writes, ok rest) = (
  writes,
  ok ((p, record { key = key; targets = distribute (replicas_or_one p.replicas) nodes }) ∷ rest),
)
add_desired p nodes (ok key) (writes, err e) = (writes, err e)
add_desired p nodes (err e) (writes, rest) =
    if is_not_found e || is e err_no_template_ref
    then (write_status p 0 ++ writes, rest)
    else ([], err (wrapped (codes "resolve warm pool template") e))

-- The first loop of `reconcileOnce`: a pool without its template is reported empty and passed over,
-- and any other failure ends the reconcile.
unfoldable pub resolve_pools :
    (Text → Text → Result Template)
    → List NodeView
    → List WarmPool
    → List StatusWrite × Result Wanted
unfolding pool_key
resolve_pools template nodes [] = ([], ok [])
resolve_pools template nodes (p ∷ ps) =
    add_desired p nodes (pool_key template p) (resolve_pools template nodes ps)

abbrev pub refresh : NodeView → Result (Option NodeInfo) → NodeView
refresh n (err e) = n
refresh n (ok none) = n
refresh n (ok (some info)) = record n { warm_by = warm_by_key (pool_capacity_from_info info) [] }

-- `applyToNodes`: the PUTs, and the nodes with the warm counts that they answered.
unfoldable pub apply_to_nodes :
    Text
    → (Text → List PoolSpec → Result (Option NodeInfo))
    → List DesiredPool
    → List NodeView
    → List Put × List NodeView
unfolding specs_for
apply_to_nodes token set_pools desired nodes = if is_empty token then ([], nodes) else (
  map (λ n. record { addr = n.addr; specs = specs_for n.name desired }) nodes,
  map (λ n. refresh n (set_pools n.addr (specs_for n.name desired))) nodes,
)

-- `writeStatus` for each pool that has its template.
abbrev pub write_all : List WarmPool → List (DesiredPool × ℕ) → List StatusWrite
write_all (p ∷ ps) ((dp, warm) ∷ rest) = write_status p warm ++ write_all ps rest
write_all _ _ = []

abbrev pub finish :
    Text
    → (Text → List PoolSpec → Result (Option NodeInfo))
    → List NodeView
    → List StatusWrite × Result Wanted
    → List Put × List StatusWrite × Result (Unit {0})
finish token set_pools nodes (writes, err e) = ([], writes, err e)
finish token set_pools nodes (writes, ok wanted) =
    let desired = map (λ w. w.1) wanted in
    let applied = apply_to_nodes token set_pools desired nodes in
    (
      applied.0,
      writes ++ write_all (map (λ w. w.0) wanted) (apportion_warm desired applied.1),
      ok tt,
    )

abbrev pub resolve_and_finish :
    Text
    → (Text → List PoolSpec → Result (Option NodeInfo))
    → (Text → Text → Result Template)
    → List WarmPool
    → Result (List NodeView)
    → List Put × List StatusWrite × Result (Unit {0})
resolve_and_finish token set_pools template pools (err e) = ([], [], err e)
resolve_and_finish token set_pools template pools (ok nodes) =
    finish token set_pools nodes (resolve_pools template nodes pools)

-- `reconcileOnce`
unfoldable pub reconcile_once :
    Text
    → (Text → List PoolSpec → Result (Option NodeInfo))
    → (Text → Text → Result Template)
    → Result (List NodePools)
    → Result (List WarmPool)
    → List Put × List StatusWrite × Result (Unit {0})
unfolding schedulable_nodes resolve_pools
reconcile_once token set_pools template capacities (err e) =
    ([], [], err (wrapped (codes "list SandboxWarmPools") e))
reconcile_once token set_pools template capacities (ok pools) =
    resolve_and_finish token set_pools template pools (schedulable_nodes capacities)
