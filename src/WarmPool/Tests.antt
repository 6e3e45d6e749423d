-- ===== src/WarmPool/Tests.antt =====
-- Runs of pkg/scale/warmpool/driver.go, and its theorems at concrete inputs.
use sandbox_operator.Prelude.{
  ℕ, ◌≡◌, ◌||◌, Option, none, some, List, [], ◌∷◌, arith, list_beq, sum_by, Text, codes, is_empty,
  text_eq,
}
use sandbox_operator.Prelude.Int.{pos}
use sandbox_operator.Errors.{Result, ok}
use sandbox_operator.Scale.Model.{PoolKey, pool_key_eq, pool_key_beq, NodePools, NodeInfo}
use sandbox_operator.WarmPool.{NodeView, PoolSpec, specs_for, apportion_warm}
use sandbox_operator.WarmPool.Distribute.{DistinctNames}
use sandbox_operator.WarmPool.Apportion.{shares_at, warm_at}
use sandbox_operator.WarmPool.Conservation.{shares_at-apportion_warm}
use sandbox_operator.WarmPool.Puts.{asked, Declared, desired_of, replicas_of, specs_for-replicas}
use sandbox_operator.WarmPool.Reconcile.{WarmPool, Template, reconcile_once}
use sandbox_operator.WarmPool.Reconcile.Reads.{is_err, reads_failed}
use sandbox_operator.WarmPool.Reconcile.Safety.{Sent, reconcile_once-Sent}

abbrev key : PoolKey
key = record { template = codes "base"; net = codes "none"; size = codes "small" }

abbrev big : PoolKey
big = record { template = codes "base"; net = codes "none"; size = codes "large" }

abbrev view : Text → Text → ℕ → NodeView
view name addr warm = record { name = name; addr = addr; warm_by = (key, warm) ∷ [] }

abbrev nodes : List NodeView
nodes = view (codes "a") (codes "x") 2 ∷ view (codes "b") (codes "y") 3 ∷ []

abbrev declared : Declared
declared = (key, pos 3) ∷ (big, pos 1) ∷ (key, pos 4) ∷ []

nodes-DistinctNames : DistinctNames nodes
nodes-DistinctNames = ((ground arith, tt), (tt, tt))

shares_at-apportion_warm_example :
    shares_at key (apportion_warm (desired_of nodes declared) nodes) ≡ warm_at key nodes
unfolding pool_key_beq list_beq
shares_at-apportion_warm_example =
    shares_at-apportion_warm key (desired_of nodes declared) nodes (omega arith)

specs_for-replicas_example :
    sum_by (λ n. asked key (specs_for n.name (desired_of nodes declared))) nodes
    ≡ replicas_of key declared
specs_for-replicas_example = specs_for-replicas key nodes declared (λ e. cc) nodes-DistinctNames

abbrev inventory : List NodePools
inventory =
    record { node = codes "a"; address = codes "x"; pools = []; templates = [] }
    ∷ record { node = codes "b"; address = []; pools = []; templates = [] }
    ∷ []

abbrev pool : WarmPool
pool = record {
  namespace = codes "ns";
  name = codes "p";
  template_ref = codes "t";
  replicas = some (pos 3);
  status_replicas = 0;
  status_ready = 0;
  status_selector = [];
}

abbrev template_of : Text → Text → Result Template
template_of namespace name = ok (record { annotations = []; containers = [] })

abbrev accept : Text → List PoolSpec → Result (Option NodeInfo)
accept addr specs = ok none

reconcile_once-Sent_example :
    let pools = ok (pool ∷ []) in
    let r = reconcile_once (codes "token") accept template_of (ok inventory) pools in
    let failed = reads_failed template_of (ok inventory) pools in
    (is_err r.2 ≡ failed) × Sent (failed || is_empty (codes "token")) inventory r.0
reconcile_once-Sent_example =
    reconcile_once-Sent (codes "token") accept template_of (ok inventory) (ok (pool ∷ []))
