-- ===== src/WarmPool.antt =====
-- pkg/scale/warmpool/driver.go: warm targets spread over the nodes, and the warm count of each pool.
-- The Kubernetes client and the nodes are arguments; a replica count is an `int32`, read as a signed
-- integer, and the other counts are `int`s that stay below 2^63. A map is walked in an arbitrary
-- order, that of its list.
pub mod Distribute
pub mod Apportion
pub mod Conservation
pub mod Puts
pub mod Reconcile
mod Tests
use sandbox_operator.Prelude.{
  ℕ, zero, suc, ◌+◌, ◌*◌, ◌/◌, ◌%◌, Bool, Option, none, some, List, [], ◌∷◌, map, ltb,
  if◌then◌else◌, Eq, ◌==◌, length, sum_by, Text, text_leb, is_some, text_eq, nat_eq,
}
use sandbox_operator.Prelude.Dict
use sandbox_operator.Prelude.Dict.{Dict}
use sandbox_operator.Prelude.Int.{ℤ, pos_part}
use sandbox_operator.Scale.Model.{PoolKey, pool_key_eq, PoolCapacity, NodePools}

-- `nodeView`
pub record NodeView : Type 0 where
  pub name : Text
  pub addr : Text
  pub warm_by : Dict PoolKey ℕ

-- `desiredPool`, less the object that its status goes to.
pub record DesiredPool : Type 0 where
  pub key : PoolKey
  pub targets : Dict Text ℕ

-- `m[k]` of a map of counts, 0 for a missing key
abbrev pub count_or_zero : Option ℕ → ℕ
count_or_zero none = 0
count_or_zero (some n) = n

abbrev pub at_key {ℓ} : {K : Type ℓ} ⦃e : Eq K⦄ → K → Dict K ℕ → ℕ
at_key k d = count_or_zero (Dict.get k d)

-- `m[k] += n`
abbrev pub add_at {ℓ} : {K : Type ℓ} ⦃e : Eq K⦄ → K → ℕ → Dict K ℕ → Dict K ℕ
add_at k n d = Dict.put k (at_key k d + n) d

abbrev pub key_of : PoolCapacity → PoolKey
key_of pc = record { template = pc.template; net = pc.net; size = pc.size }

-- `warmByKey`: a later pool of one key replaces an earlier one.
unfoldable pub warm_by_key : List PoolCapacity → Dict PoolKey ℕ → Dict PoolKey ℕ
warm_by_key [] d = d
warm_by_key (pc ∷ pcs) d = warm_by_key pcs (Dict.put (key_of pc) pc.warm d)

-- The loop of `distribute`, at node `i`.
unfoldable pub distribute_from : ℕ → ℕ → ℕ → List NodeView → Dict Text ℕ → Dict Text ℕ
distribute_from i base remainder [] targets = targets
distribute_from i base remainder (n ∷ ns) targets =
    distribute_from (suc i) base remainder ns
      (Dict.put n.name (if ltb i remainder then base + 1 else base) targets)

unfoldable pub distribute : ℤ → List NodeView → Dict Text ℕ
unfolding distribute_from
distribute replicas [] = []
distribute replicas (n ∷ ns) =
    let total = pos_part replicas in
    let count = length (n ∷ ns) in distribute_from 0 (total / count) (total % count) (n ∷ ns) []

-- `poolTarget`
unfoldable pub pool_target : DesiredPool → ℕ
pool_target dp = sum_by (λ e. e.1) dp.targets

-- `fleet[key] += nodes[i].warmBy[key]` over the nodes
unfoldable pub add_fleet : PoolKey → List NodeView → Dict PoolKey ℕ → Dict PoolKey ℕ
add_fleet key [] fleet = fleet
add_fleet key (n ∷ ns) fleet = add_fleet key ns (add_at key (at_key key n.warm_by) fleet)

-- The first loop of `apportionWarm`: the fleet's warm count and the sum of the targets of each key.
unfoldable pub gather :
    List NodeView
    → List DesiredPool
    → Dict PoolKey ℕ
    → Dict PoolKey ℕ
    → Dict PoolKey ℕ × Dict PoolKey ℕ
unfolding add_fleet
gather nodes [] fleet sums = (fleet, sums)
gather nodes (dp ∷ dps) fleet sums =
    gather nodes dps
      (if is_some (Dict.get dp.key fleet) then fleet else add_fleet dp.key nodes fleet)
      (add_at dp.key (pool_target dp) sums)

-- `out[i]` of the second loop: the pool's share of its key's warm count, rounded down.
unfoldable pub floor_share : Dict PoolKey ℕ → Dict PoolKey ℕ → DesiredPool → ℕ
floor_share fleet sums dp =
    let sum = at_key dp.key sums in
    if ltb 0 sum then at_key dp.key fleet * pool_target dp / sum else 0

-- `given[key] += out[i]`, where some pool of the key has a target.
unfoldable pub charge : Dict PoolKey ℕ → DesiredPool → ℕ → Dict PoolKey ℕ → Dict PoolKey ℕ
charge sums dp out given = if ltb 0 (at_key dp.key sums) then add_at dp.key out given else given

-- The second loop: each pool's share, and what each key gave out.
unfoldable pub share :
    Dict PoolKey ℕ
    → Dict PoolKey ℕ
    → List DesiredPool
    → Dict PoolKey ℕ
    → List (DesiredPool × ℕ) × Dict PoolKey ℕ
unfolding floor_share charge
share fleet sums [] given = ([], given)
share fleet sums (dp ∷ dps) given =
    let out = floor_share fleet sums dp in
    let rest = share fleet sums dps (charge sums dp out given) in ((dp, out) ∷ rest.0, rest.1)

-- The inner loop of the third: `out[i]` and `given[key]` rise by one, and once only where some pool
-- of the key has a target. Every round raises `given`, so `fleet` rounds are enough.
unfoldable pub top_up : ℕ → ℕ → ℕ → ℕ → ℕ → ℕ × ℕ
top_up zero fleet sum out given = (out, given)
top_up (suc fuel) fleet sum out given =
    let again = top_up fuel fleet sum (out + 1) (given + 1) in
    if ltb given fleet then (if ltb 0 sum then (out + 1, given + 1) else again) else (out, given)

-- The third loop: what rounding left over goes to the first pools of the key.
unfoldable pub settle :
    Dict PoolKey ℕ
    → Dict PoolKey ℕ
    → List (DesiredPool × ℕ)
    → Dict PoolKey ℕ
    → List (DesiredPool × ℕ)
unfolding top_up
settle fleet sums [] given = []
settle fleet sums ((dp, out) ∷ rest) given =
    let f = at_key dp.key fleet in
    let r = top_up f f (at_key dp.key sums) out (at_key dp.key given) in
    (dp, r.0) ∷ settle fleet sums rest (Dict.put dp.key r.1 given)

-- `apportionWarm`, each warm count beside its pool.
unfoldable pub apportion_warm : List DesiredPool → List NodeView → List (DesiredPool × ℕ)
unfolding gather share settle
apportion_warm desired nodes =
    let (fleet, sums) = gather nodes desired [] [] in
    let (shares, given) = share fleet sums desired [] in settle fleet sums shares given

-- `sandboxd.PoolSpec`
pub record PoolSpec : Type 0 where
  pub key : PoolKey
  pub warm : ℕ

-- `byKey` of `applyToNodes`: the targets of one node, summed by key.
unfoldable pub by_key : Text → List DesiredPool → Dict PoolKey ℕ → Dict PoolKey ℕ
by_key name [] d = d
by_key name (dp ∷ dps) d = by_key name dps (add_at dp.key (at_key name dp.targets) d)

-- The order of `slices.SortFunc`: by template, then net, then size.
abbrev pub key_leb : PoolKey → PoolKey → Bool
key_leb a b =
    if a.template == b.template
    then (if a.net == b.net then text_leb a.size b.size else text_leb a.net b.net)
    else text_leb a.template b.template

abbrev pub insert_spec : PoolSpec → List PoolSpec → List PoolSpec
insert_spec s [] = s ∷ []
insert_spec s (t ∷ ts) =
    let rest = insert_spec s ts in if key_leb s.key t.key then s ∷ (t ∷ ts) else t ∷ rest

abbrev pub sort_specs : Dict PoolKey ℕ → List PoolSpec
sort_specs [] = []
sort_specs ((key, warm) ∷ d) = insert_spec (record { key = key; warm = warm }) (sort_specs d)

-- The body of one node's PUT.
unfoldable pub specs_for : Text → List DesiredPool → List PoolSpec
unfolding by_key
specs_for name desired = sort_specs (by_key name desired [])
