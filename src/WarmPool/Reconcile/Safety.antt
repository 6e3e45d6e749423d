-- ===== src/WarmPool/Reconcile/Safety.antt =====
-- pkg/scale/warmpool/driver.go: when a reconcile sends PUTs, and to whom.
use sandbox_operator.Prelude.{
  ℕ, ◌≤◌, ◌≡◌, refl, ap, ◌∙◌, inl, inr, Bool, true, false, ◌||◌, Option, List, [], ◌∷◌, map, arith,
  if◌then◌else◌, Bool-cases, ◌==◌, text_beq_iff, beq_refl, any, sum_by, All, Text, is_empty,
  text_eq, nat_eq,
}
use sandbox_operator.Errors.{Result, ok, err}
use sandbox_operator.Scale.Model.{PoolKey, NodePools, NodeInfo}
use sandbox_operator.WarmPool.{NodeView, DesiredPool, PoolSpec, warm_by_key, specs_for}
use sandbox_operator.WarmPool.Puts.{times, specs_for-asked}
use sandbox_operator.WarmPool.Reconcile.{
  WarmPool, Template, Put, StatusWrite, Wanted, insert_view, views_of, schedulable_nodes,
  resolve_pools, apply_to_nodes, finish, reconcile_once,
}
use sandbox_operator.WarmPool.Reconcile.Reads.{is_err, reads_failed, resolve_pools-is_err}

-- The address is advertised, and no key stands twice in the body.
abbrev pub GoodPut : List NodePools → Put → Type 0
GoodPut nodes p =
    (any (λ n. n.address == p.addr) nodes ≡ true)
    × (is_empty p.addr ≡ false)
    × ((k : PoolKey) → times k p.specs ≤ 1)

abbrev Dialable : List NodePools → NodeView → Type 0
Dialable nodes v = (any (λ n. n.address == v.addr) nodes ≡ true) × (is_empty v.addr ≡ false)

module _ (nodes : List NodePools) where
  insert_view-Dialable :
      (v : NodeView) (vs : List NodeView)
      → Dialable nodes v
      → All (Dialable nodes) vs
      → All (Dialable nodes) (insert_view v vs)
  insert_view-Dialable v [] h hs = (h, tt)
  insert_view-Dialable v (w ∷ ws) h (k, ks) = ground (arith, insert_view-Dialable v ws h ks)

  apply_to_nodes-Good :
      (token : Text) (set_pools : Text → List PoolSpec → Result (Option NodeInfo))
      (desired : List DesiredPool) (vs : List NodeView)
      → All (Dialable nodes) vs
      → All
          (GoodPut nodes)
          (map (λ v. record { addr = v.addr; specs = specs_for v.name desired }) vs)
  apply_to_nodes-Good token set_pools desired [] h = tt
  apply_to_nodes-Good token set_pools desired (v ∷ vs) (h, hs) = (
    (h.0, h.1, λ k. (specs_for-asked k v.name desired).0),
    apply_to_nodes-Good token set_pools desired vs hs,
  )

weaken-Dialable :
    (n : NodePools) (nodes : List NodePools) (vs : List NodeView)
    → All (Dialable nodes) vs
    → All (Dialable (n ∷ nodes)) vs
weaken-Dialable n nodes [] h = tt
weaken-Dialable n nodes (v ∷ vs) (h, hs) = (ground arith, weaken-Dialable n nodes vs hs)

views_of-Dialable : (nodes : List NodePools) → All (Dialable nodes) (views_of nodes)
unfolding views_of
views_of-Dialable [] = tt
views_of-Dialable (n ∷ ns) =
    let rest = weaken-Dialable n ns (views_of ns) (views_of-Dialable ns) in
    elim (Bool-cases (is_empty n.address)) [
      | inl e ↦ rw e rest
      | inr e ↦
          rw e (insert_view-Dialable (n ∷ ns) _ (views_of ns) (rw (beq_refl n.address), e) rest)
    ]

-- How many PUTs go to an address, and how many nodes advertise it.
abbrev pub puts_to : Text → List Put → ℕ
puts_to addr = sum_by λ p. if p.addr == addr then 1 else 0

abbrev pub nodes_at : Text → List NodePools → ℕ
nodes_at addr = sum_by λ n. if n.address == addr then 1 else 0

abbrev views_at : Text → List NodeView → ℕ
views_at addr = sum_by λ v. if v.addr == addr then 1 else 0

insert_view-views_at :
    (addr : Text) (v : NodeView) (vs : List NodeView)
    → views_at addr (insert_view v vs) ≡ views_at addr (v ∷ vs)
insert_view-views_at addr v [] = refl
insert_view-views_at addr v (w ∷ ws) = ground (arith, insert_view-views_at addr v ws)

views_of-views_at :
    (addr : Text) (nodes : List NodePools)
    → is_empty addr ≡ false
    → views_at addr (views_of nodes) ≡ nodes_at addr nodes
unfolding views_of
views_of-views_at addr [] h = refl
views_of-views_at addr (n ∷ ns) h =
    let view : NodeView = record {
      name = n.node;
      addr = n.address;
      warm_by = warm_by_key n.pools [];
    } in
    elim (Bool-cases (is_empty n.address)) [
      | inl e ↦
          rw e
            (ground (arith, views_of-views_at addr ns h, text_beq_iff n.address addr, ap is_empty))
      | inr e ↦
          rw e (
            omega
              (arith, insert_view-views_at addr view (views_of ns), views_of-views_at addr ns h))
    ]

puts_to-map :
    (addr : Text) (f : NodeView → List PoolSpec) (vs : List NodeView)
    → puts_to addr (map (λ v. record { addr = v.addr; specs = f v }) vs) ≡ views_at addr vs
puts_to-map addr f [] = refl
puts_to-map addr f (v ∷ vs) = omega (arith, puts_to-map addr f vs)

-- What is sent: nothing, or to each address as many PUTs as nodes advertise it, each of them good.
abbrev pub Sent : Bool → List NodePools → List Put → Type 0
Sent true nodes puts = puts ≡ []
Sent false nodes puts =
    All (GoodPut nodes) puts
    × ((addr : Text) → is_empty addr ≡ false → puts_to addr puts ≡ nodes_at addr nodes)

finish-Sent :
    (token : Text) (set_pools : Text → List PoolSpec → Result (Option NodeInfo))
    (nodes : List NodePools) (w : List StatusWrite × Result Wanted)
    → let r = finish token set_pools (views_of nodes) w in
      (is_err r.2 ≡ is_err w.1) × Sent (is_err w.1 || is_empty token) nodes r.0
unfolding apply_to_nodes
finish-Sent token set_pools nodes (writes, err e) = (refl, refl)
finish-Sent [] set_pools nodes (writes, ok wanted) = (refl, refl)
finish-Sent (c ∷ token) set_pools nodes (writes, ok wanted) =
    let desired = map (λ w. w.1) wanted in
    (
      refl,
      (
        apply_to_nodes-Good nodes (c ∷ token) set_pools desired (views_of nodes)
            (views_of-Dialable nodes),
        λ addr h.
            puts_to-map addr (λ v. specs_for v.name desired) (views_of nodes)
            ∙ views_of-views_at addr nodes h,
      ),
    )

-- The inventories that were read.
abbrev pub nodes_of : Result (List NodePools) → List NodePools
nodes_of (ok nodes) = nodes
nodes_of (err e) = []

-- A reconcile answers with an error exactly when the read of the pools, of the inventories or of a
-- pool's template failed, a template that is not there apart. A PUT replaces all that a node holds,
-- so none is sent then, nor without a token. Otherwise each address that is not empty is sent as
-- many PUTs as nodes advertise it, no other address is sent any, and no PUT has a key twice.
pub reconcile_once-Sent :
    (token : Text) (set_pools : Text → List PoolSpec → Result (Option NodeInfo))
    (template : Text → Text → Result Template) (capacities : Result (List NodePools))
    (pools : Result (List WarmPool))
    → let r = reconcile_once token set_pools template capacities pools in
      let failed = reads_failed template capacities pools in
      (is_err r.2 ≡ failed) × Sent (failed || is_empty token) (nodes_of capacities) r.0
unfolding reconcile_once schedulable_nodes
reconcile_once-Sent token set_pools template capacities (err e) = (refl, refl)
reconcile_once-Sent token set_pools template (err e) (ok pools) = (refl, refl)
reconcile_once-Sent token set_pools template (ok nodes) (ok pools) =
    rw (← resolve_pools-is_err template (views_of nodes) pools)
      (finish-Sent token set_pools nodes (resolve_pools template (views_of nodes) pools))
