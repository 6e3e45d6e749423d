-- ===== src/Scale/Claim/Candidates.antt =====
-- pkg/scale/sandboxstore_impl.go: which nodes are candidates of a claim.
use sandbox_operator.Prelude.{
  ◌≡◌, refl, Bool, not, ◌&&◌, ◌||◌, List, [], ◌∷◌, ◌++◌, arith, ltb, if◌then◌else◌, ◌==◌, any, Text,
  is_empty, text_eq, nat_eq,
}
use sandbox_operator.Scale.Model.{PoolKey, PoolCapacity, NodePools}
use sandbox_operator.Scale.Warm.{
  WarmCandidate, capacity_of, pool_capacity_matches, pool_candidates, warm_candidates,
  template_candidates, candidates, is_nil,
}

abbrev pub has_warm : PoolKey → NodePools → Bool
has_warm pool n = any (λ pc. ltb 0 pc.warm && pool_capacity_matches pc pool) n.pools

abbrev pub has_template : PoolKey → NodePools → Bool
has_template pool n = any (λ t. pool_capacity_matches (capacity_of t) pool) n.templates

-- A node of this name and address that can be dialled and passes the test.
abbrev pub listed : (NodePools → Bool) → Text → Text → List NodePools → Bool
listed p node addr =
    any (λ n. (n.node == node && n.address == addr) && (not (is_empty n.address) && p n))

abbrev pub names : Text → Text → List WarmCandidate → Bool
names node addr = any (λ c. c.node == node && c.addr == addr)

names-append :
    (node addr : Text) (cs ds : List WarmCandidate)
    → names node addr (cs ++ ds) ≡ (names node addr cs || names node addr ds)
names-append node addr [] ds = refl
names-append node addr (c ∷ cs) ds = ground (arith, names-append node addr cs ds)

names-pool_candidates :
    (node addr : Text) (n : NodePools) (pool : PoolKey) (pcs : List PoolCapacity)
    → names node addr (pool_candidates n pool pcs) ≡ (
        (n.node == node && n.address == addr)
        && any (λ pc. ltb 0 pc.warm && pool_capacity_matches pc pool) pcs)
unfolding pool_candidates
names-pool_candidates node addr n pool [] = ground arith
names-pool_candidates node addr n pool (pc ∷ pcs) =
    ground (arith, names-pool_candidates node addr n pool pcs)

pub names-warm_candidates :
    (node addr : Text) (pool : PoolKey) (nodes : List NodePools)
    → names node addr (warm_candidates nodes pool) ≡ listed (has_warm pool) node addr nodes
unfolding warm_candidates
names-warm_candidates node addr pool [] = refl
names-warm_candidates node addr pool (n ∷ ns) = ground (
  arith,
  names-warm_candidates node addr pool ns,
  names-pool_candidates node addr n pool n.pools,
  names-append node addr (pool_candidates n pool n.pools) (warm_candidates ns pool),
)

pub names-template_candidates :
    (node addr : Text) (pool : PoolKey) (nodes : List NodePools)
    → names node addr (template_candidates nodes pool) ≡ listed (has_template pool) node addr nodes
unfolding template_candidates
names-template_candidates node addr pool [] = refl
names-template_candidates node addr pool (n ∷ ns) =
    ground (arith, names-template_candidates node addr pool ns)

-- A claim's candidates are exactly the nodes with an address that advertise a warm sandbox of the
-- pool's template, net and size; when there is none and promoted templates are allowed, they are
-- exactly the nodes with an address that hold the pool's promoted template, and only then is the
-- claim one of a promoted template.
pub candidates-listed :
    (node addr : Text) (nodes : List NodePools) (pool : PoolKey) (allowed : Bool)
    → let r = candidates nodes pool allowed in
      (names node addr r.0
        ≡ listed (if r.1 then has_template pool else has_warm pool) node addr nodes)
      × (r.1 ≡ (is_nil (warm_candidates nodes pool) && allowed))
unfolding candidates
candidates-listed node addr nodes pool allowed = ground (
  arith,
  names-warm_candidates node addr pool nodes,
  names-template_candidates node addr pool nodes,
)
