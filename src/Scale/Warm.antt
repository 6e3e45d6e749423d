-- ===== src/Scale/Warm.antt =====
-- pkg/scale/sandboxstore_impl.go: the nodes that a claim may ask, from the inventories.
use sandbox_operator.Prelude.{
  ℕ, zero, suc, ◌%◌, Bool, true, false, not, ◌&&◌, List, [], ◌∷◌, ◌++◌, ltb, if◌then◌else◌, ◌==◌,
  length, any, Text, codes, is_empty, or_else, text_eq, nat_eq,
}
use sandbox_operator.Scale.Model.{PoolKey, PoolCapacity, PromotedTemplate, NodePools}

pub record WarmCandidate : Type 0 where
  pub node : Text
  pub addr : Text
  pub warm : ℕ

-- `poolCapacityMatches`
unfoldable pub pool_capacity_matches : PoolCapacity → PoolKey → Bool
pool_capacity_matches pc key =
    pc.template == key.template
    && (or_else pc.net (codes "none") == or_else key.net (codes "none")
        && or_else pc.size (codes "small") == or_else key.size (codes "small"))

-- The inner loop of `warmCandidates`, over one node's pools.
unfoldable pub pool_candidates : NodePools → PoolKey → List PoolCapacity → List WarmCandidate
unfolding pool_capacity_matches
pool_candidates n pool [] = []
pool_candidates n pool (pc ∷ pcs) =
    let rest = pool_candidates n pool pcs in
    if ltb 0 pc.warm && pool_capacity_matches pc pool
    then record { node = n.node; addr = n.address; warm = pc.warm } ∷ rest
    else rest

-- `warmCandidates`
unfoldable pub warm_candidates : List NodePools → PoolKey → List WarmCandidate
unfolding pool_candidates
warm_candidates [] pool = []
warm_candidates (n ∷ ns) pool =
    let rest = warm_candidates ns pool in
    if is_empty n.address then rest else pool_candidates n pool n.pools ++ rest

abbrev pub capacity_of : PromotedTemplate → PoolCapacity
capacity_of t = record { template = t.template; net = t.net; size = t.size; warm = 0; target = 0 }

-- `templateCandidates`
unfoldable pub template_candidates : List NodePools → PoolKey → List WarmCandidate
unfolding pool_capacity_matches
template_candidates [] pool = []
template_candidates (n ∷ ns) pool =
    let rest = template_candidates ns pool in
    if not (is_empty n.address) && any (λ t. pool_capacity_matches (capacity_of t) pool) n.templates
    then record { node = n.node; addr = n.address; warm = 1 } ∷ rest
    else rest

-- `l[i]`, which the caller keeps in range
abbrev pub nth : WarmCandidate → List WarmCandidate → ℕ → WarmCandidate
nth c cs zero = c
nth c [] (suc i) = c
nth c (d ∷ cs) (suc i) = nth d cs i

-- `pickPowerOfTwo` of a list that is not empty; `rand.IntN(n)` is a draw modulo `n`.
unfoldable pub pick_power_of_two : ℕ × ℕ → WarmCandidate → List WarmCandidate → WarmCandidate
pick_power_of_two (x, y) c cs =
    let n = length (c ∷ cs) in
    let i = nth c cs (x % n) in let j = nth c cs (y % n) in if ltb i.warm j.warm then j else i

-- `nodeForAddress`
unfoldable pub node_for_address : List NodePools → Text → Text
node_for_address [] addr = []
node_for_address (n ∷ ns) addr = if n.address == addr then n.node else node_for_address ns addr

abbrev pub is_nil {ℓ} : {A : Type ℓ} → List A → Bool
is_nil [] = true
is_nil (x ∷ xs) = false

-- The candidates, and whether they are the holders of a promoted template.
unfoldable pub candidates : List NodePools → PoolKey → Bool → List WarmCandidate × Bool
unfolding warm_candidates template_candidates
candidates nodes pool allowed =
    let warm = warm_candidates nodes pool in
    if is_nil warm && allowed then (template_candidates nodes pool, true) else (warm, false)
