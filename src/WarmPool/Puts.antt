-- ===== src/WarmPool/Puts.antt =====
-- pkg/scale/warmpool/driver.go: what the PUTs of `applyToNodes` ask of the nodes.
use sandbox_operator.Prelude.{
  ℕ, suc, ◌+◌, ◌/◌, ◌%◌, ◌≤◌, ◌≡◌, refl, ap, ◌∙◌, ◌≢◌, inl, inr, none, List, [], ◌∷◌, map, arith,
  ltb, if◌then◌else◌, Bool-cases, ◌==◌, text_beq_iff, beq_refl, length, sum_by, Text, text_eq,
  nat_eq,
}
use sandbox_operator.Prelude.Dict
use sandbox_operator.Prelude.Dict.{Dict, NodupKeys, put-NodupKeys, get-nil, get-put, get-cons}
use sandbox_operator.Prelude.Int.{ℤ, pos_part}
use sandbox_operator.Scale.Model.{PoolKey, pool_key_eq, pool_key_beq_iff}
use sandbox_operator.WarmPool.{
  NodeView, DesiredPool, at_key, add_at, distribute, distribute_from, PoolSpec, by_key, insert_spec,
  sort_specs, specs_for,
}
use sandbox_operator.WarmPool.Apportion.{at_key-put}
use sandbox_operator.WarmPool.Distribute.{DistinctNames, Elsewhere, handed, handed_lem, split_total}

-- The warm count that a body asks for under a key, and how often it has the key.
abbrev pub asked : PoolKey → List PoolSpec → ℕ
asked k = sum_by (λ s. if s.key == k then s.warm else 0)

abbrev pub times : PoolKey → List PoolSpec → ℕ
times k = sum_by (λ s. if s.key == k then 1 else 0)

asked-insert_spec :
    (k : PoolKey) (s : PoolSpec) (ts : List PoolSpec)
    → asked k (insert_spec s ts) ≡ (if s.key == k then s.warm else 0) + asked k ts
asked-insert_spec k s [] = refl
asked-insert_spec k s (t ∷ ts) = ground (arith, asked-insert_spec k s ts)

times-insert_spec :
    (k : PoolKey) (s : PoolSpec) (ts : List PoolSpec)
    → times k (insert_spec s ts) ≡ (if s.key == k then 1 else 0) + times k ts
times-insert_spec k s [] = refl
times-insert_spec k s (t ∷ ts) = ground (arith, times-insert_spec k s ts)

asked-sort_specs :
    (k : PoolKey) (d : Dict PoolKey ℕ)
    → NodupKeys d
    → (asked k (sort_specs d) ≡ at_key k d) × (Dict.get k d ≡ none → asked k (sort_specs d) ≡ 0)
unfolding Dict.get
asked-sort_specs k [] h = (refl, λ _. refl)
asked-sort_specs k ((j, w) ∷ d) (h, hs) =
    let s : PoolSpec = record { key = j; warm = w } in
    ground (
      arith,
      asked-sort_specs k d hs,
      asked-insert_spec k s (sort_specs d),
      pool_key_beq_iff j k,
      ap (λ i. Dict.get i d),
    )

times-sort_specs :
    (k : PoolKey) (d : Dict PoolKey ℕ)
    → NodupKeys d
    → (times k (sort_specs d) ≤ 1) × (Dict.get k d ≡ none → times k (sort_specs d) ≡ 0)
unfolding Dict.get
times-sort_specs k [] h = (omega arith, λ _. refl)
times-sort_specs k ((j, w) ∷ d) (h, hs) =
    let s : PoolSpec = record { key = j; warm = w } in
    ground (
      arith,
      times-sort_specs k d hs,
      times-insert_spec k s (sort_specs d),
      pool_key_beq_iff j k,
      ap (λ i. Dict.get i d),
    )

by_key-NodupKeys :
    (name : Text) (dps : List DesiredPool) (d : Dict PoolKey ℕ)
    → NodupKeys d
    → NodupKeys (by_key name dps d)
unfolding by_key
by_key-NodupKeys name [] d h = h
by_key-NodupKeys name (dp ∷ dps) d h =
    by_key-NodupKeys name dps _
      (put-NodupKeys dp.key (at_key dp.key d + at_key name dp.targets) d h)

-- What the pools of a key want of a node.
abbrev pub wanted : PoolKey → Text → List DesiredPool → ℕ
wanted k name = sum_by (λ dp. if dp.key == k then at_key name dp.targets else 0)

at_key-by_key :
    (k : PoolKey) (name : Text) (dps : List DesiredPool) (d : Dict PoolKey ℕ)
    → at_key k (by_key name dps d) ≡ at_key k d + wanted k name dps
unfolding by_key
at_key-by_key k name [] d = omega arith
at_key-by_key k name (dp ∷ dps) d =
    let v = at_key dp.key d + at_key name dp.targets in
    ground (
      arith,
      at_key-by_key k name dps (add_at dp.key (at_key name dp.targets) d),
      at_key-put k dp.key v d,
      pool_key_beq_iff dp.key k,
      ap (λ i. at_key i d),
    )

-- The body of a node's PUT has no key twice, and asks under each key for the sum of the targets
-- that the key's pools have for the node.
pub specs_for-asked :
    (k : PoolKey) (name : Text) (desired : List DesiredPool)
    → (times k (specs_for name desired) ≤ 1)
      × (asked k (specs_for name desired) ≡ wanted k name desired)
unfolding specs_for
specs_for-asked k name desired =
    let d = by_key name desired [] in
    let u = by_key-NodupKeys name desired [] tt in
    ground (
      arith,
      times-sort_specs k d u,
      asked-sort_specs k d u,
      at_key-by_key k name desired [],
      get-nil {K = PoolKey} {V = ℕ} k,
    )

distribute_from-Elsewhere :
    (i base remainder : ℕ) (ns : List NodeView) (d : Dict Text ℕ) (name : Text)
    → Elsewhere name ns
    → at_key name (distribute_from i base remainder ns d) ≡ at_key name d
unfolding distribute_from
distribute_from-Elsewhere i base remainder [] d name h = refl
distribute_from-Elsewhere i base remainder (n ∷ ns) d name (h, hs) =
    let v = if ltb i remainder then base + 1 else base in
    ground (
      arith,
      distribute_from-Elsewhere (suc i) base remainder ns (Dict.put n.name v d) name hs,
      get-put name n.name v d,
      text_beq_iff n.name name,
    )

-- What the nodes find under their names.
abbrev found : Dict Text ℕ → List NodeView → ℕ
found d = sum_by (λ n. at_key n.name d)

found-distribute_from :
    (i base remainder : ℕ) (ns : List NodeView) (d : Dict Text ℕ)
    → DistinctNames ns
    → found (distribute_from i base remainder ns d) ns ≡ handed i base remainder ns
unfolding distribute_from
found-distribute_from i base remainder [] d h = refl
found-distribute_from i base remainder (n ∷ ns) d (h, hs) =
    let v = if ltb i remainder then base + 1 else base in
    ground (
      arith,
      found-distribute_from (suc i) base remainder ns (Dict.put n.name v d) hs,
      distribute_from-Elsewhere (suc i) base remainder ns (Dict.put n.name v d) n.name h,
      get-put n.name n.name v d,
      beq_refl n.name,
    )

found-distribute :
    (replicas : ℤ) (n : NodeView) (ns : List NodeView)
    → DistinctNames (n ∷ ns)
    → found (distribute replicas (n ∷ ns)) (n ∷ ns) ≡ pos_part replicas
unfolding distribute
found-distribute replicas n ns d =
    let total = pos_part replicas in
    let count = length (n ∷ ns) in
    found-distribute_from 0 (total / count) (total % count) (n ∷ ns) [] d
    ∙ omega (
      arith,
      handed_lem 0 (total / count) (total % count) (n ∷ ns),
      split_total total (length ns),
    )

-- The pools as they are declared: a key and a number of replicas.
abbrev pub Declared : Type 0
Declared = List (PoolKey × ℤ)

abbrev pub desired_of : List NodeView → Declared → List DesiredPool
desired_of nodes = map (λ p. record { key = p.0; targets = distribute p.1 nodes })

abbrev pub replicas_of : PoolKey → Declared → ℕ
replicas_of k = sum_by (λ p. if p.0 == k then pos_part p.1 else 0)

-- What a list of nodes finds wanted under a key.
abbrev wanted_by : PoolKey → List DesiredPool → List NodeView → ℕ
wanted_by k desired = sum_by (λ n. wanted k n.name desired)

wanted_by-cons :
    (k : PoolKey) (dp : DesiredPool) (dps : List DesiredPool) (ns : List NodeView)
    → wanted_by k (dp ∷ dps) ns
      ≡ (if dp.key == k then found dp.targets ns else 0) + wanted_by k dps ns
wanted_by-cons k dp dps [] = ground arith
wanted_by-cons k dp dps (n ∷ ns) = ground (arith, wanted_by-cons k dp dps ns)

wanted_by-nil : (k : PoolKey) (ns : List NodeView) → wanted_by k [] ns ≡ 0
wanted_by-nil k [] = refl
wanted_by-nil k (n ∷ ns) = omega (arith, wanted_by-nil k ns)

wanted_by-desired_of :
    (k : PoolKey) (n : NodeView) (ns : List NodeView) (ps : Declared)
    → DistinctNames (n ∷ ns)
    → wanted_by k (desired_of (n ∷ ns) ps) (n ∷ ns) ≡ replicas_of k ps
wanted_by-desired_of k n ns [] h = wanted_by-nil k (n ∷ ns)
wanted_by-desired_of k n ns ((key, r) ∷ ps) h =
    let nodes = n ∷ ns in
    let dp : DesiredPool = record { key = key; targets = distribute r nodes } in
    let split = wanted_by-cons k dp (desired_of nodes ps) nodes in
    let rest = wanted_by-desired_of k n ns ps h in
    let here = found-distribute r n ns h in
    elim (Bool-cases (key == k)) [
      | inl e ↦ split ∙ rw (e, here, rest)
      | inr e ↦ split ∙ rw (e, rest)
    ]

asked_by-wanted_by :
    (k : PoolKey) (desired : List DesiredPool) (ns : List NodeView)
    → sum_by (λ n. asked k (specs_for n.name desired)) ns ≡ wanted_by k desired ns
asked_by-wanted_by k desired [] = refl
asked_by-wanted_by k desired (n ∷ ns) =
    omega (arith, asked_by-wanted_by k desired ns, (specs_for-asked k n.name desired).1)

-- Over a fleet that is not empty and whose nodes have different names, the PUTs together ask under
-- each key for exactly the replicas that the pools of that key declare, a negative count being 0:
-- several pools of one key add up, and the division among the nodes loses and adds none.
pub specs_for-replicas :
    (k : PoolKey) (nodes : List NodeView) (ps : Declared)
    → nodes ≢ []
    → DistinctNames nodes
    → sum_by (λ n. asked k (specs_for n.name (desired_of nodes ps))) nodes ≡ replicas_of k ps
specs_for-replicas k [] ps h d = absurd (h refl)
specs_for-replicas k (n ∷ ns) ps h d =
    asked_by-wanted_by k (desired_of (n ∷ ns) ps) (n ∷ ns) ∙ wanted_by-desired_of k n ns ps d
