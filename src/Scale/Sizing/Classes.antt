-- ===== src/Scale/Sizing/Classes.antt =====
-- pkg/scale/poolkey.go: the size classes grow with the resources, and a key matches a pool of itself.
use sandbox_operator.Prelude.{
  ℕ, ◌≤◌, ◌≡◌, refl, inl, inr, true, ◌||◌, List, ◌∷◌, arith, ltb, if◌then◌else◌, Bool-cases, ◌==◌,
  list_beq, beq_refl, Text, codes, or_else, text_eq, nat_eq,
}
use sandbox_operator.Scale.Warm.{pool_capacity_matches}
use sandbox_operator.Scale.Sizing.{
  Container, or_amount, size_class, size_class_for_containers, pool_key_for,
}

abbrev pub rank : Text → ℕ
rank s = if s == codes "large" then 2 else if s == codes "medium" then 1 else 0

-- The class by its rank, with the thresholds written out.
rank-size_class :
    (cpu mem : ℕ)
    → rank (size_class cpu mem) ≡ (
        if ltb 4000000000 cpu || ltb 8589934592 mem
        then 2
        else if ltb 1000000000 cpu || ltb 2147483648 mem
        then 1
        else 0)
unfolding list_beq
rank-size_class cpu mem = elim (Bool-cases (ltb 4000000000 cpu || ltb 8589934592 mem)) [
  | inl e ↦ rw e refl
  | inr e ↦ elim (Bool-cases (ltb 1000000000 cpu || ltb 2147483648 mem)) [
    | inl d ↦ rw (e, d) refl
    | inr d ↦ rw (e, d) refl
  ]
]

size_class_mono : (c d m n : ℕ) → c ≤ d → m ≤ n → rank (size_class c m) ≤ rank (size_class d n)
size_class_mono c d m n h k = rw (rank-size_class c m, rank-size_class d n) (ground arith)

-- A first container that needs at least as much CPU and memory, requests before limits, is never
-- of a smaller class.
pub size_class_for_containers_mono :
    (c d : Container) (cs ds : List Container)
    → or_amount c.request_cpu c.limit_cpu ≤ or_amount d.request_cpu d.limit_cpu
    → or_amount c.request_memory c.limit_memory ≤ or_amount d.request_memory d.limit_memory
    → rank (size_class_for_containers (c ∷ cs)) ≤ rank (size_class_for_containers (d ∷ ds))
unfolding size_class_for_containers
size_class_for_containers_mono c d cs ds h k =
    size_class_mono (or_amount c.request_cpu c.limit_cpu) (or_amount d.request_cpu d.limit_cpu)
      (or_amount c.request_memory c.limit_memory) (or_amount d.request_memory d.limit_memory) h k

-- The key derived for a workload is matched by the pool that a node advertises under that key, so
-- that a claim finds what the warm-pool driver provisions for the same workload.
pub pool_key_for-matches :
    (containers : List Container) (net : Text) (warm target : ℕ)
    → let key = pool_key_for containers net in
      pool_capacity_matches
        (record {
          template = key.template;
          net = key.net;
          size = key.size;
          warm = warm;
          target = target;
        })
        key
      ≡ true
unfolding pool_capacity_matches
pool_key_for-matches containers net warm target =
    let key = pool_key_for containers net in
    rw (
      beq_refl key.template,
      beq_refl (or_else key.net (codes "none")),
      beq_refl (or_else key.size (codes "small")),
    )
