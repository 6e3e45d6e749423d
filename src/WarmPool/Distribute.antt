-- ===== src/WarmPool/Distribute.antt =====
-- pkg/scale/warmpool/driver.go: `distribute` hands out every replica, evenly.
use sandbox_operator.Prelude.{
  ℕ, suc, ◌+◌, ◌-◌, ◌*◌, ◌/◌, ◌%◌, ◌≤◌, min, ◌≡◌, refl, ◌∙◌, ◌≢◌, Option, none, some, List, [], ◌∷◌,
  arith, ltb, if◌then◌else◌, text_beq_iff, length, sum_by, All, Text, text_eq,
}
use sandbox_operator.Prelude.Dict
use sandbox_operator.Prelude.Dict.{Dict, get-put, get-nil}
use sandbox_operator.Prelude.Int.{ℤ, pos_part}
use native.Mathlib.Nat.{div-add-mod, mod-lt}
use sandbox_operator.Scale.Model.{PoolKey}
use sandbox_operator.WarmPool.{NodeView, distribute, distribute_from, pool_target}

abbrev pub total_of {ℓ} : {K : Type ℓ} → Dict K ℕ → ℕ
total_of = sum_by (λ e. e.1)

abbrev Unseen : Dict Text ℕ → List NodeView → Type 0
Unseen d = All (λ n. Dict.get n.name d ≡ none)

abbrev pub Elsewhere : Text → List NodeView → Type 0
Elsewhere name = All (λ n. name ≢ n.name)

-- The nodes go by different names.
abbrev pub DistinctNames : List NodeView → Type 0
DistinctNames [] = Unit
DistinctNames (n ∷ ns) = Elsewhere n.name ns × DistinctNames ns

total_of-put :
    (k : Text) (v : ℕ) (d : Dict Text ℕ)
    → Dict.get k d ≡ none
    → total_of (Dict.put k v d) ≡ total_of d + v
unfolding Dict.put Dict.get
total_of-put k v [] h = omega arith
total_of-put k v ((j, w) ∷ d) h = ground (arith, total_of-put k v d)

Unseen-put :
    (name : Text) (v : ℕ) (d : Dict Text ℕ) (ns : List NodeView)
    → Elsewhere name ns
    → Unseen d ns
    → Unseen (Dict.put name v d) ns
Unseen-put name v d [] h u = tt
Unseen-put name v d (n ∷ ns) (h, hs) (u, us) = (
  ground (arith, get-put n.name name v d, text_beq_iff name n.name),
  Unseen-put name v d ns hs us,
)

-- What the loop adds from node `i` on.
abbrev pub handed : ℕ → ℕ → ℕ → List NodeView → ℕ
handed i base remainder [] = 0
handed i base remainder (n ∷ ns) =
    (if ltb i remainder then base + 1 else base) + handed (suc i) base remainder ns

total_of-distribute_from :
    (i base remainder : ℕ) (ns : List NodeView) (d : Dict Text ℕ)
    → DistinctNames ns
    → Unseen d ns
    → total_of (distribute_from i base remainder ns d) ≡ total_of d + handed i base remainder ns
unfolding distribute_from
total_of-distribute_from i base remainder [] d _ _ = omega arith
total_of-distribute_from i base remainder (n ∷ ns) d (h, hs) (u, us) =
    let v = if ltb i remainder then base + 1 else base in
    omega (
      arith,
      total_of-put n.name v d u,
      total_of-distribute_from (suc i) base remainder ns (Dict.put n.name v d) hs
          (Unseen-put n.name v d ns h us),
    )

-- The first `remainder` nodes get one more.
pub handed_lem :
    (i base remainder : ℕ) (ns : List NodeView)
    → handed i base remainder ns ≡ base * length ns + min (remainder - i) (length ns)
handed_lem i base remainder [] = omega arith
handed_lem i base remainder (n ∷ ns) = ground (arith, handed_lem (suc i) base remainder ns)

Unseen-nil : (ns : List NodeView) → Unseen [] ns
Unseen-nil [] = tt
Unseen-nil (n ∷ ns) = (get-nil {K = Text} {V = ℕ} n.name, Unseen-nil ns)

pub split_total : (total k : ℕ) → (total / suc k) * suc k + min (total % suc k) (suc k) ≡ total
split_total total k = omega (arith, div-add-mod total (suc k), mod-lt total {m = suc k})

-- Over a fleet that is not empty and whose nodes have different names, the targets add up to the
-- replicas asked for, a negative count being 0.
pub pool_target-distribute :
    (replicas : ℤ) (key : PoolKey) (ns : List NodeView)
    → ns ≢ []
    → DistinctNames ns
    → pool_target (record { key = key; targets = distribute replicas ns }) ≡ pos_part replicas
unfolding pool_target distribute
pool_target-distribute replicas key [] h d = absurd (h refl)
pool_target-distribute replicas key (n ∷ ns) h d =
    let total = pos_part replicas in
    let count = length (n ∷ ns) in
    total_of-distribute_from 0 (total / count) (total % count) (n ∷ ns) [] d (Unseen-nil (n ∷ ns))
    ∙ omega (
      arith,
      handed_lem 0 (total / count) (total % count) (n ∷ ns),
      split_total total (length ns),
    )

-- No two nodes' targets differ by more than one.
abbrev Near : ℕ → Option ℕ → Type 0
Near base o = (t : ℕ) → o ≡ some t → (base ≤ t) × (t ≤ base + 1)

distribute_from-Near :
    (i base remainder : ℕ) (ns : List NodeView) (d : Dict Text ℕ) (name : Text)
    → Near base (Dict.get name d)
    → Near base (Dict.get name (distribute_from i base remainder ns d))
unfolding distribute_from
distribute_from-Near i base remainder [] d name h = h
distribute_from-Near i base remainder (n ∷ ns) d name h =
    distribute_from-Near (suc i) base remainder ns _ name
      λ t e. ground (arith, h t, get-put name n.name (if ltb i remainder then base + 1 else base) d)

-- Two nodes' targets for one pool differ by at most one.
pub distribute_even :
    (replicas : ℤ) (ns : List NodeView) (a b : Text) (s t : ℕ)
    → Dict.get a (distribute replicas ns) ≡ some s
    → Dict.get b (distribute replicas ns) ≡ some t
    → s ≤ t + 1
unfolding distribute
distribute_even replicas [] a b s t p q = ground (arith, get-nil {K = Text} {V = ℕ} a)
distribute_even replicas (n ∷ ns) a b s t p q =
    let total = pos_part replicas in
    let count = length (n ∷ ns) in
    let near : (c : Text)
        → Near (total / count)
            (Dict.get c (distribute_from 0 (total / count) (total % count) (n ∷ ns) [])) =
      λ c.
        distribute_from-Near 0 (total / count) (total % count) (n ∷ ns) [] c
          (λ u e. ground (arith, get-nil {K = Text} {V = ℕ} c)) in
    omega (arith, near a s p, near b t q)
