-- ===== src/WarmPool/Conservation.antt =====
-- pkg/scale/warmpool/driver.go: `apportionWarm` gives out each key's warm count exactly.
use sandbox_operator.Prelude.{
  ℕ, ◌+◌, ◌*◌, ◌≤◌, ◌<◌, ◌≡◌, ap, ◌⊎◌, inl, inr, List, [], ◌∷◌, arith, Bool-cases, ◌==◌, text_eq,
  nat_eq,
}
use sandbox_operator.Prelude.Dict
use sandbox_operator.Prelude.Dict.{Dict, get-nil}
use sandbox_operator.Scale.Model.{PoolKey, pool_key_eq, pool_key_beq_iff}
use sandbox_operator.WarmPool.{
  NodeView, DesiredPool, at_key, gather, share, top_up, settle, apportion_warm,
}
use sandbox_operator.WarmPool.Apportion.{
  warm_at, pools_at, shares_at, shared_at, at_key-put, top_up_lem, sums-gather, fleet-gather,
  given-share, given-share_zero, bounds-share,
}

module _ (fleet sums : Dict PoolKey ℕ) (k : PoolKey) where
  -- The rounds of the third loop hand out what the key has left.
  shares-settle :
      (pairs : List (DesiredPool × ℕ)) (given : Dict PoolKey ℕ)
      → at_key k given ≤ at_key k fleet
      → (0 < at_key k sums → at_key k fleet ≤ at_key k given + shared_at k pairs)
      → (at_key k sums ≡ 0 → (at_key k fleet ≡ at_key k given) ⊎ (0 < shared_at k pairs))
      → shares_at k (settle fleet sums pairs given) + at_key k given
        ≡ shares_at k pairs + at_key k fleet
  unfolding settle
  shares-settle [] given le some_target no_target = ground arith
  shares-settle ((dp, out) ∷ pairs) given le some_target no_target =
      let f = at_key dp.key fleet in
      let r = top_up f f (at_key dp.key sums) out (at_key dp.key given) in
      let next = Dict.put dp.key r.1 given in
      elim (Bool-cases (dp.key == k)) [
        | inl same ↦
            let e : dp.key ≡ k = (pool_key_beq_iff dp.key k).0 same in
            ground (
              arith,
              ap (λ i. at_key i fleet) e,
              ap (λ i. at_key i sums) e,
              ap (λ i. at_key i given) e,
              at_key-put k dp.key r.1 given,
              top_up_lem f f (at_key dp.key sums) out (at_key dp.key given),
              shares-settle pairs next,
            )
        | inr other ↦ ground (arith, at_key-put k dp.key r.1 given, shares-settle pairs next)
      ]

cancel_mul : (a b s : ℕ) → 0 < s → a * s ≤ b * s → a ≤ b
cancel_mul a b s h p = grind arith

-- For every key that some pool asks for, the warm counts written to its pools add up to the warm
-- count of the whole fleet for that key: nothing is lost to rounding and nothing counted twice.
pub shares_at-apportion_warm :
    (k : PoolKey) (desired : List DesiredPool) (nodes : List NodeView)
    → 0 < pools_at k desired
    → shares_at k (apportion_warm desired nodes) ≡ warm_at k nodes
unfolding apportion_warm
shares_at-apportion_warm k desired nodes h =
    let maps = gather nodes desired [] [] in
    let fleet = maps.0 in
    let sums = maps.1 in
    let empty = get-nil {K = PoolKey} {V = ℕ} k in
    let r = share fleet sums desired [] in
    ground (
      arith,
      empty,
      fleet-gather k nodes desired [] [],
      sums-gather k nodes desired [] [],
      given-share fleet sums k desired [],
      given-share_zero fleet sums k desired [],
      bounds-share fleet sums k desired [],
      cancel_mul (at_key k r.1) (at_key k fleet) (at_key k sums),
      cancel_mul (at_key k fleet) (at_key k r.1 + pools_at k desired) (at_key k sums),
      shares-settle fleet sums k r.0 r.1,
    )
