-- ===== src/WarmPool/Apportion.antt =====
-- pkg/scale/warmpool/driver.go: `apportionWarm` gives out each key's warm count exactly.
use sandbox_operator.Prelude.{
  ℕ, zero, suc, ◌+◌, ◌*◌, ◌/◌, ◌≤◌, ◌<◌, min, ◌≡◌, refl, ap, ◌∙◌, ◌⊎◌, inl, inr, true, false, none,
  List, [], ◌∷◌, arith, if◌then◌else◌, lt→ltb, Bool-cases, ◌==◌, sum_by, is_some, text_eq, nat_eq,
}
use native.Mathlib.Nat.{div-add-mod, mod-lt}
use sandbox_operator.Prelude.Dict
use sandbox_operator.Prelude.Dict.{Dict, get-put, get-nil}
use sandbox_operator.Scale.Model.{PoolKey, pool_key_eq, pool_key_beq_iff}
use sandbox_operator.WarmPool.{
  NodeView, DesiredPool, at_key, add_at, pool_target, add_fleet, gather, floor_share, charge, share,
  top_up,
}

-- The fleet's warm count of a key.
abbrev pub warm_at : PoolKey → List NodeView → ℕ
warm_at k = sum_by (λ n. at_key k n.warm_by)

-- Over the pools of a key: how many there are, what their targets add up to, and their warm counts.
abbrev pub pools_at : PoolKey → List DesiredPool → ℕ
pools_at k = sum_by (λ dp. if dp.key == k then 1 else 0)

abbrev pub target_at : PoolKey → List DesiredPool → ℕ
target_at k = sum_by (λ dp. if dp.key == k then pool_target dp else 0)

abbrev pub shares_at : PoolKey → List (DesiredPool × ℕ) → ℕ
shares_at k = sum_by (λ s. if s.0.key == k then s.1 else 0)

abbrev pub shared_at : PoolKey → List (DesiredPool × ℕ) → ℕ
shared_at k = sum_by (λ s. if s.0.key == k then 1 else 0)

pub at_key-put :
    (j k : PoolKey) (v : ℕ) (d : Dict PoolKey ℕ)
    → at_key j (Dict.put k v d) ≡ (if k == j then v else at_key j d)
at_key-put j k v d = ground (arith, get-put j k v d)

at_key-add_at :
    (j k : PoolKey) (v : ℕ) (d : Dict PoolKey ℕ)
    → at_key j (add_at k v d) ≡ (if k == j then at_key j d + v else at_key j d)
at_key-add_at j k v d = elim (Bool-cases (k == j)) [
  | inl same ↦
      at_key-put j k _ d ∙ rw same (ap (λ i. at_key i d + v) ((pool_key_beq_iff k j).0 same))
  | inr other ↦ at_key-put j k _ d ∙ rw other
]

at_key-add_fleet :
    (j k : PoolKey) (ns : List NodeView) (d : Dict PoolKey ℕ)
    → at_key j (add_fleet k ns d) ≡ (if k == j then at_key j d + warm_at k ns else at_key j d)
unfolding add_fleet
at_key-add_fleet j k [] d = ground arith
at_key-add_fleet j k (n ∷ ns) d = ground (
  arith,
  at_key-add_fleet j k ns (add_at k (at_key k n.warm_by) d),
  at_key-add_at j k (at_key k n.warm_by) d,
)

pub top_up_lem :
    (fuel f s out g : ℕ)
    → f ≤ g + fuel
    → g ≤ f
    → let r = top_up fuel f s out g in
      (r.0 + g ≡ out + r.1) × (r.1 ≤ f) × (s ≡ 0 → r.1 ≡ f) × (0 < s → r.1 ≡ min f (g + 1))
unfolding top_up
top_up_lem zero f s out g h k = ground arith
top_up_lem (suc fuel) f s out g h k = ground (arith, top_up_lem fuel f s (out + 1) (g + 1))

pub sums-gather :
    (k : PoolKey) (ns : List NodeView) (dps : List DesiredPool) (fleet sums : Dict PoolKey ℕ)
    → at_key k (gather ns dps fleet sums).1 ≡ at_key k sums + target_at k dps
unfolding gather
sums-gather k ns [] fleet sums = omega arith
sums-gather k ns (dp ∷ dps) fleet sums =
    let fleet' = if is_some (Dict.get dp.key fleet) then fleet else add_fleet dp.key ns fleet in
    ground (
      arith,
      sums-gather k ns dps fleet' (add_at dp.key (pool_target dp) sums),
      at_key-add_at k dp.key (pool_target dp) sums,
    )

-- A key is either not in the map yet or has the fleet's count.
abbrev Loaded : PoolKey → List NodeView → Dict PoolKey ℕ → Type 0
Loaded k ns fleet = (at_key k fleet ≡ warm_at k ns) ⊎ (Dict.get k fleet ≡ none)

loaded : Dict PoolKey ℕ → List NodeView → PoolKey → Dict PoolKey ℕ
loaded fleet ns key = if is_some (Dict.get key fleet) then fleet else add_fleet key ns fleet

loaded_lem :
    (k key : PoolKey) (ns : List NodeView) (fleet : Dict PoolKey ℕ)
    → Loaded k ns fleet
    → (key == k) ≡ true
    → at_key k (loaded fleet ns key) ≡ warm_at k ns
unfolding loaded
loaded_lem k key ns fleet h same =
    let e : key ≡ k = (pool_key_beq_iff key k).0 same in
    rw e (ground (arith, at_key-add_fleet k k ns fleet, pool_key_beq_iff k k))

get-add_fleet_other :
    (k key : PoolKey) (ns : List NodeView) (fleet : Dict PoolKey ℕ)
    → (key == k) ≡ false
    → Dict.get k (add_fleet key ns fleet) ≡ Dict.get k fleet
unfolding add_fleet
get-add_fleet_other k key [] fleet other = refl
get-add_fleet_other k key (n ∷ ns) fleet other =
    let v = at_key key fleet + at_key key n.warm_by in
    get-add_fleet_other k key ns (Dict.put key v fleet) other ∙ (get-put k key v fleet ∙ rw other)

get-loaded_other :
    (k key : PoolKey) (ns : List NodeView) (fleet : Dict PoolKey ℕ)
    → (key == k) ≡ false
    → Dict.get k (loaded fleet ns key) ≡ Dict.get k fleet
unfolding loaded
get-loaded_other k key ns fleet other = ground (arith, get-add_fleet_other k key ns fleet other)

-- Once a pool of the key was seen, the map holds the fleet's count.
pub fleet-gather :
    (k : PoolKey) (ns : List NodeView) (dps : List DesiredPool) (fleet sums : Dict PoolKey ℕ)
    → (at_key k fleet ≡ warm_at k ns) ⊎ ((Dict.get k fleet ≡ none) × (0 < pools_at k dps))
    → at_key k (gather ns dps fleet sums).0 ≡ warm_at k ns
unfolding gather loaded
fleet-gather k ns [] fleet sums h = ground arith
fleet-gather k ns (dp ∷ dps) fleet sums h =
    fleet-gather k ns dps (loaded fleet ns dp.key) (add_at dp.key (pool_target dp) sums)
      (ground (arith, loaded_lem k dp.key ns fleet, get-loaded_other k dp.key ns fleet))

-- What rounding down costs: less than one for each pool.
floor_bounds : (n s : ℕ) → 0 < s → (n / s * s ≤ n) × (n ≤ n / s * s + s)
floor_bounds n s h = (grind (arith, div-add-mod n s), grind (arith, div-add-mod n s, mod-lt n h))

abbrev Bounds : ℕ → ℕ → ℕ → ℕ → ℕ → ℕ → Type 0
Bounds given total s fleet target count =
    (total * s ≤ given * s + fleet * target) × (given * s + fleet * target ≤ total * s + count * s)

Bounds-step :
    (given next total out s fleet t target count : ℕ)
    → Bounds next total s fleet target count
    → next ≡ given + out
    → (out * s ≤ fleet * t) × (fleet * t ≤ out * s + s)
    → Bounds given total s fleet (t + target) (1 + count)
Bounds-step given next total out s fleet t target count (p, q) e (l, u) =
    let d = ap (λ (x : ℕ). x * s) e in (omega (arith, d), omega (arith, d))

Bounds-skip :
    (given next total s fleet target count : ℕ)
    → Bounds next total s fleet target count
    → next ≡ given
    → Bounds given total s fleet (0 + target) (0 + count)
Bounds-skip given next total s fleet target count (p, q) e =
    let d = ap (λ (x : ℕ). x * s) e in (omega (arith, d), omega (arith, d))

module _ (fleet sums : Dict PoolKey ℕ) (k : PoolKey) where
  floor_share_bounds :
      (dp : DesiredPool)
      → (dp.key == k) ≡ true
      → 0 < at_key k sums
      → let s = at_key k sums in
        let out = floor_share fleet sums dp in
        let whole = at_key k fleet * pool_target dp in (out * s ≤ whole) × (whole ≤ out * s + s)
  unfolding floor_share pool_target
  floor_share_bounds dp same h =
      let e : dp.key ≡ k = (pool_key_beq_iff dp.key k).0 same in
      rw (e, lt→ltb 0 (at_key k sums) h)
        (floor_bounds (at_key k fleet * pool_target dp) (at_key k sums) h)

  floor_share_zero :
      (dp : DesiredPool) → at_key k sums ≡ 0 → (dp.key == k) ≡ true → floor_share fleet sums dp ≡ 0
  unfolding floor_share
  floor_share_zero dp h same =
      ground (arith, ap (λ i. at_key i sums) ((pool_key_beq_iff dp.key k).0 same))

  at_key-charge :
      (dp : DesiredPool) (given : Dict PoolKey ℕ)
      → let out = floor_share fleet sums dp in
        at_key k (charge sums dp out given)
        ≡ (if dp.key == k then at_key k given + out else at_key k given)
  unfolding charge floor_share
  at_key-charge dp given =
      let v = at_key dp.key fleet * pool_target dp / at_key dp.key sums in
      ground (arith, at_key-add_at k dp.key v given)

  pub given-share :
      (dps : List DesiredPool) (given : Dict PoolKey ℕ)
      → let r = share fleet sums dps given in
        (at_key k r.1 ≡ at_key k given + shares_at k r.0) × (shared_at k r.0 ≡ pools_at k dps)
  unfolding share
  given-share [] given = (omega arith, refl)
  given-share (dp ∷ dps) given =
      let next = charge sums dp (floor_share fleet sums dp) given in
      ground (arith, given-share dps next, at_key-charge dp given)

  -- A key without a target gives nothing out in this loop.
  pub given-share_zero :
      (dps : List DesiredPool) (given : Dict PoolKey ℕ)
      → at_key k sums ≡ 0
      → at_key k (share fleet sums dps given).1 ≡ at_key k given
  unfolding share
  given-share_zero [] given h = refl
  given-share_zero (dp ∷ dps) given h =
      let next = charge sums dp (floor_share fleet sums dp) given in
      ground (arith, given-share_zero dps next h, at_key-charge dp given, floor_share_zero dp h)

  pub bounds-share :
      (dps : List DesiredPool) (given : Dict PoolKey ℕ)
      → 0 < at_key k sums
      → let r = share fleet sums dps given in
        let s = at_key k sums in
        let whole = at_key k given * s + at_key k fleet * target_at k dps in
        (at_key k r.1 * s ≤ whole) × (whole ≤ at_key k r.1 * s + pools_at k dps * s)
  unfolding share
  bounds-share [] given h = (omega arith, omega arith)
  bounds-share (dp ∷ dps) given h =
      let next = charge sums dp (floor_share fleet sums dp) given in
      let ih = bounds-share dps next h in
      elim (Bool-cases (dp.key == k)) [
        | inl same ↦ rw same (
            Bounds-step _ _ _ _ _ _ _ _ _ ih (rw same at (at_key-charge dp given))
              (floor_share_bounds dp same h))
        | inr other ↦ rw other (Bounds-skip _ _ _ _ _ _ _ ih (rw other at (at_key-charge dp given)))
      ]
