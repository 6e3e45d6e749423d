-- ===== src/Scale/KubeInventory/Rows.antt =====
-- pkg/scale/kubeinventory/source.go: the rows of the capacities.
use sandbox_operator.Prelude.{
  ◌≡◌, refl, sym, ap, ◌∙◌, subst, inl, inr, true, false, List, [], ◌∷◌, map, arith, Option-cases,
  beq_refl, any, All, Text, sorted, contains, keys, is_some, contains-sorted, contains-keys,
  text_eq,
}
use sandbox_operator.Prelude.Dict
use sandbox_operator.Prelude.Dict.{Dict}
use sandbox_operator.Prelude.Int.{ℤ}
use sandbox_operator.Errors.{ok}
use sandbox_operator.Scale.Model.{NodeInventory, NodePools}
use sandbox_operator.Scale.KubeInventory.{
  Source, Event, run, new, publish, pools_of, stamp_at, stale, fresh, ref_time, list_nodes,
  node_capacities, node_inventory, node_capacity,
}
use sandbox_operator.Scale.KubeInventory.Reads.{run-Published, new-Published, stamps_of, caps_of}

fresh-all :
    (s : Source) (ref : ℤ) (d : Dict Text NodeInventory) (names : List Text)
    → any (λ n. stale s n ref) (stamps_of d names) ≡ false
    → fresh s ref (caps_of d names) (stamps_of d names) ≡ caps_of d names
unfolding fresh
fresh-all s ref d [] h = refl
fresh-all s ref d (n ∷ names) h = ground (arith, fresh-all s ref d names)

-- The row of a node is what its inventory says.
abbrev pub RowOf : Source → ℤ → NodePools → Type 0
RowOf s now c = node_capacity s now c.node ≡ ok (c.address, c.pools)

pools_of-RowOf :
    (s : Source) (now : ℤ) (node : Text)
    → is_some (Dict.get node s.snap.by_node) ≡ true
    → stale s (stamp_at (Dict.get node s.snap.by_node)) (ref_time s now) ≡ false
    → RowOf s now (pools_of node (Dict.get node s.snap.by_node))
unfolding node_capacity node_inventory
pools_of-RowOf s now node h k = elim (Option-cases (Dict.get node s.snap.by_node)) [
  | inl e ↦ ground arith
  | inr (inv, e) ↦ ground arith
]

fresh-RowOf :
    (s : Source) (now : ℤ) (names : List Text)
    → All (λ node. is_some (Dict.get node s.snap.by_node) ≡ true) names
    → let d = s.snap.by_node in
      All (RowOf s now) (fresh s (ref_time s now) (caps_of d names) (stamps_of d names))
unfolding fresh
fresh-RowOf s now [] h = tt
fresh-RowOf s now (n ∷ names) (h, hs) =
    ground (arith, fresh-RowOf s now names hs, pools_of-RowOf s now n h)

contains-All {ℓ} :
    (P : Text → Type ℓ) (names : List Text)
    → ((x : Text) → contains x names ≡ true → P x)
    → All P names
contains-All P [] h = tt
contains-All P (n ∷ names) h =
    (h n (rw (beq_refl n)), contains-All P names (λ x k. h x (ground arith)))

abbrev Rows : Source → ℤ → Type 0
Rows s now =
    (map (λ c. c.node) (node_capacities s now) ≡ list_nodes s now)
    × All (RowOf s now) (node_capacities s now)

node_capacities-fresh :
    (s : Source) (now : ℤ)
    → node_capacities (publish s) now
      ≡ fresh (publish s) (ref_time (publish s) now) (publish s).snap.caps (publish s).snap.stamps
unfolding node_capacities publish
node_capacities-fresh s now =
    ground
      (arith, fresh-all (publish s) (ref_time (publish s) now) s.by_node (sorted (keys s.by_node)))

names-held :
    (d : Dict Text NodeInventory) → All (λ node. is_some (Dict.get node d) ≡ true) (sorted (keys d))
names-held d =
    contains-All (λ node. is_some (Dict.get node d) ≡ true) (sorted (keys d))
      (λ x h. sym (contains-keys x d) ∙ sym (contains-sorted x (keys d)) ∙ h)

node_capacities-publish : (s : Source) (now : ℤ) → Rows (publish s) now
unfolding list_nodes publish
node_capacities-publish s now = (
  ap (λ cs. map (λ c. c.node) cs) (node_capacities-fresh s now),
  subst (All (RowOf (publish s) now)) (sym (node_capacities-fresh s now))
      (fresh-RowOf (publish s) now (sorted (keys s.by_node)) (names-held s.by_node)),
)

-- At every time and after every history of events, the capacities are those of the listed nodes,
-- in the same order, and each row has the address and the pools that reading its node gives.
pub node_capacities-Rows :
    (stale_after : ℤ) (es : List Event) (now : ℤ)
    → let s = run es (new stale_after) in
      (map (λ c. c.node) (node_capacities s now) ≡ list_nodes s now)
      × All (RowOf s now) (node_capacities s now)
node_capacities-Rows stale_after es now =
    subst (λ s. Rows s now) (run-Published es (new stale_after) (new-Published stale_after))
      (node_capacities-publish (run es (new stale_after)) now)
