-- ===== src/Scale/KubeInventory/Reads.antt =====
-- pkg/scale/kubeinventory/source.go: the reads agree, whatever events came before.
use sandbox_operator.Prelude.{
  ◌≡◌, refl, ap, subst, inl, inr, Bool, true, false, not, ◌&&◌, Option, none, some, List, [], ◌∷◌,
  map, arith, Option-cases, text_beq_iff, Text, sorted, contains, keys, is_some, contains-sorted,
  contains-keys, text_eq,
}
use sandbox_operator.Prelude.Dict
use sandbox_operator.Prelude.Dict.{Dict}
use sandbox_operator.Prelude.Int.{ℤ}
use sandbox_operator.Errors.{Result, ok, err}
use sandbox_operator.Scale.Model.{NodeInventory, NodePools}
use sandbox_operator.Scale.KubeInventory.{
  Source, inventory, tombstone, other, Event, puts, drops, handle, run, new, put, drop, publish,
  newest_of, pools_of, stamp_at, stale, fresh, ref_time, list_nodes, node_inventory,
}

-- The snapshot is the one of the objects held.
abbrev pub Published : Source → Type 0
Published s = publish s ≡ s

handle-Published : (e : Event) (s : Source) → Published s → Published (handle e s)
unfolding handle put drop publish
handle-Published (puts (inventory name inv)) s h = refl
handle-Published (puts (tombstone name inv)) s h = h
handle-Published (puts other) s h = h
handle-Published (drops (inventory name inv)) s h = refl
handle-Published (drops (tombstone name inv)) s h = refl
handle-Published (drops other) s h = h

pub run-Published : (es : List Event) (s : Source) → Published s → Published (run es s)
unfolding run
run-Published [] s h = h
run-Published (e ∷ es) s h = run-Published es (handle e s) (handle-Published e s h)

pub new-Published : (n : ℤ) → Published (new n)
unfolding new publish newest_of
new-Published n = refl

abbrev pub is_ok {ℓ} : {A : Type ℓ} → Result A → Bool
is_ok (ok a) = true
is_ok (err e) = false

abbrev pub stamps_of : Dict Text NodeInventory → List Text → List ℤ
stamps_of d = map (λ node. stamp_at (Dict.get node d))

abbrev pub caps_of : Dict Text NodeInventory → List Text → List NodePools
caps_of d = map (λ node. pools_of node (Dict.get node d))

pools_of-node : (node : Text) (o : Option NodeInventory) → (pools_of node o).node ≡ node
pools_of-node node none = refl
pools_of-node node (some inv) = refl

-- The nodes that a loop over the snapshot keeps.
pub contains-fresh :
    (s : Source) (ref : ℤ) (d : Dict Text NodeInventory) (node : Text) (names : List Text)
    → contains node (map (λ c. c.node) (fresh s ref (caps_of d names) (stamps_of d names)))
      ≡ (contains node names && not (stale s (stamp_at (Dict.get node d)) ref))
unfolding fresh
contains-fresh s ref d node [] = refl
contains-fresh s ref d node (n ∷ names) = ground (
  arith,
  contains-fresh s ref d node names,
  text_beq_iff n node,
  pools_of-node n (Dict.get n d),
  ap (λ m. stale s (stamp_at (Dict.get m d)) ref),
)

inventory-ok :
    (s : Source) (now : ℤ) (node : Text)
    → is_ok (node_inventory s now node) ≡ (
        is_some (Dict.get node s.snap.by_node)
        && not (stale s (stamp_at (Dict.get node s.snap.by_node)) (ref_time s now)))
unfolding node_inventory
inventory-ok s now node = elim (Option-cases (Dict.get node s.snap.by_node)) [
  | inl e ↦ ground arith
  | inr (inv, e) ↦ ground arith
]

list_nodes-publish :
    (s : Source) (now : ℤ) (node : Text)
    → contains node (list_nodes (publish s) now) ≡ is_ok (node_inventory (publish s) now node)
unfolding list_nodes publish
list_nodes-publish s now node =
    let names = sorted (keys s.by_node) in
    ground (
      arith,
      contains-fresh (publish s) (ref_time (publish s) now) s.by_node node names,
      inventory-ok (publish s) now node,
      contains-sorted node (keys s.by_node),
      contains-keys node s.by_node,
    )

-- Whatever events the informer handed over, and whatever the clock shows, the nodes listed are
-- exactly those whose inventory can be read at that time.
pub list_nodes-node_inventory :
    (stale_after : ℤ) (es : List Event) (now : ℤ) (node : Text)
    → let s = run es (new stale_after) in
      contains node (list_nodes s now) ≡ is_ok (node_inventory s now node)
list_nodes-node_inventory stale_after es now node =
    subst (λ s. contains node (list_nodes s now) ≡ is_ok (node_inventory s now node))
      (run-Published es (new stale_after) (new-Published stale_after))
      (list_nodes-publish (run es (new stale_after)) now node)
