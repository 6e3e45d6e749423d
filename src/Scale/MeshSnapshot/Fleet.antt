-- ===== src/Scale/MeshSnapshot/Fleet.antt =====
-- pkg/scale/meshinventory/source.go: which nodes a published snapshot has.
use sandbox_operator.Prelude.{
  ℕ, ◌≡◌, refl, sym, ap, ◌∙◌, Bool, true, false, not, ◌&&◌, ◌||◌, Option, none, some, [], ◌∷◌,
  arith, ltb, ◌==◌, text_beq_iff, any, Text, contains, keys, is_some, contains-sorted,
  contains-keys, text_eq, nat_eq,
}
use sandbox_operator.Prelude.Dict
use sandbox_operator.Prelude.Dict.{Dict, get-put, get-cons}
use sandbox_operator.Scale.Model.{NodeInventory}
use sandbox_operator.Scale.KubeInventory.Reads.{is_ok}
use sandbox_operator.Scale.MeshInventory.{Member, Members}
use sandbox_operator.Scale.MeshSnapshot.{
  Best, offer, better, best_of, inventories, found, publish, node_inventory,
}

abbrev shows_inventory : Text → Option NodeInventory → Bool
shows_inventory key none = false
shows_inventory key (some inv) = inv.node == key

-- The member has an inventory of the node, and has not failed too often since.
abbrev pub shows : ℕ → Text → Member → Bool
shows max_stale key m = not (ltb max_stale m.fails) && shows_inventory key m.inv

better-none :
    (fails : ℕ) (o : Option (ℕ × NodeInventory)) → better fails o ≡ false → is_some o ≡ true
better-none fails none h = cc
better-none fails (some b) h = refl

is_some-offer :
    (max_stale fails : ℕ) (key : Text) (inv : Option NodeInventory) (best : Best)
    → is_some (Dict.get key (offer max_stale fails inv best))
      ≡ (is_some (Dict.get key best) || (not (ltb max_stale fails) && shows_inventory key inv))
is_some-offer max_stale fails key none best = ground arith
is_some-offer max_stale fails key (some inv) best = ground (
  arith,
  get-put key inv.node (fails, inv) best,
  better-none fails (Dict.get inv.node best),
  text_beq_iff inv.node key,
  ap (λ i. Dict.get i best),
)

is_some-best_of :
    (max_stale : ℕ) (key : Text) (d : Members) (best : Best)
    → is_some (Dict.get key (best_of max_stale d best))
      ≡ (is_some (Dict.get key best) || any (λ e. shows max_stale key e.1) d)
unfolding best_of
is_some-best_of max_stale key [] best = ground arith
is_some-best_of max_stale key ((addr, m) ∷ d) best = ground (
  arith,
  is_some-best_of max_stale key d (offer max_stale m.fails m.inv best),
  is_some-offer max_stale m.fails key m.inv best,
)

is_some-inventories :
    (key : Text) (best : Best)
    → is_some (Dict.get key (inventories best)) ≡ is_some (Dict.get key best)
unfolding Dict.get
is_some-inventories key [] = refl
is_some-inventories key ((k, b) ∷ best) = ground (
  arith,
  is_some-inventories key best,
  get-cons key k b best,
  get-cons key k b.1 (inventories best),
)

is_ok-found : (node : Text) (o : Option NodeInventory) → is_ok (found node o) ≡ is_some o
is_ok-found node none = refl
is_ok-found node (some inv) = refl

-- A snapshot lists exactly the nodes whose inventory it can read, and those are the nodes of which
-- some member has an inventory and has failed no more than `max_stale` polls in a row since.
pub publish-lists :
    (max_stale : ℕ) (members : Members) (node : Text)
    → let s = publish max_stale members in
      (contains node s.nodes ≡ is_ok (node_inventory s node))
      × (contains node s.nodes ≡ any (λ e. shows max_stale node e.1) members)
unfolding publish node_inventory
publish-lists max_stale members node =
    let best = best_of max_stale members [] in
    let by_key = inventories best in
    let listed = contains-sorted node (keys by_key) ∙ contains-keys node by_key in
    (
      listed ∙ sym (is_ok-found node (Dict.get node by_key)),
      listed
          ∙ is_some-inventories node best
          ∙ is_some-best_of max_stale node members []
          ∙ ground (arith, Dict.get-nil {K = Text} {V = ℕ × NodeInventory} node),
    )
