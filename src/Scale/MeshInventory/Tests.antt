-- ===== src/Scale/MeshInventory/Tests.antt =====
-- The theorems on pkg/scale/meshinventory/source.go, at concrete inputs.
use sandbox_operator.Prelude.{
  ◌≡◌, refl, true, false, none, some, [], ◌∷◌, if◌then◌else◌, ◌==◌, list_beq, any, Text, codes,
  contains, text_eq, nat_eq,
}
use sandbox_operator.Prelude.Dict
use sandbox_operator.Errors.{plain}
use sandbox_operator.Scale.Model.{NodeInventory}
use sandbox_operator.Scale.KubeInventory.Reads.{is_ok}
use sandbox_operator.Scale.MeshInventory.{
  Members, Answer, answered, silent, new_member, seed_at, tick,
}
use sandbox_operator.Scale.MeshSnapshot.{publish, node_inventory}
use sandbox_operator.Scale.MeshInventory.Seeds.{tick-seed}
use sandbox_operator.Scale.MeshSnapshot.Fleet.{shows, publish-lists}

abbrev node : Text → NodeInventory
node name = record {
  node = name;
  entries = [];
  address = name;
  pools = [];
  templates = [];
  published_at = none;
}

-- A seed that is silent for long, and two members of one node, of which one answers at its address.
abbrev members : Members
members =
    (codes "s", record { seed = true; fails = 7; inv = none })
    ∷ (codes "x", new_member false)
    ∷ (codes "y", record { seed = false; fails = 1; inv = some (node (codes "y")) })
    ∷ []

abbrev ask : Text → Answer
ask addr =
    if addr == codes "s" then silent (plain []) else answered (node (codes "y")) (codes "z" ∷ [])

tick-seed_example : seed_at (codes "s") (tick ask 3 members) ≡ true
unfolding Dict.get list_beq
tick-seed_example = tick-seed ask 3 members (codes "s") refl

publish-lists_example :
    let s = publish 3 members in
    (contains (codes "y") s.nodes ≡ is_ok (node_inventory s (codes "y")))
    × (contains (codes "y") s.nodes ≡ any (λ e. shows 3 (codes "y") e.1) members)
publish-lists_example = publish-lists 3 members (codes "y")
