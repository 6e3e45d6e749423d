-- ===== src/Scale/NodeIndex/Tests.antt =====
-- Runs of pkg/scale/nodeindex.go, and its theorems at concrete inputs.
use sandbox_operator.Prelude.{
  ◌≤◌, ◌≡◌, refl, none, some, List, [], ◌∷◌, arith, list_beq, length, codes, text_eq,
}
use sandbox_operator.Scale.NodeIndex.{
  Op, looks, remembers, lookup, remember, step, run, new_node_index,
}
use sandbox_operator.Scale.NodeIndex.Bounds.{run-new_node_index-bounded}
use sandbox_operator.Scale.NodeIndex.History.{last_noted, lookup-run, lookup-run-remember}
use sandbox_operator.Prelude.Dict.{get, put}

abbrev busy : List Op
busy =
    remembers (codes "a") (codes "n1")
    ∷ remembers (codes "b") (codes "n2")
    ∷ remembers (codes "c") (codes "n3")
    ∷ looks (codes "a")
    ∷ []

evicted :
    (lookup (codes "b") (
      run
        (remembers (codes "d") (codes "n4") ∷ remembers (codes "e") (codes "n4") ∷ [])
        (run busy (new_node_index 2)))).1
    ≡ none
unfolding lookup run step remember new_node_index get put list_beq
evicted = refl

run-new_node_index-bounded_example :
    let x = run busy (new_node_index 2) in (length x.cur ≤ 2) × (length x.prev ≤ 2)
run-new_node_index-bounded_example = run-new_node_index-bounded 2 busy (omega arith)

lookup-run_example : last_noted (codes "a") busy none ≡ some (codes "n1")
unfolding lookup run step remember new_node_index get put list_beq
lookup-run_example = lookup-run 2 (codes "a") (codes "n1") busy refl

lookup-run-remember_example :
    (lookup
      (codes "a")
      (run (looks (codes "b") ∷ []) (remember (codes "a") (codes "n1") (new_node_index 2)))).1
    ≡ last_noted (codes "a") (looks (codes "b") ∷ []) (some (codes "n1"))
unfolding new_node_index
lookup-run-remember_example =
    lookup-run-remember (codes "a") (codes "n1") (looks (codes "b") ∷ []) (new_node_index 2) refl
      refl (omega arith)
