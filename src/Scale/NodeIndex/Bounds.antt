-- ===== src/Scale/NodeIndex/Bounds.antt =====
-- pkg/scale/nodeindex.go: the index holds at most two generations.
use sandbox_operator.Prelude.{
  ℕ, ◌≤◌, ◌<◌, ◌≡◌, refl, inl, inr, List, [], ◌∷◌, arith, Option-cases, length, Text, text_eq,
}
use sandbox_operator.Prelude.Dict
use sandbox_operator.Prelude.Dict.{length-put-le}
use sandbox_operator.Scale.NodeIndex.{
  NodeIndex, Op, looks, remembers, store_locked, lookup, remember, step, run, new_node_index,
}

pub record IsBounded (n : ℕ) (x : NodeIndex) : Type 0 where
  pub limit : x.max_entries ≡ n
  pub cur_fits : length x.cur ≤ n
  pub prev_fits : length x.prev ≤ n

store_locked-IsBounded :
    (n : ℕ) (key node : Text) (x : NodeIndex)
    → 0 < n
    → IsBounded n x
    → IsBounded n (store_locked key node x)
unfolding store_locked
store_locked-IsBounded n key node x h b =
    ground (arith, length-put-le key node x.cur, length-put-le key node [])

step-IsBounded : (n : ℕ) (o : Op) (x : NodeIndex) → 0 < n → IsBounded n x → IsBounded n (step o x)
unfolding step lookup remember
step-IsBounded n (looks key) x h b = elim (Option-cases (Dict.get key x.prev)) [
  | inr (node, f) ↦ ground (arith, store_locked-IsBounded n key node x h b)
  | inl f ↦ ground arith
]
step-IsBounded n (remembers key node) x h b =
    ground (arith, store_locked-IsBounded n key node x h b)

run-IsBounded :
    (n : ℕ) (os : List Op) (x : NodeIndex) → 0 < n → IsBounded n x → IsBounded n (run os x)
unfolding run
run-IsBounded n [] x h b = b
run-IsBounded n (o ∷ os) x h b = run-IsBounded n os (step o x) h (step-IsBounded n o x h b)

-- After any history of calls on a new index of a positive size, each of its two generations holds
-- at most that many keys.
pub run-new_node_index-bounded :
    (n : ℕ) (os : List Op)
    → 0 < n
    → let x = run os (new_node_index n) in (length x.cur ≤ n) × (length x.prev ≤ n)
unfolding new_node_index
run-new_node_index-bounded n os h =
    let b =
      run-IsBounded n os (new_node_index n) h
        (record { limit = refl; cur_fits = omega arith; prev_fits = omega arith }) in
    (b.cur_fits, b.prev_fits)
