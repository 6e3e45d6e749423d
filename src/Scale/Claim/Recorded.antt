-- ===== src/Scale/Claim/Recorded.antt =====
-- pkg/scale/sandboxstore_impl.go: the index after a claim.
use sandbox_operator.Prelude.{
  ℕ, suc, ◌≤◌, ◌<◌, ◌≡◌, refl, ◌∙◌, subst, inl, inr, Bool, true, false, some, List, [], ◌∷◌, arith,
  Bool-cases, ◌==◌, text_beq_iff, length, All, Text, is_empty, text_eq,
}
use sandbox_operator.Errors.{Result, ok, err}
use sandbox_operator.Scale.Model.{PoolKey, NodePools}
use sandbox_operator.Scale.NodeIndex.{
  NodeIndex, Op, remembers, remember, lookup, step, run, name_key, claim_key,
}
use sandbox_operator.Scale.NodeIndex.History.{
  last_noted, noted_same, lookup-run-remember, max_entries-remember,
}
use sandbox_operator.Scale.Claim.{
  ClaimOptions, Assignment, Call, Nodes, Outcome, delivered, failed, out_of_fuel, claim_loop,
  conclude, claim_spec, claim,
}
use sandbox_operator.Scale.Claim.Routing.{advertises}
use sandbox_operator.Scale.Claim.Assigned.{Assigned, claim-Assigned}
use sandbox_operator.Scale.Warm.{candidates}

abbrev pub Noted : Text → Text → NodeIndex → NodeIndex → Result Assignment → Type 0
Noted namespace name before after (err e) = after ≡ before
Noted namespace name before after (ok a) =
    after
    ≡ run
        (remembers (name_key namespace name) a.node
          ∷ remembers (claim_key namespace a.sandbox_name) a.node
          ∷ [])
        before

conclude-Noted :
    (namespace name : Text) (index : NodeIndex) (r : List Call × Outcome)
    → let x = conclude namespace name index r in Noted namespace name index x.1 x.2
unfolding run step
conclude-Noted namespace name index (calls, delivered node r) = refl
conclude-Noted namespace name index (calls, failed e) = refl
conclude-Noted namespace name index (calls, out_of_fuel) = refl

claim-Noted :
    (ask : Nodes) (rolls : ℕ → ℕ × ℕ) (configured : Bool) (capacities : Result (List NodePools))
    (index : NodeIndex) (namespace name : Text) (pool : PoolKey) (opts : ClaimOptions)
    → let r = claim ask rolls configured capacities index namespace name pool opts in
      Noted namespace name index r.1 r.2
unfolding claim
claim-Noted ask rolls false capacities index namespace name pool opts = refl
claim-Noted ask rolls true (err e) index namespace name pool opts = refl
claim-Noted ask rolls true (ok nodes) index namespace name pool opts =
    let c = candidates nodes pool opts.promoted in
    let spec = claim_spec namespace name pool opts c.1 in
    ground (
      arith,
      conclude-Noted namespace name index (claim_loop ask rolls nodes spec c.1 (length c.0) c.0 []),
    )

named-advertises :
    (nodes : List NodePools) (node addr : Text)
    → All (λ n. is_empty n.node ≡ false) nodes
    → advertises nodes node addr ≡ true
    → is_empty node ≡ false
named-advertises [] node addr h e = absurd (ground arith)
named-advertises (n ∷ ns) node addr (h, hs) e = elim (Bool-cases (n.node == node)) [
  | inl same ↦ subst (λ m. is_empty m ≡ false) ((text_beq_iff n.node node).0 same) h
  | inr other ↦ named-advertises ns node addr hs (ground arith)
]

is_empty-Assigned :
    (nodes : List NodePools) (calls : List Call) (a : Assignment)
    → All (λ n. is_empty n.node ≡ false) nodes
    → Assigned nodes calls (ok a)
    → is_empty a.node ≡ false
is_empty-Assigned nodes [] a h k = elim k [ ]
is_empty-Assigned nodes (c ∷ cs) a h k = named-advertises nodes a.node c.addr h k.0

both-found :
    (name claimed node : Text) (os : List Op) (x : NodeIndex)
    → is_empty name ≡ false
    → is_empty claimed ≡ false
    → is_empty node ≡ false
    → suc (length os) ≤ x.max_entries
    → let y = run os (remember claimed node (remember name node x)) in
      ((lookup name y).1 ≡ last_noted name os (some node))
      × ((lookup claimed y).1 ≡ last_noted claimed os (some node))
unfolding run step
both-found name claimed node os x h k n fits = (
  lookup-run-remember name node (remembers claimed node ∷ os) x h n fits
      ∙ noted_same name claimed node os,
  lookup-run-remember claimed node os (remember name node x) k n
      (omega (arith, max_entries-remember name node x)),
)

-- The sandbox of a claim that succeeded is found by its name and by its id: after any later calls
-- on the index, fewer than one generation holds, a lookup of either key answers the assigned node,
-- or what the last later `remember` of that key says. Every node of the inventory has a name.
pub claim-Found :
    (ask : Nodes) (rolls : ℕ → ℕ × ℕ) (nodes : List NodePools) (index : NodeIndex)
    (namespace name : Text) (pool : PoolKey) (opts : ClaimOptions) (os : List Op) (a : Assignment)
    → All (λ n. is_empty n.node ≡ false) nodes
    → length os < index.max_entries
    → (claim ask rolls true (ok nodes) index namespace name pool opts).2 ≡ ok a
    → let x = run os (claim ask rolls true (ok nodes) index namespace name pool opts).1 in
      ((lookup (name_key namespace name) x).1
        ≡ last_noted (name_key namespace name) os (some a.node))
      × ((lookup (claim_key namespace a.sandbox_name) x).1
          ≡ last_noted (claim_key namespace a.sandbox_name) os (some a.node))
unfolding name_key claim_key run step
claim-Found ask rolls nodes index namespace name pool opts os a named fits got =
    let r = claim ask rolls true (ok nodes) index namespace name pool opts in
    let written =
      subst (Noted namespace name index r.1) got
        (claim-Noted ask rolls true (ok nodes) index namespace name pool opts) in
    let assigned =
      subst (Assigned nodes r.0) got
        (claim-Assigned ask rolls true nodes index namespace name pool opts).1 in
    rw written (
      both-found (name_key namespace name) (claim_key namespace a.sandbox_name) a.node os index refl
        refl (is_empty-Assigned nodes r.0 a named assigned) (omega arith))
