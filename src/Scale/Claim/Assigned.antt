-- ===== src/Scale/Claim/Assigned.antt =====
-- pkg/scale/sandboxstore_impl.go: the calls and the assignment of a whole claim.
use sandbox_operator.Prelude.{
  ℕ, ◌≡◌, sym, ◌∙◌, Bool, true, false, List, [], ◌∷◌, arith, if◌then◌else◌, beq_refl, length, Text,
}
use sandbox_operator.Errors.{Result, ok, err}
use sandbox_operator.Scale.Model.{PoolKey, NodePools}
use sandbox_operator.Scale.NodeIndex.{NodeIndex}
use sandbox_operator.Scale.Claim.{
  ClaimOptions, Assignment, Call, Nodes, Outcome, delivered, failed, out_of_fuel, claim_loop,
  conclude, claim_spec, claim,
}
use sandbox_operator.Scale.Warm.{WarmCandidate, candidates}
use sandbox_operator.Scale.Claim.Candidates.{
  has_warm, has_template, listed, names, candidates-listed,
}
use sandbox_operator.Scale.Claim.Routing.{
  advertises, AllAdvertised, AllKnown, OutcomeRouted, claim_loop-Routed,
}

listed-advertises :
    (p : NodePools → Bool) (node addr : Text) (nodes : List NodePools)
    → listed p node addr nodes ≡ true
    → advertises nodes node addr ≡ true
listed-advertises p node addr [] h = h
listed-advertises p node addr (n ∷ ns) h = ground (arith, listed-advertises p node addr ns)

names-AllAdvertised :
    (nodes : List NodePools) (cs : List WarmCandidate)
    → ((node addr : Text) → names node addr cs ≡ true → advertises nodes node addr ≡ true)
    → AllAdvertised nodes cs
names-AllAdvertised nodes [] h = tt
names-AllAdvertised nodes (c ∷ cs) h = (
  h c.node c.addr (rw (beq_refl c.node, beq_refl c.addr)),
  names-AllAdvertised nodes cs (λ node addr m. h node addr (ground arith)),
)

candidates-AllAdvertised :
    (nodes : List NodePools) (pool : PoolKey) (allowed : Bool)
    → AllAdvertised nodes (candidates nodes pool allowed).0
candidates-AllAdvertised nodes pool allowed =
    names-AllAdvertised nodes (candidates nodes pool allowed).0 (λ node addr h.
      listed-advertises
        (if (candidates nodes pool allowed).1 then has_template pool else has_warm pool) node addr
        nodes (sym (candidates-listed node addr nodes pool allowed).0 ∙ h))

-- The node and the token of an assignment are those of the newest call.
abbrev pub Assigned : List NodePools → List Call → Result Assignment → Type 0
Assigned nodes calls (err e) = Unit
Assigned nodes [] (ok a) = ⊥
Assigned nodes (c ∷ cs) (ok a) =
    (advertises nodes a.node c.addr ≡ true)
    × (c.answer
        ≡ ok (record {
          id = a.sandbox_name;
          token = a.token;
          deadline = a.deadline;
          owner_addr = a.address;
          net_route = a.net_route;
        }))

conclude-Assigned :
    (nodes : List NodePools) (namespace name : Text) (index : NodeIndex) (calls : List Call)
    (o : Outcome)
    → (ask : Nodes) → OutcomeRouted ask nodes (calls, o)
    → let r = conclude namespace name index (calls, o) in
      AllKnown nodes r.0 × Assigned nodes r.0 r.2
conclude-Assigned nodes namespace name index calls (failed e) ask h = (h, tt)
conclude-Assigned nodes namespace name index calls out_of_fuel ask h = (h, tt)
conclude-Assigned nodes namespace name index [] (delivered node r) ask h = elim h.1 [ ]
conclude-Assigned nodes namespace name index (c ∷ cs) (delivered node r) ask h =
    (h.0, (h.1.1, h.1.0))

-- Whatever the nodes answer, redirects included, a claim sends its request only to addresses that
-- the inventory advertises, and the assignment it returns is the answer of its last call, under the
-- name of a node that advertises the address called.
pub claim-Assigned :
    (ask : Nodes) (rolls : ℕ → ℕ × ℕ) (configured : Bool) (nodes : List NodePools)
    (index : NodeIndex) (namespace name : Text) (pool : PoolKey) (opts : ClaimOptions)
    → let r = claim ask rolls configured (ok nodes) index namespace name pool opts in
      AllKnown nodes r.0 × Assigned nodes r.0 r.2
unfolding claim
claim-Assigned ask rolls false nodes index namespace name pool opts = (tt, tt)
claim-Assigned ask rolls true nodes index namespace name pool opts =
    let c = candidates nodes pool opts.promoted in
    let spec = claim_spec namespace name pool opts c.1 in
    let r = claim_loop ask rolls nodes spec c.1 (length c.0) c.0 [] in
    ground (
      arith,
      conclude-Assigned nodes namespace name index r.0 r.1 ask (
          claim_loop-Routed ask nodes rolls spec c.1 (length c.0) c.0 []
            (candidates-AllAdvertised nodes pool opts.promoted) tt),
    )
