-- ===== src/Scale/Lifecycle/Forked.antt =====
-- pkg/scale/sandboxstore_lifecycle.go: the children of a fork, and where the index finds them.
use sandbox_operator.Prelude.{
  suc, ◌+◌, ◌*◌, ◌≤◌, ◌≡◌, refl, sym, ap, ◌∙◌, inl, inr, false, some, List, [], ◌∷◌, ◌++◌, map,
  arith, Bool-cases, length, length-append, All, Text, codes, is_empty,
}
use sandbox_operator.Prelude.Int.{ℤ}
use sandbox_operator.Errors.{Result, ok, err}
use sandbox_operator.Scale.NodeIndex.{
  NodeIndex, Op, remembers, remember, lookup, step, run, name_key, claim_key,
}
use sandbox_operator.Scale.NodeIndex.History.{
  noted, last_noted, noted_same, lookup-run-remember, max_entries-remember, run-append,
}
use sandbox_operator.Scale.Claim.{Assignment}
use sandbox_operator.Scale.Lifecycle.{
  Formats, ForkSpec, Fleet, Store, Child, on_node, child_assignment, note_children, forked,
  below_one, fork,
}
use sandbox_operator.Scale.Lifecycle.Outcomes.{Routable, on_node-Routable}

-- What a fork notes: for each child its name and then its claim.
abbrev pub child_ops : Text → Text → List Child → List Op
child_ops namespace node [] = []
child_ops namespace node (c ∷ cs) =
    remembers (name_key namespace c.id) node
    ∷ (remembers (claim_key namespace c.id) node ∷ child_ops namespace node cs)

note_children-run :
    (namespace node : Text) (cs : List Child) (index : NodeIndex)
    → note_children namespace node cs index ≡ run (child_ops namespace node cs) index
unfolding note_children run step
note_children-run namespace node [] index = refl
note_children-run namespace node (c ∷ cs) index = note_children-run namespace node cs _

-- Every call of these remembers this node.
last_noted-children :
    (key namespace node : Text) (cs : List Child) (os : List Op)
    → last_noted key (child_ops namespace node cs ++ os) (some node) ≡ last_noted key os (some node)
unfolding last_noted noted
last_noted-children key namespace node [] os = refl
last_noted-children key namespace node (c ∷ cs) os =
    ground (arith, last_noted-children key namespace node cs os)

length-child_ops :
    (namespace node : Text) (cs : List Child) → length (child_ops namespace node cs) ≡ 2 * length cs
length-child_ops namespace node [] = refl
length-child_ops namespace node (c ∷ cs) = omega (arith, length-child_ops namespace node cs)

length-rest :
    (namespace node : Text) (cs : List Child) (os : List Op)
    → length (child_ops namespace node cs ++ os) ≡ 2 * length cs + length os
length-rest namespace node cs os =
    length-append (child_ops namespace node cs) os
    ∙ ap (λ n. n + length os) (length-child_ops namespace node cs)

-- A lookup of the child's name, and one of its id, answer the node or what was remembered later.
abbrev pub FoundChild : Text → Text → List Op → NodeIndex → Assignment → Type 0
FoundChild namespace node os x a =
    ((lookup (name_key namespace a.sandbox_name) x).1
      ≡ last_noted (name_key namespace a.sandbox_name) os (some node))
    × ((lookup (claim_key namespace a.sandbox_name) x).1
        ≡ last_noted (claim_key namespace a.sandbox_name) os (some node))

first-FoundChild :
    (namespace node : Text) (c : Child) (cs : List Child) (os : List Op) (x : NodeIndex)
    → is_empty node ≡ false
    → length os + 2 * suc (length cs) ≤ x.max_entries
    → FoundChild namespace node os
        (run (child_ops namespace node (c ∷ cs) ++ os) x)
        (child_assignment node c)
unfolding run step name_key claim_key
first-FoundChild namespace node c cs os x n fits =
    let name = name_key namespace c.id in
    let claimed = claim_key namespace c.id in
    let rest = child_ops namespace node cs ++ os in
    (
      lookup-run-remember name node (remembers claimed node ∷ rest) x refl n
            (omega (arith, length-rest namespace node cs os))
          ∙ noted_same name claimed node rest
          ∙ last_noted-children name namespace node cs os,
      lookup-run-remember claimed node rest (remember name node x) refl n
            (omega (arith, length-rest namespace node cs os, max_entries-remember name node x))
          ∙ last_noted-children claimed namespace node cs os,
    )

children-FoundChild :
    (namespace node : Text) (cs : List Child) (os : List Op) (x : NodeIndex)
    → is_empty node ≡ false
    → length os + 2 * length cs ≤ x.max_entries
    → All
        (FoundChild namespace node os (run (child_ops namespace node cs ++ os) x))
        (map (child_assignment node) cs)
unfolding run step
children-FoundChild namespace node [] os x n fits = tt
children-FoundChild namespace node (c ∷ cs) os x n fits =
    let y = remember (name_key namespace c.id) node x in
    (
      first-FoundChild namespace node c cs os x n fits,
      children-FoundChild namespace node cs os (remember (claim_key namespace c.id) node y) n (
          omega (
            arith,
            max_entries-remember (name_key namespace c.id) node x,
            max_entries-remember (claim_key namespace c.id) node y,
          )),
    )

-- The node of this name has an address, and it answered the fork with these children.
abbrev pub Given : Fleet → Store → Text → Text → Text → ℤ → ℤ → List Child → Type 0
Given fleet s namespace node id count ttl cs =
    (addr : Text) × Routable s node addr
    × (fleet.fork addr id
          (record { count = count; ttl_seconds = ttl; claim_ref_prefix = namespace ++ codes "/" })
        ≡ ok cs)

abbrev pub Forked :
    Fleet → Store → Text → Text → Text → ℤ → ℤ → List Op → NodeIndex × List Assignment → Type 0
Forked fleet s namespace node id count ttl os (index, made) =
    (cs : List Child) × Given fleet s namespace node id count ttl cs
    × (made ≡ map (child_assignment node) cs)
    × All (FoundChild namespace node os (run os index)) made

-- What the code asks the node for.
abbrev fork_spec : Text → ℤ → ℤ → ForkSpec
fork_spec namespace count ttl = record {
  count = count;
  ttl_seconds = ttl;
  claim_ref_prefix = namespace ++ codes "/";
}

fork-forked :
    (f : Formats) (fleet : Fleet) (s : Store) (index : NodeIndex) (namespace node id : Text)
    (count ttl : ℤ) (made : List Assignment)
    → (fork f fleet s index namespace node id count ttl).1 ≡ ok made
    → (below_one count ≡ false)
      × (fork f fleet s index namespace node id count ttl
          ≡ forked namespace node index (
              on_node f s node
                (codes "fork")
                id
                (λ addr. fleet.fork addr id (fork_spec namespace count ttl))))
unfolding fork
fork-forked f fleet s index namespace node id count ttl made h =
    elim (Bool-cases (below_one count)) [
      | inl low ↦ absurd (ground arith)
      | inr high ↦ (high, rw high)
    ]

forked-ok :
    (namespace node : Text) (index : NodeIndex) (r : Result (List Child)) (made : List Assignment)
    → (forked namespace node index r).1 ≡ ok made
    → (cs : List Child) × (r ≡ ok cs)
      × (made ≡ map (child_assignment node) cs)
      × ((forked namespace node index r).0 ≡ run (child_ops namespace node cs) index)
forked-ok namespace node index (err e) made h = absurd (ground arith)
forked-ok namespace node index (ok cs) made h =
    (cs, refl, cc, note_children-run namespace node cs index)

length-made : (node : Text) (cs : List Child) → length (map (child_assignment node) cs) ≡ length cs
length-made node [] = refl
length-made node (c ∷ cs) = ap suc (length-made node cs)

made-FoundChild :
    (namespace node : Text) (cs : List Child) (made : List Assignment) (os : List Op)
    (x y : NodeIndex)
    → is_empty node ≡ false
    → made ≡ map (child_assignment node) cs
    → y ≡ run (child_ops namespace node cs) x
    → length os + 2 * length made ≤ x.max_entries
    → All (FoundChild namespace node os (run os y)) made
made-FoundChild namespace node cs made os x y n same written fits =
    rw (same, written, ← run-append)
      (children-FoundChild namespace node cs os x n
        (omega (arith, ap (length {A = Assignment}) same, length-made node cs)))

-- A fork that succeeds was of at least one child, and it returned the children that the node of that
-- name answered, at the address that its inventory gives, with the namespace as the prefix of their
-- claim references. Each child is found by its name and by its id: after any later calls on the
-- index, when these and two for each child fit in one generation, a lookup of either key answers
-- the node, or what the last later `remember` of that key says.
pub fork-Found :
    (f : Formats) (fleet : Fleet) (s : Store) (index : NodeIndex) (namespace node id : Text)
    (count ttl : ℤ) (os : List Op) (made : List Assignment)
    → (fork f fleet s index namespace node id count ttl).1 ≡ ok made
    → length os + 2 * length made ≤ index.max_entries
    → (below_one count ≡ false)
      × Forked fleet s namespace node id count ttl os
          ((fork f fleet s index namespace node id count ttl).0, made)
fork-Found f fleet s index namespace node id count ttl os made h fits =
    let ask : Text → Result (List Child) =
      λ addr. fleet.fork addr id (fork_spec namespace count ttl) in
    let (enough, e) = fork-forked f fleet s index namespace node id count ttl made h in
    let (cs, answered, same, written) =
      forked-ok namespace node index (on_node f s node (codes "fork") id ask) made
        (sym (ap (λ r. r.1) e) ∙ h) in
    let (addr, routable, took) = on_node-Routable f s node (codes "fork") id ask cs answered in
    (
      enough,
      (
        cs,
        (addr, routable, took),
        same,
        made-FoundChild namespace node cs made os index _ routable.1 same
            (ap (λ r. r.0) e ∙ written) fits,
      ),
    )
