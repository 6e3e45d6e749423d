-- ===== src/Scale/Entry/Names.antt =====
-- pkg/scale/sandboxstore_impl.go: the names of sandboxes, in claims and in inventories.
use sandbox_operator.Prelude.{
  ◌≡◌, refl, ap, ◌∙◌, inl, inr, true, false, not, [], ◌∷◌, Bool-cases, list_beq, Text, codes,
  or_else, Lacks, cut-append,
}
use sandbox_operator.Scale.Model.{SandboxSummary}
use sandbox_operator.Scale.Claim.{namespaced_name}
use sandbox_operator.Scale.Lifecycle.{is_paused}
use sandbox_operator.Scale.Entry.{
  Codecs, split_namespaced_name, entry_from_summary, entry_to_sandbox, ready_status,
}

-- A name is read back from its namespaced form, where the namespace has no slash.
pub split_namespaced_name-namespaced_name :
    (namespace name : Text)
    → Lacks b'/' namespace
    → split_namespaced_name (namespaced_name namespace name) ≡ (namespace, name)
unfolding split_namespaced_name namespaced_name
split_namespaced_name-namespaced_name namespace name h = rw (cut-append b'/' namespace name h)

running-ready : ready_status (codes "Running") ≡ true
unfolding ready_status list_beq
running-ready = refl

hibernated-ready : ready_status (codes "Hibernated") ≡ false
unfolding ready_status list_beq
hibernated-ready = refl

ready-from_summary :
    (c : Codecs) (row : SandboxSummary)
    → ready_status (entry_from_summary c row).phase ≡ not (is_paused row)
unfolding entry_from_summary
ready-from_summary c row = elim (Bool-cases (is_paused row)) [
  | inl e ↦ rw e hibernated-ready
  | inr e ↦ rw e running-ready
]

or_else-claim_ref :
    (namespace name other : Text)
    → or_else (namespaced_name namespace name) other ≡ namespaced_name namespace name
unfolding namespaced_name
or_else-claim_ref [] name other = refl
or_else-claim_ref (c ∷ namespace) name other = refl

-- The row that a node keeps for a claim made under a namespace without a slash shows as a Sandbox
-- of the claim's namespace and name on that node, which is ready exactly when it is not paused.
pub entry_to_sandbox-claimed :
    (c : Codecs) (node namespace name : Text) (row : SandboxSummary)
    → Lacks b'/' namespace
    → row.claim_ref ≡ namespaced_name namespace name
    → let sb = entry_to_sandbox c node (entry_from_summary c row) in
      (sb.namespace ≡ namespace)
      × (sb.name ≡ name)
      × (sb.node_name ≡ node)
      × (sb.ready ≡ not (is_paused row))
unfolding entry_to_sandbox entry_from_summary
entry_to_sandbox-claimed c node namespace name row h e =
    let ref : or_else row.claim_ref row.id ≡ namespaced_name namespace name =
      ap (λ r. or_else r row.id) e ∙ or_else-claim_ref namespace name row.id in
    let split =
      ap split_namespaced_name ref ∙ split_namespaced_name-namespaced_name namespace name h in
    (ap (λ x. x.0) split, ap (λ x. x.1) split, refl, ready-from_summary c row)
