-- ===== src/Scale/Claim.antt =====
-- pkg/scale/sandboxstore_impl.go: a claim of a warm sandbox, over the nodes that advertise one.
-- A node's answer is any function of the calls made before, newest first, and of the call's address
-- and spec; the random draws are any function of the round. Log lines are left out.
pub mod Candidates
pub mod Safety
pub mod Routing
pub mod Assigned
pub mod Termination
pub mod Recorded
mod Tests
use sandbox_operator.Prelude.{
  ℕ, zero, suc, Bool, true, false, not, ◌&&◌, ◌||◌, Option, none, some, List, [], ◌∷◌, ◌++◌, leb,
  nat_beq, if◌then◌else◌, ◌==◌, length, any, keep, Text, codes, is_empty, text_eq, nat_eq,
}
use sandbox_operator.Scale.Warm.{
  WarmCandidate, pool_capacity_matches, pool_candidates, warm_candidates, capacity_of,
  template_candidates, nth, pick_power_of_two, node_for_address, is_nil, candidates,
}
use sandbox_operator.Prelude.Dict.{Dict}
use sandbox_operator.Prelude.Int.{ℤ}
use sandbox_operator.Errors.{
  Error, plain, sentinel, wrapped, redirect_error, err_node_at_capacity, err_no_warm_capacity,
  Result, ok, err, is, as_http_error, as_redirect_error, as_op_error,
}
use sandbox_operator.Scale.Model.{PoolKey, PoolCapacity, PromotedTemplate, NodePools}
use sandbox_operator.Scale.NodeIndex.{NodeIndex, remember, name_key, claim_key}

-- `sandboxd.ClaimSpec`
pub record ClaimSpec : Type 0 where
  pub template : Text
  pub net : Text
  pub size : Text
  pub ttl_seconds : ℤ
  pub claim_ref : Text
  pub no_redirect : Bool
  pub metadata : Dict Text Text
  pub on_expire : Text
  pub require_promoted : Bool
  pub egress : Option Bool

-- `sandboxd.ClaimResult`
pub record ClaimResult : Type 0 where
  pub id : Text
  pub token : Text
  pub deadline : ℕ
  pub owner_addr : Text
  pub net_route : Text

pub record ClaimOptions : Type 0 where
  pub ttl_seconds : ℤ
  pub metadata : Dict Text Text
  pub on_expire : Text
  pub no_egress : Bool
  pub promoted : Bool

pub record Assignment : Type 0 where
  pub sandbox_name : Text
  pub node : Text
  pub address : Text
  pub token : Text
  pub deadline : ℕ
  pub net_route : Text

-- One `SandboxdClient.Claim` and its answer.
pub record Call : Type 0 where
  pub addr : Text
  pub spec : ClaimSpec
  pub answer : Result ClaimResult

abbrev pub Nodes : Type 0
Nodes = List Call → Text → ClaimSpec → Result ClaimResult

abbrev is_dial : Option Text → Bool
is_dial none = false
is_dial (some op) = op == codes "dial"

abbrev status_at_least : ℕ → Option (ℕ × Text) → Bool
status_at_least n none = false
status_at_least n (some (code, m)) = leb n code

-- `claimUndelivered`
unfoldable pub claim_undelivered : Error → Bool
claim_undelivered e =
    is e err_node_at_capacity || (is_dial (as_op_error e) || status_at_least 500 (as_http_error e))

abbrev status_is : ℕ → Option (ℕ × Text) → Bool
status_is n none = false
status_is n (some (code, m)) = nat_beq code n

-- `templateGone`
unfoldable pub template_gone : Error → Bool
template_gone e = status_is 404 (as_http_error e)

-- What a round of the claim loop ends with: the node and its answer.
pub record Attempt : Type 0 where
  pub calls : List Call
  pub node : Text
  pub answer : Result ClaimResult

abbrev pub call : Nodes → List Call → Text → ClaimSpec → List Call
call ask calls addr spec = record { addr = addr; spec = spec; answer = ask calls addr spec } ∷ calls

-- A redirect target that delivered nothing is passed over; any other answer is returned.
unfoldable pub take_answer : Attempt → Attempt → Attempt
unfolding claim_undelivered
take_answer done next = elim done.answer [
  | ok r ↦ done
  | err e ↦ if claim_undelivered e then next else done
]

abbrev pub skip_target : Bool → Attempt → Attempt → Attempt
skip_target true skipped asked = skipped
skip_target false skipped asked = asked

-- `claimRedirected`, at the targets left. A target that no inventory names is not asked.
unfoldable pub claim_redirected :
    Nodes → List NodePools → Text → List Text → ClaimSpec → List Text → List Call → Attempt
unfolding node_for_address take_answer
claim_redirected ask nodes from redirect spec [] calls = record {
  calls = calls;
  node = from;
  answer = err (redirect_error redirect);
}
claim_redirected ask nodes from redirect spec (target ∷ targets) calls =
    let node = node_for_address nodes target in
    let spec' = record spec { no_redirect = true } in
    let calls' = call ask calls target spec' in
    let done : Attempt = record { calls = calls'; node = node; answer = ask calls target spec' } in
    let skipped = claim_redirected ask nodes from redirect spec targets calls in
    let asked = take_answer done (claim_redirected ask nodes from redirect spec targets calls') in
    skip_target (is_empty node) skipped asked

abbrev pub redirect_of : Result ClaimResult → Option (List Text)
redirect_of (ok r) = none
redirect_of (err e) = as_redirect_error e

-- One round: the call of the picked node, and of the peers that it redirects to.
unfoldable pub attempt :
    Nodes → List NodePools → WarmCandidate → ClaimSpec → List Call → Attempt × Option (List Text)
unfolding claim_redirected
attempt ask nodes best spec calls =
    let res = ask calls best.addr spec in
    let calls' = call ask calls best.addr spec in
    elim (redirect_of res) [
      | none ↦ (record { calls = calls'; node = best.node; answer = res }, none)
      | some targets ↦
          (claim_redirected ask nodes best.node targets spec targets calls', some targets)
    ]

abbrev pub names_addr : Option (List Text) → Text → Bool
names_addr none addr = false
names_addr (some targets) addr = any (λ t. t == addr) targets

-- The predicate of `slices.DeleteFunc`.
abbrev pub dropped : WarmCandidate → Option (List Text) → WarmCandidate → Bool
dropped best redirect c = c.node == best.node || names_addr redirect c.addr

pub data Outcome : Type 0 where
  delivered : Text → ClaimResult → Outcome
  failed : Error → Outcome
  out_of_fuel : Outcome

-- What `Claim` does with a round's answer: `next` is the rest of the loop.
unfoldable pub end_round : Bool → Attempt → List Call × Outcome → List Call × Outcome
unfolding claim_undelivered template_gone
end_round promoted a next = elim a.answer [
  | ok r ↦ (a.calls, delivered a.node r)
  | err e ↦
      if claim_undelivered e || (promoted && template_gone e)
      then next
      else (a.calls, failed (wrapped (codes "claim on node " ++ a.node) e))
]

-- The loop of `Claim`. Each round drops a candidate, so their number is fuel enough.
unfoldable pub claim_loop :
    Nodes
    → (ℕ → ℕ × ℕ)
    → List NodePools
    → ClaimSpec
    → Bool
    → ℕ
    → List WarmCandidate
    → List Call
    → List Call × Outcome
unfolding attempt pick_power_of_two end_round
claim_loop ask rolls nodes spec promoted fuel [] calls =
    (calls, failed (wrapped (codes "no warm node delivered") (sentinel err_no_warm_capacity)))
claim_loop ask rolls nodes spec promoted zero (c ∷ cs) calls = (calls, out_of_fuel)
claim_loop ask rolls nodes spec promoted (suc fuel) (c ∷ cs) calls =
    let best = pick_power_of_two (rolls fuel) c cs in
    let r = attempt ask nodes best spec calls in
    let left = keep (λ d. not (dropped best r.1 d)) (c ∷ cs) in
    end_round promoted r.0 (claim_loop ask rolls nodes spec promoted fuel left r.0.calls)

abbrev pub conclude :
    Text → Text → NodeIndex → List Call × Outcome → List Call × NodeIndex × Result Assignment
conclude namespace name index (calls, delivered node r) = (
  calls,
  remember (claim_key namespace r.id) node (remember (name_key namespace name) node index),
  ok (record {
    sandbox_name = r.id;
    node = node;
    address = r.owner_addr;
    token = r.token;
    deadline = r.deadline;
    net_route = r.net_route;
  }),
)
conclude namespace name index (calls, failed e) = (calls, index, err e)
conclude namespace name index (calls, out_of_fuel) =
    (calls, index, err (plain (codes "out of fuel")))

-- `namespacedName`
unfoldable pub namespaced_name : Text → Text → Text
namespaced_name namespace name = namespace ++ (b'/' ∷ name)

unfoldable pub claim_spec : Text → Text → PoolKey → ClaimOptions → Bool → ClaimSpec
unfolding namespaced_name
claim_spec namespace name pool opts promoted = record {
  template = pool.template;
  net = pool.net;
  size = pool.size;
  ttl_seconds = opts.ttl_seconds;
  claim_ref = namespaced_name namespace name;
  no_redirect = false;
  metadata = opts.metadata;
  on_expire = opts.on_expire;
  require_promoted = promoted;
  egress = if opts.no_egress then some false else none;
}

-- `Claim`: the calls made, the index and the assignment. `configured` is whether there is a client
-- factory, and `capacities` what the inventory source answers.
unfoldable pub claim :
    Nodes
    → (ℕ → ℕ × ℕ)
    → Bool
    → Result (List NodePools)
    → NodeIndex
    → Text
    → Text
    → PoolKey
    → ClaimOptions
    → List Call × NodeIndex × Result Assignment
unfolding claim_loop candidates claim_spec
claim ask rolls false capacities index namespace name pool opts =
    ([], index, err (plain (codes "scale: claim routing not configured (call WithClaimRouting)")))
claim ask rolls true (err e) index namespace name pool opts =
    ([], index, err (wrapped (codes "scale: enumerate node capacity") e))
claim ask rolls true (ok nodes) index namespace name pool opts =
    let (cs, promoted) = candidates nodes pool opts.promoted in
    let spec = claim_spec namespace name pool opts promoted in
    if is_nil cs
    then (
      [],
      index,
      err (wrapped (codes "no node advertises warm capacity") (sentinel err_no_warm_capacity)),
    )
    else conclude namespace name index (claim_loop ask rolls nodes spec promoted (length cs) cs [])
