-- ===== src/Scale/Claim/Tests.antt =====
-- Runs of pkg/scale/sandboxstore_impl.go's claim, and its theorems at concrete inputs.
use sandbox_operator.Prelude.{
  ℕ, ◌≡◌, ◌≢◌, refl, true, false, ◌&&◌, some, List, [], ◌∷◌, arith, if◌then◌else◌, ◌==◌, list_beq,
  Text, codes, text_eq, nat_eq,
}
use sandbox_operator.Prelude.Int.{pos}
use sandbox_operator.Errors.{http_error, redirect_error, ok, err, as_redirect_error}
use sandbox_operator.Scale.Model.{PoolKey, PoolCapacity, NodePools}
use sandbox_operator.Scale.NodeIndex.{NodeIndex, looks, lookup, run, name_key, claim_key}
use sandbox_operator.Scale.NodeIndex.History.{last_noted}
use sandbox_operator.Scale.Claim.{
  ClaimResult, ClaimOptions, Assignment, Nodes, claim_spec, out_of_fuel, claim_loop, claim,
}
use sandbox_operator.Scale.Warm.{is_nil, warm_candidates, candidates}
use sandbox_operator.Scale.Claim.Safety.{OlderRefused, claim-OlderRefused}
use sandbox_operator.Scale.Claim.Candidates.{
  has_warm, has_template, listed, names, candidates-listed,
}
use sandbox_operator.Scale.Claim.Routing.{AllKnown}
use sandbox_operator.Scale.Claim.Assigned.{Assigned, claim-Assigned}
use sandbox_operator.Scale.Claim.Termination.{claim_loop-ends}
use sandbox_operator.Scale.Claim.Recorded.{claim-Found}

abbrev base : PoolKey
base = record { template = codes "base"; net = []; size = codes "small" }

abbrev pool_of : ℕ → PoolCapacity
pool_of n = record { template = codes "base"; net = codes "none"; size = []; warm = n; target = 4 }

abbrev fleet : List NodePools
fleet =
    record { node = codes "n1"; address = codes "a1"; pools = pool_of 3 ∷ []; templates = [] }
    ∷ record { node = codes "n2"; address = codes "a2"; pools = pool_of 1 ∷ []; templates = [] }
    ∷ record { node = codes "n3"; address = codes "a3"; pools = pool_of 0 ∷ []; templates = [] }
    ∷ []

abbrev options : ClaimOptions
options = record {
  ttl_seconds = pos 60;
  metadata = [];
  on_expire = [];
  no_egress = false;
  promoted = true;
}

abbrev sandbox : Text → ClaimResult
sandbox addr = record {
  id = codes "sb_1";
  token = codes "t";
  deadline = 9;
  owner_addr = addr;
  net_route = [];
}

-- The first node redirects to the third and to one that is unknown; the third delivers.
abbrev answers : Nodes
answers calls addr spec =
    if addr == codes "a1"
    then err (redirect_error (codes "a9" ∷ codes "a3" ∷ []))
    else if addr == codes "a2"
    then err (http_error 503 [])
    else ok (sandbox addr)

abbrev rolls : ℕ → ℕ × ℕ
rolls n = (0, 1)

abbrev index : NodeIndex
index = record { max_entries = 4; cur = []; prev = [] }

claim-OlderRefused_example :
    OlderRefused
      (candidates fleet base true).1
      (claim answers rolls true (ok fleet) index (codes "ns") (codes "x") base options).0
claim-OlderRefused_example =
    claim-OlderRefused answers rolls true fleet index (codes "ns") (codes "x") base options

claim-Assigned_example :
    let r = claim answers rolls true (ok fleet) index (codes "ns") (codes "x") base options in
    AllKnown fleet r.0 × Assigned fleet r.0 r.2
claim-Assigned_example =
    claim-Assigned answers rolls true fleet index (codes "ns") (codes "x") base options

abbrev granted : Assignment
granted = record {
  sandbox_name = codes "sb_1";
  node = codes "n3";
  address = codes "a3";
  token = codes "t";
  deadline = 9;
  net_route = [];
}

granted-ok :
    (claim answers rolls true (ok fleet) index (codes "ns") (codes "x") base options).2 ≡ ok granted
unfolding claim list_beq as_redirect_error
granted-ok = refl

claim-Found_example :
    let r = claim answers rolls true (ok fleet) index (codes "ns") (codes "x") base options in
    let os = looks (codes "k") ∷ [] in
    ((lookup (name_key (codes "ns") (codes "x")) (run os r.1)).1
      ≡ last_noted (name_key (codes "ns") (codes "x")) os (some (codes "n3")))
    × ((lookup (claim_key (codes "ns") (codes "sb_1")) (run os r.1)).1
        ≡ last_noted (claim_key (codes "ns") (codes "sb_1")) os (some (codes "n3")))
claim-Found_example =
    claim-Found answers rolls fleet index (codes "ns") (codes "x") base options
      (looks (codes "k") ∷ []) granted (refl, (refl, (refl, tt))) (omega arith) granted-ok

claim_loop-ends_example :
    let cs = (candidates fleet base true).0 in
    let spec = claim_spec (codes "ns") (codes "x") base options false in
    (claim_loop answers rolls fleet spec false 2 cs []).1 ≢ out_of_fuel
unfolding candidates warm_candidates list_beq
claim_loop-ends_example =
    claim_loop-ends answers rolls fleet (claim_spec (codes "ns") (codes "x") base options false)
      false 2 (candidates fleet base true).0 [] (omega arith)

candidates-listed_example :
    let r = candidates fleet base true in
    (names (codes "n2") (codes "a2") r.0
      ≡ listed (if r.1 then has_template base else has_warm base) (codes "n2") (codes "a2") fleet)
    × (r.1 ≡ (is_nil (warm_candidates fleet base) && true))
candidates-listed_example = candidates-listed (codes "n2") (codes "a2") fleet base true
