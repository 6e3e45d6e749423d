-- ===== src/Scale/Claim/Safety.antt =====
-- pkg/scale/sandboxstore_impl.go: a claim asks another node only after one that delivered nothing.
use sandbox_operator.Prelude.{
  ℕ, zero, suc, ◌≡◌, refl, inl, inr, Bool, true, false, not, ◌&&◌, ◌||◌, some, List, [], ◌∷◌, arith,
  Option-cases, length, keep, All, Text,
}
use sandbox_operator.Errors.{
  Error, wrapped, redirect_error, err_node_at_capacity, Result, ok, err, is, as_redirect_error,
}
use sandbox_operator.Scale.Model.{PoolKey, NodePools}
use sandbox_operator.Scale.NodeIndex.{NodeIndex}
use sandbox_operator.Scale.Claim.{
  ClaimSpec, ClaimResult, ClaimOptions, Call, call, Nodes, claim_undelivered, template_gone,
  Attempt, take_answer, claim_redirected, end_round, redirect_of, attempt, dropped, Outcome,
  delivered, failed, out_of_fuel, claim_loop, conclude, claim_spec, claim,
}
use sandbox_operator.Scale.Warm.{WarmCandidate, pick_power_of_two, candidates}

-- The node delivered nothing: it is at capacity or redirects, it was not reached, it failed, or it
-- lost the promoted template that was asked for.
abbrev pub refused : Bool → Result ClaimResult → Bool
refused promoted (ok r) = false
refused promoted (err e) = claim_undelivered e || (promoted && template_gone e)

abbrev pub AllRefused : Bool → List Call → Type 0
AllRefused promoted = All (λ c. refused promoted c.answer ≡ true)

-- Every call but the newest was refused.
abbrev pub OlderRefused : Bool → List Call → Type 0
OlderRefused promoted [] = Unit
OlderRefused promoted (c ∷ cs) = AllRefused promoted cs

AllRefused-older : (p : Bool) (cs : List Call) → AllRefused p cs → OlderRefused p cs
AllRefused-older p [] h = tt
AllRefused-older p (c ∷ cs) h = h.1

redirect-at_capacity :
    (e : Error) (targets : List Text)
    → as_redirect_error e ≡ some targets
    → is e err_node_at_capacity ≡ true
unfolding as_redirect_error is
redirect-at_capacity (redirect_error ts) targets h = refl
redirect-at_capacity (wrapped m e) targets h = redirect-at_capacity e targets h
redirect-at_capacity _ targets h = cc

redirect-refused :
    (p : Bool) (res : Result ClaimResult) (targets : List Text)
    → redirect_of res ≡ some targets
    → refused p res ≡ true
unfolding claim_undelivered
redirect-refused p (ok r) targets h = cc
redirect-refused p (err e) targets h = rw (redirect-at_capacity e targets h)

module _ (ask : Nodes) (nodes : List NodePools) (p : Bool) where
  abbrev Sound : Attempt → Type 0
  Sound a = OlderRefused p a.calls × (refused p a.answer ≡ true → AllRefused p a.calls)

  claim_redirected-Sound :
      (from : Text) (redirect : List Text) (spec : ClaimSpec) (targets : List Text)
      (calls : List Call)
      → AllRefused p calls
      → Sound (claim_redirected ask nodes from redirect spec targets calls)
  unfolding claim_redirected take_answer
  claim_redirected-Sound from redirect spec [] calls h = (AllRefused-older p calls h, λ _. h)
  claim_redirected-Sound from redirect spec (target ∷ targets) calls h =
      let spec' = record spec { no_redirect = true } in
      ground (
        arith,
        claim_redirected-Sound from redirect spec targets calls h,
        claim_redirected-Sound from redirect spec targets (call ask calls target spec'),
      )

  attempt-Sound :
      (best : WarmCandidate) (spec : ClaimSpec) (calls : List Call)
      → AllRefused p calls
      → Sound (attempt ask nodes best spec calls).0
  unfolding attempt
  attempt-Sound best spec calls h =
      let res = ask calls best.addr spec in
      elim (Option-cases (redirect_of res)) [
        | inl e ↦ ground arith
        | inr (targets, e) ↦ ground (
          arith,
          redirect-refused p res targets e,
          claim_redirected-Sound best.node targets spec targets (call ask calls best.addr spec),
        )
      ]

  -- The loop keeps it.
  claim_loop-OlderRefused :
      (rolls : ℕ → ℕ × ℕ) (spec : ClaimSpec) (fuel : ℕ) (cs : List WarmCandidate)
      (calls : List Call)
      → AllRefused p calls
      → OlderRefused p (claim_loop ask rolls nodes spec p fuel cs calls).0
  unfolding claim_loop end_round
  claim_loop-OlderRefused rolls spec fuel [] calls h = AllRefused-older p calls h
  claim_loop-OlderRefused rolls spec zero (c ∷ cs) calls h = AllRefused-older p calls h
  claim_loop-OlderRefused rolls spec (suc fuel) (c ∷ cs) calls h =
      let best = pick_power_of_two (rolls fuel) c cs in
      let r = attempt ask nodes best spec calls in
      let left = keep (λ d. not (dropped best r.1 d)) (c ∷ cs) in
      ground (
        arith,
        attempt-Sound best spec calls h,
        claim_loop-OlderRefused rolls spec fuel left r.0.calls,
      )

conclude-calls :
    (namespace name : Text) (index : NodeIndex) (r : List Call × Outcome)
    → (conclude namespace name index r).0 ≡ r.0
conclude-calls namespace name index (calls, delivered node r) = refl
conclude-calls namespace name index (calls, failed e) = refl
conclude-calls namespace name index (calls, out_of_fuel) = refl

-- Whatever the nodes answer and however the draws fall, every call of a claim but the last was
-- refused: its node is at capacity or redirected, was not reached, failed with a status of at least
-- 500, or lost the promoted template. So after an answer that may have delivered a sandbox no other
-- node is asked.
pub claim-OlderRefused :
    (ask : Nodes) (rolls : ℕ → ℕ × ℕ) (configured : Bool) (nodes : List NodePools)
    (index : NodeIndex) (namespace name : Text) (pool : PoolKey) (opts : ClaimOptions)
    → OlderRefused
        (candidates nodes pool opts.promoted).1
        (claim ask rolls configured (ok nodes) index namespace name pool opts).0
unfolding claim
claim-OlderRefused ask rolls false nodes index namespace name pool opts = tt
claim-OlderRefused ask rolls true nodes index namespace name pool opts =
    let c = candidates nodes pool opts.promoted in
    let spec = claim_spec namespace name pool opts c.1 in
    ground (
      arith,
      claim_loop-OlderRefused ask nodes c.1 rolls spec (length c.0) c.0 [] tt,
      conclude-calls namespace name index (claim_loop ask rolls nodes spec c.1 (length c.0) c.0 []),
    )
