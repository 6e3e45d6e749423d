-- ===== src/Scale/Claim/Termination.antt =====
-- pkg/scale/sandboxstore_impl.go: the loop of a claim ends, since each round drops a candidate.
use sandbox_operator.Prelude.{
  ℕ, zero, suc, ◌%◌, ◌≤◌, ◌<◌, ◌≡◌, subst, ◌≢◌, ◌⊎◌, inl, inr, Bool, false, not, Option, List, [],
  ◌∷◌, arith, beq_refl, length, keep, length-keep-le, Text,
}
use sandbox_operator.Scale.Model.{NodePools}
use sandbox_operator.Scale.Claim.{
  ClaimSpec, Call, Nodes, Attempt, attempt, dropped, end_round, Outcome, out_of_fuel, claim_loop,
}
use sandbox_operator.Scale.Warm.{WarmCandidate, nth, pick_power_of_two}

-- A list of candidates loses one when the test fails at one of them.
keep-shorter :
    (p : WarmCandidate → Bool) (c : WarmCandidate) (cs : List WarmCandidate) (i : ℕ)
    → p (nth c cs i) ≡ false
    → length (keep p (c ∷ cs)) < length (c ∷ cs)
keep-shorter p c cs zero h = ground (arith, length-keep-le p cs)
keep-shorter p c [] (suc i) h = ground arith
keep-shorter p c (d ∷ cs) (suc i) h = ground (arith, keep-shorter p d cs i h)

pick-nth :
    (roll : ℕ × ℕ) (c : WarmCandidate) (cs : List WarmCandidate)
    → (pick_power_of_two roll c cs ≡ nth c cs (roll.0 % length (c ∷ cs)))
      ⊎ (pick_power_of_two roll c cs ≡ nth c cs (roll.1 % length (c ∷ cs)))
unfolding pick_power_of_two
pick-nth (x, y) c cs = ground arith

picked-shorter :
    (redirect : Option (List Text)) (best c : WarmCandidate) (cs : List WarmCandidate) (i : ℕ)
    → best ≡ nth c cs i
    → length (keep (λ d. not (dropped best redirect d)) (c ∷ cs)) < length (c ∷ cs)
picked-shorter redirect best c cs i e =
    let p : WarmCandidate → Bool = λ d. not (dropped best redirect d) in
    keep-shorter p c cs i (subst (λ d. p d ≡ false) e (rw (beq_refl best.node)))

round-shorter :
    (redirect : Option (List Text)) (roll : ℕ × ℕ) (c : WarmCandidate) (cs : List WarmCandidate)
    → let best = pick_power_of_two roll c cs in
      length (keep (λ d. not (dropped best redirect d)) (c ∷ cs)) < length (c ∷ cs)
round-shorter redirect roll c cs =
    let n = length (c ∷ cs) in
    elim (pick-nth roll c cs) [
      | inl e ↦ picked-shorter redirect (pick_power_of_two roll c cs) c cs (roll.0 % n) e
      | inr e ↦ picked-shorter redirect (pick_power_of_two roll c cs) c cs (roll.1 % n) e
    ]

end_round-fuel :
    (p : Bool) (a : Attempt) (next : List Call × Outcome)
    → next.1 ≢ out_of_fuel
    → (end_round p a next).1 ≢ out_of_fuel
unfolding end_round
end_round-fuel p a next h = ground arith

-- The loop of a claim ends with a delivery or an error once its fuel is the number of candidates,
-- which is what a claim gives it, whatever the nodes answer and however the draws fall.
pub claim_loop-ends :
    (ask : Nodes) (rolls : ℕ → ℕ × ℕ) (nodes : List NodePools) (spec : ClaimSpec) (p : Bool)
    (fuel : ℕ) (cs : List WarmCandidate) (calls : List Call)
    → length cs ≤ fuel
    → (claim_loop ask rolls nodes spec p fuel cs calls).1 ≢ out_of_fuel
unfolding claim_loop
claim_loop-ends ask rolls nodes spec p fuel [] calls h = λ e. cc
claim_loop-ends ask rolls nodes spec p zero (c ∷ cs) calls h = omega arith
claim_loop-ends ask rolls nodes spec p (suc fuel) (c ∷ cs) calls h =
    let best = pick_power_of_two (rolls fuel) c cs in
    let r = attempt ask nodes best spec calls in
    let left = keep (λ d. not (dropped best r.1 d)) (c ∷ cs) in
    let shorter = round-shorter r.1 (rolls fuel) c cs in
    end_round-fuel p r.0 _
      (claim_loop-ends ask rolls nodes spec p fuel left r.0.calls (omega arith))
