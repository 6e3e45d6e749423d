-- ===== src/Scale/Claim/Routing.antt =====
-- pkg/scale/sandboxstore_impl.go: which nodes a claim asks, and which one it reports.
use sandbox_operator.Prelude.{
  ℕ, zero, suc, ◌%◌, ◌≡◌, refl, inl, inr, Bool, true, false, not, ◌&&◌, List, [], ◌∷◌, arith,
  Bool-cases, Option-cases, ◌==◌, beq_refl, length, any, keep, All, Text, is_empty, text_eq, nat_eq,
}
use sandbox_operator.Errors.{Result, ok, err}
use sandbox_operator.Scale.Model.{NodePools}
use sandbox_operator.Scale.Claim.{
  ClaimSpec, ClaimResult, Call, call, Nodes, Attempt, skip_target, take_answer, claim_redirected,
  redirect_of, attempt, dropped, end_round, Outcome, delivered, claim_loop,
}
use sandbox_operator.Scale.Warm.{WarmCandidate, nth, pick_power_of_two, node_for_address}

-- Some node of the inventory goes by this name and advertises this address.
abbrev pub advertises : List NodePools → Text → Text → Bool
advertises nodes node addr = any (λ n. n.node == node && n.address == addr) nodes

abbrev pub knows : List NodePools → Text → Bool
knows nodes addr = any (λ n. n.address == addr) nodes

advertises→knows :
    (nodes : List NodePools) (node addr : Text)
    → advertises nodes node addr ≡ true
    → knows nodes addr ≡ true
advertises→knows [] node addr h = h
advertises→knows (n ∷ ns) node addr h = ground (arith, advertises→knows ns node addr)

-- What the head of the inventory adds to `advertises`.
advertises-cons :
    (n : NodePools) (ns : List NodePools) (node addr : Text)
    → advertises ns node addr ≡ true
    → advertises (n ∷ ns) node addr ≡ true
advertises-cons n ns node addr h = ground arith

advertises-head :
    (n : NodePools) (ns : List NodePools) (addr : Text)
    → (n.address == addr) ≡ true
    → advertises (n ∷ ns) n.node addr ≡ true
advertises-head n ns addr h = rw (h, beq_refl n.node)

pub node_for_address-advertises :
    (nodes : List NodePools) (addr : Text)
    → is_empty (node_for_address nodes addr) ≡ false
    → advertises nodes (node_for_address nodes addr) addr ≡ true
unfolding node_for_address
node_for_address-advertises [] addr h = cc
node_for_address-advertises (n ∷ ns) addr h = elim (Bool-cases (n.address == addr)) [
  | inl e ↦ ground (arith, advertises-head n ns addr e)
  | inr e ↦ ground (
    arith,
    node_for_address-advertises ns addr,
    advertises-cons n ns (node_for_address ns addr) addr,
  )
]

abbrev pub AllAdvertised : List NodePools → List WarmCandidate → Type 0
AllAdvertised nodes = All (λ c. advertises nodes c.node c.addr ≡ true)

keep-AllAdvertised :
    (nodes : List NodePools) (p : WarmCandidate → Bool) (cs : List WarmCandidate)
    → AllAdvertised nodes cs
    → AllAdvertised nodes (keep p cs)
keep-AllAdvertised nodes p [] h = tt
keep-AllAdvertised nodes p (c ∷ cs) h = ground (arith, keep-AllAdvertised nodes p cs)

nth-advertised :
    (nodes : List NodePools) (c : WarmCandidate) (cs : List WarmCandidate) (i : ℕ)
    → AllAdvertised nodes (c ∷ cs)
    → advertises nodes (nth c cs i).node (nth c cs i).addr ≡ true
nth-advertised nodes c cs zero h = h.0
nth-advertised nodes c [] (suc i) h = h.0
nth-advertised nodes c (d ∷ cs) (suc i) h = nth-advertised nodes d cs i h.1

pick-advertised :
    (nodes : List NodePools) (roll : ℕ × ℕ) (c : WarmCandidate) (cs : List WarmCandidate)
    → AllAdvertised nodes (c ∷ cs)
    → let b = pick_power_of_two roll c cs in advertises nodes b.node b.addr ≡ true
unfolding pick_power_of_two
pick-advertised nodes (x, y) c cs h =
    let n = length (c ∷ cs) in
    ground (arith, nth-advertised nodes c cs (x % n) h, nth-advertised nodes c cs (y % n) h)

-- The newest call is the one that delivered.
abbrev pub Answered : List NodePools → List Call → Text → ClaimResult → Type 0
Answered nodes [] node r = ⊥
Answered nodes (c ∷ cs) node r = (c.answer ≡ ok r) × (advertises nodes node c.addr ≡ true)

abbrev pub AllKnown : List NodePools → List Call → Type 0
AllKnown nodes = All (λ c. knows nodes c.addr ≡ true)

abbrev AnswerRouted : List NodePools → List Call → Text → Result ClaimResult → Type 0
AnswerRouted nodes calls node (ok r) = Answered nodes calls node r
AnswerRouted nodes calls node (err e) = Unit

abbrev Routed : List NodePools → Attempt → Type 0
Routed nodes a = AllKnown nodes a.calls × AnswerRouted nodes a.calls a.node a.answer

take_answer-Routed :
    (nodes : List NodePools) (done next : Attempt)
    → Routed nodes done
    → Routed nodes next
    → Routed nodes (take_answer done next)
unfolding take_answer
take_answer-Routed nodes done next h k = ground arith

skip_target-Routed :
    (nodes : List NodePools) (b : Bool) (skipped asked : Attempt)
    → (b ≡ false → Routed nodes asked)
    → (b ≡ true → Routed nodes skipped)
    → Routed nodes (skip_target b skipped asked)
skip_target-Routed nodes true skipped asked h k = k refl
skip_target-Routed nodes false skipped asked h k = h refl

module _ (ask : Nodes) (nodes : List NodePools) where
  called-Routed :
      (node addr : Text) (spec : ClaimSpec) (calls : List Call)
      → AllKnown nodes calls
      → advertises nodes node addr ≡ true
      → Routed nodes
          (record { calls = call ask calls addr spec; node = node; answer = ask calls addr spec })
  called-Routed node addr spec calls h k = ground (arith, advertises→knows nodes node addr k)

  claim_redirected-Routed :
      (from : Text) (redirect : List Text) (spec : ClaimSpec) (targets : List Text)
      (calls : List Call)
      → AllKnown nodes calls
      → Routed nodes (claim_redirected ask nodes from redirect spec targets calls)
  unfolding claim_redirected
  claim_redirected-Routed from redirect spec [] calls h = (h, tt)
  claim_redirected-Routed from redirect spec (target ∷ targets) calls h =
      let spec' = record spec { no_redirect = true } in
      let node = node_for_address nodes target in
      skip_target-Routed nodes (is_empty node) _ _
        (λ e.
          take_answer-Routed nodes _ _
            (called-Routed node target spec' calls h (node_for_address-advertises nodes target e))
            (claim_redirected-Routed from redirect spec targets (call ask calls target spec')
              (called-Routed node target spec' calls h
                (node_for_address-advertises nodes target e)).0))
        (λ _. claim_redirected-Routed from redirect spec targets calls h)

  attempt-Routed :
      (best : WarmCandidate) (spec : ClaimSpec) (calls : List Call)
      → AllKnown nodes calls
      → advertises nodes best.node best.addr ≡ true
      → Routed nodes (attempt ask nodes best spec calls).0
  unfolding attempt
  attempt-Routed best spec calls h k =
      let done = called-Routed best.node best.addr spec calls h k in
      elim (Option-cases (redirect_of (ask calls best.addr spec))) [
        | inl e ↦ ground (arith, done)
        | inr (targets, e) ↦ ground (
          arith,
          claim_redirected-Routed best.node targets spec targets (call ask calls best.addr spec)
              done.0,
        )
      ]

  abbrev pub OutcomeRouted : List Call × Outcome → Type 0
  OutcomeRouted (calls, delivered node r) = AllKnown nodes calls × Answered nodes calls node r
  OutcomeRouted (calls, _) = AllKnown nodes calls

  end_round-Routed :
      (p : Bool) (a : Attempt) (next : List Call × Outcome)
      → Routed nodes a
      → OutcomeRouted next
      → OutcomeRouted (end_round p a next)
  unfolding end_round
  end_round-Routed p a next h k = ground arith

  pub claim_loop-Routed :
      (rolls : ℕ → ℕ × ℕ) (spec : ClaimSpec) (p : Bool) (fuel : ℕ) (cs : List WarmCandidate)
      (calls : List Call)
      → AllAdvertised nodes cs
      → AllKnown nodes calls
      → OutcomeRouted (claim_loop ask rolls nodes spec p fuel cs calls)
  unfolding claim_loop
  claim_loop-Routed rolls spec p fuel [] calls k h = h
  claim_loop-Routed rolls spec p zero (c ∷ cs) calls k h = h
  claim_loop-Routed rolls spec p (suc fuel) (c ∷ cs) calls k h =
      let best = pick_power_of_two (rolls fuel) c cs in
      let r = attempt ask nodes best spec calls in
      let left = keep (λ d. not (dropped best r.1 d)) (c ∷ cs) in
      let round = attempt-Routed best spec calls h (pick-advertised nodes (rolls fuel) c cs k) in
      end_round-Routed p r.0 _ round (
        claim_loop-Routed rolls spec p fuel left r.0.calls
          (keep-AllAdvertised nodes (λ d. not (dropped best r.1 d)) (c ∷ cs) k) round.0)
