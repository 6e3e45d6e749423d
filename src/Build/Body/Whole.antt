-- ===== src/Build/Body/Whole.antt =====
-- A whole build of pkg/e2bbuild/executor.go: the claim, what is done with it, and the release.
use sandbox_operator.Prelude.{
  ℕ, zero, suc, ◌+◌, ◌≡◌, refl, Bool, true, false, Option, none, some, List, [], ◌∷◌, Text, codes,
  is_empty, is_some,
}
use sandbox_operator.Errors.{Result}
use sandbox_operator.Scale.Model.{PoolKey}
use sandbox_operator.Scale.Claim.{Assignment}
use sandbox_operator.Prelude.Decimal.{itoa}
use sandbox_operator.Build.{Step, Command, with_line}
use sandbox_operator.Build.Host.{Host, Spec, fails, Act}
use sandbox_operator.Build.Lifetime.{
  initial, joined, exits_zero, waited, after_round, await_ready, steps_from, start_command,
  ready_command, prepare, published, promote, phase_finalize, not_ready,
}
use sandbox_operator.Build.Validated.{NoProblem}
use sandbox_operator.Build.Body.{
  commands, backgrounds, inits, waits, promotes, publishes, DoesAll, next, panicked, Fine,
  Fine-give, Fine-bind, Fine-reworded, Fine-call, Fine-if,
}
use sandbox_operator.Build.Body.Steps.{logf-Fine, step-Fine}

module _ {W : Type 0} (h : Host W) (id : Text) (spec : Spec) (a : Assignment) where
  waited-Fine :
      (done : Option Text) (code : Result ℕ) (again : Act W (Unit {0}))
      → Fine h id a again
      → Fine h id a (waited h id spec done code again)
  unfolding Fine panicked
  waited-Fine (some text) code again f s = (DoesAll.stop s, refl)
  waited-Fine none code again f s = f s

  after_round-Fine :
      (ready : Bool) (code : Result ℕ) (again : Act W (Unit {0}))
      → Fine h id a again
      → Fine h id a (after_round h id spec ready code again)
  unfolding Fine panicked
  after_round-Fine true code again f s = (DoesAll.stop s, refl)
  after_round-Fine false code again f s =
      let (ds, p) =
        waited-Fine (h.wait s.world).0 code again f (record s { world = (h.wait s.world).1 }) in
      (next (waits s) ds, p)

  await_ready-Fine : (left : ℕ) (c : Command) → Fine h id a (await_ready h id spec left a c)
  unfolding await_ready Fine panicked
  await_ready-Fine zero c s =
      let code = (h.command a c s.world).0.0 in
      let (ds, p) =
        after_round-Fine (exits_zero code) code
          (λ s'. (
            fails phase_finalize (not_ready h id spec)
                (joined (codes "context deadline exceeded") code),
            s',
          ))
          (λ s'. (DoesAll.stop s', refl)) (record s { world = (h.command a c s.world).1 }) in
      (next (commands s c) ds, p)
  await_ready-Fine (suc left) c s =
      let code = (h.command a c s.world).0.0 in
      let (ds, p) =
        after_round-Fine (exits_zero code) code (await_ready h id spec left a c)
          (await_ready-Fine left c) (record s { world = (h.command a c s.world).1 }) in
      (next (commands s c) ds, p)

  steps_from-Fine :
      (i : ℕ) (state : Command) (steps : List Step)
      → NoProblem (is_some h.archive) steps
      → Fine h id a (steps_from h id spec i a state steps)
  unfolding steps_from
  steps_from-Fine i state [] _ = Fine-give h id a state
  steps_from-Fine i state (st ∷ rest) (p, ps) =
      Fine-bind h id a _ _ (Fine-reworded h id a _ _ _ (step-Fine h id a (itoa (i + 1)) state st p))
        λ after. steps_from-Fine (i + 1) after rest ps

  start_command-Fine : (state : Command) → Fine h id a (start_command h id spec a state)
  start_command-Fine state =
      Fine-if h id a (is_empty spec.start_cmd) _ _ (λ _. Fine-give h id a tt)
        λ _.
          Fine-bind h id a _ _ (logf-Fine h id a _ _)
            λ _. Fine-call h id a _ _ _ λ s. backgrounds s (with_line state spec.start_cmd)

  ready_command-Fine :
      (left : ℕ) (state : Command) → Fine h id a (ready_command h id spec left a state)
  ready_command-Fine left state =
      Fine-if h id a (is_empty spec.ready_cmd) _ _ (λ _. Fine-give h id a tt)
        λ _. Fine-bind h id a _ _ (await_ready-Fine left _) λ _. logf-Fine h id a _ _

  pub prepare-Fine :
      (left : ℕ) → NoProblem (is_some h.archive) spec.steps → Fine h id a (prepare h id spec left a)
  unfolding prepare
  prepare-Fine left ps = Fine-bind h id a _ _ (steps_from-Fine 0 (initial a) spec.steps ps) λ state.
      Fine-bind h id a _ _ (Fine-call h id a _ _ _ λ s. inits s state)
        λ _. Fine-bind h id a _ _ (start_command-Fine state) λ _. ready_command-Fine left state

  published-Fine :
      (o : Option (Text → PoolKey → Text → W → Result (Unit {0}) × W)) (made : PoolKey × Text)
      → h.publish ≡ o
      → Fine h id a (published h id spec o a made)
  published-Fine none made e = Fine-give h id a tt
  published-Fine (some publish) (key, digest) e =
      Fine-call h id a _ _ _ λ s. publishes s publish key digest e

  pub promote-Fine : Fine h id a (promote h id spec a)
  unfolding promote
  promote-Fine =
      Fine-bind h id a _ _ (Fine-call h id a _ _ _ λ s. promotes s spec.template)
        λ made. Fine-bind h id a _ _ (logf-Fine h id a _ _) λ _. published-Fine h.publish made refl
