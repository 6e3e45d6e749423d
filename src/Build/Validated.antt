-- ===== src/Build/Validated.antt =====
-- What the check of a build's steps means for the steps, for pkg/e2bbuild/executor.go.
use sandbox_operator.Prelude.{
  ℕ, ◌+◌, ◌≡◌, refl, ◌↔◌, Bool, true, false, not, ◌||◌, List, [], ◌∷◌, arith, if◌then◌else◌, ◌==◌,
  All, Text, is_empty, text_eq, nat_eq,
}
use sandbox_operator.Build.{
  Step, step_run, step_env, step_workdir, step_user, step_copy, no_argument, no_pair, problem,
  invalid_from, invalid,
}

abbrev pub NoProblem : Bool → List Step → Type 0
NoProblem can_copy = All λ s. problem can_copy s ≡ []

invalid_from-NoProblem :
    (can_copy : Bool) (i : ℕ) (steps : List Step)
    → (invalid_from can_copy i steps ≡ []) ↔ NoProblem can_copy steps
unfolding invalid_from
invalid_from-NoProblem can_copy i [] = ground arith
invalid_from-NoProblem can_copy i (s ∷ steps) =
    ground (arith, invalid_from-NoProblem can_copy (i + 1) steps)

-- `Invalid` accepts a list of steps exactly when no step of it has a problem.
pub invalid_iff :
    (steps : List Step) (can_copy : Bool) → (invalid steps can_copy ≡ []) ↔ NoProblem can_copy steps
unfolding invalid
invalid_iff steps can_copy = invalid_from-NoProblem can_copy 0 steps

chosen : (b : Bool) (x y : Text) → b ≡ true → (if b then x else y) ≡ [] → x ≡ []
chosen true x y e h = h
chosen false x y e h = absurd (ground arith)

passed : (b : Bool) (x y : Text) → b ≡ false → (if b then x else y) ≡ [] → y ≡ []
passed true x y e h = absurd (ground arith)
passed false x y e h = h

refused : (b : Bool) (x y : Text) → is_empty x ≡ false → (if b then x else y) ≡ [] → b ≡ false
refused true x y e h = absurd (ground arith)
refused false x y e h = refl

module _ (can_copy : Bool) (s : Step) (p : problem can_copy s ≡ []) where
  pub argument_given :
      (s.type == step_run || (s.type == step_workdir || s.type == step_user)) ≡ true
      → no_argument s.args ≡ false
  unfolding problem
  argument_given e =
      refused (no_argument s.args) _ _ refl
        (chosen (s.type == step_run || (s.type == step_workdir || s.type == step_user)) _ _ e p)

  pub pair_given :
      (s.type == step_run || (s.type == step_workdir || s.type == step_user)) ≡ false
      → (s.type == step_env) ≡ false
      → (s.type == step_copy) ≡ true
      → (can_copy ≡ true) × (no_pair s.args ≡ false)
  unfolding problem
  pair_given e1 e2 e3 =
      let q = chosen (s.type == step_copy) _ _ e3 (
        passed (s.type == step_env) _ _ e2 (
          passed (s.type == step_run || (s.type == step_workdir || s.type == step_user)) _ _ e1
            p)) in
      let c = refused (not can_copy) _ _ refl q in
      (ground arith, refused (no_pair s.args) _ _ refl (passed (not can_copy) _ _ c q))
