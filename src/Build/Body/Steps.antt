-- ===== src/Build/Body/Steps.antt =====
-- The steps of a build, its start and ready commands and its promote do no more than a build may,
-- for pkg/e2bbuild/executor.go.
use sandbox_operator.Prelude.{
  ℕ, ◌≡◌, refl, Bool, true, false, not, ◌||◌, Option, none, some, List, [], ◌∷◌, arith, ◌==◌, keep,
  Text, codes, is_some, text_eq, nat_eq,
}
use sandbox_operator.Prelude.Dict
use sandbox_operator.Prelude.Dict.{Dict}
use sandbox_operator.Errors.{Result, ok, err}
use sandbox_operator.Scale.Claim.{Assignment}
use sandbox_operator.Build.{
  Step, step_run, step_env, step_workdir, step_user, step_copy, Command, no_argument, no_pair,
  problem,
}
use sandbox_operator.Build.Shell.{archive_path}
use sandbox_operator.Build.Host.{Line, Host, Sys, ◌>>=◌, give}
use sandbox_operator.Build.Run.{
  logged_lines, stdout, exited, logf, sh, expand, expand_all, opened, copy_in, run_step, env_step,
  workdir_step, user_step, copy_step, step, as_root,
}
use sandbox_operator.Build.Validated.{argument_given, pair_given}
use sandbox_operator.Build.Body.{
  logs, commands, writes, opens, DoesAll, stop, next, once, panicked, Fine, Fine-give, Fine-bind,
  Fine-reworded, Fine-call, Fine-if,
}

module _ {W : Type 0} (h : Host W) (id : Text) (a : Assignment) where
  logged_lines-DoesAll :
      (phase : Text) (ls : List Line) (s : Sys W)
      → DoesAll h id a s (record s { exec = logged_lines id phase ls s.exec })
  logged_lines-DoesAll phase [] s = stop s
  logged_lines-DoesAll phase (l ∷ ls) s =
      next (logs s l.at phase (codes "info") l.text) (logged_lines-DoesAll phase ls _)

  panicked-exited :
      (line : Text) (code : Result ℕ) (out : List Text)
      → panicked (exited h id line code out) ≡ false
  unfolding panicked
  panicked-exited line (ok code) out = ground arith
  panicked-exited line (err e) out = refl

  pub logf-Fine : (phase msg : Text) → Fine h id a (logf h id phase msg)
  unfolding logf Fine panicked
  logf-Fine phase msg s = (once h id a (logs s (h.now s.world) phase (codes "info") msg), refl)

  sh-Fine :
      (all_logged : Bool) (phase : Text) (c : Command) → Fine h id a (sh h id all_logged phase a c)
  unfolding sh Fine
  sh-Fine all_logged phase c s =
      let lines = (h.command a c s.world).0.1 in
      let shown = keep (λ l. all_logged || not l.out) lines in
      (
        next (commands s c) (logged_lines-DoesAll phase shown _),
        panicked-exited c.line (h.command a c s.world).0.0 (stdout lines),
      )

  expand-Fine :
      (phase : Text) (root : Command) (value : Text) → Fine h id a (expand h id phase a root value)
  unfolding expand
  expand-Fine phase root value =
      Fine-reworded h id a _ _ _
        (Fine-bind h id a _ _ (sh-Fine false phase _) λ lines. Fine-give h id a _)

  expand_all-Fine :
      (phase : Text) (root : Command) (envs : Dict Text Text) (args : List Text)
      → Fine h id a (expand_all h id phase a root envs args)
  unfolding expand_all
  expand_all-Fine phase root envs [] = Fine-give h id a envs
  expand_all-Fine phase root envs (key ∷ []) = Fine-give h id a envs
  expand_all-Fine phase root envs (key ∷ value ∷ rest) =
      Fine-bind h id a _ _ (expand-Fine phase root value)
        λ v. expand_all-Fine phase root (Dict.put key v envs) rest

  pub opened-Fine :
      (hash : Text) (o : Option (Text → W → Result Text × W))
      → is_some o ≡ true
      → h.archive ≡ o
      → Fine h id a (opened h id o hash)
  opened-Fine hash none h1 e = absurd (ground arith)
  opened-Fine hash (some archive) h1 e = Fine-call h id a _ _ _ λ s. opens s archive hash e

  copy_in-Fine : (hash : Text) → is_some h.archive ≡ true → Fine h id a (copy_in h id a hash)
  unfolding copy_in
  copy_in-Fine hash h1 =
      Fine-bind h id a _ _ (opened-Fine hash h.archive h1 refl)
        λ content. Fine-call h id a _ _ _ λ s. writes s (archive_path hash) content

  sh_then-Fine :
      (phase : Text) (c after : Command) → Fine h id a (sh h id true phase a c >>= λ _. give after)
  sh_then-Fine phase c after =
      Fine-bind h id a _ _ (sh-Fine true phase c) λ _. Fine-give h id a after

  run_step-Fine :
      (phase : Text) (state : Command) (args : List Text)
      → no_argument args ≡ false
      → Fine h id a (run_step h id phase a state args)
  unfolding run_step
  run_step-Fine phase state [] n = absurd (ground arith)
  run_step-Fine phase state (line ∷ []) n = sh_then-Fine phase _ state
  run_step-Fine phase state (line ∷ user ∷ rest) n = sh_then-Fine phase _ state

  workdir_step-Fine :
      (phase : Text) (state : Command) (args : List Text)
      → no_argument args ≡ false
      → Fine h id a (workdir_step h id phase a state args)
  unfolding workdir_step
  workdir_step-Fine phase state [] n = absurd (ground arith)
  workdir_step-Fine phase state (dir ∷ rest) n = sh_then-Fine phase _ _

  user_step-Fine :
      (phase : Text) (state : Command) (args : List Text)
      → no_argument args ≡ false
      → Fine h id a (user_step h id phase a state args)
  unfolding user_step
  user_step-Fine phase state [] n = absurd (ground arith)
  user_step-Fine phase state (name ∷ rest) n = sh_then-Fine phase _ _

  env_step-Fine :
      (phase : Text) (state : Command) (args : List Text)
      → Fine h id a (env_step h id phase a state args)
  unfolding env_step
  env_step-Fine phase state args =
      Fine-bind h id a _ _ (expand_all-Fine phase (as_root state) state.envs args)
        λ envs. Fine-give h id a _

  copy_step-Fine :
      (phase : Text) (state : Command) (hash : Text) (args : List Text)
      → is_some h.archive ≡ true
      → no_pair args ≡ false
      → Fine h id a (copy_step h id phase a state hash args)
  unfolding copy_step
  copy_step-Fine phase state hash [] o n = absurd (ground arith)
  copy_step-Fine phase state hash (src ∷ []) o n = absurd (ground arith)
  copy_step-Fine phase state hash (src ∷ dest ∷ more) o n =
      Fine-bind h id a _ _ (copy_in-Fine hash o) λ _.
        Fine-bind h id a _ _ (Fine-reworded h id a _ _ _ (sh-Fine true phase _))
          λ _. Fine-give h id a state

  -- A step with no problem.
  pub step-Fine :
      (phase : Text) (state : Command) (st : Step)
      → problem (is_some h.archive) st ≡ []
      → Fine h id a (step h id phase a state st)
  unfolding step
  step-Fine phase state st p =
      let given = argument_given (is_some h.archive) st p in
      Fine-if h id a (st.type == step_run) _ _
        (λ r. run_step-Fine phase state st.args (given (rw r refl)))
        λ r.
          Fine-if h id a (st.type == step_env) _ _ (λ e. env_step-Fine phase state st.args)
            λ e.
              Fine-if h id a (st.type == step_workdir) _ _
                (λ w. workdir_step-Fine phase state st.args (given (rw (r, w) refl)))
                λ w.
                  Fine-if h id a (st.type == step_user) _ _
                    (λ u. user_step-Fine phase state st.args (given (rw (r, w, u) refl)))
                    λ u.
                      Fine-if h id a (st.type == step_copy) _ _
                        (λ c.
                          let (o, n) =
                            pair_given (is_some h.archive) st p (rw (r, w, u) refl) e c in
                          copy_step-Fine phase state st.files_hash st.args o n)
                        λ c. Fine-give h id a state
