-- ===== src/Build/Run.antt =====
-- pkg/e2bbuild/executor.go: one build, from its claim to its release.
use sandbox_operator.Prelude.{
  ℕ, Bool, true, false, not, ◌||◌, Option, none, some, List, [], ◌∷◌, ◌++◌, map, nat_beq,
  if◌then◌else◌, ◌==◌, keep, Text, codes, or_else, text_eq, nat_eq,
}
use sandbox_operator.Prelude.Dict
use sandbox_operator.Prelude.Dict.{Dict}
use sandbox_operator.Prelude.Decimal.{itoa}
use sandbox_operator.Prelude.Paths.{is_abs, join, path_join}
use sandbox_operator.Errors.{plain, Result, ok, err}
use sandbox_operator.Scale.Claim.{Assignment}
use sandbox_operator.Build.{
  Step, Command, step_run, step_env, step_workdir, step_user, step_copy, with_line,
}
use sandbox_operator.Build.Shell.{
  copy_script, archive_path, workdir_script, user_script, expand_line,
}
use sandbox_operator.Build.Executor.{Executor, log}
use sandbox_operator.Build.Host.{
  Line, Host, Ran, gives, fails, Act, ◌>>=◌, give, panic, call, on_exec, reworded,
}

-- `sandboxd.RelayEnv`
abbrev pub relay_env : Dict Text Text
relay_env =
    (codes "http_proxy", codes "http://127.0.0.1:3128")
    ∷ (codes "https_proxy", codes "http://127.0.0.1:3128")
    ∷ (codes "no_proxy", codes "localhost,127.0.0.1,::1,169.254.169.254")
    ∷ []

abbrev pub as_root : Command → Command
as_root state = record { line = []; user = codes "root"; workdir = []; envs = state.envs }

abbrev pub logged_lines : Text → Text → List Line → Executor → Executor
logged_lines id phase [] e = e
logged_lines id phase (l ∷ ls) e =
    logged_lines id phase ls (log l.at id phase (codes "info") l.text e)

abbrev pub stdout : List Line → List Text
stdout ls = map (λ l. l.text) (keep (λ l. l.out) ls)

module _ {W : Type 0} (h : Host W) (id : Text) where
  -- `logf`
  unfoldable pub logf : Text → Text → Act W (Unit {0})
  unfolding log
  logf phase message s = on_exec (log (h.now s.world) id phase (codes "info") message) s

  -- The exit of a command, as `sh` judges it.
  abbrev pub exited : Text → Result ℕ → List Text → Ran (List Text)
  exited line (err e) out = fails [] (codes "could not run a command in the build sandbox") e
  exited line (ok code) out =
      let msg = h.quoted line ++ (codes " exited with code " ++ itoa code) in
      if nat_beq code 0 then gives out else fails [] msg (plain msg)

  -- `sh`; with `all_logged` both streams go to the log, else stdout is given back.
  unfoldable pub sh : Bool → Text → Assignment → Command → Act W (List Text)
  unfolding log itoa
  sh all_logged phase a cmd s =
      let ((code, lines), w) = h.command a cmd s.world in
      let shown = keep (λ l. all_logged || not l.out) lines in
      (
        exited cmd.line code (stdout lines),
        record { exec = logged_lines id phase shown s.exec; world = w },
      )

  -- `expand`
  unfoldable pub expand : Text → Assignment → Command → Text → Act W Text
  unfolding sh expand_line with_line join
  expand phase a root value =
      reworded [] (λ _. codes "could not evaluate the value " ++ h.quoted value)
        (sh false phase a (with_line root (expand_line value)) >>= λ lines.
          give (join (codes "\n") lines))

  -- The loop of an ENV step.
  unfoldable pub expand_all :
      Text → Assignment → Command → Dict Text Text → List Text → Act W (Dict Text Text)
  unfolding expand
  expand_all phase a root envs (key ∷ value ∷ rest) =
      expand phase a root value >>= λ v. expand_all phase a root (Dict.put key v envs) rest
  expand_all phase a root envs _ = give envs

  abbrev pub opened : Option (Text → W → Result Text × W) → Text → Act W Text
  opened none hash = panic
  opened (some archive) hash = call [] (codes "could not read the uploaded files") (archive hash)

  -- `copyIn`
  unfoldable pub copy_in : Assignment → Text → Act W (Unit {0})
  unfolding archive_path
  copy_in a hash = opened h.archive hash >>= λ content.
      call [] (codes "could not copy the uploaded files into the build sandbox")
        (h.write a (archive_path hash) content)

  -- The cases of `step`, with an index out of range in any of them a panic.
  unfoldable pub run_step : Text → Assignment → Command → List Text → Act W Command
  unfolding sh with_line
  run_step phase a state [] = panic
  run_step phase a state (line ∷ []) = sh true phase a (with_line state line) >>= λ _. give state
  run_step phase a state (line ∷ user ∷ rest) =
      sh true phase a (record (with_line state line) { user = user }) >>= λ _. give state

  unfoldable pub env_step : Text → Assignment → Command → List Text → Act W Command
  unfolding expand_all
  env_step phase a state args = expand_all phase a (as_root state) state.envs args >>= λ envs.
      give (record state { envs = envs })

  unfoldable pub workdir_step : Text → Assignment → Command → List Text → Act W Command
  unfolding sh with_line workdir_script is_abs path_join
  workdir_step phase a state [] = panic
  workdir_step phase a state (given ∷ rest) =
      let dir =
        if is_abs given then given else path_join (or_else state.workdir (codes "/")) given in
      sh true phase a (with_line (as_root state) (workdir_script dir state.user)) >>= λ _.
      give (record state { workdir = dir })

  unfoldable pub user_step : Text → Assignment → Command → List Text → Act W Command
  unfolding sh with_line user_script
  user_step phase a state [] = panic
  user_step phase a state (name ∷ rest) =
      sh true phase a (with_line (as_root state) (user_script name)) >>= λ _.
      give (record state { user = name })

  unfoldable pub copy_step : Text → Assignment → Command → Text → List Text → Act W Command
  unfolding sh with_line copy_in copy_script
  copy_step phase a state hash (src ∷ dest ∷ more) = copy_in a hash >>= λ _.
      reworded [] (λ _. codes "could not copy " ++ (src ++ (codes " to " ++ dest)))
        (sh true phase a
          (with_line (as_root state) (copy_script state.user state.workdir hash src dest more)))
      >>= λ _. give state
  copy_step phase a state hash _ = copy_in a hash >>= λ _. panic

  -- `step`
  unfoldable pub step : Text → Assignment → Command → Step → Act W Command
  unfolding run_step env_step workdir_step user_step copy_step
  step phase a state s =
      if s.type == step_run
      then run_step phase a state s.args
      else if s.type == step_env
      then env_step phase a state s.args
      else if s.type == step_workdir
      then workdir_step phase a state s.args
      else if s.type == step_user
      then user_step phase a state s.args
      else if s.type == step_copy
      then copy_step phase a state s.files_hash s.args
      else give state
