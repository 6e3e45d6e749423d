-- ===== src/Build/Tests.antt =====
-- The theorems on pkg/e2bbuild, at concrete inputs.
use sandbox_operator.Prelude.{
  ℕ, ◌+◌, ◌≡◌, refl, true, false, none, some, [], ◌∷◌, ◌++◌, map, list_beq, Text, codes, text_eq,
}
use sandbox_operator.Prelude.Dict
use sandbox_operator.Prelude.Dict.{Dict}
use sandbox_operator.Prelude.Paths.{join}
use sandbox_operator.Errors.{ok}
use sandbox_operator.Build.{Request, Step, invalid}
use sandbox_operator.Build.Shell.{copy_move, copy_script, copy_vars, env_escape}
use sandbox_operator.Build.Shell.Quoting.{assigned_lines, assigned_lines-copy_script}
use sandbox_operator.Build.Shell.Values.{in_double_quotes, in_double_quotes-env_escape}
use sandbox_operator.Build.Executor.{new_executor, register, start}
use sandbox_operator.Build.Host.{Host, Spec, Sys}
use sandbox_operator.Build.Lifetime.{run}
use sandbox_operator.Build.Body.{panicked}
use sandbox_operator.Build.History.{System, ◌⟶*◌, registers, starts, stays, steps}
use sandbox_operator.Build.History.Invariant.{IsSound}
use sandbox_operator.Build.History.Kept.{step-IsSound, steps-IsSound, new_executor-IsSound}
use sandbox_operator.Build.History.Machine.{Moves, act_on, shown, step_refines}
use sandbox_operator.Build.History.Ends.{Ends}
use sandbox_operator.Build.History.Runs.{Promoted, Released, asked, run_lem}

assigned_lines-copy_script_example :
    assigned_lines 10 (
      copy_script
        (codes "user")
        (codes "/w")
        (codes "ab")
        (codes "it's/*.go")
        (codes "/d")
        (codes "me" ∷ []))
    ≡ some (
      copy_vars
          (codes "user")
          (codes "/w")
          (codes "ab")
          (codes "it's/*.go")
          (codes "/d")
          (codes "me" ∷ []),
      join (codes "\n") (map codes copy_move),
    )
assigned_lines-copy_script_example =
    assigned_lines-copy_script (codes "user") (codes "/w") (codes "ab") (codes "it's/*.go")
      (codes "/d") (codes "me" ∷ [])

in_double_quotes-env_escape_example :
    in_double_quotes false (env_escape (codes "$HOME/$(id)`") ++ (b'"' ∷ codes " x"))
    ≡ some (codes "$HOME/$(id)`", codes " x")
in_double_quotes-env_escape_example =
    in_double_quotes-env_escape (codes "$HOME/$(id)`") (codes " x")

abbrev run_step : Step
run_step = record { type = codes "RUN"; args = codes "make" ∷ []; files_hash = [] }

abbrev user_step : Step
user_step = record { type = codes "USER"; args = codes "ann" ∷ []; files_hash = [] }

abbrev copy_step : Step
copy_step = record { type = codes "COPY"; args = codes "a" ∷ []; files_hash = [] }

second_step :
    invalid (run_step ∷ copy_step ∷ []) true
    ≡ codes "step 2 (COPY): needs a source and a destination"
unfolding invalid list_beq
second_step = refl

abbrev id : Text
id = codes "b1"

abbrev req : Request
req = record { size = []; tags = [] }

abbrev empty : System
empty = record { exec = new_executor 1 60 3; running = []; leaving = 0 }

abbrev registered : System
registered = record empty { exec = register 5 id req empty.exec }

abbrev started : System
started = record registered { exec = (start id registered.exec).1; running = id ∷ [] }

registered-fresh : Dict.get id empty.exec.builds ≡ none
unfolding new_executor Dict.get
registered-fresh = refl

started-ok : (start id registered.exec).0 ≡ ok true
unfolding start register new_executor Dict.get Dict.put list_beq
started-ok = refl

to_started : empty ⟶* started
to_started =
    steps (registers empty 5 id req registered-fresh)
      (steps (starts registered id started-ok) (stays started))

steps-IsSound_example : IsSound started
steps-IsSound_example = steps-IsSound to_started (new_executor-IsSound 1 60 3)

registered-IsSound : IsSound registered
registered-IsSound =
    step-IsSound (registers empty 5 id req registered-fresh) (new_executor-IsSound 1 60 3)

step_refines_example :
    Moves (act_on id (starts registered id started-ok)) (shown registered id) (shown started id)
step_refines_example = step_refines id (starts registered id started-ok) registered-IsSound

-- A host that counts the calls, has no uploads and answers each with success.
abbrev host : Host ℕ
host = record {
  quoted = λ s. s;
  now = λ w. w;
  claim = λ ns name key ttl w. (
    ok (record {
      sandbox_name = codes "sb";
      node = codes "n";
      address = [];
      token = [];
      deadline = 0;
      net_route = codes "relay";
    }),
    w + 1,
  );
  promote = λ node name template w.
      (ok (record { template = template; net = []; size = [] }, codes "d"), w + 1);
  release = λ node name w. (ok tt, w + 100);
  command = λ a c w. ((ok 0, []), w + 1);
  background = λ a c w. (ok tt, w + 1);
  init = λ a c w. (ok tt, w + 1);
  write = λ a path content w. (ok tt, w + 1);
  wait = λ w. (none, w + 1);
  archive = none;
  publish = none;
}

abbrev spec : Spec
spec = record {
  namespace = codes "ns";
  claim_name = codes "c";
  pool = record { template = codes "base"; net = []; size = [] };
  template = codes "t";
  steps = run_step ∷ user_step ∷ [];
  start_cmd = [];
  ready_cmd = [];
}

valid : invalid (run_step ∷ user_step ∷ []) false ≡ []
unfolding invalid list_beq
valid = refl

abbrev sys : Sys ℕ
sys = record { exec = started.exec; world = 0 }

run_lem_example :
    (panicked (run host id spec sys).0 ≡ false)
    × Ends id
        (Promoted host id spec (asked host id spec sys).0 (asked host id spec sys).1)
        sys.exec
        (run host id spec sys).1.exec
    × Released host id spec
        (asked host id spec sys).0
        (asked host id spec sys).1
        (run host id spec sys).1.world
run_lem_example = run_lem host id spec sys valid

-- One claim, two commands, the init, the promote, and the release.
whole_run : (run host id spec sys).1.world ≡ 105
unfolding run list_beq
whole_run = refl
