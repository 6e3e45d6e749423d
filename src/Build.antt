-- ===== src/Build.antt =====
-- pkg/e2bbuild: the builds of sandbox templates. This file has the data of executor.go and the
-- check of a build's steps.
pub mod Shell
pub mod Executor
pub mod Host
pub mod Run
pub mod Lifetime
pub mod Validated
pub mod Body
pub mod History
mod Tests
use sandbox_operator.Prelude.{
  ℕ, zero, ◌+◌, ◌%◌, ◌<◌, Bool, true, not, ◌&&◌, ◌||◌, Option, List, [], ◌∷◌, ◌++◌, leb, nat_beq,
  if◌then◌else◌, ◌==◌, length, all, Text, codes, is_empty, text_eq, nat_eq,
}
use sandbox_operator.Prelude.Decimal.{itoa}
use sandbox_operator.Prelude.Dict.{Dict}

-- `Request`
pub record Request : Type 0 where
  pub size : Text
  pub tags : List Text

-- `Step`
pub record Step : Type 0 where
  pub type : Text
  pub args : List Text
  pub files_hash : Text

abbrev is_hex : ℕ → Bool
is_hex c = (leb b'0' c && leb c b'9') || (leb b'a' c && leb c b'f')

-- `FilesHash.MatchString`
unfoldable pub is_files_hash : Text → Bool
is_files_hash s = nat_beq (length s) 64 && all is_hex s

abbrev pub step_run : Text
step_run = codes "RUN"

abbrev pub step_env : Text
step_env = codes "ENV"

abbrev pub step_workdir : Text
step_workdir = codes "WORKDIR"

abbrev pub step_user : Text
step_user = codes "USER"

abbrev pub step_copy : Text
step_copy = codes "COPY"

-- `len(args) == 0 || args[0] == ""`
abbrev pub no_argument : List Text → Bool
no_argument [] = true
no_argument (a ∷ rest) = is_empty a

-- `len(args) < 2 || args[0] == "" || args[1] == ""`
abbrev pub no_pair : List Text → Bool
no_pair [] = true
no_pair (a ∷ []) = true
no_pair (a ∷ b ∷ rest) = is_empty a || is_empty b

-- `Step.problem`
unfoldable pub problem : Bool → Step → Text
unfolding is_files_hash
problem can_copy s =
    if s.type == step_run || (s.type == step_workdir || s.type == step_user)
    then if no_argument s.args then codes "needs an argument" else []
    else if s.type == step_env
    then (if nat_beq (length s.args) 0 || not (nat_beq (length s.args % 2) 0)
        then codes "needs key and value pairs"
        else [])
    else if s.type == step_copy
    then (if not can_copy
        then codes "no upload store is configured"
        else if no_pair s.args
        then codes "needs a source and a destination"
        else if not (is_files_hash s.files_hash)
        then codes "needs the filesHash of its upload"
        else [])
    else codes "not a supported step type"

-- The loop of `Invalid`, with `i` the step's index.
unfoldable pub invalid_from : Bool → ℕ → List Step → Text
unfolding problem itoa
invalid_from can_copy i [] = []
invalid_from can_copy i (s ∷ steps) =
    let p = problem can_copy s in
    let rest = invalid_from can_copy (i + 1) steps in
    if not (is_empty p)
    then codes "step " ++ (itoa (i + 1) ++ (codes " (" ++ (s.type ++ (codes "): " ++ p))))
    else rest

-- `Invalid`
unfoldable pub invalid : List Step → Bool → Text
unfolding invalid_from
invalid steps can_copy = invalid_from can_copy 0 steps

-- `Command`
pub record Command : Type 0 where
  pub line : Text
  pub user : Text
  pub workdir : Text
  pub envs : Dict Text Text

-- `withLine`
unfoldable pub with_line : Command → Text → Command
with_line state line = record state { line = line }

-- `LogEntry`
pub record LogEntry : Type 0 where
  pub time : ℕ
  pub level : Text
  pub message : Text
  pub phase : Text

-- The builds' statuses: `waiting`, `building`, `ready` and `error`.
pub data Status : Type 0 where
  waiting : Status
  building : Status
  ready : Status
  failed : Status

-- `Info`
pub record Info : Type 0 where
  pub status : Status
  pub logs : List LogEntry
  pub failed_phase : Text
  pub failure : Text

-- `record`; `finished` is zero until the build finishes.
pub record Build : Type 0 where
  pub req : Request
  pub info : Info
  pub registered : ℕ
  pub finished : Option ℕ
