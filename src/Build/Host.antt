-- ===== src/Build/Host.antt =====
-- pkg/e2bbuild/executor.go: what a build uses. The store, the guest, the uploads and the
-- publishing are an interface; an index out of range is a panic.
use sandbox_operator.Prelude.{ℕ, Bool, Option, List, Text, text_eq}
use sandbox_operator.Errors.{Error, Result, ok, err}
use sandbox_operator.Scale.Model.{PoolKey}
use sandbox_operator.Scale.Claim.{Assignment}
use sandbox_operator.Build.{Step, Command}
use sandbox_operator.Build.Executor.{Executor}

-- A line of a command's output: `out` tells stdout from stderr, `at` is when it is logged.
pub record Line : Type 0 where
  pub out : Bool
  pub text : Text
  pub at : ℕ

-- `SandboxStore`, `Guest`, `ArchiveFunc` and `PublishFunc`, over the state `W` of all that is
-- outside of the executor. `now` is the clock, `wait` the select of a round of `awaitReady`, which
-- answers the text of the context's error once it is done. `quoted` is the `%q` of package fmt.
pub record Host (W : Type 0) : Type 0 where
  pub quoted : Text → Text
  pub now : W → ℕ
  pub claim : Text → Text → PoolKey → ℕ → W → Result Assignment × W
  pub promote : Text → Text → Text → W → Result (PoolKey × Text) × W
  pub release : Text → Text → W → Result (Unit {0}) × W
  pub command : Assignment → Command → W → (Result ℕ × List Line) × W
  pub background : Assignment → Command → W → Result (Unit {0}) × W
  pub init : Assignment → Command → W → Result (Unit {0}) × W
  pub write : Assignment → Text → Text → W → Result (Unit {0}) × W
  pub wait : W → Option Text × W
  pub archive : Option (Text → W → Result Text × W)
  pub publish : Option (Text → PoolKey → Text → W → Result (Unit {0}) × W)

-- `Spec`; `Archive` and `Publish` are the host's.
pub record Spec : Type 0 where
  pub namespace : Text
  pub claim_name : Text
  pub pool : PoolKey
  pub template : Text
  pub steps : List Step
  pub start_cmd : Text
  pub ready_cmd : Text

-- What a part of a build comes to. A failure has the phase, the message and the error.
pub data Ran (T : Type 0) : Type 0 where
  gives : T → Ran T
  fails : Text → Text → Error → Ran T
  panics : Ran T

-- The executor, and what is outside of it.
pub record Sys (W : Type 0) : Type 0 where
  pub exec : Executor
  pub world : W

abbrev pub Act : Type 0 → Type 0 → Type 0
Act W T = Sys W → Ran T × Sys W

module _ {W A B : Type 0} where
  abbrev pub follow : (A → Act W B) → Ran A × Sys W → Ran B × Sys W
  follow next (gives a, s) = next a s
  follow next (fails phase msg e, s) = (fails phase msg e, s)
  follow next (panics, s) = (panics, s)

  infixl 5 ◌>>=◌
  abbrev pub ◌>>=◌ : Act W A → (A → Act W B) → Act W B
  (act >>= next) s = follow next (act s)

-- `return phase, msg, err` when a call failed
abbrev pub checked : {A : Type 0} → Text → Text → Result A → Ran A
checked phase msg (ok a) = gives a
checked phase msg (err e) = fails phase msg e

abbrev pub relabelled : {A : Type 0} → Text → (Text → Text) → Ran A → Ran A
relabelled phase f (fails _ msg e) = fails phase (f msg) e
relabelled phase f (gives a) = gives a
relabelled phase f panics = panics

module _ {W : Type 0} where
  abbrev pub give : {A : Type 0} → A → Act W A
  give a s = (gives a, s)

  abbrev pub panic : {A : Type 0} → Act W A
  panic s = (panics, s)

  abbrev pub call : {A : Type 0} → Text → Text → (W → Result A × W) → Act W A
  call phase msg f s = let (r, w) = f s.world in (checked phase msg r, record s { world = w })

  abbrev pub on_exec : (Executor → Executor) → Act W (Unit {0})
  on_exec f s = (gives tt, record s { exec = f s.exec })

  -- A failure's message as its caller words it.
  abbrev pub reworded : {A : Type 0} → Text → (Text → Text) → Act W A → Act W A
  reworded phase f act s = let (r, s') = act s in (relabelled phase f r, s')
