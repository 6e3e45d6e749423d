-- ===== src/Build/History.antt =====
-- pkg/e2bbuild/executor.go: the table of builds under any interleaving of the API's calls and the
-- running builds, as a relation between the states that one locked step leads to.
pub mod Invariant
pub mod Kept
pub mod Machine
pub mod Ends
pub mod Runs
use sandbox_operator.Prelude.{ℕ, ◌+◌, ◌≡◌, true, not, none, List, ◌∷◌, ◌++◌, Text, text_eq}
use sandbox_operator.Prelude.Dict
use sandbox_operator.Errors.{Result, ok}
use sandbox_operator.Build.{Request, Status, waiting, building, ready, failed}
use sandbox_operator.Build.Executor.{
  Executor, sweep, register, start, status, log, finish, free_slot,
}

-- The executor, the builds whose `run` has not yet finished them, and how many calls of `run` have
-- finished their build and not yet returned.
pub record System : Type 0 where
  pub exec : Executor
  pub running : List Text
  pub leaving : ℕ

pub data IsFinal : Status → Type 0 where
  ends_ready : IsFinal ready
  ends_failed : IsFinal failed

-- One step. The id of a build is random, so it is registered once: `fresh` is what this means. A
-- build is finished only by the `run` that its start began.
infix 4 ◌⟶◌
pub data ◌⟶◌ : System → System → Type 0 where
  registers :
      (s : System) (now : ℕ) (id : Text) (req : Request)
      → Dict.get id s.exec.builds ≡ none
      → s ⟶ record s { exec = register now id req s.exec }
  starts :
      (s : System) (id : Text)
      → (start id s.exec).0 ≡ ok true
      → s ⟶ record s { exec = (start id s.exec).1; running = id ∷ s.running }
  polls : (s : System) (now : ℕ) (id : Text) → s ⟶ record s { exec = (status now id s.exec).1 }
  logs :
      (s : System) (now : ℕ) (id phase level msg : Text)
      → s ⟶ record s { exec = log now id phase level msg s.exec }
  finishes :
      (e : Executor) (before after : List Text) (leaving now : ℕ) (id phase msg : Text)
      (st : Status)
      → IsFinal st
      → record { exec = e; running = before ++ id ∷ after; leaving = leaving } ⟶ record {
        exec = finish now id st phase msg e;
        running = before ++ after;
        leaving = leaving + 1;
      }
  returns :
      (e : Executor) (running : List Text) (leaving : ℕ)
      → record { exec = e; running = running; leaving = leaving + 1 }
        ⟶ record { exec = free_slot e; running = running; leaving = leaving }

infix 4 ◌⟶*◌
pub data ◌⟶*◌ : System → System → Type 0 where
  stays : (s : System) → s ⟶* s
  steps : {s t u : System} → s ⟶ t → t ⟶* u → s ⟶* u
