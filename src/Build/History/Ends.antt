-- ===== src/Build/History/Ends.antt =====
-- pkg/e2bbuild/executor.go: what one `run` may do to the table of builds.
use sandbox_operator.Prelude.{ℕ, ◌≡◌, sym, subst, List, ◌∷◌, ◌++◌, Text}
use sandbox_operator.Scale.Claim.{Assignment}
use sandbox_operator.Build.{Status, waiting, building, ready, failed}
use sandbox_operator.Build.Executor.{Executor, log, finish, free_slot}
use sandbox_operator.Build.Host.{Host, Sys}
use sandbox_operator.Build.Body.{Does, DoesAll}
use sandbox_operator.Build.History.{
  System, IsFinal, ends_ready, ends_failed, logs, finishes, returns, ◌⟶*◌, stays, steps,
}

-- The table after lines were written to the log of one build, and to no other.
pub data Writes (id : Text) : Executor → Executor → Type 0 where
  none_left : (e : Executor) → Writes id e e
  line :
      {e f : Executor} (now : ℕ) (phase level msg : Text)
      → Writes id (log now id phase level msg e) f
      → Writes id e f

-- A build may end as failed, and as ready under a condition.
abbrev pub Verdict : Type 0 → Status → Type 0
Verdict Won ready = Won
Verdict Won failed = Unit
Verdict Won _ = ⊥

IsFinal-Verdict : (Won : Type 0) (st : Status) → Verdict Won st → IsFinal st
IsFinal-Verdict Won ready v = ends_ready
IsFinal-Verdict Won failed v = ends_failed
IsFinal-Verdict Won waiting v = elim v [ ]
IsFinal-Verdict Won building v = elim v [ ]

-- The table after a `run` of the build: it wrote its log, then finished this build, once and with
-- one of the two final statuses, and then freed one slot.
abbrev pub Ends : Text → Type 0 → Executor → Executor → Type 0
Ends id Won before after =
    (e : Executor) × (now : ℕ) × (phase : Text) × (msg : Text) × (st : Status) × Writes id before e
    × Verdict Won st
    × (after ≡ free_slot (finish now id st phase msg e))

pub Ends-line :
    (id : Text) (Won : Type 0) (e f : Executor) (now : ℕ) (phase level msg : Text)
    → Ends id Won (log now id phase level msg e) f
    → Ends id Won e f
Ends-line id Won e f now phase level msg (x, t, p, m, st, w, verdict, made) =
    (x, t, p, m, st, line now phase level msg w, verdict, made)

-- In the history of the table this is a run of steps of the relation, beside any other builds.
module _ (id : Text) (Won : Type 0) (before after : List Text) (leaving : ℕ) where
  abbrev during : Executor → System
  during e = record { exec = e; running = before ++ id ∷ after; leaving = leaving }

  abbrev done : Executor → System
  done e = record { exec = e; running = before ++ after; leaving = leaving }

  Writes-⟶* : {e f : Executor} {u : System} → Writes id e f → during f ⟶* u → during e ⟶* u
  Writes-⟶* (none_left e) more = more
  Writes-⟶* (line {e} now phase level msg w) more =
      steps (logs (during e) now id phase level msg) (Writes-⟶* w more)

  pub Ends-⟶* : (e f : Executor) → Ends id Won e f → during e ⟶* done f
  Ends-⟶* e f (x, now, phase, msg, st, w, verdict, made) =
      subst (λ g. during e ⟶* done g) (sym made)
        (Writes-⟶* w (
          steps
            (finishes x before after leaving now id phase msg st (IsFinal-Verdict Won st verdict))
            (steps (returns _ (before ++ after) leaving) (stays _))))

module _ {W : Type 0} (h : Host W) (id : Text) (Won : Type 0) (a : Assignment) where
  Does-Ends :
      {s t : Sys W} {f : Executor} → Does h id a s t → Ends id Won t.exec f → Ends id Won s.exec f
  Does-Ends {f} (Does.logs s now phase level msg) more =
      Ends-line id Won s.exec f now phase level msg more
  Does-Ends (Does.commands s c) more = more
  Does-Ends (Does.backgrounds s c) more = more
  Does-Ends (Does.inits s c) more = more
  Does-Ends (Does.writes s path content) more = more
  Does-Ends (Does.waits s) more = more
  Does-Ends (Does.opens s archive hash e) more = more
  Does-Ends (Does.promotes s template) more = more
  Does-Ends (Does.publishes s publish key digest e) more = more

  pub DoesAll-Ends :
      {s t : Sys W} {f : Executor}
      → DoesAll h id a s t
      → Ends id Won t.exec f
      → Ends id Won s.exec f
  DoesAll-Ends (DoesAll.stop s) more = more
  DoesAll-Ends (DoesAll.next d ds) more = Does-Ends d (DoesAll-Ends ds more)
