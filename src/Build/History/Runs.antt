-- ===== src/Build/History/Runs.antt =====
-- A whole build of pkg/e2bbuild/executor.go: what its `run` does to the table of builds, and to the
-- sandbox that it claims.
use sandbox_operator.Prelude.{ℕ, ◌/◌, ◌^◌, ◌≡◌, refl, false, [], ◌++◌, arith, Text, codes, is_some}
use sandbox_operator.Errors.{Result, ok, err}
use sandbox_operator.Scale.Model.{PoolKey}
use sandbox_operator.Scale.Claim.{Assignment}
use sandbox_operator.Build.{Status, ready, failed, invalid}
use sandbox_operator.Build.Executor.{Executor, finish, free_slot}
use sandbox_operator.Build.Host.{
  Host, Spec, Ran, gives, fails, panics, Sys, Act, follow, ◌>>=◌, checked,
}
use sandbox_operator.Build.Run.{logf}
use sandbox_operator.Build.Lifetime.{
  phase_claim, claim_message, pool_text, prepare, promote, release, fail, concluded, on_claim, run,
}
use sandbox_operator.Build.Validated.{NoProblem, invalid_iff}
use sandbox_operator.Build.Body.{DoesAll, joins, panicked, Fine, Fine-bind}
use sandbox_operator.Build.Body.Steps.{logf-Fine}
use sandbox_operator.Build.Body.Whole.{prepare-Fine, promote-Fine}
use sandbox_operator.Build.History.Ends.{none_left, Verdict, Ends, Ends-line, DoesAll-Ends}

follow-gives :
    {W A B : Type 0} (f : A → Act W B) (r : Ran A) (t : Sys W) (y : B)
    → (follow f (r, t)).0 ≡ gives y
    → (x : A) × (r ≡ gives x) × ((f x t).0 ≡ gives y)
follow-gives f (gives x) t y e = (x, refl, e)
follow-gives f (fails phase msg x) t y e = absurd (ground arith)
follow-gives f panics t y e = absurd (ground arith)

checked-gives :
    {A : Type 0} (phase msg : Text) (r : Result A) (x : A)
    → checked phase msg r ≡ gives x
    → r ≡ ok x
checked-gives phase msg (ok a) x e = cc
checked-gives phase msg (err a) x e = absurd (ground arith)

module _ {W : Type 0} (h : Host W) (id : Text) (spec : Spec) where
  finish-Ends :
      (Won : Type 0) (e : Executor) (now : ℕ) (phase msg : Text) (st : Status)
      → Verdict Won st
      → Ends id Won e (free_slot (finish now id st phase msg e))
  finish-Ends Won e now phase msg st v = (e, now, phase, msg, st, none_left e, v, refl)

  fail-Ends :
      (Won : Type 0) (phase msg : Text) (s : Sys W)
      → Ends id Won s.exec (free_slot (fail h id spec phase msg s).exec)
  unfolding fail
  fail-Ends Won phase msg s =
      let now = h.now s.world in
      Ends-line id Won s.exec _ now phase (codes "error") msg
        (finish-Ends Won _ now phase msg failed tt)

  -- The sandbox of the claim was promoted to the template, after other things were done with it.
  abbrev pub Promoted : Result Assignment → Sys W → Type 0
  Promoted (err e) s = ⊥
  Promoted (ok a) s =
      (t : Sys W) × DoesAll h id a s t
      × (made : PoolKey × Text) × ((h.promote a.node a.sandbox_name spec.template t.world).0
          ≡ ok made)

  promote-gives :
      (a : Assignment) (t : Sys W) (x : Unit {0})
      → (promote h id spec a t).0 ≡ gives x
      → (made : PoolKey × Text) × ((h.promote a.node a.sandbox_name spec.template t.world).0
          ≡ ok made)
  unfolding promote
  promote-gives a t x e =
      let (made, called, _) = follow-gives _ _ _ x e in (made, checked-gives _ _ _ made called)

  -- What a claim was used for: nothing, when there is none; else its sandbox was released once, after
  -- everything that was done with it.
  abbrev pub Released : Result Assignment → Sys W → W → Type 0
  Released (err e) s w = w ≡ s.world
  Released (ok a) s w =
      (t : Sys W) × DoesAll h id a s t × (w ≡ (h.release a.node a.sandbox_name t.world).1)

  concluded_run :
      (a : Assignment) (s t : Sys W) (r : Ran (Unit {0}))
      → DoesAll h id a s t
      → panicked r ≡ false
      → ((x : Unit {0}) → r ≡ gives x → Promoted (ok a) s)
      → let (r', u) = concluded h id spec a (r, t) in
        (panicked r' ≡ false)
        × Ends id (Promoted (ok a) s) s.exec (free_slot u.exec)
        × Released (ok a) s u.world
  unfolding release panicked fail
  concluded_run a s t (gives x) ds p won = (
    refl,
    DoesAll-Ends h id (Promoted (ok a) s) a ds
        (finish-Ends (Promoted (ok a) s) t.exec _ [] [] ready (won x refl)),
    (t, ds, refl),
  )
  concluded_run a s t (fails phase msg e) ds p won = (
    refl,
    DoesAll-Ends h id (Promoted (ok a) s) a ds
        (fail-Ends (Promoted (ok a) s) phase msg (release h id spec a t)),
    (t, ds, refl),
  )
  concluded_run a s t panics ds p won = absurd (ground arith)

  body-Promoted :
      (a : Assignment) (seconds : ℕ) (phase msg : Text) (s : Sys W) (y : Unit {0})
      → NoProblem (is_some h.archive) spec.steps
      → ((logf h id phase msg >>= λ _. prepare h id spec seconds a >>= λ _. promote h id spec a)
          s).0
        ≡ gives y
      → Promoted (ok a) s
  unfolding Fine
  body-Promoted a seconds phase msg s y ps e =
      let first = logf h id phase msg s in
      let second = prepare h id spec seconds a first.1 in
      let (_, _, e1) = follow-gives _ first.0 first.1 y e in
      let (_, _, e2) = follow-gives (λ _. promote h id spec a) second.0 second.1 y e1 in
      let (made, promoted) = promote-gives a second.1 y e2 in
      (
        second.1,
        joins h id a (logf-Fine h id a phase msg s).0
            (prepare-Fine h id spec a seconds ps first.1).0,
        made,
        promoted,
      )

  on_claim_run :
      (claimed : Result Assignment) (s : Sys W)
      → NoProblem (is_some h.archive) spec.steps
      → let (r, u) = on_claim h id spec claimed s in
        (panicked r ≡ false)
        × Ends id (Promoted claimed s) s.exec (free_slot u.exec)
        × Released claimed s u.world
  unfolding panicked fail Fine
  on_claim_run (err e) s ps = (refl, fail-Ends ⊥ phase_claim (claim_message spec.pool e) s, refl)
  on_claim_run (ok a) s ps =
      let seconds = s.exec.timeout / 10 ^ 9 in
      let body =
        logf h id phase_claim (codes "claimed " ++ (a.sandbox_name ++ (codes " on " ++ a.node)))
        >>= λ _. prepare h id spec seconds a >>= λ _. promote h id spec a in
      let (ds, p) =
        Fine-bind h id a _ _ (logf-Fine h id a _ _)
          (λ _.
            Fine-bind h id a _ _ (prepare-Fine h id spec a seconds ps)
              λ _. promote-Fine h id spec a)
          s in
      concluded_run a s (body s).1 (body s).0 ds p (λ y e. body-Promoted a seconds _ _ s y ps e)

  -- The state in which the sandbox has been asked for, and the answer.
  abbrev pub asked : Sys W → Result Assignment × Sys W
  asked s =
      let (_, s1) =
        logf h id phase_claim (codes "claiming a sandbox from " ++ pool_text spec.pool) s in
      let (claimed, w) =
        h.claim spec.namespace spec.claim_name spec.pool (s1.exec.timeout / 10 ^ 9) s1.world in
      (claimed, record s1 { world = w })

  -- A build whose steps `Invalid` accepts runs to its end: it never panics, whatever the store, the
  -- guest and the uploads answer. On the table of builds it writes lines to its own log and to no
  -- other, then finishes its own build, once, as failed or, only when the claimed sandbox was promoted
  -- to the template, as ready, then frees one slot, and that is all. The release of a sandbox that it claimed is called once, after all that was done with it.
  pub run_lem :
      (s : Sys W)
      → invalid spec.steps (is_some h.archive) ≡ []
      → (panicked (run h id spec s).0 ≡ false)
        × Ends id (Promoted (asked s).0 (asked s).1) s.exec (run h id spec s).1.exec
        × Released (asked s).0 (asked s).1 (run h id spec s).1.world
  unfolding run logf
  run_lem s valid =
      let ps = (invalid_iff spec.steps (is_some h.archive)).0 valid in
      let (p, ended, released) = on_claim_run (asked s).0 (asked s).1 ps in
      (p, Ends-line id (Promoted (asked s).0 (asked s).1) s.exec _ _ _ _ _ ended, released)
