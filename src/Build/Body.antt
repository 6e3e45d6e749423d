-- ===== src/Build/Body.antt =====
-- What a build of pkg/e2bbuild/executor.go does between its claim and its release.
pub mod Steps
pub mod Whole
use sandbox_operator.Prelude.{
  ℕ, ◌≡◌, refl, ◌∙◌, Bool, true, false, not, some, arith, if◌then◌else◌, Text, text_eq,
}
use sandbox_operator.Prelude.Dict
use sandbox_operator.Prelude.Dict.{Dict}
use sandbox_operator.Errors.{Result, ok, err}
use sandbox_operator.Scale.Model.{PoolKey}
use sandbox_operator.Scale.Claim.{Assignment}
use sandbox_operator.Build.{Step, Command, problem}
use sandbox_operator.Build.Executor.{Executor, log}
use sandbox_operator.Build.Host.{
  Line, Host, Spec, Ran, gives, fails, panics, Sys, Act, follow, ◌>>=◌, give, panic, checked, call,
  on_exec, relabelled, reworded,
}
use sandbox_operator.Build.Run
use sandbox_operator.Build.Lifetime
use sandbox_operator.Build.Validated.{NoProblem}

unfoldable pub panicked : {A : Type 0} → Ran A → Bool
panicked panics = true
panicked _ = false

module _ {W : Type 0} (h : Host W) (id : Text) (a : Assignment) where
  -- One thing that a build does while it holds the claim `a`: a line in its own log, or a call.
  pub data Does : Sys W → Sys W → Type 0 where
    logs :
        (s : Sys W) (now : ℕ) (phase level msg : Text)
        → Does s (record s { exec = log now id phase level msg s.exec })
    commands : (s : Sys W) (c : Command) → Does s (record s { world = (h.command a c s.world).1 })
    backgrounds :
        (s : Sys W) (c : Command) → Does s (record s { world = (h.background a c s.world).1 })
    inits : (s : Sys W) (c : Command) → Does s (record s { world = (h.init a c s.world).1 })
    writes :
        (s : Sys W) (path content : Text)
        → Does s (record s { world = (h.write a path content s.world).1 })
    waits : (s : Sys W) → Does s (record s { world = (h.wait s.world).1 })
    opens :
        (s : Sys W) (archive : Text → W → Result Text × W) (hash : Text)
        → h.archive ≡ some archive
        → Does s (record s { world = (archive hash s.world).1 })
    promotes :
        (s : Sys W) (template : Text)
        → Does s (record s { world = (h.promote a.node a.sandbox_name template s.world).1 })
    publishes :
        (s : Sys W) (publish : Text → PoolKey → Text → W → Result (Unit {0}) × W) (key : PoolKey)
        (digest : Text)
        → h.publish ≡ some publish
        → Does s (record s { world = (publish a.node key digest s.world).1 })

  -- Any number of them, one after the other.
  pub data DoesAll : Sys W → Sys W → Type 0 where
    stop : (s : Sys W) → DoesAll s s
    next : {s t u : Sys W} → Does s t → DoesAll t u → DoesAll s u

  pub joins : {s t u : Sys W} → DoesAll s t → DoesAll t u → DoesAll s u
  joins (stop s) more = more
  joins (next d ds) more = next d (joins ds more)

  pub once : {s t : Sys W} → Does s t → DoesAll s t
  once {t} d = next d (stop t)

  -- An action that does no more than this, and does not panic.
  unfoldable pub Fine : {T : Type 0} → Act W T → Type 0
  unfolding panicked
  Fine act = (s : Sys W) → DoesAll s (act s).1 × (panicked (act s).0 ≡ false)

  pub Fine-give : {T : Type 0} (x : T) → Fine (give x)
  unfolding Fine panicked
  Fine-give x s = (stop s, refl)

  pub Fine-then :
      {T U : Type 0} (f : T → Act W U) (r : Ran T) (s t : Sys W)
      → panicked r ≡ false
      → ((x : T) → Fine (f x))
      → DoesAll s t
      → DoesAll s (follow f (r, t)).1 × (panicked (follow f (r, t)).0 ≡ false)
  unfolding Fine panicked
  Fine-then f (gives x) s t p hf ds = (joins ds (hf x t).0, (hf x t).1)
  Fine-then f (fails phase msg e) s t p hf ds = (ds, refl)
  Fine-then f panics s t p hf ds = absurd (ground arith)

  pub Fine-bind :
      {T U : Type 0} (act : Act W T) (f : T → Act W U)
      → Fine act
      → ((x : T) → Fine (f x))
      → Fine (act >>= f)
  unfolding Fine
  Fine-bind act f ha hf s = Fine-then f (act s).0 s (act s).1 (ha s).1 hf (ha s).0

  panicked-relabelled :
      {T : Type 0} (phase : Text) (f : Text → Text) (r : Ran T)
      → panicked (relabelled phase f r) ≡ panicked r
  unfolding panicked
  panicked-relabelled phase f (gives x) = refl
  panicked-relabelled phase f (fails phase' msg e) = refl
  panicked-relabelled phase f panics = refl

  pub Fine-reworded :
      {T : Type 0} (phase : Text) (f : Text → Text) (act : Act W T)
      → Fine act
      → Fine (reworded phase f act)
  unfolding Fine
  Fine-reworded phase f act ha s = ((ha s).0, panicked-relabelled phase f (act s).0 ∙ (ha s).1)

  panicked-checked :
      {T : Type 0} (phase msg : Text) (r : Result T) → panicked (checked phase msg r) ≡ false
  unfolding panicked
  panicked-checked phase msg (ok x) = refl
  panicked-checked phase msg (err e) = refl

  pub Fine-call :
      {T : Type 0} (phase msg : Text) (f : W → Result T × W)
      → ((s : Sys W) → Does s (record s { world = (f s.world).1 }))
      → Fine (call phase msg f)
  unfolding Fine
  Fine-call phase msg f hf s = (once (hf s), panicked-checked phase msg (f s.world).0)

  pub Fine-if :
      {T : Type 0} (b : Bool) (x y : Act W T)
      → (b ≡ true → Fine x)
      → (b ≡ false → Fine y)
      → Fine (if b then x else y)
  Fine-if true x y hx hy = hx refl
  Fine-if false x y hx hy = hy refl
