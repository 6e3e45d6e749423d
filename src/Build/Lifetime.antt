-- ===== src/Build/Lifetime.antt =====
-- pkg/e2bbuild/executor.go: a whole build, from its claim to its release, and the states that it
-- leaves in the table of builds.
use sandbox_operator.Prelude.{
  ℕ, zero, suc, ◌+◌, ◌/◌, ◌^◌, Bool, true, false, Option, none, some, List, [], ◌∷◌, ◌++◌, nat_beq,
  if◌then◌else◌, ◌==◌, Text, codes, is_empty, text_eq, nat_eq,
}
use sandbox_operator.Prelude.Decimal.{itoa}
use sandbox_operator.Errors.{Error, plain, wrapped, err_no_warm_capacity, Result, ok, err, is}
use sandbox_operator.Scale.Model.{PoolKey}
use sandbox_operator.Scale.Claim.{Assignment}
use sandbox_operator.Build.{Step, Command, ready, failed, with_line}
use sandbox_operator.Build.Executor.{log, finish, free_slot}
use sandbox_operator.Build.Host.{
  Host, Spec, Ran, gives, fails, panics, Sys, Act, ◌>>=◌, give, call, reworded,
}
use sandbox_operator.Build.Run.{relay_env, logf, step}

abbrev pub phase_claim : Text
phase_claim = codes "claim"

abbrev pub phase_finalize : Text
phase_finalize = codes "finalize"

abbrev pub phase_promote : Text
phase_promote = codes "promote"

abbrev pub phase_publish : Text
phase_publish = codes "publish"

-- `errors.Join(ctx.Err(), err)`
abbrev pub joined : Text → Result ℕ → Error
joined text (ok code) = plain text
joined text (err e) = wrapped text e

abbrev pub exits_zero : Result ℕ → Bool
exits_zero (ok code) = nat_beq code 0
exits_zero (err e) = false

abbrev pub pool_text : PoolKey → Text
pool_text k = k.template ++ (codes " (" ++ (k.net ++ (codes ", " ++ (k.size ++ codes ")"))))

-- The state before the first step.
abbrev pub initial : Assignment → Command
initial a = record {
  line = [];
  user = codes "user";
  workdir = [];
  envs = if a.net_route == codes "relay" then relay_env else [];
}

-- The message of a claim that failed.
abbrev pub claim_message : PoolKey → Error → Text
claim_message k e =
    if is e err_no_warm_capacity
    then (codes "no warm sandbox of "
        ++ (pool_text k ++ codes "; a pool must serve the build's image and size"))
    else codes "could not claim a sandbox of " ++ pool_text k

module _ {W : Type 0} (h : Host W) (id : Text) (spec : Spec) where
  abbrev pub not_ready : Text
  not_ready =
      codes "the ready command "
      ++ (h.quoted spec.ready_cmd ++ codes " did not exit 0 before the build timed out")

  abbrev pub waited : Option Text → Result ℕ → Act W (Unit {0}) → Act W (Unit {0})
  waited (some text) code again s = (fails phase_finalize not_ready (joined text code), s)
  waited none code again s = again s

  abbrev pub after_round : Bool → Result ℕ → Act W (Unit {0}) → Act W (Unit {0})
  after_round true code again s = (gives tt, s)
  after_round false code again s =
      let (done, w) = h.wait s.world in waited done code again (record s { world = w })

  -- `awaitReady`. A round waits for a second unless the context is done, so a context with a
  -- deadline is done in the round after as many as it has whole seconds: `left` counts them.
  unfoldable pub await_ready : ℕ → Assignment → Command → Act W (Unit {0})
  await_ready zero a cmd s =
      let ((code, _), w) = h.command a cmd s.world in
      after_round (exits_zero code) code
        (λ s'.
          (fails phase_finalize not_ready (joined (codes "context deadline exceeded") code), s'))
        (record s { world = w })
  await_ready (suc left) a cmd s =
      let ((code, _), w) = h.command a cmd s.world in
      after_round (exits_zero code) code (await_ready left a cmd) (record s { world = w })

  -- The loop over the steps, with `i` the step's index.
  unfoldable pub steps_from : ℕ → Assignment → Command → List Step → Act W Command
  unfolding step itoa
  steps_from i a state [] = give state
  steps_from i a state (st ∷ rest) =
      let phase = itoa (i + 1) in
      reworded phase
        (λ msg.
          codes "step " ++ (phase ++ (codes " (" ++ (st.type ++ (codes ") failed: " ++ msg)))))
        (step h id phase a state st)
      >>= λ next. steps_from (i + 1) a next rest

  abbrev pub start_command : Assignment → Command → Act W (Unit {0})
  start_command a state =
      if is_empty spec.start_cmd
      then give tt
      else logf h id phase_finalize (codes "starting " ++ spec.start_cmd) >>= λ _.
          call phase_finalize (codes "could not start the start command")
            (h.background a (with_line state spec.start_cmd))

  abbrev pub ready_command : ℕ → Assignment → Command → Act W (Unit {0})
  ready_command left a state =
      if is_empty spec.ready_cmd
      then give tt
      else await_ready left a (with_line state spec.ready_cmd) >>= λ _.
          logf h id phase_finalize (codes "ready: " ++ (spec.ready_cmd ++ codes " exited 0"))

  -- `prepare`
  unfoldable pub prepare : ℕ → Assignment → Act W (Unit {0})
  unfolding logf with_line steps_from await_ready
  prepare left a = steps_from 0 a (initial a) spec.steps >>= λ state.
      call phase_finalize (codes "could not set the template's user, workdir and environment")
        (h.init a state)
      >>= λ _. start_command a state >>= λ _. ready_command left a state

  abbrev pub published :
      Option (Text → PoolKey → Text → W → Result (Unit {0}) × W)
      → Assignment
      → PoolKey × Text
      → Act W (Unit {0})
  published none a made = give tt
  published (some publish) a (key, digest) =
      call phase_publish (codes "could not publish the build over the previous one")
        (publish a.node key digest)

  -- `promote`
  unfoldable pub promote : Assignment → Act W (Unit {0})
  unfolding logf
  promote a =
      call phase_promote (codes "could not promote the build's sandbox")
        (h.promote a.node a.sandbox_name spec.template)
      >>= λ made.
          logf h id phase_promote
            (codes "promoted as " ++ (made.0.template ++ (codes ", content digest " ++ made.1)))
          >>= λ _. published h.publish a made

  -- `release`; its error only reaches the log of the process.
  unfoldable pub release : Assignment → Sys W → Sys W
  release a s = let (_, w) = h.release a.node a.sandbox_name s.world in record s { world = w }

  -- `fail`
  unfoldable pub fail : Text → Text → Sys W → Sys W
  unfolding log finish
  fail phase msg s =
      let now = h.now s.world in
      record s {
        exec = finish now id failed phase msg (log now id phase (codes "error") msg s.exec);
      }

  abbrev pub concluded : Assignment → Ran (Unit {0}) × Sys W → Ran (Unit {0}) × Sys W
  concluded a (gives _, s) =
      let s' = release a s in
      (gives tt, record s' { exec = finish (h.now s'.world) id ready [] [] s'.exec })
  concluded a (fails phase msg e, s) = (gives tt, fail phase msg (release a s))
  concluded a (panics, s) = (panics, s)

  abbrev pub on_claim : Result Assignment → Act W (Unit {0})
  on_claim (err e) s = (gives tt, fail phase_claim (claim_message spec.pool e) s)
  on_claim (ok a) s =
      let seconds = s.exec.timeout / 10 ^ 9 in
      concluded a (
        (logf h id phase_claim (codes "claimed " ++ (a.sandbox_name ++ (codes " on " ++ a.node)))
            >>= λ _. prepare seconds a >>= λ _. promote a)
          s)

  -- `run`; when it panics, nothing after that point is done.
  unfoldable pub run : Act W (Unit {0})
  unfolding logf prepare promote release fail finish free_slot
  run s =
      let (_, s1) =
        logf h id phase_claim (codes "claiming a sandbox from " ++ pool_text spec.pool) s in
      let (claimed, w) =
        h.claim spec.namespace spec.claim_name spec.pool (s1.exec.timeout / 10 ^ 9) s1.world in
      let (r, s2) = on_claim claimed (record s1 { world = w }) in
      (r, record s2 { exec = free_slot s2.exec })
