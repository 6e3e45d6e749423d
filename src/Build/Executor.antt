-- ===== src/Build/Executor.antt =====
-- pkg/e2bbuild/executor.go: the table of builds that the API reads and the running builds write.
-- Each operation holds the executor's lock, so it is one step. Times are in nanoseconds.
use sandbox_operator.Prelude.{
  ℕ, ◌+◌, ◌-◌, ◌*◌, ◌^◌, Bool, true, false, not, ◌&&◌, ◌||◌, Option, none, some, [], ◌∷◌, ◌++◌, ltb,
  leb, if◌then◌else◌, length, keep, Text, text_eq,
}
use sandbox_operator.Prelude.Dict
use sandbox_operator.Prelude.Dict.{Dict}
use sandbox_operator.Errors.{sentinel, err_build_busy, err_unknown_build, Result, ok, err}
use sandbox_operator.Build.{Request, LogEntry, Status, waiting, building, Info, Build}

-- `Executor`; `busy` is the number of tokens in the channel `slots`, `parallel` its capacity.
pub record Executor : Type 0 where
  pub parallel : ℕ
  pub busy : ℕ
  pub timeout : ℕ
  pub log_lines : ℕ
  pub builds : Dict Text Build

abbrev pub record_ttl : ℕ
record_ttl = 3600 * 10 ^ 9

-- `New`
unfoldable pub new_executor : ℕ → ℕ → ℕ → Executor
new_executor parallel timeout log_lines = record {
  parallel = parallel;
  busy = 0;
  timeout = timeout;
  log_lines = log_lines;
  builds = [];
}

abbrev pub is_waiting : Status → Bool
is_waiting waiting = true
is_waiting _ = false

abbrev pub done_before : ℕ → Option ℕ → Bool
done_before now none = false
done_before now (some t) = ltb (t + record_ttl) now

-- What `sweep` deletes at the time `now`.
abbrev pub is_stale : ℕ → Build → Bool
is_stale now r =
    done_before now r.finished || (is_waiting r.info.status && ltb (r.registered + record_ttl) now)

-- `Executor.sweep`
unfoldable pub sweep : ℕ → Executor → Executor
sweep now e = record e { builds = keep (λ b. not (is_stale now b.1)) e.builds }

abbrev pub fresh_info : Info
fresh_info = record { status = waiting; logs = []; failed_phase = []; failure = [] }

-- `Executor.Register`
unfoldable pub register : ℕ → Text → Request → Executor → Executor
unfolding sweep
register now id req e =
    let swept = sweep now e in
    let r : Build = record { req = req; info = fresh_info; registered = now; finished = none } in
    record swept { builds = Dict.put id r swept.builds }

abbrev request_of : Option Build → Option Request
request_of none = none
request_of (some r) = some r.req

-- `Executor.Request`
unfoldable pub request : Text → Executor → Option Request
request id e = request_of (Dict.get id e.builds)

-- `e.builds[id]` changed in place by `f`, when it is there.
abbrev pub on_build : Text → (Build → Build) → Executor → Option Build → Executor
on_build id f e none = e
on_build id f e (some r) = record e { builds = Dict.put id (f r) e.builds }

abbrev pub change : Text → (Build → Build) → Executor → Executor
change id f e = on_build id f e (Dict.get id e.builds)

abbrev pub set_status : Status → Build → Build
set_status status r = record r { info = record r.info { status = status } }

abbrev pub start_found : Text → Executor → Option Build → Result Bool × Executor
start_found id e none = (err (sentinel err_unknown_build), e)
start_found id e (some r) =
    if not (is_waiting r.info.status)
    then (ok false, e)
    else if not (ltb e.busy e.parallel)
    then (err (sentinel err_build_busy), e)
    else (
      ok true,
      record e { busy = e.busy + 1; builds = Dict.put id (set_status building r) e.builds },
    )

-- `Executor.Start`; the Boolean says whether the call starts `run` in the background.
unfoldable pub start : Text → Executor → Result Bool × Executor
start id e = start_found id e (Dict.get id e.builds)

abbrev info_of : Option Build → Option Info
info_of none = none
info_of (some r) = some r.info

-- `Executor.Status`
unfoldable pub status : ℕ → Text → Executor → Option Info × Executor
unfolding sweep
status now id e = let swept = sweep now e in (info_of (Dict.get id swept.builds), swept)

abbrev pub add_log : ℕ → LogEntry → Build → Build
add_log limit entry r =
    if leb limit (length r.info.logs)
    then r
    else record r { info = record r.info { logs = r.info.logs ++ (entry ∷ []) } }

-- `Executor.log`
unfoldable pub log : ℕ → Text → Text → Text → Text → Executor → Executor
log now id phase level message e =
    change id
      (add_log e.log_lines (record { time = now; level = level; message = message; phase = phase }))
      e

abbrev pub settle : ℕ → Status → Text → Text → Build → Build
settle now status phase failure r = record r {
  info = record r.info { status = status; failed_phase = phase; failure = failure };
  finished = some now;
}

-- `Executor.finish`
unfoldable pub finish : ℕ → Text → Status → Text → Text → Executor → Executor
finish now id status phase failure e = change id (settle now status phase failure) e

-- `<-e.slots`, when `run` returns
unfoldable pub free_slot : Executor → Executor
free_slot e = record e { busy = e.busy - 1 }
