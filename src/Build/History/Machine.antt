-- ===== src/Build/History/Machine.antt =====
-- The life of one build as the API shows it, and the table of builds of pkg/e2bbuild/executor.go as
-- an implementation of it.
use sandbox_operator.Prelude.{
  ℕ, ◌≡◌, refl, sym, ap, ◌∙◌, subst, inl, inr, Bool, true, false, not, Option, none, some, ◌∷◌,
  ◌++◌, arith, if◌then◌else◌, Bool-cases, ◌==◌, text_beq_iff, Text, text_eq, nat_eq,
}
use sandbox_operator.Prelude.Dict
use sandbox_operator.Prelude.Dict.{get-put, get-keep, sift, NodupKeys}
use sandbox_operator.Errors.{ok}
use sandbox_operator.Build.{Request, LogEntry, Status, waiting, building, ready, failed, Build}
use sandbox_operator.Build.Executor.{
  is_waiting, is_stale, sweep, register, start, status, log, finish, free_slot, add_log, settle,
}
use sandbox_operator.Build.History.{
  System, IsFinal, ◌⟶◌, registers, starts, polls, logs, finishes, returns,
}
use sandbox_operator.Build.History.Invariant.{
  count, is_building, Sound, IsSound, mapped, get-change, is_stale-building,
}
use sandbox_operator.Build.History.Kept.{count-finish, owned-building, start_found-inv}

-- What a step on the table means for one build: it registers it, starts its `run`, finishes it with
-- a status, or is another call.
pub data Act : Type 0 where
  registering : Act
  starting : Act
  ending : Status → Act
  other : Act

-- What each act may do to a build. Another call does nothing to it, or forgets it, when it is not
-- building.
pub data Moves : Act → Option Status → Option Status → Type 0 where
  appears : Moves registering none (some waiting)
  begins : Moves starting (some waiting) (some building)
  ends : {st : Status} → IsFinal st → Moves (ending st) (some building) (some st)
  same : (o : Option Status) → Moves other o o
  forgets : {st : Status} → is_building st ≡ false → Moves other (some st) none

-- What a step is to the build of an id.
unfoldable pub act_on : {s t : System} → Text → s ⟶ t → Act
act_on j (registers s now id req fresh) = if id == j then registering else other
act_on j (starts s id began) = if id == j then starting else other
act_on j (polls s now id) = other
act_on j (logs s now id phase level msg) = other
act_on j (finishes e before after leaving now id phase msg st final) =
    if id == j then ending st else other
act_on j (returns e running leaving) = other

abbrev pub status_of : Option Build → Option Status
status_of none = none
status_of (some r) = some r.info.status

-- The abstract state: the status of each build that is there.
abbrev pub shown : System → Text → Option Status
shown s id = status_of (Dict.get id s.exec.builds)

if-Moves :
    (b : Bool) (a : Act) (o : Option Status) (x y : Option Build)
    → (b ≡ true → Moves a o (status_of x))
    → (b ≡ false → Moves other o (status_of y))
    → Moves (if b then a else other) o (status_of (if b then x else y))
if-Moves true a o x y hx hy = hx refl
if-Moves false a o x y hx hy = hy refl

if-other :
    (b : Bool) (o : Option Status) (x y : Option Build)
    → Moves other o (status_of x)
    → Moves other o (status_of y)
    → Moves other o (status_of (if b then x else y))
if-other true o x y hx hy = hx
if-other false o x y hx hy = hy

to-Moves : {o p : Option Status} → o ≡ p → Moves other o p
to-Moves {o} e = subst (λ p. Moves other o p) e (same o)

sift-Moves :
    (now limit : ℕ) (o : Option Build)
    → Sound limit o
    → Moves other (status_of o) (status_of (sift (λ r. not (is_stale now r)) o))
sift-Moves now limit none h = same none
sift-Moves now limit (some r) h = elim (Bool-cases (is_building r.info.status)) [
  | inl b ↦ rw (is_stale-building now limit r h b) (same _)
  | inr n ↦ if-other (not (is_stale now r)) _ (some r) none (same _) (forgets n)
]

sweep-Moves :
    (now : ℕ) (s : System) (id : Text)
    → IsSound s
    → Moves other (shown s id) (status_of (Dict.get id (sweep now s.exec).builds))
unfolding sweep
sweep-Moves now s id h =
    rw (get-keep (λ r. not (is_stale now r)) id s.exec.builds h.unique)
      (sift-Moves now s.exec.log_lines _ (h.sound id))

waiting_of : (st : Status) → is_waiting st ≡ true → st ≡ waiting
waiting_of waiting h = refl
waiting_of building h = absurd (ground arith)
waiting_of ready h = absurd (ground arith)
waiting_of failed h = absurd (ground arith)

building_of : (st : Status) → is_building st ≡ true → st ≡ building
building_of building h = refl
building_of waiting h = absurd (ground arith)
building_of ready h = absurd (ground arith)
building_of failed h = absurd (ground arith)

-- The status that an id shows, when its entry is known under an id that is the same.
shown_same :
    (s : System) (id j : Text) (o : Option Build)
    → Dict.get id s.exec.builds ≡ o
    → (id == j) ≡ true
    → shown s j ≡ status_of o
shown_same s id j o found e =
    ap (λ i. shown s i) (sym ((text_beq_iff id j).0 e)) ∙ ap status_of found

register-Moves :
    (s : System) (now : ℕ) (id j : Text) (req : Request)
    → Dict.get id s.exec.builds ≡ none
    → IsSound s
    → Moves
        (if id == j then registering else other)
        (shown s j)
        (status_of (Dict.get j (register now id req s.exec).builds))
unfolding register
register-Moves s now id j req fresh h = rw get-put (
    if-Moves (id == j) registering _ _ _
      (λ e.
        subst (λ o. Moves registering o (some waiting)) (sym (shown_same s id j none fresh e))
          appears)
      (λ _. sweep-Moves now s j h))

start-Moves :
    (s : System) (id j : Text)
    → (start id s.exec).0 ≡ ok true
    → Moves
        (if id == j then starting else other)
        (shown s j)
        (status_of (Dict.get j (start id s.exec).1.builds))
unfolding start
start-Moves s id j began =
    let (r, found, w, _, made) = start_found-inv id s.exec (Dict.get id s.exec.builds) began in
    subst
      (λ e.
        Moves (if id == j then starting else other) (shown s j) (status_of (Dict.get j e.builds)))
      (sym made)
      (rw get-put (
        if-Moves (id == j) starting _ _ _
          (λ e.
            subst (λ o. Moves starting o (some building))
              (sym (shown_same s id j (some r) found e ∙ ap some (waiting_of _ w))) begins)
          (λ _. same _)))

add_log-status :
    (limit : ℕ) (entry : LogEntry) (o : Option Build)
    → status_of o ≡ status_of (mapped (add_log limit entry) o)
add_log-status limit entry none = refl
add_log-status limit entry (some r) = ground arith

log-Moves :
    (s : System) (now : ℕ) (id j phase level msg : Text)
    → Moves other (shown s j) (status_of (Dict.get j (log now id phase level msg s.exec).builds))
unfolding log
log-Moves s now id j phase level msg =
    rw get-change
      (if-other (id == j) _ _ _ (to-Moves (add_log-status s.exec.log_lines _ _)) (same _))

-- The status of a build after its `run` has finished it.
finish-Moves :
    (s : System) (now : ℕ) (id j phase msg : Text) (st : Status) (r : Build)
    → IsFinal st
    → Dict.get id s.exec.builds ≡ some r
    → is_building r.info.status ≡ true
    → Moves
        (if id == j then ending st else other)
        (shown s j)
        (status_of (Dict.get j (finish now id st phase msg s.exec).builds))
unfolding finish
finish-Moves s now id j phase msg st r final found b = rw get-change (
    if-Moves (id == j) (ending st) _ _ _
      (λ e.
        subst
          (λ o. Moves (ending st) (status_of o) (status_of (mapped (settle now st phase msg) o)))
          (sym (ap (λ i. Dict.get i s.exec.builds) (sym ((text_beq_iff id j).0 e)) ∙ found))
          (subst (λ p. Moves (ending st) (some p) (some st)) (sym (building_of _ b)) (ends final)))
      (λ _. same _))

-- The table of builds implements that machine for every id at once: from a state that is sound, each
-- step moves each build as the machine does at what the step is to that build. Only a registration
-- makes a build appear; a start that runs a build takes it from waiting to building, so that a build
-- that is building or over is not started again; a `run` ends only a build that is building; and no
-- other call changes a status, or forgets a build that is building.
pub step_refines :
    {s t : System} (id : Text) (one : s ⟶ t)
    → IsSound s
    → Moves (act_on id one) (shown s id) (shown t id)
unfolding act_on status free_slot
step_refines j (registers s now id req fresh) h = register-Moves s now id j req fresh h
step_refines j (starts s id began) h = start-Moves s id j began
step_refines j (polls s now id) h = sweep-Moves now s j h
step_refines j (logs s now id phase level msg) h = log-Moves s now id j phase level msg
step_refines j (finishes e before after leaving now id phase msg st final) h =
    let (_, r, found, b) =
      owned-building (count id (before ++ after)) (Dict.get id e.builds)
        (sym (count-finish id before after) ∙ h.owned id) in
    finish-Moves (record { exec = e; running = before ++ id ∷ after; leaving = leaving }) now id j
      phase msg st r final found b
step_refines j (returns e running leaving) h = same _
