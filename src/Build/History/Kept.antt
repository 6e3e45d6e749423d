-- ===== src/Build/History/Kept.antt =====
-- pkg/e2bbuild/executor.go: every step on the table of builds keeps what holds of it.
use sandbox_operator.Prelude.{
  ℕ, suc, ◌+◌, ◌<◌, ◌≡◌, refl, sym, ap, ◌∙◌, subst, true, false, Option, none, some, List, [], ◌∷◌,
  ◌++◌, arith, ◌==◌, text_beq_iff, beq_refl, length-append, Text, text_eq, nat_eq,
}
use sandbox_operator.Prelude.Dict
use sandbox_operator.Prelude.Dict.{
  get-put, get-keep, sift, put-NodupKeys, keep-NodupKeys, NodupKeys,
}
use sandbox_operator.Errors.{ok}
use sandbox_operator.Build.{Request, LogEntry, Status, waiting, building, ready, failed, Build}
use sandbox_operator.Build.Executor.{
  Executor, new_executor, is_waiting, register, start_found, start, status, log, finish, free_slot,
  on_build, set_status, add_log, settle,
}
use sandbox_operator.Build.History.{
  System, IsFinal, ends_ready, ends_failed, ◌⟶◌, registers, starts, polls, logs, finishes, returns,
  ◌⟶*◌, stays, steps,
}
use sandbox_operator.Build.History.Invariant.{
  count, count-append, is_building, is_final, Sound, builds_now, IsSound, is_waiting→building,
  if-Sound, if-builds_now, sweep-IsSound,
}

pub register-IsSound :
    (now : ℕ) (id : Text) (req : Request) (s : System)
    → Dict.get id s.exec.builds ≡ none
    → IsSound s
    → IsSound (record s { exec = register now id req s.exec })
unfolding register
register-IsSound now id req s fresh h =
    let g = sweep-IsSound now s h in
    let owner-none : (j : Text) → Dict.get j s.exec.builds ≡ none → count j s.running ≡ 0 =
      λ j e. h.owned j ∙ ap builds_now e in
    record {
      unique = put-NodupKeys id _ _ g.unique;
      slots = g.slots;
      bounded = g.bounded;
      owned = λ j. rw get-put (
          if-builds_now (id == j) _ 0 _ _
            (λ e.
              owner-none j
                (ap (λ i. Dict.get i s.exec.builds) (sym ((text_beq_iff id j).0 e)) ∙ fresh))
            (λ _. g.owned j));
      sound = λ j. rw get-put (if-Sound (id == j) _ _ _ (omega arith, refl) (g.sound j));
    }

-- What a start that runs the build has found and done.
pub start_found-inv :
    (id : Text) (e : Executor) (o : Option Build)
    → (start_found id e o).0 ≡ ok true
    → (r : Build) × (o ≡ some r)
      × (is_waiting r.info.status ≡ true)
      × (e.busy < e.parallel)
      × ((start_found id e o).1
          ≡ record e { busy = e.busy + 1; builds = Dict.put id (set_status building r) e.builds })
start_found-inv id e none h = absurd (ground arith)
start_found-inv id e (some r) h = (r, refl, ground arith, ground arith, ground arith)

pub start-IsSound :
    (id : Text) (s : System)
    → (start id s.exec).0 ≡ ok true
    → IsSound s
    → IsSound (record s { exec = (start id s.exec).1; running = id ∷ s.running })
unfolding start
start-IsSound id s began h =
    let (r, e, w, free, made) = start_found-inv id s.exec (Dict.get id s.exec.builds) began in
    let (b, f) = is_waiting→building r.info.status w in
    let was : Sound s.exec.log_lines (some r) = subst (Sound s.exec.log_lines) e (h.sound id) in
    let idle : builds_now (some r) ≡ 0 = rw b refl in
    let held : count id s.running ≡ 0 = h.owned id ∙ (ap builds_now e ∙ idle) in
    subst (λ e'. IsSound (record s { exec = e'; running = id ∷ s.running })) (sym made)
      (record {
        unique = put-NodupKeys id _ _ h.unique;
        slots = omega (arith, h.slots);
        bounded = omega (arith, free);
        owned = λ j. rw get-put (
            if-builds_now (id == j) _ 0 _ _
              (λ same. rw same (
                omega
                  (arith, subst (λ i. count i s.running ≡ 0) ((text_beq_iff id j).0 same) held)))
              (λ other. rw other (omega (arith, h.owned j))));
        sound = λ j. rw get-put (if-Sound (id == j) _ _ _ (was.0, was.1 ∙ f) (h.sound j));
      })

add_log-Sound :
    (limit : ℕ) (entry : LogEntry) (r : Build)
    → Sound limit (some r)
    → Sound limit (some (add_log limit entry r))
add_log-Sound limit entry r h = ground (arith, length-append r.info.logs (entry ∷ []))

add_log-builds_now :
    (limit : ℕ) (entry : LogEntry) (r : Build)
    → builds_now (some (add_log limit entry r)) ≡ builds_now (some r)
add_log-builds_now limit entry r = ground arith

pub count-finish :
    (id : Text) (before after : List Text)
    → count id (before ++ id ∷ after) ≡ suc (count id (before ++ after))
count-finish id before after = rw (count-append, count-append, beq_refl id) (omega arith)

count-other :
    (j id : Text) (before after : List Text)
    → (id == j) ≡ false
    → count j (before ++ id ∷ after) ≡ count j (before ++ after)
count-other j id before after h = rw (count-append, count-append, h) (omega arith)

log_found-IsSound :
    (id : Text) (entry : LogEntry) (s : System) (o : Option Build)
    → o ≡ Dict.get id s.exec.builds
    → IsSound s
    → IsSound (record s { exec = on_build id (add_log s.exec.log_lines entry) s.exec o })
log_found-IsSound id entry s none e h = h
log_found-IsSound id entry s (some r) e h = record {
  unique = put-NodupKeys id _ _ h.unique;
  slots = h.slots;
  bounded = h.bounded;
  owned = λ j. rw get-put (
      if-builds_now (id == j) _ 0 _ _
        (λ same.
          h.owned j
          ∙ (ap (λ i. builds_now (Dict.get i s.exec.builds)) (sym ((text_beq_iff id j).0 same))
              ∙ (ap builds_now (sym e) ∙ sym (add_log-builds_now _ entry r))))
        (λ _. h.owned j));
  sound = λ j. rw get-put (
      if-Sound (id == j) _ _ _
        (add_log-Sound _ entry r (subst (Sound s.exec.log_lines) (sym e) (h.sound id)))
        (h.sound j));
}

pub log-IsSound :
    (now : ℕ) (id phase level msg : Text) (s : System)
    → IsSound s
    → IsSound (record s { exec = log now id phase level msg s.exec })
unfolding log
log-IsSound now id phase level msg s h = log_found-IsSound id _ s (Dict.get id s.exec.builds) refl h

settled : (st : Status) → IsFinal st → (is_building st ≡ false) × (is_final st ≡ true)
settled ready ends_ready = (refl, refl)
settled failed ends_failed = (refl, refl)
settled waiting final = elim final [ ]
settled building final = elim final [ ]

-- A build with an unfinished `run` is building.
pub owned-building :
    (n : ℕ) (o : Option Build)
    → suc n ≡ builds_now o
    → (n ≡ 0) × (r : Build) × (o ≡ some r) × (is_building r.info.status ≡ true)
owned-building n none h = absurd (omega arith)
owned-building n (some r) h = (ground arith, r, refl, ground arith)

pub finish-IsSound :
    (e : Executor) (before after : List Text) (leaving now : ℕ) (id phase msg : Text) (st : Status)
    → IsFinal st
    → IsSound (record { exec = e; running = before ++ id ∷ after; leaving = leaving })
    → IsSound (record {
      exec = finish now id st phase msg e;
      running = before ++ after;
      leaving = leaving + 1;
    })
unfolding finish
finish-IsSound e before after leaving now id phase msg st final h =
    let (none_left, r, found, b) =
      owned-building (count id (before ++ after)) (Dict.get id e.builds)
        (sym (count-finish id before after) ∙ h.owned id) in
    let (over, over') = settled st final in
    let was : Sound e.log_lines (some r) = subst (Sound e.log_lines) found (h.sound id) in
    let rest : List Text = before ++ after in
    subst
      (λ o. IsSound (record {
        exec = on_build id (settle now st phase msg) e o;
        running = rest;
        leaving = leaving + 1;
      }))
      (sym found)
      (record {
        unique = put-NodupKeys id _ _ h.unique;
        slots = h.slots ∙ rw (length-append, length-append) (omega arith);
        bounded = h.bounded;
        owned = λ j. rw get-put (
            if-builds_now (id == j) _ 0 _ _
              (λ same.
                subst (λ i. count i rest ≡ 0) ((text_beq_iff id j).0 same) none_left
                ∙ sym (rw over refl))
              (λ other. sym (count-other j id before after other) ∙ h.owned j));
        sound = λ j. rw get-put (if-Sound (id == j) _ _ _ (was.0, sym over') (h.sound j));
      })

pub step-IsSound : {s t : System} → s ⟶ t → IsSound s → IsSound t
unfolding status free_slot
step-IsSound (registers s now id req fresh) h = register-IsSound now id req s fresh h
step-IsSound (starts s id began) h = start-IsSound id s began h
step-IsSound (polls s now id) h = sweep-IsSound now s h
step-IsSound (logs s now id phase level msg) h = log-IsSound now id phase level msg s h
step-IsSound (finishes e before after leaving now id phase msg st final) h =
    finish-IsSound e before after leaving now id phase msg st final h
step-IsSound (returns e running leaving) h = record {
  unique = h.unique;
  slots = omega (arith, h.slots);
  bounded = omega (arith, h.bounded);
  owned = h.owned;
  sound = h.sound;
}

-- From a new executor on, whatever the order of the calls and of the running builds' steps: no more
-- builds run than there are slots, a build that is building has exactly one unfinished `run`, no
-- log is longer than the limit, and a build has a finishing time just when it is over.
pub steps-IsSound : {s t : System} → s ⟶* t → IsSound s → IsSound t
steps-IsSound (stays s) h = h
steps-IsSound (steps one more) h = steps-IsSound more (step-IsSound one h)

pub new_executor-IsSound :
    (parallel timeout log_lines : ℕ)
    → IsSound (record { exec = new_executor parallel timeout log_lines; running = []; leaving = 0 })
unfolding new_executor Dict.get
new_executor-IsSound parallel timeout log_lines = record {
  unique = tt;
  slots = omega arith;
  bounded = omega arith;
  owned = λ id. refl;
  sound = λ id. tt;
}
