-- ===== src/Build/History/Invariant.antt =====
-- pkg/e2bbuild/executor.go: what holds of the table of builds after any steps.
use sandbox_operator.Prelude.{
  ℕ, ◌+◌, ◌≤◌, ◌≡◌, refl, sym, ◌∙◌, Bool, true, false, not, Option, none, some, List, [], ◌∷◌, ◌++◌,
  arith, if◌then◌else◌, ◌==◌, text_beq_iff, length, Text, is_some, text_eq, nat_eq,
}
use sandbox_operator.Prelude.Dict
use sandbox_operator.Prelude.Dict.{
  get-put, get-keep, sift, put-NodupKeys, keep-NodupKeys, NodupKeys,
}
use sandbox_operator.Build.{Status, waiting, building, ready, failed, Build}
use sandbox_operator.Build.Executor.{
  Executor, is_waiting, is_stale, done_before, sweep, change, on_build,
}
use sandbox_operator.Build.History.{System}

-- How often an id stands in a list.
abbrev pub count : Text → List Text → ℕ
count id [] = 0
count id (x ∷ xs) = (if x == id then 1 else 0) + count id xs

pub count-append : (id : Text) (xs ys : List Text) → count id (xs ++ ys) ≡ count id xs + count id ys
count-append id [] ys = omega arith
count-append id (x ∷ xs) ys = omega (arith, count-append id xs ys)

abbrev pub is_building : Status → Bool
is_building building = true
is_building _ = false

abbrev pub is_final : Status → Bool
is_final ready = true
is_final failed = true
is_final _ = false

-- A build has a finishing time just when its status is final, and its log keeps to the limit.
abbrev pub Sound : ℕ → Option Build → Type 0
Sound limit none = Unit
Sound limit (some r) = (length r.info.logs ≤ limit) × (is_some r.finished ≡ is_final r.info.status)

-- 1 for a build that is building, else 0
abbrev pub builds_now : Option Build → ℕ
builds_now none = 0
builds_now (some r) = if is_building r.info.status then 1 else 0

-- Slots are taken by the calls of `run` alone and never more than there are, exactly the builds
-- that are building have an unfinished `run`, one each, and every build is sound.
pub record IsSound (s : System) : Type 0 where
  pub unique : NodupKeys s.exec.builds
  pub slots : s.exec.busy ≡ length s.running + s.leaving
  pub bounded : s.exec.busy ≤ s.exec.parallel
  pub owned : (id : Text) → count id s.running ≡ builds_now (Dict.get id s.exec.builds)
  pub sound : (id : Text) → Sound s.exec.log_lines (Dict.get id s.exec.builds)

abbrev pub mapped : (Build → Build) → Option Build → Option Build
mapped f none = none
mapped f (some r) = some (f r)

-- What `change` does to each build.
on_build-builds :
    (j id : Text) (f : Build → Build) (e : Executor) (o : Option Build)
    → o ≡ Dict.get id e.builds
    → Dict.get j (on_build id f e o).builds
      ≡ (if id == j then mapped f (Dict.get j e.builds) else Dict.get j e.builds)
on_build-builds j id f e none h = ground (arith, text_beq_iff id j)
on_build-builds j id f e (some r) h = ground (arith, get-put j id (f r) e.builds, text_beq_iff id j)

pub get-change :
    (j id : Text) (f : Build → Build) (e : Executor)
    → Dict.get j (change id f e).builds
      ≡ (if id == j then mapped f (Dict.get j e.builds) else Dict.get j e.builds)
get-change j id f e = on_build-builds j id f e (Dict.get id e.builds) refl

pub is_waiting→building :
    (st : Status) → is_waiting st ≡ true → (is_building st ≡ false) × (is_final st ≡ false)
is_waiting→building waiting h = (refl, refl)
is_waiting→building building h = absurd (ground arith)
is_waiting→building ready h = absurd (ground arith)
is_waiting→building failed h = absurd (ground arith)

pub is_building→unfinished :
    (st : Status) → is_building st ≡ true → (is_waiting st ≡ false) × (is_final st ≡ false)
is_building→unfinished building h = (refl, refl)
is_building→unfinished waiting h = absurd (ground arith)
is_building→unfinished ready h = absurd (ground arith)
is_building→unfinished failed h = absurd (ground arith)

done_before-none : (now : ℕ) (o : Option ℕ) → is_some o ≡ false → done_before now o ≡ false
done_before-none now none h = refl
done_before-none now (some t) h = absurd (ground arith)

-- No sweep deletes a build that is building.
pub is_stale-building :
    (now limit : ℕ) (r : Build)
    → Sound limit (some r)
    → is_building r.info.status ≡ true
    → is_stale now r ≡ false
is_stale-building now limit r (_, f) b =
    let (w, n) = is_building→unfinished r.info.status b in
    rw (done_before-none now r.finished (f ∙ n), w) refl

pub sift-builds_now :
    (now limit : ℕ) (o : Option Build)
    → Sound limit o
    → builds_now (sift (λ r. not (is_stale now r)) o) ≡ builds_now o
sift-builds_now now limit none h = refl
sift-builds_now now limit (some r) h = ground (arith, is_stale-building now limit r h)

pub sift-Sound :
    (p : Build → Bool) (limit : ℕ) (o : Option Build) → Sound limit o → Sound limit (sift p o)
sift-Sound p limit none h = tt
sift-Sound p limit (some r) h = ground arith

pub sweep-IsSound :
    (now : ℕ) (s : System) → IsSound s → IsSound (record s { exec = sweep now s.exec })
unfolding sweep
sweep-IsSound now s h = record {
  unique = keep-NodupKeys (λ r. not (is_stale now r)) s.exec.builds h.unique;
  slots = h.slots;
  bounded = h.bounded;
  owned = λ id.
      rw (get-keep (λ r. not (is_stale now r)) id s.exec.builds h.unique)
        (h.owned id ∙ sym (sift-builds_now now s.exec.log_lines _ (h.sound id)));
  sound = λ id.
      rw (get-keep (λ r. not (is_stale now r)) id s.exec.builds h.unique)
        (sift-Sound _ s.exec.log_lines _ (h.sound id));
}

pub if-Sound :
    (b : Bool) (limit : ℕ) (x y : Option Build)
    → Sound limit x
    → Sound limit y
    → Sound limit (if b then x else y)
if-Sound true limit x y hx hy = hx
if-Sound false limit x y hx hy = hy

-- How many builds of an id are building, after the entry of one id is set.
pub if-builds_now :
    (b : Bool) (n m : ℕ) (x y : Option Build)
    → (b ≡ true → n ≡ builds_now x)
    → (b ≡ false → n ≡ builds_now y)
    → n ≡ builds_now (if b then x else y)
if-builds_now true n m x y hx hy = hx refl
if-builds_now false n m x y hx hy = hy refl
