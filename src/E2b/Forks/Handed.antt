-- ===== src/E2b/Forks/Handed.antt =====
-- What becomes of the children of a fork, for pkg/e2bcompat/lifecycle.go and envd.go.
use sandbox_operator.Prelude.{
  ℕ, ◌≤◌, ◌≡◌, refl, ◌⊎◌, inl, inr, Option, none, some, List, [], ◌∷◌, map, arith, All, Text,
}
use sandbox_operator.Errors.{Error, Result, ok, err}
use sandbox_operator.SandboxId.{public_id}
use sandbox_operator.Scale.Claim.{Assignment}
use sandbox_operator.Scale.Entry.{Sandbox}
use sandbox_operator.E2b.{
  Call, releases, marks, inits, Backend, Server, View, views, Reply, refuses, answers, Step, goes,
  replies, by_status, verb_error, template_of, sandbox_of,
}
use sandbox_operator.E2b.Forks.{
  init_after, hand_over, first_error, hand_over_all, release_all, handed, forked,
}

-- A refusal with a client's or a server's error as its status.
abbrev pub Refuses : Reply → Type 0
Refuses (refuses code msg) = 400 ≤ code
Refuses (answers code body) = ⊥

by_status-Refuses : (msg : Text) (o : Option (ℕ × Text)) → Refuses (by_status msg o)
by_status-Refuses msg none = omega arith
by_status-Refuses msg (some (code, m)) = ground arith

abbrev pub Has : Call → List Call → Type 0
Has c [] = ⊥
Has c (x ∷ calls) = (x ≡ c) ⊎ Has c calls

module _ (b : Backend) where
  verb_error-Refuses : (id msg : Text) (e : Error) → Refuses (verb_error b id msg e)
  unfolding verb_error
  verb_error-Refuses id msg e = ground (arith, by_status-Refuses msg)

  -- The call was made, and it succeeded; the calls stand newest first.
  abbrev pub Took : Call → List Call → Type 0
  Took c [] = ⊥
  Took c (x ∷ before) = ((x ≡ c) × (b.perform before c ≡ ok tt)) ⊎ Took c before

  -- The call was made, and it failed.
  abbrev pub Refused : Call → List Call → Type 0
  Refused c [] = ⊥
  Refused c (x ∷ before) =
      ((x ≡ c) × ((e : Error) × (b.perform before c ≡ err e))) ⊎ Refused c before

  abbrev mark_of : Assignment → Call
  mark_of c = marks c.node c.sandbox_name (b.hash_document (b.derive c.token))

  abbrev init_of : Assignment → Call
  init_of c = inits c.node c.sandbox_name (b.derive c.token)

  -- The child's metadata took the hash of its access token, and its envd took the token.
  abbrev pub Taken : List Call → Assignment → Type 0
  Taken calls c = Took (mark_of c) calls × Took (init_of c) calls

  -- One of these two calls failed.
  abbrev pub NotTaken : List Call → Assignment → Type 0
  NotTaken calls c = Refused (mark_of c) calls ⊎ Refused (init_of c) calls

  abbrev pub Any : (Assignment → Type 0) → List Assignment → Type 0
  Any P [] = ⊥
  Any P (c ∷ cs) = P c ⊎ Any P cs

  -- The reply lists the children in their order, each under its id with its own token.
  abbrev pub Lists : List Assignment → List View → Type 0
  Lists [] [] = Unit
  Lists (c ∷ cs) (v ∷ vs) =
      (v.sandbox_id ≡ public_id b.rewrite c.sandbox_name)
      × (v.client_id ≡ c.node)
      × (v.access_token ≡ b.derive c.token)
      × Lists cs vs
  Lists [] (v ∷ vs) = ⊥
  Lists (c ∷ cs) [] = ⊥

  abbrev pub Settled : List Call → Result (List Assignment) → Step Reply × List Call → Type 0
  Settled before (err e) (goes r, calls) = ⊥
  Settled before (err e) (replies r, calls) = Refuses r × (calls ≡ before)
  Settled before (ok children) (goes r, calls) =
      All (Taken calls) children
      × ((vs : List View) × (r ≡ answers 201 (views vs)) × Lists children vs)
  Settled before (ok children) (replies r, calls) =
      Refuses r
      × Any (NotTaken calls) children
      × All (λ c. Has (releases c.node c.sandbox_name) calls) children

  -- What the hand-over of one child, and of several, leaves.
  abbrev HandedOne : Assignment → Option Error × List Call → Type 0
  HandedOne c (none, calls) = Taken calls c
  HandedOne c (some e, calls) = NotTaken calls c

  abbrev HandedAll : List Assignment → Option Error × List Call → Type 0
  HandedAll cs (none, calls) = All (Taken calls) cs
  HandedAll cs (some e, calls) = Any (NotTaken calls) cs

  inited-One :
      (c : Assignment) (before : List Call) (r : Result (Unit {0}))
      → b.perform before (init_of c) ≡ r
      → Took (mark_of c) before
      → HandedOne c
          (elim r as (λ _. Option Error) [ err e ↦ some e | ok _ ↦ none ], init_of c ∷ before)
  inited-One c before (ok _) e m = (inr m, inl (refl, e))
  inited-One c before (err x) e m = inr (inl (refl, (x, e)))

  init_after-One :
      (c : Assignment) (calls : List Call) (r : Result (Unit {0}))
      → b.perform calls (mark_of c) ≡ r
      → HandedOne c (init_after b c (mark_of c ∷ calls) r)
  init_after-One c calls (ok _) e =
      inited-One c (mark_of c ∷ calls) (b.perform (mark_of c ∷ calls) (init_of c)) refl
        (inl (refl, e))
  init_after-One c calls (err x) e = inl (inl (refl, (x, e)))

  hand_over-One : (c : Assignment) (calls : List Call) → HandedOne c (hand_over b c calls)
  unfolding hand_over
  hand_over-One c calls = init_after-One c calls (b.perform calls (mark_of c)) refl

  -- A property of the calls that later calls keep.
  module _ (P : List Call → Type 0) (keeps : (x : Call) (l : List Call) → P l → P (x ∷ l)) where
    init_after-keeps :
        (c : Assignment) (calls : List Call) (r : Result (Unit {0}))
        → P calls
        → P (init_after b c calls r).1
    init_after-keeps c calls (ok _) h = keeps _ calls h
    init_after-keeps c calls (err e) h = h

    hand_over_all-keeps :
        (cs : List Assignment) (calls : List Call) → P calls → P (hand_over_all b cs calls).1
    unfolding hand_over_all hand_over
    hand_over_all-keeps [] calls h = h
    hand_over_all-keeps (c ∷ cs) calls h =
        hand_over_all-keeps cs _ (init_after-keeps c _ _ (keeps _ calls h))

    release_all-keeps :
        (cs : List Assignment) (calls : List Call) → P calls → P (release_all b cs calls)
    unfolding release_all
    release_all-keeps [] calls h = h
    release_all-keeps (c ∷ cs) calls h = release_all-keeps cs _ (keeps _ calls h)

  NotTaken-keeps : (c : Assignment) (x : Call) (l : List Call) → NotTaken l c → NotTaken (x ∷ l) c
  NotTaken-keeps c x l (inl h) = inl (inr h)
  NotTaken-keeps c x l (inr h) = inr (inr h)

  first_error-All :
      (c : Assignment) (cs : List Assignment) (e f : Option Error) (calls : List Call)
      → HandedOne c (e, calls)
      → HandedAll cs (f, calls)
      → HandedAll (c ∷ cs) (first_error b e f, calls)
  first_error-All c cs none none calls h hs = (h, hs)
  first_error-All c cs none (some x) calls h hs = inr hs
  first_error-All c cs (some x) f calls h hs = inl h

  HandedOne-later :
      (c : Assignment) (cs : List Assignment) (e : Option Error) (calls : List Call)
      → HandedOne c (e, calls)
      → HandedOne c (e, (hand_over_all b cs calls).1)
  HandedOne-later c cs none calls h =
      hand_over_all-keeps (λ l. Taken l c) (λ x l k. (inr k.0, inr k.1)) cs calls h
  HandedOne-later c cs (some e) calls h =
      hand_over_all-keeps (λ l. NotTaken l c) (NotTaken-keeps c) cs calls h

  hand_over_all-All :
      (cs : List Assignment) (calls : List Call) → HandedAll cs (hand_over_all b cs calls)
  unfolding hand_over_all
  hand_over_all-All [] calls = tt
  hand_over_all-All (c ∷ cs) calls =
      let one = hand_over b c calls in
      first_error-All c cs one.0 (hand_over_all b cs one.1).0 (hand_over_all b cs one.1).1
        (HandedOne-later c cs one.0 one.1 (hand_over-One c calls)) (hand_over_all-All cs one.1)

  Any-keeps :
      (cs : List Assignment) (x : Call) (l : List Call)
      → Any (NotTaken l) cs
      → Any (NotTaken (x ∷ l)) cs
  Any-keeps [] x l h = elim h [ ]
  Any-keeps (c ∷ cs) x l (inl h) = inl (NotTaken-keeps c x l h)
  Any-keeps (c ∷ cs) x l (inr h) = inr (Any-keeps cs x l h)

  release_all-Has :
      (cs : List Assignment) (calls : List Call)
      → All (λ c. Has (releases c.node c.sandbox_name) (release_all b cs calls)) cs
  unfolding release_all
  release_all-Has [] calls = tt
  release_all-Has (c ∷ cs) calls = (
    release_all-keeps (Has (releases c.node c.sandbox_name)) (λ x l h. inr h) cs _ (inl refl),
    release_all-Has cs _,
  )

  module _ (s : Server) (ns id : Text) where
    Lists-map :
        (template : Text) (cs : List Assignment)
        → Lists cs (map (λ c. sandbox_of b s template c.sandbox_name c.node (b.derive c.token)) cs)
    unfolding sandbox_of
    Lists-map template [] = tt
    Lists-map template (c ∷ cs) = (refl, refl, refl, Lists-map template cs)

    handed-Settled :
        (before : List Call) (template : Text) (cs : List Assignment) (e : Option Error)
        (calls : List Call)
        → HandedAll cs (e, calls)
        → Settled before (ok cs) (handed b s ns id template cs (e, calls))
    handed-Settled before template cs (some e) calls h = (
      verb_error-Refuses id _ e,
      release_all-keeps (λ l. Any (NotTaken l) cs) (Any-keeps cs) cs calls h,
      release_all-Has cs calls,
    )
    handed-Settled before template cs none calls h = (h, (_, refl, Lists-map template cs))

    -- A fork that the node refuses is answered with an error, and calls nothing more. The children of
    -- any other fork are all answered, or none is: either every child's metadata took the hash of its
    -- access token and its envd took the token, and the reply is a 201 that lists the children in
    -- order with their ids, nodes and tokens; or one of these calls failed, the reply is an error,
    -- and the release of every child was called, whatever that call answered.
    pub forked-Settled :
        (sb : Sandbox) (children : Result (List Assignment)) (calls : List Call)
        → Settled calls children (forked b s ns id sb children calls)
    forked-Settled sb (err e) calls = (verb_error-Refuses id _ e, refl)
    forked-Settled sb (ok children) calls =
        let x = hand_over_all b children calls in
        handed-Settled calls (template_of sb) children x.0 x.1 (hand_over_all-All children calls)
