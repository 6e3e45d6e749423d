-- ===== src/Scale/NodeIndex/History.antt =====
-- pkg/scale/nodeindex.go: what a lookup answers, in terms of the calls before it.
use sandbox_operator.Prelude.{
  ℕ, ◌+◌, ◌≤◌, ◌<◌, ◌≡◌, refl, sym, ◌∙◌, ◌≢◌, ◌⊎◌, inl, inr, false, ◌||◌, Option, none, some, List,
  [], ◌∷◌, ◌++◌, arith, if◌then◌else◌, Option-cases, ◌==◌, list_beq_iff, length, Text, is_empty,
  text_eq, nat_eq,
}
use sandbox_operator.Prelude.Dict
use sandbox_operator.Prelude.Dict.{get-put, get-nil, length-put-le}
use sandbox_operator.Scale.NodeIndex.{
  NodeIndex, Op, looks, remembers, store_locked, lookup, remember, step, run, new_node_index,
}

-- What the two generations hold for a key; the current one wins.
unfoldable pub held : Text → NodeIndex → Option Text
held key x = elim (Dict.get key x.cur) [ some node ↦ some node | none ↦ Dict.get key x.prev ]

-- The specification: the node of the last accepted `remember` of the key, over all calls.
unfoldable pub noted : Text → Op → Option Text → Option Text
noted key (looks j) last = last
noted key (remembers j node) last =
    if is_empty j || is_empty node then last else if j == key then some node else last

unfoldable pub last_noted : Text → List Op → Option Text → Option Text
unfolding noted
last_noted key [] last = last
last_noted key (o ∷ os) last = last_noted key os (noted key o last)

-- `o` answers nothing but what `p` answers.
abbrev pub AtMost : Option Text → Option Text → Type 0
AtMost o p = (node : Text) → o ≡ some node → p ≡ some node

lookup-eq-held : (key : Text) (x : NodeIndex) → (lookup key x).1 ≡ held key x
unfolding lookup held
lookup-eq-held key x = ground arith

held-store_locked :
    (key j node : Text) (x : NodeIndex)
    → AtMost (held key (store_locked j node x)) (if j == key then some node else held key x)
unfolding held store_locked
held-store_locked key j node x m e =
    ground
      (arith, get-put key j node x.cur, get-put key j node [], get-nil {K = Text} {V = Text} key)

held_prev :
    (j key node : Text) (x : NodeIndex)
    → Dict.get j x.cur ≡ none
    → Dict.get j x.prev ≡ some node
    → j ≡ key
    → held key x ≡ some node
unfolding held
held_prev j key node x e f same = rw (← same) (ground arith)

held-step :
    (key : Text) (o : Op) (x : NodeIndex) (last : Option Text)
    → AtMost (held key x) last
    → AtMost (held key (step o x)) (noted key o last)
unfolding step remember noted lookup
held-step key (looks j) x last h m e = elim (Option-cases (Dict.get j x.prev)) [
  | inr (node, f) ↦
      ground
        (arith, held-store_locked key j node x m, h m, list_beq_iff j key, held_prev j key node x)
  | inl f ↦ ground (arith, h m)
]
held-step key (remembers j node) x last h m e =
    ground (arith, held-store_locked key j node x m, h m)

held-run :
    (key : Text) (os : List Op) (x : NodeIndex) (last : Option Text)
    → AtMost (held key x) last
    → AtMost (held key (run os x)) (last_noted key os last)
unfolding run last_noted
held-run key [] x last h = h
held-run key (o ∷ os) x last h =
    held-run key os (step o x) (noted key o last) (held-step key o x last h)

-- Whatever calls came before, a lookup in an index that began empty answers nothing, or the node of
-- the last `remember` of that key that had a key and a node.
pub lookup-run :
    (n : ℕ) (key node : Text) (os : List Op)
    → (lookup key (run os (new_node_index n))).1 ≡ some node
    → last_noted key os none ≡ some node
unfolding new_node_index held
lookup-run n key node os e =
    held-run key os (new_node_index n) none
      (λ m h. ground (arith, get-nil {K = Text} {V = Text} key)) node
      (sym (lookup-eq-held key _) ∙ e)

-- A key in the current generation, or in the one before while at most `j` keys came since.
abbrev IsFresh : ℕ → Text → NodeIndex → Type 0
IsFresh j key x = (Dict.get key x.cur ≢ none) ⊎ ((Dict.get key x.prev ≢ none) × (length x.cur ≤ j))

store_locked-IsFresh :
    (j : ℕ) (key k node : Text) (x : NodeIndex)
    → j < x.max_entries
    → IsFresh j key x
    → IsFresh (j + 1) key (store_locked k node x)
unfolding store_locked
store_locked-IsFresh j key k node x h f = ground (
  arith,
  get-put key k node x.cur,
  get-put key k node [],
  get-nil {K = Text} {V = Text} key,
  length-put-le k node x.cur,
  length-put-le k node [],
)

step-IsFresh :
    (j : ℕ) (key : Text) (o : Op) (x : NodeIndex)
    → j < x.max_entries
    → IsFresh j key x
    → IsFresh (j + 1) key (step o x)
unfolding step remember lookup
step-IsFresh j key (looks k) x h f = elim (Option-cases (Dict.get k x.prev)) [
  | inr (node, e) ↦ ground (arith, store_locked-IsFresh j key k node x h f)
  | inl e ↦ ground arith
]
step-IsFresh j key (remembers k node) x h f =
    ground (arith, store_locked-IsFresh j key k node x h f)

max_entries-step : (o : Op) (x : NodeIndex) → (step o x).max_entries ≡ x.max_entries
unfolding step remember lookup store_locked
max_entries-step (looks key) x = ground arith
max_entries-step (remembers key node) x = ground arith

run-IsFresh :
    (j : ℕ) (key : Text) (os : List Op) (x : NodeIndex)
    → j + length os ≤ x.max_entries
    → IsFresh j key x
    → IsFresh (j + length os) key (run os x)
unfolding run
run-IsFresh j key [] x h f = ground arith
run-IsFresh j key (o ∷ os) x h f =
    ground
      (arith, max_entries-step o x, run-IsFresh (j + 1) key os (step o x), step-IsFresh j key o x)

pub max_entries-remember :
    (key node : Text) (x : NodeIndex) → (remember key node x).max_entries ≡ x.max_entries
unfolding remember store_locked
max_entries-remember key node x = ground arith

held-fresh : {j : ℕ} (key : Text) (x : NodeIndex) → held key x ≡ none → IsFresh j key x → ⊥
unfolding held
held-fresh key x e f = ground arith

remember-IsFresh :
    (key node : Text) (x : NodeIndex)
    → is_empty key ≡ false
    → is_empty node ≡ false
    → (held key (remember key node x) ≡ some node) × IsFresh 0 key (remember key node x)
unfolding remember store_locked held
remember-IsFresh key node x h k =
    ground (arith, get-put key key node x.cur, get-put key key node [], list_beq_iff key key)

-- A remembered node answers a lookup of its key as long as no more calls were made since than one
-- generation holds, unless a later `remember` of the key replaced it: then the last one does.
pub lookup-run-remember :
    (key node : Text) (os : List Op) (x : NodeIndex)
    → is_empty key ≡ false
    → is_empty node ≡ false
    → length os ≤ x.max_entries
    → (lookup key (run os (remember key node x))).1 ≡ last_noted key os (some node)
lookup-run-remember key node os x h k fits = elim (Option-cases (held key z)) [
  | inr (m, e) ↦
      lookup-eq-held key z ∙ e ∙ sym (held-run key os y (some node) (λ p q. sym seen.0 ∙ q) m e)
  | inl e ↦ absurd (lost e)
]
  where
    y : NodeIndex
    y = remember key node x

    z : NodeIndex
    z = run os y

    seen : (held key y ≡ some node) × IsFresh 0 key y
    seen = remember-IsFresh key node x h k

    fresh : IsFresh (0 + length os) key z
    fresh = run-IsFresh 0 key os y (omega (arith, max_entries-remember key node x)) seen.1

    lost : held key z ≡ none → ⊥
    lost e = held-fresh key z e fresh

pub run-append : (os ps : List Op) (x : NodeIndex) → run (os ++ ps) x ≡ run ps (run os x)
unfolding run
run-append [] ps x = refl
run-append (o ∷ os) ps x = run-append os ps (step o x)

-- A second `remember` of the same node does not change what the first one's key answers.
pub noted_same :
    (key other node : Text) (os : List Op)
    → last_noted key (remembers other node ∷ os) (some node) ≡ last_noted key os (some node)
unfolding last_noted noted
noted_same key other node os = ground arith
