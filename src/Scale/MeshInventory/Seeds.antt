-- ===== src/Scale/MeshInventory/Seeds.antt =====
-- pkg/scale/meshinventory/source.go: which members a tick forgets.
use sandbox_operator.Prelude.{
  ℕ, suc, ◌≡◌, refl, ap, inl, inr, Bool, true, false, Option, none, some, List, [], ◌∷◌, arith,
  if◌then◌else◌, Bool-cases, ◌==◌, text_beq_iff, Text, keys, is_some, text_eq, nat_eq,
}
use sandbox_operator.Prelude.Dict
use sandbox_operator.Prelude.Dict.{Dict, get-put, get-delete, get-nil, get-cons}
use sandbox_operator.Scale.MeshInventory.{
  Member, Members, Answer, answered, silent, named_by, heard_any, age, cons_some, age_all, seed_at,
  own, own_answer, own_all, new_member, join, tick,
}

module _ (a : Text) where
  -- A seed stays one.
  abbrev Kept : Members → Members → Type 0
  Kept d d' = seed_at a d ≡ true → seed_at a d' ≡ true

  age-seed :
      (max_stale : ℕ) (heard : Bool) (named : List Text) (addr : Text) (x : Answer) (m : Member)
      → m.seed ≡ true
      → (n : Member) × (age max_stale heard named addr x m ≡ some n) × (n.seed ≡ true)
  unfolding age
  age-seed max_stale heard named addr (answered inv peers) m h = (_, refl, h)
  age-seed max_stale heard named addr (silent e) m h =
      (record m { fails = suc m.fails }, ground arith, h)

  cons_some-other :
      (addr : Text) (o : Option Member) (d : Members)
      → (addr == a) ≡ false
      → Dict.get a (cons_some addr o d) ≡ Dict.get a d
  cons_some-other addr none d h = refl
  cons_some-other addr (some m) d h = ground (arith, get-cons a addr m d)

  age_all-Kept :
      (ask : Text → Answer) (max_stale : ℕ) (heard : Bool) (named : List Text) (d : Members)
      → Kept d (age_all ask max_stale heard named d)
  unfolding age_all
  age_all-Kept ask max_stale heard named [] h = h
  age_all-Kept ask max_stale heard named ((addr, m) ∷ d) h =
      let rest = age_all ask max_stale heard named d in
      elim (Bool-cases (addr == a)) [
        | inl e ↦
            let (n, k, s) =
              age-seed max_stale heard named addr (ask addr) m
                (ground (arith, get-cons a addr m d)) in
            ground (arith, get-cons a addr n rest)
        | inr e ↦ ground (
          arith,
          get-cons a addr m d,
          age_all-Kept ask max_stale heard named d,
          cons_some-other addr (age max_stale heard named addr (ask addr) m) rest e,
        )
      ]

  own-Kept :
      (addr key : Text) (o : Option Text) (x : Members × Dict Text Text)
      → Kept x.0 (own addr key o x).0
  unfolding own
  own-Kept addr key none (d, owner) h = h
  own-Kept addr key (some other) (d, owner) h = ground (
    arith,
    get-delete a other d,
    get-delete a addr d,
    text_beq_iff other a,
    text_beq_iff addr a,
    ap (λ i. seed_at i d),
  )

  own_answer-Kept :
      (addr : Text) (y : Answer) (x : Members × Dict Text Text) → Kept x.0 (own_answer addr y x).0
  own_answer-Kept addr (silent e) x h = h
  own_answer-Kept addr (answered inv peers) (d, owner) h =
      own-Kept addr inv.node (Dict.get inv.node owner) (d, owner) h

  if-Kept :
      (b : Bool) (x y : Members × Dict Text Text)
      → seed_at a x.0 ≡ true
      → seed_at a y.0 ≡ true
      → seed_at a (if b then x else y).0 ≡ true
  if-Kept true x y h k = h
  if-Kept false x y h k = k

  own_all-Kept :
      (ask : Text → Answer) (addrs : List Text) (x : Members × Dict Text Text)
      → Kept x.0 (own_all ask addrs x).0
  unfolding own_all
  own_all-Kept ask [] x h = h
  own_all-Kept ask (addr ∷ addrs) x h = own_all-Kept ask addrs _ (
      if-Kept (is_some (Dict.get addr x.0)) (own_answer addr (ask addr) x) x
        (own_answer-Kept addr (ask addr) x h) h)

  join-Kept :
      (addrs : List Text) (owner : Dict Text Text) (d : Members) → Kept d (join addrs owner d)
  unfolding join
  join-Kept [] owner d h = h
  join-Kept (addr ∷ addrs) owner d h = join-Kept addrs owner _ (
      ground
        (arith, get-put a addr (new_member false) d, text_beq_iff addr a, ap (λ i. Dict.get i d)))

-- Whatever the members answer, a seed stays a seed member through a tick: it is neither forgotten
-- when it stops answering nor merged away into another member of its node.
pub tick-seed :
    (ask : Text → Answer) (max_stale : ℕ) (members : Members) (addr : Text)
    → seed_at addr members ≡ true
    → seed_at addr (tick ask max_stale members) ≡ true
unfolding tick
tick-seed ask max_stale members addr h =
    let named = named_by ask members in
    let aged = age_all ask max_stale (heard_any ask members) named members in
    let owned = own_all ask (keys aged) (aged, []) in
    join-Kept addr named owned.1 owned.0 (
      own_all-Kept addr ask (keys aged) (aged, [])
        (age_all-Kept addr ask max_stale (heard_any ask members) named members h))
