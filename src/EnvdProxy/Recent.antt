-- ===== src/EnvdProxy/Recent.antt =====
-- pkg/envdproxy/resolver.go: the table of owners found in the last minute. Times are in nanoseconds.
use sandbox_operator.Prelude.{
  ℕ, ◌+◌, ◌*◌, ◌^◌, ◌≤◌, ◌<◌, ◌≡◌, refl, sym, ap, ◌∙◌, subst, ◌⊎◌, inl, inr, Bool, true, false,
  Option, none, some, List, [], ◌∷◌, arith, leb, if◌then◌else◌, leb→le, le→leb, ◌==◌, text_beq_iff,
  beq_refl, length, keep, Text, text_eq, nat_eq,
}
use sandbox_operator.Prelude.Dict
use sandbox_operator.Prelude.Dict.{
  Dict, get-put, get-keep, sift, length-put-le, NodupKeys, put-NodupKeys, keep-NodupKeys,
}

-- `Owner`
pub record Owner : Type 0 where
  pub claim_id : Text
  pub address : Text
  pub token : Text

-- `recentOwner`
pub record RecentOwner : Type 0 where
  pub owner : Owner
  pub access : Text
  pub until : ℕ

-- `recentOwners`
abbrev pub Recent : Type 0
Recent = Dict Text RecentOwner

abbrev pub recent_owner_ttl : ℕ
recent_owner_ttl = 60 * 10 ^ 9

abbrev pub recent_owner_max : ℕ
recent_owner_max = 4096

-- `!now.After(e.until)`
abbrev pub alive : ℕ → RecentOwner → Bool
alive now e = leb now e.until

-- `recentOwners.get`
unfoldable pub get_recent : Text → ℕ → Recent → Option RecentOwner
get_recent id now m = sift (alive now) (Dict.get id m)

abbrev pub cleared : Recent → Recent
cleared m = if leb recent_owner_max (length m) then [] else m

abbrev pub make_room : ℕ → Recent → Recent
make_room now m =
    if leb recent_owner_max (length m) then cleared (keep (λ e. alive now e.1) m) else m

-- `recentOwners.put`
unfoldable pub put_recent : Text → RecentOwner → ℕ → Recent → Recent
put_recent id e now m = Dict.put id (record e { until = now + recent_owner_ttl }) (make_room now m)

-- Calls of `put`, the last one first.
pub record Put : Type 0 where
  pub id : Text
  pub entry : RecentOwner
  pub now : ℕ

unfoldable pub after_puts : List Put → Recent
unfolding put_recent
after_puts [] = []
after_puts (p ∷ ps) = put_recent p.id p.entry p.now (after_puts ps)

make_room-lt : (now : ℕ) (m : Recent) → length (make_room now m) < recent_owner_max
make_room-lt now m = ground arith

-- The table never holds more entries than its limit, whatever is put in.
pub after_puts-bounded : (ps : List Put) → length (after_puts ps) ≤ recent_owner_max
unfolding after_puts put_recent
after_puts-bounded [] = omega arith
after_puts-bounded (p ∷ ps) =
    let room = make_room-lt p.now (after_puts ps) in
    omega (
      arith,
      room,
      length-put-le p.id (record p.entry { until = p.now + recent_owner_ttl })
          (make_room p.now (after_puts ps)),
    )

if-NodupKeys :
    (b : Bool) (m n : Recent) → NodupKeys m → NodupKeys n → NodupKeys (if b then m else n)
if-NodupKeys true m n hm hn = hm
if-NodupKeys false m n hm hn = hn

pub make_room-NodupKeys : (now : ℕ) (m : Recent) → NodupKeys m → NodupKeys (make_room now m)
make_room-NodupKeys now m u =
    if-NodupKeys (leb recent_owner_max (length m)) _ _
      (if-NodupKeys (leb recent_owner_max (length (keep (λ e. alive now e.1) m))) [] _ tt
        (keep-NodupKeys (alive now) m u))
      u

after_puts-NodupKeys : (ps : List Put) → NodupKeys (after_puts ps)
unfolding after_puts put_recent
after_puts-NodupKeys [] = tt
after_puts-NodupKeys (p ∷ ps) =
    put-NodupKeys p.id _ _ (make_room-NodupKeys p.now _ (after_puts-NodupKeys ps))

-- An entry that was put for `id`, as it is, and that is still good at `now`.
abbrev pub PutFor : Text → ℕ → RecentOwner → Put → Type 0
PutFor id now e p =
    (p.id ≡ id)
    × (e ≡ record p.entry { until = p.now + recent_owner_ttl })
    × (now ≤ p.now + recent_owner_ttl)

abbrev pub PutLately : Text → ℕ → RecentOwner → List Put → Type 0
PutLately id now e [] = ⊥
PutLately id now e (p ∷ ps) = PutFor id now e p ⊎ PutLately id now e ps

if_found :
    (b : Bool) (x e : RecentOwner) → (if b then some x else none) ≡ some e → (x ≡ e) × (b ≡ true)
if_found true x e h = ground arith
if_found false x e h = absurd (ground arith)

pub sift_found :
    (p : RecentOwner → Bool) (o : Option RecentOwner) (e : RecentOwner)
    → sift p o ≡ some e
    → (o ≡ some e) × (p e ≡ true)
sift_found p none e h = absurd (ground arith)
sift_found p (some x) e h =
    let (is, b) = if_found (p x) x e h in (ap some is, subst (λ y. p y ≡ true) is b)

if_get :
    (b : Bool) (id : Text) (x y m : Recent) (e : RecentOwner)
    → Dict.get id (if b then x else y) ≡ some e
    → (Dict.get id x ≡ some e → Dict.get id m ≡ some e)
    → (Dict.get id y ≡ some e → Dict.get id m ≡ some e)
    → Dict.get id m ≡ some e
if_get true id x y m e h hx hy = hx h
if_get false id x y m e h hx hy = hy h

none-some : (e : RecentOwner) → none ≡ some e → ⊥
none-some e h = ground arith

pub get-make_room :
    (id : Text) (now : ℕ) (m : Recent) (e : RecentOwner)
    → NodupKeys m
    → Dict.get id (make_room now m) ≡ some e
    → Dict.get id m ≡ some e
get-make_room id now m e u h =
    let kept = keep (λ x. alive now x.1) m in
    if_get (leb recent_owner_max (length m)) id (cleared kept) m m e h
      (λ g.
        if_get (leb recent_owner_max (length kept)) id [] kept m e g
          (λ n. absurd (none-some e (sym (Dict.get-nil id) ∙ n)))
          (λ k. (sift_found (alive now) _ e (sym (get-keep (alive now) id m u) ∙ k)).0))
      (λ g. g)

PutFor-or :
    (b : Bool) (id : Text) (now : ℕ) (p : Put) (ps : List Put) (e x : RecentOwner)
    (o : Option RecentOwner)
    → (if b then some x else o) ≡ some e
    → (b ≡ true → x ≡ e → PutFor id now e p)
    → (o ≡ some e → PutLately id now e ps)
    → PutLately id now e (p ∷ ps)
PutFor-or true id now p ps e x o h here there = inl (here refl (ground arith))
PutFor-or false id now p ps e x o h here there = inr (there h)

get-PutLately :
    (ps : List Put) (id : Text) (now : ℕ) (e : RecentOwner)
    → now ≤ e.until
    → Dict.get id (after_puts ps) ≡ some e
    → PutLately id now e ps
unfolding after_puts put_recent
get-PutLately [] id now e l h = none-some e (sym (Dict.get-nil id) ∙ h)
get-PutLately (p ∷ ps) id now e l h =
    let entry : RecentOwner = record p.entry { until = p.now + recent_owner_ttl } in
    let room = make_room p.now (after_puts ps) in
    PutFor-or (p.id == id) id now p ps e entry (Dict.get id room)
      (sym (get-put id p.id entry room) ∙ h)
      (λ same is. ((text_beq_iff p.id id).0 same, sym is, subst (λ x. now ≤ x.until) (sym is) l))
      (λ g.
        get-PutLately ps id now e l
          (get-make_room id p.now (after_puts ps) e (after_puts-NodupKeys ps) g))

-- After any calls of `put`, an entry that the table gives for an id was put for that id, as it is, at
-- most a minute before: no id is given another's owner, and no owner is given out for longer.
pub get_recent-PutLately :
    (ps : List Put) (id : Text) (now : ℕ) (e : RecentOwner)
    → get_recent id now (after_puts ps) ≡ some e
    → PutLately id now e ps
unfolding get_recent
get_recent-PutLately ps id now e h =
    let (g, a) = sift_found (alive now) _ e h in get-PutLately ps id now e (leb→le now e.until a) g

-- The table gives back what was put, for a minute.
pub get_recent-put_recent :
    (id : Text) (e : RecentOwner) (put_at now : ℕ) (m : Recent)
    → now ≤ put_at + recent_owner_ttl
    → get_recent id now (put_recent id e put_at m)
      ≡ some (record e { until = put_at + recent_owner_ttl })
unfolding get_recent put_recent
get_recent-put_recent id e put_at now m h =
    rw (get-put, beq_refl id, le→leb now (put_at + recent_owner_ttl) h) refl
