-- ===== src/EnvdProxy/Admission.antt =====
-- Who the resolver of pkg/envdproxy/resolver.go admits.
use sandbox_operator.Prelude.{
  ℕ, ◌+◌, ◌≡◌, refl, sym, ◌∙◌, subst, Bool, true, false, not, Option, none, some, arith,
  if◌then◌else◌, ◌==◌, text_beq_iff, Text, is_empty, text_eq, nat_eq,
}
use sandbox_operator.Prelude.Dict
use sandbox_operator.Prelude.Dict.{get-put, NodupKeys, put-NodupKeys}
use sandbox_operator.Errors.{Error, sentinel, err_access_denied, Result, ok, err, is_not_found}
use sandbox_operator.SandboxId.{claim_id, matches_id}
use sandbox_operator.Scale.Entry.{Sandbox}
use sandbox_operator.Scale.Resolve.{first_hit, get_by_claim_id}
use sandbox_operator.Storage.{claim_id_of}
use sandbox_operator.EnvdProxy.{trim_space}
use sandbox_operator.EnvdProxy.Recent.{
  Owner, RecentOwner, sift_found, get_recent, put_recent, make_room, alive, recent_owner_ttl,
  get-make_room, make_room-NodupKeys,
}
use sandbox_operator.EnvdProxy.Resolver.{
  Asks, Resolver, Admission, admit, owner_on, entry, or_none, kept, probed, probe, read_back,
  read_owner, located, or_located, find_owner, owner,
}

-- The access token of every recent owner is the one that its claim token derives.
pub record IsDerived (w : Asks) (s : Resolver) : Type 0 where
  pub unique : NodupKeys s.recent
  pub derived :
      (id : Text) (e : RecentOwner)
      → Dict.get id s.recent ≡ some e
      → e.access ≡ w.derive e.owner.token

-- A judge that gives only owners that `P` holds of.
abbrev pub Judges : Asks → Admission → (Owner → Type 0) → Type 0
Judges w judge P =
    (e : RecentOwner) (o : Owner) → e.access ≡ w.derive e.owner.token → judge e ≡ ok o → P o

module _ (w : Asks) (judge : Admission) (P : Owner → Type 0) (fair : Judges w judge P) where
  -- An answer that keeps the recent owners derived, and gives only owners that `P` holds of.
  Fair : Result Owner × Resolver → Type 0
  Fair x = IsDerived w x.1 × ((o : Owner) → x.0 ≡ ok o → P o)

  Fair-err : (e : Error) (s : Resolver) → IsDerived w s → Fair (err e, s)
  unfolding Fair
  Fair-err e s h = (h, λ o x. absurd (ground arith))

  if_entry :
      (b : Bool) (x e : RecentOwner) (o : Option RecentOwner)
      → (if b then some x else o) ≡ some e
      → x.access ≡ w.derive x.owner.token
      → (o ≡ some e → e.access ≡ w.derive e.owner.token)
      → e.access ≡ w.derive e.owner.token
  if_entry true x e o h hx ho =
      let is : x ≡ e = ground arith in
      subst (λ (y : RecentOwner). y.access ≡ w.derive y.owner.token) is hx
  if_entry false x e o h hx ho = ho h

  put-IsDerived :
      (id : Text) (now : ℕ) (o : Owner) (s : Resolver)
      → IsDerived w s
      → IsDerived w (record s { recent = put_recent id (entry w o) now s.recent })
  unfolding put_recent entry
  put-IsDerived id now o s h = record {
    unique = put-NodupKeys id _ _ (make_room-NodupKeys now s.recent h.unique);
    derived = λ j e g.
        if_entry (id == j) (record (entry w o) { until = now + recent_owner_ttl }) e
          (Dict.get j (make_room now s.recent)) (sym (get-put j id _ (make_room now s.recent)) ∙ g)
          refl (λ k. h.derived j e (get-make_room j now s.recent e h.unique k));
  }

  kept-Fair :
      (id : Text) (now : ℕ) (o : Owner) (s : Resolver)
      → IsDerived w s
      → Fair (kept w id now o judge s)
  unfolding Fair entry
  kept-Fair id now o s h = (put-IsDerived id now o s h, λ o' x. fair (entry w o) o' refl x)

  probed-Fair :
      (id : Text) (now : ℕ) (s : Resolver) (r : Result (Option Owner))
      → IsDerived w s
      → Fair (probed w id now judge s r)
  probed-Fair id now s (err e) h = Fair-err e s h
  probed-Fair id now s (ok none) h = Fair-err _ s h
  probed-Fair id now s (ok (some o)) h = kept-Fair id now o s h

  if-Fair : (b : Bool) (x y : Result Owner × Resolver) → Fair x → Fair y → Fair (if b then x else y)
  if-Fair true x y hx hy = hx
  if-Fair false x y hx hy = hy

  probe-Fair :
      (allow : Bool) (id : Text) (now : ℕ) (claim : Text) (s : Resolver)
      → IsDerived w s
      → Fair (probe w allow id now claim judge s)
  unfolding probe
  probe-Fair allow id now claim s h =
      if-Fair (not allow) _ _ (Fair-err _ s h)
        (probed-Fair id now s (first_hit w.reads (λ node. or_none w (owner_on w node claim))) h)

  read_back-Fair :
      (id : Text) (now : ℕ) (s : Resolver) (r : Result Owner)
      → IsDerived w s
      → Fair (read_back w id now judge s r)
  read_back-Fair id now s (err e) h = Fair-err _ s h
  read_back-Fair id now s (ok o) h = kept-Fair id now o s h

  located-Fair :
      (allow : Bool) (id : Text) (now : ℕ) (s : Resolver) (r : Result Sandbox)
      → IsDerived w s
      → Fair (located w allow id now judge s r)
  unfolding read_owner
  located-Fair allow id now s (err e) h =
      if-Fair (is_not_found e) _ _ (probe-Fair allow id now (claim_id id) s h) (Fair-err e s h)
  located-Fair allow id now s (ok sb) h =
      if-Fair (is_empty sb.node_name) _ _ (Fair-err _ s h)
        (read_back-Fair id now s (owner_on w sb.node_name (claim_id_of sb)) h)

  or_located-Fair :
      (allow : Bool) (id : Text) (now : ℕ) (s : Resolver) (found : Option RecentOwner)
      → ((e : RecentOwner) → found ≡ some e → e.access ≡ w.derive e.owner.token)
      → IsDerived w s
      → Fair (or_located w allow id now judge s found)
  unfolding Fair
  or_located-Fair allow id now s (some e) d h = (h, λ o x. fair e o (d e refl) x)
  or_located-Fair allow id now s none d h =
      let x =
        get_by_claim_id w.reads w.namespace (claim_id id) (λ c. matches_id w.rewrite c id)
          s.index in
      located-Fair allow id now (record s { index = x.0 }) x.1
        (record { unique = h.unique; derived = h.derived })

  pub find_owner-Fair :
      (allow : Bool) (id : Text) (now : ℕ) (s : Resolver)
      → IsDerived w s
      → IsDerived w (find_owner w allow id now judge s).1
        × ((o : Owner) → (find_owner w allow id now judge s).0 ≡ ok o → P o)
  unfolding find_owner get_recent Fair
  find_owner-Fair allow id now s h =
      if-Fair (is_empty (trim_space w.unicode id)) _ _ (Fair-err _ s h) (
        or_located-Fair allow id now s (get_recent id now s.recent)
          (λ e g. h.derived id e (sift_found (alive now) _ e g).0) h)

if_admitted :
    (b : Bool) (x o : Owner)
    → (if not b then err (sentinel err_access_denied) else ok x) ≡ ok o
    → (x ≡ o) × (b ≡ true)
if_admitted true x o h = ground arith
if_admitted false x o h = absurd (ground arith)

admit-derived :
    (w : Asks) (access_token : Text) (e : RecentOwner) (o : Owner)
    → e.access ≡ w.derive e.owner.token
    → admit access_token e ≡ ok o
    → access_token ≡ w.derive o.token
unfolding admit
admit-derived w access_token e o d h =
    let (is, b) = if_admitted (e.access == access_token) e.owner o h in
    subst (λ (x : Owner). access_token ≡ w.derive x.token) is
      (sym ((text_beq_iff e.access access_token).0 b) ∙ d)

-- An owner, and with it the token that opens the sandbox's relay, is given only to the access token
-- that derives from this very token, whichever way the owner was found, in a table of recent owners
-- that are derived; and it stays such a table.
pub owner-IsDerived :
    (w : Asks) (allow : Bool) (id access_token : Text) (now : ℕ) (s : Resolver)
    → IsDerived w s
    → IsDerived w (owner w allow id access_token now s).1
      × ((o : Owner)
          → (owner w allow id access_token now s).0 ≡ ok o
          → access_token ≡ w.derive o.token)
unfolding owner
owner-IsDerived w allow id access_token now s h =
    find_owner-Fair w (admit access_token) (λ o. access_token ≡ w.derive o.token)
      (admit-derived w access_token) allow id now s h
