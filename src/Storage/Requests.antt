-- ===== src/Storage/Requests.antt =====
-- pkg/scale/apiserver/storage.go: what a creation claims and what a deletion releases.
use sandbox_operator.Prelude.{
  ℕ, ◌+◌, ◌-◌, ◌*◌, ◌/◌, ◌≤◌, ◌<◌, ◌≡◌, refl, ◌∙◌, subst, Bool, true, false, not, some, List, [],
  ◌∷◌, arith, nat_beq, if◌then◌else◌, ◌==◌, list_beq, Text, codes, is_empty, or_else, text_eq,
  nat_eq,
}
use sandbox_operator.Prelude.Dict
use sandbox_operator.Prelude.Dict.{Dict, get-put, get-nil}
use sandbox_operator.Prelude.Int.{ℤ, pos}
use native.Mathlib.Nat.{div-add-mod, mod-lt}
use sandbox_operator.Errors.{Error, Result, ok, err, ◌>>=◌, ◌>>◌, require, or_error}
use sandbox_operator.Scale.Claim.{Assignment}
use sandbox_operator.Scale.Entry.{Codecs, Sandbox}
use sandbox_operator.Storage.{
  Submitted, Created, World, second, pool_key_for_sandbox, ttl_of, ttl_seconds_for_sandbox,
  claim_id_annotation, put_text, synthesize_claimed_sandbox, name_of, claim_error, claim_options,
  create, claim_id_of, released, teardown, on_found, delete,
}

-- The claim behind a deletion that is reported done.
abbrev pub Released : World → Text → Text → Sandbox → List (Text × Text) → Type 0
Released w namespace name sb calls =
    (w.get namespace name ≡ ok sb)
    × (w.release sb.node_name (claim_id_of sb) ≡ ok tt)
    × (calls ≡ (sb.node_name, claim_id_of sb) ∷ [])
    × (is_empty sb.node_name ≡ false)
    × (is_empty (claim_id_of sb) ≡ false)

released-ok :
    (node id : Text) (sb t : Sandbox) (r : Result (Unit {0}))
    → (released node id sb r).1 ≡ ok t
    → (sb ≡ t) × (r ≡ ok tt) × ((released node id sb r).0 ≡ (node, id) ∷ [])
released-ok node id sb t (ok _) h = (cc, refl, refl)
released-ok node id sb t (err e) h = cc

teardown-ok :
    (w : World) (sb t : Sandbox) (r : Result (Unit {0}))
    → (teardown w sb r).1 ≡ ok t
    → (sb ≡ t)
      × (w.release sb.node_name (claim_id_of sb) ≡ ok tt)
      × ((teardown w sb r).0 ≡ (sb.node_name, claim_id_of sb) ∷ [])
      × (is_empty sb.node_name ≡ false)
      × (is_empty (claim_id_of sb) ≡ false)
teardown-ok w sb t (err e) h = cc
teardown-ok w sb t (ok _) h = ground (
  arith,
  released-ok sb.node_name (claim_id_of sb) sb t (w.release sb.node_name (claim_id_of sb)),
)

on_found-ok :
    (w : World) (admit : Sandbox → Result (Unit {0})) (namespace name : Text) (r : Result Sandbox)
    (t : Sandbox)
    → w.get namespace name ≡ r
    → (on_found w admit r).1 ≡ ok t
    → Released w namespace name t (on_found w admit r).0
on_found-ok w admit namespace name (err e) t g h = cc
on_found-ok w admit namespace name (ok sb) t g h =
    let (e, released, calls, node, id) = teardown-ok w sb t (admit sb) h in
    subst (λ x. Released w namespace name x (on_found w admit (ok sb)).0) e
      (g, released, calls, node, id)

-- A deletion that answers with a sandbox is of the one that the store found under the name, and it
-- released exactly that sandbox's claim, by the claim id that its annotation carries, on the node
-- that has it: it never releases by name, nor reports a release that a node did not confirm.
pub delete-Released :
    (w : World) (dry_run : Bool) (admit : Sandbox → Result (Unit {0})) (namespace name : Text)
    (sb : Sandbox)
    → (delete w dry_run admit namespace name).1 ≡ ok sb
    → Released w namespace name sb (delete w dry_run admit namespace name).0
unfolding delete
delete-Released w true admit namespace name sb h = cc
delete-Released w false admit namespace name sb h =
    on_found-ok w admit namespace name (w.get namespace name) sb refl h

get-put_text :
    (k j v : Text) (m : Dict Text Text)
    → (k == j) ≡ false
    → Dict.get j (put_text k v m) ≡ Dict.get j m
get-put_text k j v m h = ground (arith, get-put j k v m)

synthesize-claim_id :
    (c : Codecs) (namespace name : Text) (sb : Submitted) (a : Assignment)
    → Dict.get claim_id_annotation (synthesize_claimed_sandbox c namespace name sb a).annotations
      ≡ some a.sandbox_name
unfolding synthesize_claimed_sandbox list_beq
synthesize-claim_id c namespace name sb a =
    let m0 = Dict.put claim_id_annotation a.sandbox_name sb.annotations in
    let m1 = put_text (codes "sandbox.cocoonstack.io/address") a.address m0 in
    let m2 = put_text (codes "sandbox.cocoonstack.io/token") a.token m1 in
    let d = if nat_beq a.deadline 0 then [] else c.rfc3339 a.deadline in
    get-put_text (codes "sandbox.cocoonstack.io/deadline") claim_id_annotation d m2 refl
    ∙ get-put_text (codes "sandbox.cocoonstack.io/token") claim_id_annotation a.token m1 refl
    ∙ get-put_text (codes "sandbox.cocoonstack.io/address") claim_id_annotation a.address m0 refl
    ∙ get-put claim_id_annotation claim_id_annotation a.sandbox_name sb.annotations

synthesize-node :
    (c : Codecs) (namespace name : Text) (sb : Submitted) (a : Assignment)
    → (synthesize_claimed_sandbox c namespace name sb a).node_name ≡ a.node
unfolding synthesize_claimed_sandbox
synthesize-node c namespace name sb a = refl

-- The claim behind a creation that succeeds.
abbrev pub Claimed : World → Text → Submitted → Created → Type 0
Claimed w namespace sb c =
    (ttl : ℤ) × (a : Assignment) × (ttl_seconds_for_sandbox w sb ≡ ok ttl)
    × (w.claim namespace (name_of w sb) (pool_key_for_sandbox sb) (claim_options ttl) ≡ ok a)
    × (c.node_name ≡ a.node)
    × (Dict.get claim_id_annotation c.annotations ≡ some a.sandbox_name)

grant-ok :
    (w : World) (namespace : Text) (sb : Submitted) (c : Created) (ttl : ℤ) (r : Result Assignment)
    → w.claim namespace (name_of w sb) (pool_key_for_sandbox sb) (claim_options ttl) ≡ r
    → ttl_seconds_for_sandbox w sb ≡ ok ttl
    → (or_error r claim_error >>= λ a.
        ok (synthesize_claimed_sandbox w.codecs namespace (name_of w sb) sb a))
      ≡ ok c
    → Claimed w namespace sb c
grant-ok w namespace sb c ttl (err e) g t h = cc
grant-ok w namespace sb c ttl (ok a) g t h =
    let made = synthesize_claimed_sandbox w.codecs namespace (name_of w sb) sb a in
    let e : made ≡ c = cc in
    subst (Claimed w namespace sb) e (
      ttl,
      a,
      t,
      g,
      synthesize-node w.codecs namespace (name_of w sb) sb a,
      synthesize-claim_id w.codecs namespace (name_of w sb) sb a,
    )

lease-ok :
    (w : World) (namespace : Text) (sb : Submitted) (c : Created) (f : Error → Error) (r : Result ℤ)
    → ttl_seconds_for_sandbox w sb ≡ r
    → (or_error r f >>= λ ttl.
        or_error
          (w.claim namespace (name_of w sb) (pool_key_for_sandbox sb) (claim_options ttl))
          claim_error
        >>= λ a. ok (synthesize_claimed_sandbox w.codecs namespace (name_of w sb) sb a))
      ≡ ok c
    → Claimed w namespace sb c
lease-ok w namespace sb c f (err e) t h = cc
lease-ok w namespace sb c f (ok ttl) t h =
    grant-ok w namespace sb c ttl
      (w.claim namespace (name_of w sb) (pool_key_for_sandbox sb) (claim_options ttl)) refl t h

not_true : (b : Bool) (e : Error) → require (not b) e ≡ ok tt → b ≡ false
not_true false e h = refl
not_true true e h = cc

then-ok {ℓ} :
    {B : Type ℓ} (m : Result (Unit {0})) (k : Result B) (x : B)
    → (m >> k) ≡ ok x
    → (m ≡ ok tt) × (k ≡ ok x)
then-ok (ok _) k x h = (refl, h)
then-ok (err e) k x h = cc

round_up :
    (now end n : ℕ)
    → now < end
    → n ≡ (end - now + (second - 1)) / second
    → (end ≤ now + n * second) × (now + n * second < end + second)
round_up now end n h e =
    let x = end - now + (second - 1) in omega (arith, div-add-mod x second, mod-lt x {m = second})

lease-shutdown :
    (w : World) (sb : Submitted) (t n : ℕ)
    → ttl_of w sb (some t) ≡ ok (pos n)
    → (w.now < t * second)
      × (t * second ≤ w.now + n * second)
      × (w.now + n * second < t * second + second)
lease-shutdown w sb t n h = ground (arith, round_up w.now (t * second) n)

-- The lease of a claim with a shutdown time ends at that time or less than a second after it, and
-- is asked for only while the time is to come.
pub ttl_seconds_for_sandbox-shutdown :
    (w : World) (sb : Submitted) (t n : ℕ)
    → sb.shutdown_time ≡ some t
    → ttl_seconds_for_sandbox w sb ≡ ok (pos n)
    → (w.now < t * second)
      × (t * second ≤ w.now + n * second)
      × (w.now + n * second < t * second + second)
unfolding ttl_seconds_for_sandbox
ttl_seconds_for_sandbox-shutdown w sb t n e h =
    lease-shutdown w sb t n (subst (λ o. ttl_of w sb o ≡ ok (pos n)) e h)

-- A creation that succeeds was not a dry run, was admitted and has a name; the claim it made, under
-- the namespace of the request or else of the object, was granted, and the answer names the node
-- and the claim id that were granted.
pub create-Claimed :
    (w : World) (dry_run : Bool) (admit : Submitted → Result (Unit {0})) (namespace : Text)
    (sb : Submitted) (c : Created)
    → create w dry_run admit namespace sb ≡ ok c
    → (dry_run ≡ false)
      × (admit sb ≡ ok tt)
      × (is_empty (name_of w sb) ≡ false)
      × Claimed w (or_else namespace sb.namespace) sb c
unfolding create
create-Claimed w dry_run admit namespace sb c h =
    let ns = or_else namespace sb.namespace in
    let (guards, rest) = then-ok _ _ c h in
    let (first, named) = then-ok _ _ tt guards in
    let (dry, admitted) = then-ok _ _ tt first in
    (
      not_true dry_run _ dry,
      admitted,
      not_true (is_empty (name_of w sb)) _ named,
      lease-ok w ns sb c _ (ttl_seconds_for_sandbox w sb) refl rest,
    )
