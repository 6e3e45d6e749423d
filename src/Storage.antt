-- ===== src/Storage.antt =====
-- pkg/scale/apiserver/storage.go: the REST storage of sandboxes over the store. The store's claim,
-- lookup and release are arguments, and so are admission, the clock and what fmt, strconv, uuid and
-- the Kubernetes API machinery make; the state of the nodes is theirs. Reads that only pass on
-- (List, Get, Watch, ConvertToTable) are the store's own.
pub mod Requests
mod Tests
use sandbox_operator.Prelude.{
  ℕ, zero, ◌+◌, ◌-◌, ◌*◌, ◌/◌, Bool, false, not, ◌&&◌, Option, none, some, List, [], ◌∷◌, leb,
  nat_beq, if◌then◌else◌, Text, codes, is_empty, or_else, text_eq,
}
use sandbox_operator.Prelude.Dict
use sandbox_operator.Prelude.Dict.{Dict}
use sandbox_operator.Prelude.Int.{ℤ, pos}
use sandbox_operator.Errors.{
  Error, plain, status_error, wrapped, err_no_warm_capacity, Result, ok, err, ◌>>=◌, ◌>>◌, require,
  or_error, is,
}
use sandbox_operator.Scale.Model.{PoolKey}
use sandbox_operator.Scale.Sizing.{Container, pool_key_for, net_for_annotations, text_or_empty}
use sandbox_operator.Scale.Claim.{Assignment, ClaimOptions}
use sandbox_operator.Scale.Entry.{Codecs, Sandbox, address_ips}

-- A submitted Sandbox, as far as it is read. Its times are seconds from Go's zero time.
pub record Submitted : Type 0 where
  pub namespace : Text
  pub name : Text
  pub generate_name : Text
  pub annotations : Dict Text Text
  pub pod_annotations : Dict Text Text
  pub containers : List Container
  pub shutdown_time : Option ℕ

-- What `Create` answers with: the submitted object under a fresh identity, with the claim's
-- annotations and status.
pub record Created : Type 0 where
  pub spec : Submitted
  pub namespace : Text
  pub name : Text
  pub annotations : Dict Text Text
  pub node_name : Text
  pub pod_ips : List Text

pub record World : Type 0 where
  pub codecs : Codecs
  -- the clock, in nanoseconds from Go's zero time
  pub now : ℕ
  -- `names.SimpleNameGenerator.GenerateName`
  pub generate : Text → Text
  -- `strconv.Atoi`
  pub atoi : Text → Option ℤ
  pub claim : Text → Text → PoolKey → ClaimOptions → Result Assignment
  pub get : Text → Text → Result Sandbox
  pub release : Text → Text → Result (Unit {0})

-- `poolKeyForSandbox`
unfoldable pub pool_key_for_sandbox : Submitted → PoolKey
pool_key_for_sandbox sb =
    pool_key_for sb.containers (net_for_annotations sb.annotations sb.pod_annotations)

abbrev bad_request : Text → Error
bad_request m = status_error 400 m

abbrev non_negative : Option ℤ → Result ℤ
non_negative (some (pos n)) = ok (pos n)
non_negative _ = err (plain (codes "invalid ttl-seconds: want a non-negative integer of seconds"))

abbrev ttl_annotation : (Text → Option ℤ) → Text → Result ℤ
ttl_annotation atoi [] = ok (pos 0)
ttl_annotation atoi (c ∷ raw) = non_negative (atoi (c ∷ raw))

abbrev pub second : ℕ
second = 1000000000

-- `ttlSecondsForSandbox`. A shutdown time is in whole seconds, as its JSON form is. The time left
-- stays within the range of `time.Duration`, and is rounded up exactly: the code does this in
-- float64, whose own rounding is left out.
abbrev pub ttl_of : World → Submitted → Option ℕ → Result ℤ
ttl_of w sb none =
    ttl_annotation w.atoi
      (text_or_empty (Dict.get (codes "sandbox.cocoonstack.io/ttl-seconds") sb.annotations))
ttl_of w sb (some t) =
    if leb (t * second) w.now
    then err (plain (codes "spec.shutdownTime is not in the future"))
    else ok (pos ((t * second - w.now + (second - 1)) / second))

unfoldable pub ttl_seconds_for_sandbox : World → Submitted → Result ℤ
ttl_seconds_for_sandbox w sb = ttl_of w sb sb.shutdown_time

abbrev pub put_text : Text → Text → Dict Text Text → Dict Text Text
put_text k v m = if is_empty v then m else Dict.put k v m

abbrev pub claim_id_annotation : Text
claim_id_annotation = codes "sandbox.cocoonstack.io/claim-id"

-- `synthesizeClaimedSandbox`
unfoldable pub synthesize_claimed_sandbox : Codecs → Text → Text → Submitted → Assignment → Created
synthesize_claimed_sandbox c namespace name sb a =
    let m0 = Dict.put claim_id_annotation a.sandbox_name sb.annotations in
    let m1 = put_text (codes "sandbox.cocoonstack.io/address") a.address m0 in
    let m2 = put_text (codes "sandbox.cocoonstack.io/token") a.token m1 in
    let m3 =
      put_text (codes "sandbox.cocoonstack.io/deadline")
        (if nat_beq a.deadline 0 then [] else c.rfc3339 a.deadline) m2 in
    record {
      spec = sb;
      namespace = namespace;
      name = name;
      annotations = m3;
      node_name = a.node;
      pod_ips = address_ips c a.address;
    }

-- The name, generated where only a prefix is given.
abbrev pub name_of : World → Submitted → Text
name_of w sb =
    if is_empty sb.name && not (is_empty sb.generate_name)
    then w.generate sb.generate_name
    else sb.name

-- What a failed claim answers: 503 for an exhausted pool, which is tried again, and 500 otherwise.
abbrev pub claim_error : Error → Error
claim_error e =
    if is e err_no_warm_capacity
    then status_error 503 (codes "no warm sandbox available for pool")
    else status_error 500 (codes "claim sandbox")

abbrev pub claim_options : ℤ → ClaimOptions
claim_options ttl = record {
  ttl_seconds = ttl;
  metadata = [];
  on_expire = [];
  no_egress = false;
  promoted = false;
}

-- `Create`
unfoldable pub create :
    World → Bool → (Submitted → Result (Unit {0})) → Text → Submitted → Result Created
unfolding pool_key_for_sandbox ttl_seconds_for_sandbox synthesize_claimed_sandbox
create w dry_run admit namespace sb =
    let ns = or_else namespace sb.namespace in
    let name = name_of w sb in
    require (not dry_run) (bad_request (codes "dry-run is not supported"))
    >> admit sb
    >> require (not (is_empty name))
        (bad_request (codes "Sandbox has neither metadata.name nor metadata.generateName"))
    >> (or_error (ttl_seconds_for_sandbox w sb) (λ e. bad_request (codes "ttl")) >>= λ ttl.
        or_error (w.claim ns name (pool_key_for_sandbox sb) (claim_options ttl)) claim_error
        >>= λ a. ok (synthesize_claimed_sandbox w.codecs ns name sb a))

abbrev pub claim_id_of : Sandbox → Text
claim_id_of sb = text_or_empty (Dict.get claim_id_annotation sb.annotations)

-- The releases that were asked for, and the answer.
abbrev refused : Error → List (Text × Text) × Result Sandbox
refused e = ([], err e)

abbrev released : Text → Text → Sandbox → Result (Unit {0}) → List (Text × Text) × Result Sandbox
released node id sb (ok _) = ((node, id) ∷ [], ok sb)
released node id sb (err e) = ((node, id) ∷ [], err (status_error 500 (codes "release sandbox")))

abbrev pub teardown : World → Sandbox → Result (Unit {0}) → List (Text × Text) × Result Sandbox
teardown w sb (err e) = refused e
teardown w sb (ok _) =
    if is_empty sb.node_name
    then refused (status_error 500 (codes "inventory entry names no owning node"))
    else if is_empty (claim_id_of sb)
    then refused (status_error 500 (codes "inventory carries no claim id"))
    else released sb.node_name (claim_id_of sb) sb (w.release sb.node_name (claim_id_of sb))

abbrev pub on_found :
    World → (Sandbox → Result (Unit {0})) → Result Sandbox → List (Text × Text) × Result Sandbox
on_found w admit (err e) = refused e
on_found w admit (ok sb) = teardown w sb (admit sb)

-- `Delete`
unfoldable pub delete :
    World → Bool → (Sandbox → Result (Unit {0})) → Text → Text → List (Text × Text) × Result Sandbox
delete w dry_run admit namespace name =
    if dry_run
    then refused (bad_request (codes "dry-run is not supported"))
    else on_found w admit (w.get namespace name)

abbrev on_target : (Sandbox → Result Sandbox) → Sandbox → Result Sandbox
on_target verb sb =
    if is_empty sb.node_name
    then err (status_error 500 (codes "sandbox has no owning node"))
    else if is_empty (claim_id_of sb)
    then err (status_error 500 (codes "sandbox carries no claim id"))
    else verb sb

-- `lifecycleREST.Create`, of lifecycle_storage.go: a verb on the sandbox of the name.
unfoldable pub run_verb :
    World → Bool → Result (Unit {0}) → (Sandbox → Result Sandbox) → Text → Text → Result Sandbox
run_verb w dry_run admitted verb namespace name =
    require (not dry_run) (bad_request (codes "dry-run is not supported"))
    >> admitted
    >> (w.get namespace name >>= on_target verb)
