-- ===== src/Scale/Lifecycle.antt =====
-- pkg/scale/sandboxstore_lifecycle.go: the verbs that the store sends to the node of a sandbox.
-- The sandboxd clients are parameters, one function of an address per call; what fmt and the
-- Kubernetes API machinery print is one too. The fleet token is the factory's.
pub mod Outcomes
pub mod Forked
mod Tests
use sandbox_operator.Prelude.{
  ℕ, Bool, true, not, ◌&&◌, ◌||◌, none, some, List, [], ◌∷◌, ◌++◌, map, ltb, leb, nat_beq,
  if◌then◌else◌, Text, codes, is_empty, text_eq,
}
use sandbox_operator.Prelude.Dict.{Dict}
use sandbox_operator.Prelude.Int.{ℤ, pos, negsuc}
use sandbox_operator.Errors.{
  Error, plain, wrapped, status_error, Result, ok, err, ◌>>=◌, or_error, as_http_error,
}
use sandbox_operator.Scale.Model.{
  PoolKey, PromotedTemplate, SandboxSummary, NodeInfo, templates_from_info,
}
use sandbox_operator.Scale.NodeIndex.{NodeIndex, remember, name_key, claim_key}
use sandbox_operator.Scale.Claim.{Assignment, namespaced_name}

-- `%q`, `%d`, and the messages of `k8serrors.NewNotFound` and `NewGenericServerResponse`.
pub record Formats : Type 0 where
  pub quoted : Text → Text
  pub decimal : ℤ → Text
  pub not_found_message : Text → Text
  pub response_message : ℕ → Text → Text → Text

pub record RenewSpec : Type 0 where
  pub ttl_seconds : ℤ
  pub on_expire : Text

pub record ForkSpec : Type 0 where
  pub count : ℤ
  pub ttl_seconds : ℤ
  pub claim_ref_prefix : Text

-- One of `sandboxd.ForkResult`'s children.
pub record Child : Type 0 where
  pub id : Text
  pub token : Text
  pub deadline : ℕ
  pub owner_addr : Text

pub record Checkpoint : Type 0 where
  pub id : Text
  pub name : Text
  pub key : PoolKey
  pub sandbox_id : Text
  pub created_at : ℕ

-- `SandboxdClient`, by the address of its node.
pub record Fleet : Type 0 where
  pub release : Text → Text → Result (Unit {0})
  pub hibernate : Text → Text → Result (Unit {0})
  pub wake : Text → Text → Result (Unit {0})
  pub renew : Text → Text → RenewSpec → Result ℕ
  pub fork : Text → Text → ForkSpec → Result (List Child)
  pub checkpoint : Text → Text → Text → Result Checkpoint
  pub checkpoints : Text → Result (List Checkpoint)
  pub delete_checkpoint : Text → Text → Result (Unit {0})
  pub delete_template : Text → PoolKey → Text → Result (Unit {0})
  pub promote : Text → Text → Text → Result (PoolKey × Text)
  pub set_template_labels : Text → PoolKey → Dict Text Text → Text → Result (Unit {0})
  pub info : Text → Result NodeInfo
  pub set_instance_metadata : Text → Text → Text → Result (Unit {0})
  pub sandbox : Text → Text → Result SandboxSummary

-- `scatterGatherStore`: whether it has a client factory, and its source's `NodeCapacity`.
pub record Store : Type 0 where
  pub configured : Bool
  pub capacity : Text → Result Text

pub record Snapshot : Type 0 where
  pub id : Text
  pub name : Text
  pub sandbox_id : Text
  pub pool : PoolKey
  pub created_at : ℕ
  pub node : Text

pub record SandboxRecord : Type 0 where
  pub token : Text
  pub paused : Bool
  pub deadline : ℕ

-- `snapshotFrom`
unfoldable pub snapshot_from : Checkpoint → Text → Snapshot
snapshot_from ck node = record {
  id = ck.id;
  name = ck.name;
  sandbox_id = ck.sandbox_id;
  pool = ck.key;
  created_at = ck.created_at;
  node = node;
}

-- `isPaused`
unfoldable pub is_paused : SandboxSummary → Bool
is_paused row = row.hibernated || row.archived

abbrev verb_on : Formats → Text → Text → Text → Text
verb_on f verb id node =
    codes "sandboxd "
    ++ (verb ++ (codes " of " ++ (f.quoted id ++ (codes " on node " ++ f.quoted node))))

-- `nodeVerbError`
abbrev pub replace_status : Formats → Error → Text → Text → Text → ℕ × Text → Error
replace_status f e verb id node (code, m) =
    if nat_beq code 404
    then status_error 404 (f.not_found_message id)
    else if leb 400 code && ltb code 500
    then status_error code (
        if is_empty m
        then f.response_message code verb id
        else verb_on f verb id node ++ (codes ": " ++ m))
    else wrapped (codes "scale: " ++ verb_on f verb id node) e

unfoldable pub node_verb_error : Formats → Error → Text → Text → Text → Error
node_verb_error f e verb id node = elim (as_http_error e) [
  | none ↦ wrapped (codes "scale: " ++ verb_on f verb id node) e
  | some r ↦ replace_status f e verb id node r
]

abbrev pub addressed : Text → Result Text
addressed [] = err (plain (codes "scale: node advertises no sandboxd address"))
addressed (c ∷ addr) = ok (c ∷ addr)

-- `nodeClient`: the address that is dialled.
unfoldable pub node_client : Store → Text → Text → Result Text
node_client s node verb =
    if not s.configured
    then err (plain (codes "scale: claim routing not configured (call WithClaimRouting)"))
    else if is_empty node
    then err (plain (codes "scale: " ++ (verb ++ codes " requires an owning node")))
    else or_error (s.capacity node) (wrapped (codes "scale: resolve node for " ++ verb))
      >>= addressed

-- The two forms that the verbs share: what a failed call's error becomes differs.
abbrev pub on_node {ℓ} :
    {A : Type ℓ} → Formats → Store → Text → Text → Text → (Text → Result A) → Result A
on_node f s node verb id ask =
    node_client s node verb >>= λ addr. or_error (ask addr) (λ e. node_verb_error f e verb id node)

abbrev pub on_node_plain {ℓ} : {A : Type ℓ} → Store → Text → Text → (Text → Result A) → Result A
on_node_plain s node verb ask = node_client s node verb >>= λ addr.
    or_error (ask addr) (wrapped (codes "scale: sandboxd " ++ verb))

-- `Release`
unfoldable pub release : Fleet → Store → Text → Text → Result (Unit {0})
release fleet s node id =
    if is_empty id
    then err (plain (codes "scale: release requires a claim id"))
    else on_node_plain s node (codes "release") (λ addr. fleet.release addr id)

module _ (f : Formats) (fleet : Fleet) (s : Store) where
  unfoldable pub pause : Text → Text → Result (Unit {0})
  pause node id = on_node f s node (codes "pause") id (λ addr. fleet.hibernate addr id)

  unfoldable pub resume : Text → Text → Result (Unit {0})
  resume node id = on_node f s node (codes "resume") id (λ addr. fleet.wake addr id)

  unfoldable pub set_instance_metadata : Text → Text → Text → Result (Unit {0})
  set_instance_metadata node id doc =
      on_node f s node (codes "instance metadata") id
        (λ addr. fleet.set_instance_metadata addr id doc)

  unfoldable pub renew : Text → Text → ℤ → Text → Result ℕ
  renew node id ttl on_expire =
      on_node f s node (codes "renew") id
        (λ addr. fleet.renew addr id (record { ttl_seconds = ttl; on_expire = on_expire }))

  unfoldable pub snapshot : Text → Text → Text → Result Snapshot
  unfolding snapshot_from
  snapshot node id name =
      on_node f s node (codes "snapshot") id (λ addr. fleet.checkpoint addr id name) >>= λ ck.
      ok (snapshot_from ck node)

  unfoldable pub snapshots : Text → Result (List Snapshot)
  unfolding snapshot_from
  snapshots node = on_node_plain s node (codes "list snapshots") fleet.checkpoints >>= λ cks.
      ok (map (λ ck. snapshot_from ck node) cks)

  unfoldable pub delete_snapshot : Text → Text → Result (Unit {0})
  delete_snapshot node id =
      on_node_plain s node (codes "delete snapshot") (λ addr. fleet.delete_checkpoint addr id)

  unfoldable pub delete_template : Text → PoolKey → Text → Result (Unit {0})
  delete_template node key digest =
      on_node f s node (codes "delete template") key.template
        (λ addr. fleet.delete_template addr key digest)

  unfoldable pub promote : Text → Text → Text → Result (PoolKey × Text)
  promote node id template =
      on_node f s node (codes "promote") id (λ addr. fleet.promote addr id template)

  unfoldable pub set_template_labels : Text → PoolKey → Dict Text Text → Text → Result (Unit {0})
  set_template_labels node key labels digest =
      on_node f s node (codes "template labels") key.template
        (λ addr. fleet.set_template_labels addr key labels digest)

  unfoldable pub node_templates : Text → Result (List PromotedTemplate)
  node_templates node =
      on_node_plain s node (codes "templates") fleet.info >>= λ info. ok (templates_from_info info)

  unfoldable pub read : Text → Text → Result SandboxRecord
  unfolding is_paused
  read node id = on_node f s node (codes "read") id (λ addr. fleet.sandbox addr id) >>= λ row.
      ok (record { token = row.token; paused = is_paused row; deadline = row.deadline })

abbrev pub child_assignment : Text → Child → Assignment
child_assignment node c = record {
  sandbox_name = c.id;
  node = node;
  address = c.owner_addr;
  token = c.token;
  deadline = c.deadline;
  net_route = [];
}

-- The loop of `Fork` over the children.
unfoldable pub note_children : Text → Text → List Child → NodeIndex → NodeIndex
note_children namespace node [] index = index
note_children namespace node (c ∷ cs) index =
    note_children namespace node cs
      (remember (claim_key namespace c.id) node (remember (name_key namespace c.id) node index))

abbrev pub forked :
    Text → Text → NodeIndex → Result (List Child) → NodeIndex × Result (List Assignment)
forked namespace node index (err e) = (index, err e)
forked namespace node index (ok cs) =
    (note_children namespace node cs index, ok (map (child_assignment node) cs))

abbrev pub below_one : ℤ → Bool
below_one (pos n) = nat_beq n 0
below_one (negsuc n) = true

unfoldable pub fork :
    Formats
    → Fleet
    → Store
    → NodeIndex
    → Text
    → Text
    → Text
    → ℤ
    → ℤ
    → NodeIndex × Result (List Assignment)
unfolding namespaced_name
fork f fleet s index namespace node id count ttl =
    if below_one count
    then (index, err (plain (codes "scale: fork count must be >= 1, got " ++ f.decimal count)))
    else forked namespace node index (
        on_node f s node (codes "fork") id (λ addr. fleet.fork addr id (record {
          count = count;
          ttl_seconds = ttl;
          claim_ref_prefix = namespaced_name namespace [];
        })))
