-- ===== src/EnvdProxy/Resolver.antt =====
-- pkg/envdproxy/resolver.go: the owner of a sandbox, found among the recent ones, in the inventories
-- or by asking the nodes, and admitted. The nodes' answers, the HMAC that derives an access token
-- from a claim token, the rate limiter's answer and the clock are parameters.
use sandbox_operator.Prelude.{
  ℕ, Bool, not, ◌||◌, Option, none, some, [], ◌++◌, if◌then◌else◌, ◌==◌, Text, codes, is_empty,
  text_eq, nat_eq,
}
use sandbox_operator.Errors.{
  plain, sentinel, wrapped, err_sandbox_not_found, err_access_denied, Result, ok, err, is_not_found,
}
use sandbox_operator.SandboxId.{claim_id, matches_id}
use sandbox_operator.Scale.NodeIndex.{NodeIndex, new_node_index, node_index_max_entries}
use sandbox_operator.Scale.Entry.{Sandbox}
use sandbox_operator.Scale.Lifecycle.{SandboxRecord}
use sandbox_operator.Scale.Resolve.{Reads, first_hit, get_by_claim_id}
use sandbox_operator.Storage.{claim_id_of}
use sandbox_operator.EnvdProxy.{Unicode, trim_space}
use sandbox_operator.EnvdProxy.Recent.{Owner, RecentOwner, Recent, get_recent, put_recent}

-- What a `storeResolver` asks. `reads` is its inventory source, with no node clients configured;
-- `capacity` is the address that `NodeCapacity` gives, `read` is `SandboxLifecycle.Read`, `derive`
-- is `e2bcompat.AccessToken` with the secret, `rewrite` is the parameter of `MatchesID`.
pub record Asks : Type 0 where
  pub unicode : Unicode
  pub reads : Reads
  pub namespace : Text
  pub capacity : Text → Result Text
  pub read : Text → Text → Result SandboxRecord
  pub derive : Text → Text
  pub rewrite : Text → Text

-- `storeResolver`: what it keeps between requests.
pub record Resolver : Type 0 where
  pub index : NodeIndex
  pub recent : Recent

-- `NewResolver`, of which each argument may be missing.
unfoldable pub new_resolver : Bool → Bool → Text → Result Resolver
unfolding new_node_index
new_resolver routed inventory secret =
    if not routed || not inventory
    then err (plain (codes "envdproxy: a routed store and an inventory source are required"))
    else if is_empty secret
    then err (plain (codes "envdproxy: the envd secret is required to verify access tokens"))
    else ok (record { index = new_node_index node_index_max_entries; recent = [] })

abbrev pub Admission : Type 0
Admission = RecentOwner → Result Owner

-- `recentOwner.admit`
unfoldable pub admit : Text → RecentOwner → Result Owner
admit access_token e =
    if not (e.access == access_token) then err (sentinel err_access_denied) else ok e.owner

module _ (w : Asks) where
  abbrev pub address_or_error : Text → Result Text → Result Text
  address_or_error node (err e) = err (wrapped (codes "envdproxy: resolve node " ++ node) e)
  address_or_error node (ok address) =
      if is_empty address
      then err (plain (codes "envdproxy: node publishes no address"))
      else ok address

  -- `nodeAddress`
  unfoldable pub node_address : Text → Result Text
  node_address node = address_or_error node (w.capacity node)

  abbrev pub owner_at : Text → Text → Result SandboxRecord → Result Owner
  owner_at id address (err e) = err e
  owner_at id address (ok rec) = ok (record { claim_id = id; address = address; token = rec.token })

  abbrev pub owner_read : Text → Text → Result Text → Result Owner
  owner_read node id (err e) = err e
  owner_read node id (ok address) = owner_at id address (w.read node id)

  -- `ownerOn`
  unfoldable pub owner_on : Text → Text → Result Owner
  unfolding node_address
  owner_on node id = owner_read node id (node_address node)

  -- `entry`
  unfoldable pub entry : Owner → RecentOwner
  entry o = record { owner = o; access = w.derive o.token; until = 0 }

  abbrev pub or_none : Result Owner → Option Owner
  or_none (err e) = none
  or_none (ok o) = some o

  abbrev pub kept : Text → ℕ → Owner → Admission → Resolver → Result Owner × Resolver
  kept id now o judge s =
      let e = entry o in (judge e, record s { recent = put_recent id e now s.recent })

  abbrev pub probed :
      Text → ℕ → Admission → Resolver → Result (Option Owner) → Result Owner × Resolver
  probed id now judge s (err e) = (err e, s)
  probed id now judge s (ok none) = (err (sentinel err_sandbox_not_found), s)
  probed id now judge s (ok (some o)) = kept id now o judge s

  -- `probe`; `allow` is the answer of the rate limiter.
  unfoldable pub probe : Bool → Text → ℕ → Text → Admission → Resolver → Result Owner × Resolver
  unfolding entry put_recent owner_on first_hit
  probe allow id now claim judge s =
      if not allow
      then (err (sentinel err_sandbox_not_found), s)
      else probed id now judge s (first_hit w.reads (λ node. or_none (owner_on node claim)))

  abbrev pub read_back : Text → ℕ → Admission → Resolver → Result Owner → Result Owner × Resolver
  read_back id now judge s (err e) =
      (err (if is_not_found e then sentinel err_sandbox_not_found else e), s)
  read_back id now judge s (ok o) = kept id now o judge s

  -- `readOwner`
  unfoldable pub read_owner :
      Text → ℕ → Text → Text → Admission → Resolver → Result Owner × Resolver
  unfolding entry put_recent owner_on is_not_found
  read_owner id now node claim judge s = read_back id now judge s (owner_on node claim)

  abbrev pub located :
      Bool → Text → ℕ → Admission → Resolver → Result Sandbox → Result Owner × Resolver
  located allow id now judge s (err e) =
      if is_not_found e then probe allow id now (claim_id id) judge s else (err e, s)
  located allow id now judge s (ok sb) =
      if is_empty sb.node_name
      then (err (sentinel err_sandbox_not_found), s)
      else read_owner id now sb.node_name (claim_id_of sb) judge s

  abbrev pub or_located :
      Bool → Text → ℕ → Admission → Resolver → Option RecentOwner → Result Owner × Resolver
  or_located allow id now judge s (some e) = (judge e, s)
  or_located allow id now judge s none =
      let (index, sb) =
        get_by_claim_id w.reads w.namespace (claim_id id) (λ c. matches_id w.rewrite c id)
          s.index in
      located allow id now judge (record s { index = index }) sb

  -- `find`
  unfoldable pub find_owner : Bool → Text → ℕ → Admission → Resolver → Result Owner × Resolver
  unfolding trim_space get_recent get_by_claim_id matches_id claim_id is_not_found probe read_owner
  find_owner allow id now judge s =
      if is_empty (trim_space w.unicode id)
      then (err (sentinel err_sandbox_not_found), s)
      else or_located allow id now judge s (get_recent id now s.recent)

  -- `Owner`
  unfoldable pub owner : Bool → Text → Text → ℕ → Resolver → Result Owner × Resolver
  unfolding find_owner admit
  owner allow id access_token now s = find_owner allow id now (admit access_token) s

  -- `Locate`
  unfoldable pub locate : Bool → Text → ℕ → Resolver → Result Owner × Resolver
  unfolding find_owner
  locate allow id now s = find_owner allow id now (λ e. ok e.owner) s
