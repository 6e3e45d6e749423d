-- ===== src/Scale/Entry.antt =====
-- pkg/scale/sandboxstore_impl.go and sandboxstore_live.go: the Sandbox synthesized from a node's
-- inventory entry, and the entry of a row of the node's own index. Go's formatting of numbers and
-- times, its JSON and its hash are parameters.
pub mod Names
mod Tests
use sandbox_operator.Prelude.{
  ℕ, ◌+◌, Bool, not, ◌&&◌, ◌||◌, Option, none, some, List, [], ◌∷◌, ◌++◌, map, leb, nat_beq,
  if◌then◌else◌, ◌==◌, Text, codes, is_empty, or_else, cut_prefix, cut, text_eq, nat_eq,
}
use sandbox_operator.Prelude.Dict
use sandbox_operator.Prelude.Dict.{Dict}
use sandbox_operator.Scale.Model.{InventoryEntry, NodeInventory, SandboxSummary, optional_time}
use sandbox_operator.Scale.Lifecycle.{is_paused}

pub record Codecs : Type 0 where
  -- `strconv.FormatInt(n, 10)`
  pub decimal : ℕ → Text
  -- `t.UTC().Format(time.RFC3339)`
  pub rfc3339 : ℕ → Text
  -- `t.Unix()` in decimal
  pub unix : ℕ → Text
  -- the FNV-1a hash in decimal
  pub fnv : Text → Text
  -- `json.Marshal` of the metadata, `none` on an error
  pub marshal : Dict Text Text → Option Text
  -- `net.SplitHostPort`'s host, `none` on an error
  pub split_host : Text → Option Text

pub record Sandbox : Type 0 where
  pub namespace : Text
  pub name : Text
  pub labels : Dict Text Text
  pub annotations : Dict Text Text
  pub resource_version : Text
  pub node_name : Text
  pub pod_ips : List Text
  pub ready : Bool
  pub reason : Text
  pub created : Option ℕ

abbrev or_default : Text → Option (Text × Text) → Text × Text
or_default s none = (codes "default", s)
or_default s (some r) = r

-- `splitNamespacedName`
unfoldable pub split_namespaced_name : Text → Text × Text
split_namespaced_name s = or_default s (cut b'/' s)

-- `encodeMetadata`
abbrev or_nothing : Option Text → Text
or_nothing none = []
or_nothing (some s) = s

unfoldable pub encode_metadata : Codecs → Dict Text Text → Text
encode_metadata c [] = []
encode_metadata c (e ∷ md) = or_nothing (c.marshal (e ∷ md))

-- `EntryFromSummary`
unfoldable pub entry_from_summary : Codecs → SandboxSummary → InventoryEntry
unfolding encode_metadata
entry_from_summary c row =
    let name = or_else row.claim_ref row.id in
    record {
      name = name;
      id = row.id;
      phase = if is_paused row then codes "Hibernated" else codes "Running";
      template = row.key.template;
      claim_ref = name;
      address = [];
      deadline = optional_time row.deadline;
      claimed_at = optional_time row.claimed_at;
      metadata = encode_metadata c row.metadata;
      cpu_count = row.cpu_count;
      memory_bytes = row.mem_total_bytes;
    }

abbrev time_text : (ℕ → Text) → Option ℕ → Text
time_text f none = []
time_text f (some t) = f t

-- `deadlineValue`
unfoldable pub deadline_value : Codecs → InventoryEntry → Text
deadline_value c e = time_text (λ t. if nat_beq t 0 then [] else c.rfc3339 t) e.deadline

-- `claimedAtValue`
unfoldable pub claimed_at_value : Codecs → InventoryEntry → Text
claimed_at_value c e = time_text c.unix e.claimed_at

-- `m[k] = v` where `v` is not empty
abbrev put_text : Text → Text → Dict Text Text → Dict Text Text
put_text k v m = if is_empty v then m else Dict.put k v m

-- `synthLabels`
unfoldable pub synth_labels : Text → InventoryEntry → Dict Text Text
unfolding split_namespaced_name
synth_labels node e =
    let m0 = Dict.put (codes "sandbox.cocoonstack.io/node") node [] in
    let m1 = put_text (codes "sandbox.cocoonstack.io/phase") e.phase m0 in
    let m2 = put_text (codes "sandbox.cocoonstack.io/template") e.template m1 in
    if is_empty e.claim_ref
    then m2
    else put_text (codes "sandbox.cocoonstack.io/claim") (split_namespaced_name e.claim_ref).1 m2

-- `synthAnnotations`
unfoldable pub synth_annotations : Codecs → InventoryEntry → Dict Text Text
unfolding deadline_value
synth_annotations c e =
    let m0 = put_text (codes "sandbox.cocoonstack.io/claim-id") e.id [] in
    let m1 = put_text (codes "sandbox.cocoonstack.io/deadline") (deadline_value c e) m0 in
    let m2 = put_text (codes "sandbox.cocoonstack.io/metadata") e.metadata m1 in
    let m3 =
      if nat_beq e.cpu_count 0
      then m2
      else Dict.put (codes "sandbox.cocoonstack.io/cpu-count") (c.decimal e.cpu_count) m2 in
    if nat_beq e.memory_bytes 0
    then m3
    else Dict.put (codes "sandbox.cocoonstack.io/memory-bytes") (c.decimal e.memory_bytes) m3

abbrev bar : Text → Text → Text
bar s t = s ++ (b'|' ∷ t)

-- `resourceVersionFor`
unfoldable pub resource_version_for : Codecs → Text → Text → InventoryEntry → Text
unfolding deadline_value claimed_at_value
resource_version_for c namespace name e = c.fnv (
    bar (namespace ++ (b'/' ∷ name)) (
      bar e.id (
        bar e.phase (
          bar e.claim_ref
            (bar e.address (bar e.template (bar (deadline_value c e) (claimed_at_value c e))))))))

-- `strings.EqualFold` with an ASCII literal, on ASCII letters
abbrev lower : ℕ → ℕ
lower c = if leb b'A' c && leb c b'Z' then c + 32 else c

abbrev pub equal_fold : Text → Text → Bool
equal_fold s t = map lower s == map lower t

-- `readyStatus`
unfoldable pub ready_status : Text → Bool
ready_status phase = equal_fold phase (codes "Running") || equal_fold phase (codes "Ready")

abbrev hosts_of : Text → Option Text → List Text
hosts_of addr none = addr ∷ []
hosts_of addr (some host) = (if is_empty host then addr else host) ∷ []

-- `strings.Cut(addr, "://")`'s second part
abbrev after_scheme : Text → Option Text
after_scheme [] = none
after_scheme (c ∷ s) =
    let rest = after_scheme s in
    elim (cut_prefix (c ∷ s) (codes "://")) [ none ↦ rest | some t ↦ some t ]

abbrev strip_scheme : Text → Option Text → Text
strip_scheme addr none = addr
strip_scheme addr (some rest) = rest

-- `AddressIPs`
unfoldable pub address_ips : Codecs → Text → List Text
unfolding cut_prefix
address_ips c [] = []
address_ips c (b ∷ s) =
    let addr = strip_scheme (b ∷ s) (after_scheme (b ∷ s)) in hosts_of addr (c.split_host addr)

-- `entryToSandbox`
unfoldable pub entry_to_sandbox : Codecs → Text → InventoryEntry → Sandbox
unfolding split_namespaced_name
entry_to_sandbox c node e =
    let (namespace, name) = split_namespaced_name e.name in
    record {
      namespace = namespace;
      name = name;
      labels = synth_labels node e;
      annotations = synth_annotations c e;
      resource_version = resource_version_for c namespace name e;
      node_name = node;
      pod_ips = address_ips c e.address;
      ready = ready_status e.phase;
      reason = or_else e.phase (codes "Unknown");
      created = e.claimed_at;
    }
