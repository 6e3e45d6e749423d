-- ===== src/Scale/Model.antt =====
-- The data of pkg/scale (sandboxstore.go, sandboxstore_impl.go), of api/v1beta1/nodeinventory_types.go
-- and of the sandboxd client (pkg/sandboxd). A `time.Time` is the number of seconds since Go's zero
-- time, so that `IsZero` is the test for 0; a pointer to one is an `Option`.
use sandbox_operator.Prelude.{
  ℕ, ◌%◌, ◌^◌, ◌≡◌, ◌↔◌, Bool, true, ◌&&◌, Option, none, some, List, map, arith, nat_beq,
  if◌then◌else◌, Eq, ◌==◌, list_beq_iff, Text, text_eq, nat_eq,
}
use sandbox_operator.Prelude.Dict.{Dict}

-- `scale.PoolKey` and `sandboxd.PoolKey`
pub record PoolKey : Type 0 where
  pub template : Text
  pub net : Text
  pub size : Text

unfoldable pub pool_key_beq : PoolKey → PoolKey → Bool
pool_key_beq a b = a.template == b.template && (a.net == b.net && a.size == b.size)

pub pool_key_beq_iff : (a b : PoolKey) → (pool_key_beq a b ≡ true) ↔ (a ≡ b)
unfolding pool_key_beq
pool_key_beq_iff a b = ground (
  arith,
  list_beq_iff a.template b.template,
  list_beq_iff a.net b.net,
  list_beq_iff a.size b.size,
)

instance abbrev pub pool_key_eq : Eq PoolKey
pool_key_eq = record { same = pool_key_beq; same_iff = pool_key_beq_iff }

pub record PoolCapacity : Type 0 where
  pub template : Text
  pub net : Text
  pub size : Text
  pub warm : ℕ
  pub target : ℕ

pub record PromotedTemplate : Type 0 where
  pub template : Text
  pub net : Text
  pub size : Text
  pub content_digest : Text
  pub tenant : Text
  pub created_at : Option ℕ
  pub cpu_count : ℕ
  pub memory_bytes : ℕ
  pub labels : Dict Text Text

pub record InventoryEntry : Type 0 where
  pub name : Text
  pub id : Text
  pub phase : Text
  pub template : Text
  pub claim_ref : Text
  pub address : Text
  pub deadline : Option ℕ
  pub claimed_at : Option ℕ
  pub metadata : Text
  pub cpu_count : ℕ
  pub memory_bytes : ℕ

pub record NodeInventory : Type 0 where
  pub node : Text
  pub entries : List InventoryEntry
  pub address : Text
  pub pools : List PoolCapacity
  pub templates : List PromotedTemplate
  pub published_at : Option ℕ

pub record NodePools : Type 0 where
  pub node : Text
  pub address : Text
  pub pools : List PoolCapacity
  pub templates : List PromotedTemplate

-- `sandboxd.SandboxSummary`
pub record SandboxSummary : Type 0 where
  pub id : Text
  pub key : PoolKey
  pub deadline : ℕ
  pub claimed_at : ℕ
  pub hibernated : Bool
  pub archived : Bool
  pub claim_ref : Text
  pub token : Text
  pub metadata : Dict Text Text
  pub cpu_count : ℕ
  pub mem_total_bytes : ℕ

-- `sandboxd.NodePool`
pub record NodePool : Type 0 where
  pub key : PoolKey
  pub warm : ℕ
  pub refilling : ℕ
  pub target : ℕ
  pub golden : Bool

-- `sandboxd.NodeTemplate`
pub record NodeTemplate : Type 0 where
  pub key : PoolKey
  pub content_digest : Text
  pub tenant : Text
  pub created_at : ℕ
  pub cpu_count : ℕ
  pub mem_total_bytes : ℕ
  pub labels : Dict Text Text

-- `sandboxd.NodeInfo`
pub record NodeInfo : Type 0 where
  pub pools : List NodePool
  pub templates : List NodeTemplate
  pub claimed : ℕ
  pub hibernated : ℕ
  pub archived : ℕ
  pub advertise_addr : Text
  pub peers : List Text

-- `time.Time.IsZero` decides what a pointer to a time holds.
unfoldable pub optional_time : ℕ → Option ℕ
optional_time t = if nat_beq t 0 then none else some t

unfoldable pub pool_capacity_of : NodePool → PoolCapacity
pool_capacity_of p = record {
  template = p.key.template;
  net = p.key.net;
  size = p.key.size;
  warm = p.warm;
  target = p.target;
}

-- `PoolCapacityFromInfo`
unfoldable pub pool_capacity_from_info : NodeInfo → List PoolCapacity
unfolding pool_capacity_of
pool_capacity_from_info info = map pool_capacity_of info.pools

unfoldable pub promoted_template_of : NodeTemplate → PromotedTemplate
unfolding optional_time
promoted_template_of t = record {
  template = t.key.template;
  net = t.key.net;
  size = t.key.size;
  content_digest = t.content_digest;
  tenant = t.tenant;
  created_at = optional_time t.created_at;
  cpu_count = t.cpu_count % 2 ^ 32;
  memory_bytes = t.mem_total_bytes;
  labels = t.labels;
}

-- `TemplatesFromInfo`
unfoldable pub templates_from_info : NodeInfo → List PromotedTemplate
unfolding promoted_template_of
templates_from_info info = map promoted_template_of info.templates
