-- ===== src/Scale/Sizing.antt =====
-- pkg/scale/poolkey.go: the pool key of a workload. A `resource.Quantity` is its amount, in units of
-- 10^-9 of a CPU and in bytes; `Cmp` compares amounts and `IsZero` tests for 0.
pub mod Classes
mod Tests
use sandbox_operator.Prelude.{
  ℕ, not, ◌||◌, Option, none, some, List, [], ◌∷◌, ltb, nat_beq, if◌then◌else◌, Text, codes,
  or_else, text_eq,
}
use sandbox_operator.Prelude.Dict
use sandbox_operator.Prelude.Dict.{Dict}
use sandbox_operator.Scale.Model.{PoolKey}

-- `corev1.Container`, as far as it is read; a resource that is not set has amount 0.
pub record Container : Type 0 where
  pub image : Text
  pub request_cpu : ℕ
  pub request_memory : ℕ
  pub limit_cpu : ℕ
  pub limit_memory : ℕ

abbrev pub size_cpu_medium : ℕ
size_cpu_medium = 1000000000

abbrev pub size_mem_medium : ℕ
size_mem_medium = 2147483648

abbrev pub size_cpu_large : ℕ
size_cpu_large = 4000000000

abbrev pub size_mem_large : ℕ
size_mem_large = 8589934592

abbrev pub or_amount : ℕ → ℕ → ℕ
or_amount x y = if nat_beq x 0 then y else x

-- `SizeClassForContainers`
abbrev pub size_class : ℕ → ℕ → Text
size_class cpu mem =
    if ltb size_cpu_large cpu || ltb size_mem_large mem
    then codes "large"
    else if ltb size_cpu_medium cpu || ltb size_mem_medium mem
    then codes "medium"
    else codes "small"

unfoldable pub size_class_for_containers : List Container → Text
size_class_for_containers [] = codes "small"
size_class_for_containers (c ∷ cs) =
    size_class (or_amount c.request_cpu c.limit_cpu) (or_amount c.request_memory c.limit_memory)

abbrev pub first_image : List Container → Text
first_image [] = []
first_image (c ∷ cs) = c.image

-- `PoolKeyFor`
unfoldable pub pool_key_for : List Container → Text → PoolKey
unfolding size_class_for_containers
pool_key_for containers net = record {
  template = first_image containers;
  net = or_else net (codes "none");
  size = size_class_for_containers containers;
}

abbrev pub text_or_empty : Option Text → Text
text_or_empty none = []
text_or_empty (some s) = s

abbrev net_annotation : Text
net_annotation = codes "sandbox.cocoonstack.io/net"

-- `NetForAnnotations`
unfoldable pub net_for_annotations : Dict Text Text → Dict Text Text → Text
net_for_annotations object pod_template =
    or_else (text_or_empty (Dict.get net_annotation object))
      (text_or_empty (Dict.get net_annotation pod_template))
