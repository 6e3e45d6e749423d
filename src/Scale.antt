-- ===== src/Scale.antt =====
-- pkg/scale: the aggregated store and the data it works on.
pub mod Model
pub mod NodeIndex
pub mod Warm
pub mod Claim
pub mod Lifecycle
pub mod Stamps
pub mod KubeInventory
pub mod Sizing
pub mod Entry
pub mod Resolve
pub mod MeshInventory
pub mod MeshSnapshot
pub mod StaticInventory
