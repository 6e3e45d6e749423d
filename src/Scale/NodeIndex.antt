-- ===== src/Scale/NodeIndex.antt =====
-- pkg/scale/nodeindex.go: the bounded index from a lookup key to the node last seen holding it.
pub mod Bounds
pub mod History
mod Tests
use sandbox_operator.Prelude.{
  ℕ, ◌||◌, Option, none, some, List, [], ◌∷◌, ◌++◌, leb, if◌then◌else◌, length, Text, codes,
  is_empty, text_eq,
}
use sandbox_operator.Prelude.Dict
use sandbox_operator.Prelude.Dict.{Dict}

-- `max_entries` bounds one generation.
pub record NodeIndex : Type 0 where
  pub max_entries : ℕ
  pub cur : Dict Text Text
  pub prev : Dict Text Text

abbrev pub node_index_max_entries : ℕ
node_index_max_entries = 8192

unfoldable pub new_node_index : ℕ → NodeIndex
new_node_index n = record { max_entries = n; cur = []; prev = [] }

-- `storeLocked`: a full generation retires whole before the entry is written.
unfoldable pub store_locked : Text → Text → NodeIndex → NodeIndex
store_locked key node x =
    let y = if leb x.max_entries (length x.cur) then record x { prev = x.cur; cur = [] } else x in
    record y { cur = Dict.put key node y.cur }

-- The new index and `(node, ok)`.
unfoldable pub lookup : Text → NodeIndex → NodeIndex × Option Text
unfolding store_locked
lookup key x = elim (Dict.get key x.cur) [
  | some node ↦ (x, some node)
  | none ↦ elim (Dict.get key x.prev) [
    | some node ↦ (store_locked key node x, some node)
    | none ↦ (x, none)
  ]
]

unfoldable pub remember : Text → Text → NodeIndex → NodeIndex
unfolding store_locked
remember key node x = if is_empty key || is_empty node then x else store_locked key node x

unfoldable pub name_key : Text → Text → Text
name_key namespace name = codes "name/" ++ (namespace ++ (codes "/" ++ name))

unfoldable pub claim_key : Text → Text → Text
claim_key namespace id = codes "claim/" ++ (namespace ++ (codes "/" ++ id))

-- One call on the index, and a history of calls, oldest first.
pub data Op : Type 0 where
  looks : Text → Op
  remembers : Text → Text → Op

unfoldable pub step : Op → NodeIndex → NodeIndex
step (looks key) x = (lookup key x).0
step (remembers key node) x = remember key node x

unfoldable pub run : List Op → NodeIndex → NodeIndex
run [] x = x
run (o ∷ os) x = run os (step o x)
