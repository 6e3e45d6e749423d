-- ===== src/Scale/Resolve.antt =====
-- pkg/scale/sandboxstore_impl.go and sandboxstore_live.go: the lookup of one sandbox, by its name or
-- by its claim. The reads that run at once are taken in the order in which they finish.
-- The request's own context is not cancelled while it runs.
pub mod Found
pub mod Complete
mod Tests
use sandbox_operator.Prelude.{
  ℕ, Bool, false, not, ◌&&◌, ◌||◌, Option, none, some, List, [], ◌∷◌, map, nat_beq, if◌then◌else◌,
  ◌==◌, Text, codes, is_empty, text_eq, nat_eq,
}
use sandbox_operator.Errors.{Error, status_error, wrapped, Result, ok, err, or_error, as_http_error}
use sandbox_operator.Scale.Model.{InventoryEntry, NodeInventory, SandboxSummary}
use sandbox_operator.Scale.NodeIndex.{NodeIndex, lookup, remember, name_key, claim_key}
use sandbox_operator.Scale.Claim.{namespaced_name}
use sandbox_operator.Scale.Entry.{
  Codecs, Sandbox, split_namespaced_name, entry_from_summary, entry_to_sandbox,
}

-- What the store reads: its source, and the nodes' own rows, which a node call that fails or has
-- no client answers with an error. `arrival` is the order in which reads of some nodes finish.
pub record Reads : Type 0 where
  pub codecs : Codecs
  pub configured : Bool
  pub nodes : Result (List Text)
  pub inventory : Text → Result NodeInventory
  pub by_claim_ref : Text → Text → Result (List SandboxSummary)
  pub by_id : Text → Text → Result SandboxSummary
  pub arrival : List Text → List Text

abbrev pub Match : Type 0
Match = InventoryEntry → Bool

-- The rows that a node is asked for: `nodeRows`.
abbrev pub Rows : Type 0
Rows = Text → Result (List SandboxSummary)

abbrev pub first_match : Codecs → Text → Match → List InventoryEntry → Option Sandbox
first_match c node p [] = none
first_match c node p (e ∷ es) =
    let rest = first_match c node p es in if p e then some (entry_to_sandbox c node e) else rest

abbrev pub on_inventory : Codecs → Match → Result NodeInventory → Option Sandbox
on_inventory c p (err e) = none
on_inventory c p (ok inv) = first_match c inv.node p inv.entries

-- `matchOnNode`
unfoldable pub match_on_node : Reads → Match → Text → Option Sandbox
match_on_node r p node = on_inventory r.codecs p (r.inventory node)

abbrev pub on_rows : Codecs → Text → Match → Result (List SandboxSummary) → Option Sandbox
on_rows c node p (err e) = none
on_rows c node p (ok rows) = first_match c node p (map (entry_from_summary c) rows)

-- `liveOnNode`: a store without a client factory asks nothing.
unfoldable pub live_on_node : Reads → Rows → Match → Text → Option Sandbox
live_on_node r rows p node = if r.configured then on_rows r.codecs node p (rows node) else none

-- `rowsByClaimRef`
unfoldable pub rows_by_claim_ref : Reads → Text → Rows
rows_by_claim_ref r ref node = r.by_claim_ref node ref

abbrev is_404 : Option (ℕ × Text) → Bool
is_404 none = false
is_404 (some (code, m)) = nat_beq code 404

abbrev rows_of_one : Result SandboxSummary → Result (List SandboxSummary)
rows_of_one (ok row) = ok (row ∷ [])
rows_of_one (err e) = if is_404 (as_http_error e) then ok [] else err e

-- `rowByID`
unfoldable pub row_by_id : Reads → Text → Rows
row_by_id r id node = rows_of_one (r.by_id node id)

abbrev pub or_some : {A : Type 0} → Option A → Option A → Option A
or_some (some sb) o = some sb
or_some none o = o

abbrev pub first_some : {A : Type 0} → (Text → Option A) → List Text → Option A
first_some search [] = none
first_some search (n ∷ ns) = let rest = first_some search ns in or_some (search n) rest

abbrev pub among : {A : Type 0} → Reads → (Text → Option A) → Result (List Text) → Result (Option A)
among r search (err e) = err (wrapped (codes "scale: enumerate node inventories") e)
among r search (ok nodes) = ok (first_some search (r.arrival nodes))

-- `FirstHit`: the hit that arrives first.
unfoldable pub first_hit : {A : Type 0} → Reads → (Text → Option A) → Result (Option A)
first_hit r search = among r search r.nodes

-- The indexed node's inventory, then that node's own rows.
abbrev pub try_indexed : Reads → Rows → Match → Option Text → Option Sandbox
try_indexed r rows p none = none
try_indexed r rows p (some node) = or_some (match_on_node r p node) (live_on_node r rows p node)

abbrev pub noted : Text → NodeIndex → Result (Option Sandbox) → NodeIndex × Result (Option Sandbox)
noted key index (ok (some sb)) = (remember key sb.node_name index, ok (some sb))
noted key index res = (index, res)

-- Every inventory, then every node's own rows.
abbrev pub try_all : Reads → Rows → Match → Result (Option Sandbox) → Result (Option Sandbox)
try_all r rows p (err e) = err e
try_all r rows p (ok (some sb)) = ok (some sb)
try_all r rows p (ok none) = if r.configured then first_hit r (live_on_node r rows p) else ok none

abbrev pub or_search :
    Reads → Rows → Match → Text → NodeIndex → Option Sandbox → NodeIndex × Result (Option Sandbox)
or_search r rows p key index (some sb) = (index, ok (some sb))
or_search r rows p key index none =
    noted key index (try_all r rows p (first_hit r (match_on_node r p)))

-- `resolve`
unfoldable pub resolve :
    Reads → Text → Rows → Match → NodeIndex → NodeIndex × Result (Option Sandbox)
unfolding match_on_node live_on_node first_hit
resolve r key rows p index =
    let looked = lookup key index in or_search r rows p key looked.0 (try_indexed r rows p looked.1)

-- `nameMatch`
unfoldable pub name_match : Text → Text → Match
unfolding split_namespaced_name
name_match namespace name e =
    let (ens, ename) = split_namespaced_name e.name in ens == namespace && ename == name

-- `lookupName`
unfoldable pub lookup_name : Reads → Text → Text → NodeIndex → NodeIndex × Result (Option Sandbox)
unfolding resolve name_match
lookup_name r namespace name index =
    resolve r (name_key namespace name) (rows_by_claim_ref r (namespaced_name namespace name))
      (name_match namespace name) index

abbrev pub or_not_found : Result (Option Sandbox) → Result Sandbox
or_not_found (err e) = err e
or_not_found (ok none) = err (status_error 404 (codes "sandboxes"))
or_not_found (ok (some sb)) = ok sb

-- `Get`
unfoldable pub get : Reads → Text → Text → NodeIndex → NodeIndex × Result Sandbox
unfolding lookup_name
get r namespace name index = let x = lookup_name r namespace name index in (x.0, or_not_found x.1)

-- The match of `GetByClaimID`.
unfoldable pub claim_match : Text → (Text → Bool) → Match
unfolding split_namespaced_name
claim_match namespace p e =
    not (is_empty e.id || not (p e.id))
    && (is_empty namespace || (split_namespaced_name e.name).0 == namespace)

-- `GetByClaimID`
unfoldable pub get_by_claim_id :
    Reads → Text → Text → (Text → Bool) → NodeIndex → NodeIndex × Result Sandbox
unfolding resolve claim_match
get_by_claim_id r namespace id p index =
    let x = resolve r (claim_key namespace id) (row_by_id r id) (claim_match namespace p) index in
    (x.0, or_not_found x.1)
