-- ===== src/Scale/Resolve/Found.antt =====
-- pkg/scale/sandboxstore_impl.go: a lookup finds what it was asked for, and finds it if it is there.
use sandbox_operator.Prelude.{
  ◌≡◌, subst, inl, inr, Bool, true, false, Option, none, some, List, [], ◌∷◌, map, arith,
  if◌then◌else◌, Bool-cases, text_beq_iff, Text,
}
use sandbox_operator.Errors.{Result, ok, err}
use sandbox_operator.Scale.Model.{InventoryEntry, NodeInventory, SandboxSummary}
use sandbox_operator.Scale.NodeIndex.{NodeIndex, lookup, name_key}
use sandbox_operator.Scale.Claim.{namespaced_name}
use sandbox_operator.Scale.Entry.{
  Codecs, Sandbox, split_namespaced_name, entry_from_summary, entry_to_sandbox,
}
use sandbox_operator.Scale.Resolve.{
  Reads, Match, Rows, first_match, on_inventory, match_on_node, on_rows, live_on_node,
  rows_by_claim_ref, first_some, among, first_hit, or_some, try_indexed, try_all, noted, or_search,
  resolve, name_match, lookup_name, or_not_found, get,
}

abbrev Each : (Sandbox → Type 0) → Option Sandbox → Type 0
Each Q none = Unit
Each Q (some sb) = Q sb

abbrev EachOk : (Sandbox → Type 0) → Result (Option Sandbox) → Type 0
EachOk Q (err e) = Unit
EachOk Q (ok o) = Each Q o

module _ (r : Reads) (rows : Rows) (p : Match) (Q : Sandbox → Type 0)
    (h : (node : Text) (e : InventoryEntry)
      → p e ≡ true
      → Q (entry_to_sandbox r.codecs node e)) where
  first_match-Each :
      (node : Text) (es : List InventoryEntry) → Each Q (first_match r.codecs node p es)
  first_match-Each node [] = tt
  first_match-Each node (e ∷ es) = elim (Bool-cases (p e)) [
    | inl k ↦ rw k (h node e k)
    | inr k ↦ rw k (first_match-Each node es)
  ]

  on_inventory-Each : (i : Result NodeInventory) → Each Q (on_inventory r.codecs p i)
  on_inventory-Each (err e) = tt
  on_inventory-Each (ok inv) = first_match-Each inv.node inv.entries

  on_rows-Each :
      (node : Text) (i : Result (List SandboxSummary)) → Each Q (on_rows r.codecs node p i)
  on_rows-Each node (err e) = tt
  on_rows-Each node (ok l) = first_match-Each node (map (entry_from_summary r.codecs) l)

  match_on_node-Each : (node : Text) → Each Q (match_on_node r p node)
  unfolding match_on_node
  match_on_node-Each node = on_inventory-Each (r.inventory node)

  if-Each : (b : Bool) (x y : Option Sandbox) → Each Q x → Each Q y → Each Q (if b then x else y)
  if-Each true x y h k = h
  if-Each false x y h k = k

  live_on_node-Each : (node : Text) → Each Q (live_on_node r rows p node)
  unfolding live_on_node
  live_on_node-Each node =
      if-Each r.configured (on_rows r.codecs node p (rows node)) none
        (on_rows-Each node (rows node)) tt

  or_some-Each : (a b : Option Sandbox) → Each Q a → Each Q b → Each Q (or_some a b)
  or_some-Each (some sb) b x y = x
  or_some-Each none b x y = y

  try_indexed-Each : (o : Option Text) → Each Q (try_indexed r rows p o)
  try_indexed-Each none = tt
  try_indexed-Each (some node) =
      or_some-Each (match_on_node r p node) (live_on_node r rows p node) (match_on_node-Each node)
        (live_on_node-Each node)

  first_some-Each :
      (search : Text → Option Sandbox) (ns : List Text)
      → ((n : Text) → Each Q (search n))
      → Each Q (first_some search ns)
  first_some-Each search [] k = tt
  first_some-Each search (n ∷ ns) k =
      or_some-Each (search n) (first_some search ns) (k n) (first_some-Each search ns k)

  among-EachOk :
      (search : Text → Option Sandbox) (nodes : Result (List Text))
      → ((n : Text) → Each Q (search n))
      → EachOk Q (among r search nodes)
  among-EachOk search (err e) k = tt
  among-EachOk search (ok nodes) k = first_some-Each search (r.arrival nodes) k

  first_hit-EachOk :
      (search : Text → Option Sandbox)
      → ((n : Text) → Each Q (search n))
      → EachOk Q (first_hit r search)
  unfolding first_hit
  first_hit-EachOk search k = among-EachOk search r.nodes k

  if-EachOk :
      (b : Bool) (x y : Result (Option Sandbox))
      → EachOk Q x
      → EachOk Q y
      → EachOk Q (if b then x else y)
  if-EachOk true x y h k = h
  if-EachOk false x y h k = k

  try_all-EachOk : (x : Result (Option Sandbox)) → EachOk Q x → EachOk Q (try_all r rows p x)
  try_all-EachOk (err e) k = tt
  try_all-EachOk (ok (some sb)) k = k
  try_all-EachOk (ok none) k =
      if-EachOk r.configured (first_hit r (live_on_node r rows p)) (ok none)
        (first_hit-EachOk (live_on_node r rows p) live_on_node-Each) tt

  noted-EachOk :
      (key : Text) (index : NodeIndex) (x : Result (Option Sandbox))
      → EachOk Q x
      → EachOk Q (noted key index x).1
  noted-EachOk key index (err e) k = tt
  noted-EachOk key index (ok none) k = tt
  noted-EachOk key index (ok (some sb)) k = k

  or_search-EachOk :
      (key : Text) (index : NodeIndex) (o : Option Sandbox)
      → Each Q o
      → EachOk Q (or_search r rows p key index o).1
  or_search-EachOk key index (some sb) k = k
  or_search-EachOk key index none k =
      noted-EachOk key index (try_all r rows p (first_hit r (match_on_node r p))) (
        try_all-EachOk (first_hit r (match_on_node r p))
          (first_hit-EachOk (match_on_node r p) match_on_node-Each))

  resolve-EachOk : (key : Text) (index : NodeIndex) → EachOk Q (resolve r key rows p index).1
  unfolding resolve
  resolve-EachOk key index =
      or_search-EachOk key (lookup key index).0 (try_indexed r rows p (lookup key index).1)
        (try_indexed-Each (lookup key index).1)

abbrev Named : Text → Text → Sandbox → Type 0
Named namespace name sb = (sb.namespace ≡ namespace) × (sb.name ≡ name)

name_match-Named :
    (c : Codecs) (namespace name node : Text) (e : InventoryEntry)
    → name_match namespace name e ≡ true
    → Named namespace name (entry_to_sandbox c node e)
unfolding name_match entry_to_sandbox
name_match-Named c namespace name node e h =
    let x = split_namespaced_name e.name in
    ground (arith, text_beq_iff x.0 namespace, text_beq_iff x.1 name)

or_not_found-ok :
    (x : Result (Option Sandbox)) (Q : Sandbox → Type 0) (sb : Sandbox)
    → EachOk Q x
    → or_not_found x ≡ ok sb
    → Q sb
or_not_found-ok (err e) Q sb k h = cc
or_not_found-ok (ok none) Q sb k h = cc
or_not_found-ok (ok (some t)) Q sb k h = let e : t ≡ sb = cc in subst Q e k

-- A sandbox that `Get` returns has the namespace and the name asked for, wherever it was found:
-- under the indexed node, in an inventory or in a node's own rows.
pub get-Named :
    (r : Reads) (namespace name : Text) (index : NodeIndex) (sb : Sandbox)
    → (get r namespace name index).1 ≡ ok sb
    → (sb.namespace ≡ namespace) × (sb.name ≡ name)
unfolding get lookup_name
get-Named r namespace name index sb h =
    let rows = rows_by_claim_ref r (namespaced_name namespace name) in
    let p = name_match namespace name in
    or_not_found-ok (resolve r (name_key namespace name) rows p index).1 (Named namespace name) sb
      (resolve-EachOk r rows p (Named namespace name)
        (λ node e. name_match-Named r.codecs namespace name node e) (name_key namespace name) index)
      h
