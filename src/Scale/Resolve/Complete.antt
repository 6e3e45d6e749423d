-- ===== src/Scale/Resolve/Complete.antt =====
-- pkg/scale/sandboxstore_impl.go: a lookup does not miss a sandbox that some node has, even when the
-- index names another node.
use sandbox_operator.Prelude.{
  ◌≡◌, refl, sym, ap, ◌∙◌, subst, inl, inr, Bool, true, false, Option, none, some, List, [], ◌∷◌,
  map, arith, if◌then◌else◌, Bool-cases, ◌==◌, text_beq_iff, any, Text, contains, is_some, text_eq,
  nat_eq,
}
use sandbox_operator.Errors.{Result, ok, err}
use sandbox_operator.Scale.Model.{InventoryEntry, NodeInventory, SandboxSummary}
use sandbox_operator.Scale.NodeIndex.{NodeIndex, lookup, name_key}
use sandbox_operator.Scale.Claim.{namespaced_name}
use sandbox_operator.Scale.KubeInventory.Reads.{is_ok}
use sandbox_operator.Scale.Entry.{Codecs, Sandbox, entry_from_summary}
use sandbox_operator.Scale.Resolve.{
  Reads, Match, Rows, first_match, match_on_node, live_on_node, rows_by_claim_ref, first_some,
  among, first_hit, or_some, try_indexed, try_all, noted, or_search, resolve, name_match,
  lookup_name, or_not_found, get,
}

-- The finished reads are those of the nodes listed, in some order.
abbrev pub Arrives : Reads → Type 0
Arrives r = (node : Text) (ns : List Text) → contains node (r.arrival ns) ≡ contains node ns

abbrev hit : Result (Option Sandbox) → Bool
hit (err e) = false
hit (ok o) = is_some o

first_match-some :
    (c : Codecs) (node : Text) (p : Match) (es : List InventoryEntry)
    → any p es ≡ true
    → is_some (first_match c node p es) ≡ true
first_match-some c node p [] h = h
first_match-some c node p (e ∷ es) h = ground (arith, first_match-some c node p es)

or_some-left : (a b : Option Sandbox) → is_some a ≡ true → is_some (or_some a b) ≡ true
or_some-left none b h = cc
or_some-left (some sb) b h = refl

or_some-right : (a b : Option Sandbox) → is_some b ≡ true → is_some (or_some a b) ≡ true
or_some-right none b h = h
or_some-right (some sb) b h = refl

first_some-hit :
    (search : Text → Option Sandbox) (node : Text) (ns : List Text)
    → contains node ns ≡ true
    → is_some (search node) ≡ true
    → is_some (first_some search ns) ≡ true
first_some-hit search node [] k h = cc
first_some-hit search node (n ∷ ns) k h = elim (Bool-cases (n == node)) [
  | inl e ↦
      or_some-left (search n) (first_some search ns)
        (subst (λ x. is_some (search x) ≡ true) (sym ((text_beq_iff n node).0 e)) h)
  | inr e ↦
      or_some-right (search n) (first_some search ns)
        (first_some-hit search node ns (ground arith) h)
]

if-hit :
    (b : Bool) (x y : Result (Option Sandbox))
    → b ≡ true
    → hit x ≡ true
    → hit (if b then x else y) ≡ true
if-hit true x y h k = k
if-hit false x y h k = cc

module _ (r : Reads) (ns : List Text) (node : Text) (listed : r.nodes ≡ ok ns)
    (member : contains node ns ≡ true) (arrives : Arrives r) where
  first_hit-hit :
      (search : Text → Option Sandbox)
      → is_some (search node) ≡ true
      → hit (first_hit r search) ≡ true
  unfolding first_hit
  first_hit-hit search h =
      ap (λ x. hit (among r search x)) listed
      ∙ first_some-hit search node (r.arrival ns) (arrives node ns ∙ member) h

  first_hit-ok : (search : Text → Option Sandbox) → is_ok (first_hit r search) ≡ true
  unfolding first_hit
  first_hit-ok search = ap (λ x. is_ok (among r search x)) listed

  try_all-inventory :
      (rows : Rows) (p : Match) (x : Result (Option Sandbox))
      → hit x ≡ true
      → hit (try_all r rows p x) ≡ true
  try_all-inventory rows p (err e) h = cc
  try_all-inventory rows p (ok none) h = cc
  try_all-inventory rows p (ok (some sb)) h = refl

  try_all-live :
      (rows : Rows) (p : Match) (x : Result (Option Sandbox))
      → is_ok x ≡ true
      → r.configured ≡ true
      → is_some (live_on_node r rows p node) ≡ true
      → hit (try_all r rows p x) ≡ true
  try_all-live rows p (err e) i c h = cc
  try_all-live rows p (ok none) i c h =
      if-hit r.configured (first_hit r (live_on_node r rows p)) (ok none) c
        (first_hit-hit (live_on_node r rows p) h)
  try_all-live rows p (ok (some sb)) i c h = refl

noted-hit :
    (key : Text) (index : NodeIndex) (x : Result (Option Sandbox))
    → hit x ≡ true
    → is_ok (or_not_found (noted key index x).1) ≡ true
noted-hit key index (err e) h = cc
noted-hit key index (ok none) h = cc
noted-hit key index (ok (some sb)) h = refl

or_search-hit :
    (r : Reads) (rows : Rows) (p : Match) (key : Text) (index : NodeIndex) (o : Option Sandbox)
    → hit (try_all r rows p (first_hit r (match_on_node r p))) ≡ true
    → is_ok (or_not_found (or_search r rows p key index o).1) ≡ true
or_search-hit r rows p key index (some sb) h = refl
or_search-hit r rows p key index none h =
    noted-hit key index (try_all r rows p (first_hit r (match_on_node r p))) h

-- Whatever the index holds and in whatever order the nodes answer, `Get` returns a sandbox when the
-- nodes are listed and one of them has a readable inventory with an entry of that namespace and
-- name.
pub get-inventory :
    (r : Reads) (ns : List Text) (node namespace name : Text) (inv : NodeInventory)
    (index : NodeIndex)
    → r.nodes ≡ ok ns
    → contains node ns ≡ true
    → Arrives r
    → r.inventory node ≡ ok inv
    → any (name_match namespace name) inv.entries ≡ true
    → is_ok (get r namespace name index).1 ≡ true
unfolding get lookup_name resolve match_on_node
get-inventory r ns node namespace name inv index listed member arrives i h =
    let rows = rows_by_claim_ref r (namespaced_name namespace name) in
    let p = name_match namespace name in
    let key = name_key namespace name in
    let found : is_some (match_on_node r p node) ≡ true =
      rw i (first_match-some r.codecs inv.node p inv.entries h) in
    or_search-hit r rows p key (lookup key index).0 (try_indexed r rows p (lookup key index).1) (
      try_all-inventory r ns node listed member arrives rows p (first_hit r (match_on_node r p))
        (first_hit-hit r ns node listed member arrives (match_on_node r p) found))

-- The same holds when the store may call the nodes and one that is listed has such a row in its own
-- index, though no inventory shows it yet.
pub get-live :
    (r : Reads) (ns : List Text) (node namespace name : Text) (rows : List SandboxSummary)
    (index : NodeIndex)
    → r.nodes ≡ ok ns
    → contains node ns ≡ true
    → Arrives r
    → r.configured ≡ true
    → rows_by_claim_ref r (namespaced_name namespace name) node ≡ ok rows
    → any (name_match namespace name) (map (entry_from_summary r.codecs) rows) ≡ true
    → is_ok (get r namespace name index).1 ≡ true
unfolding get lookup_name resolve live_on_node rows_by_claim_ref
get-live r ns node namespace name rows index listed member arrives c i h =
    let ask = rows_by_claim_ref r (namespaced_name namespace name) in
    let p = name_match namespace name in
    let key = name_key namespace name in
    let found : is_some (live_on_node r ask p node) ≡ true =
      rw (c, i) (first_match-some r.codecs node p (map (entry_from_summary r.codecs) rows) h) in
    or_search-hit r ask p key (lookup key index).0 (try_indexed r ask p (lookup key index).1) (
      try_all-live r ns node listed member arrives ask p (first_hit r (match_on_node r p))
        (first_hit-ok r ns node listed member arrives (match_on_node r p)) c found)
