-- ===== src/E2b/Owned.antt =====
-- Whose snapshots pkg/e2bcompat/lifecycle.go shows and deletes.
use sandbox_operator.Prelude.{
  ◌≡◌, refl, ◌∙◌, ◌⊎◌, inl, inr, Bool, true, false, Option, none, some, List, [], ◌∷◌, ◌++◌,
  append_assoc, if◌then◌else◌, ◌==◌, text_beq_iff, find, All, All-append, Text, cut_prefix_sound,
  text_eq, nat_eq,
}
use sandbox_operator.Errors.{Result, ok, err}
use sandbox_operator.Scale.Lifecycle.{Snapshot}
use sandbox_operator.Scale.Stamps.{checkpoint_name_in}
use sandbox_operator.E2b.{Call, unsnaps, Backend, Reply}
use sandbox_operator.E2b.Snapshots.{
  renamed, stripped, from_node, gather, gathered, snapshots_of, deleted, delete_found, delete_among,
  delete_snapshot,
}

abbrev pub Lists : List Snapshot → Snapshot → Type 0
Lists [] snap = ⊥
Lists (x ∷ xs) snap = (x ≡ snap) ⊎ Lists xs snap

module _ (b : Backend) (ns : Text) where
  -- A snapshot that a node lists, stamped with the namespace, and shown without the stamp.
  abbrev pub OwnedOf : List Snapshot → Snapshot → Type 0
  OwnedOf listed snap =
      (as_listed : Snapshot) × Lists listed as_listed
      × (snap.id ≡ as_listed.id)
      × (snap.node ≡ as_listed.node)
      × (as_listed.name ≡ ns ++ (b'/' ∷ snap.name))

  abbrev pub Owned : Snapshot → Type 0
  Owned snap =
      (node : Text) × (listed : List Snapshot) × (b.snapshots node ≡ ok listed)
      × OwnedOf listed snap

  stamp_sound :
      (stamped name : Text)
      → checkpoint_name_in ns stamped ≡ some name
      → stamped ≡ ns ++ (b'/' ∷ name)
  unfolding checkpoint_name_in
  stamp_sound stamped name h =
      cut_prefix_sound stamped (ns ++ (b'/' ∷ [])) name h ∙ append_assoc ns (b'/' ∷ []) name

  OwnedOf-later :
      (x : Snapshot) (listed found : List Snapshot)
      → All (OwnedOf listed) found
      → All (OwnedOf (x ∷ listed)) found
  OwnedOf-later x listed [] h = tt
  OwnedOf-later x listed (snap ∷ found) ((was, l, i, n, m), h) =
      ((was, inr l, i, n, m), OwnedOf-later x listed found h)

  renamed-OwnedOf :
      (snap : Snapshot) (rest : List Snapshot) (o : Option Text)
      → checkpoint_name_in ns snap.name ≡ o
      → All (OwnedOf (snap ∷ rest)) (renamed snap o)
  renamed-OwnedOf snap rest none e = tt
  renamed-OwnedOf snap rest (some name) e =
      ((snap, inl refl, refl, refl, stamp_sound snap.name name e), tt)

  stripped-OwnedOf : (listed : List Snapshot) → All (OwnedOf listed) (stripped ns listed)
  stripped-OwnedOf [] = tt
  stripped-OwnedOf (snap ∷ rest) =
      All-append (OwnedOf (snap ∷ rest)) (renamed snap (checkpoint_name_in ns snap.name))
        (stripped ns rest) (renamed-OwnedOf snap rest _ refl)
        (OwnedOf-later snap rest (stripped ns rest) (stripped-OwnedOf rest))

  OwnedOf-Owned :
      (node : Text) (listed found : List Snapshot)
      → b.snapshots node ≡ ok listed
      → All (OwnedOf listed) found
      → All Owned found
  OwnedOf-Owned node listed [] e h = tt
  OwnedOf-Owned node listed (snap ∷ found) e (o, h) =
      ((node, listed, e, o), OwnedOf-Owned node listed found e h)

  from_node-Owned :
      (node : Text) (r : Result (List Snapshot)) (x : List Snapshot × Bool)
      → b.snapshots node ≡ r
      → All Owned x.0
      → All Owned (from_node b ns r x).0
  from_node-Owned node (err e) x h o = o
  from_node-Owned node (ok listed) x h o =
      All-append Owned (stripped ns listed) x.0
        (OwnedOf-Owned node listed (stripped ns listed) h (stripped-OwnedOf listed)) o

  gather-Owned : (nodes : List Text) → All Owned (gather b ns nodes).0
  unfolding gather
  gather-Owned [] = tt
  gather-Owned (node ∷ nodes) = from_node-Owned node (b.snapshots node) _ refl (gather-Owned nodes)

  -- The first snapshot of an id is owned, as all are.
  abbrev OwnedId : Text → Option Snapshot → Type 0
  OwnedId id none = Unit
  OwnedId id (some snap) = Owned snap × (snap.id ≡ id)

  if-OwnedId :
      (c : Bool) (id : Text) (x y : Option Snapshot)
      → (c ≡ true → OwnedId id x)
      → OwnedId id y
      → OwnedId id (if c then x else y)
  if-OwnedId true id x y hx hy = hx refl
  if-OwnedId false id x y hx hy = hy

  find-OwnedId :
      (id : Text) (found : List Snapshot)
      → All Owned found
      → OwnedId id (find (λ snap. snap.id == id) found)
  find-OwnedId id [] h = tt
  find-OwnedId id (snap ∷ found) (o, h) =
      if-OwnedId (snap.id == id) id (some snap) _ (λ e. (o, (text_beq_iff snap.id id).0 e))
        (find-OwnedId id found h)

  abbrev pub DeletesOwned : Text → List Call → Reply × List Call → Type 0
  DeletesOwned id calls x =
      (x.1 ≡ calls)
      ⊎ (snap : Snapshot) × Owned snap × (snap.id ≡ id) × (x.1 ≡ unsnaps snap.node id ∷ calls)

  deleted-calls :
      (snap : Snapshot) (calls : List Call) (r : Result (Unit {0}))
      → (deleted b ns snap calls r).1 ≡ calls
  deleted-calls snap calls (ok _) = refl
  deleted-calls snap calls (err e) = refl

  delete_found-DeletesOwned :
      (id : Text) (complete : Bool) (o : Option Snapshot) (calls : List Call)
      → OwnedId id o
      → DeletesOwned id calls (delete_found b ns id complete o calls)
  delete_found-DeletesOwned id true none calls h = inl refl
  delete_found-DeletesOwned id false none calls h = inl refl
  delete_found-DeletesOwned id complete (some snap) calls (o, i) =
      inr (snap, o, i, deleted-calls snap _ _)

  delete_among-DeletesOwned :
      (id : Text) (r : Result (List Text)) (calls : List Call)
      → DeletesOwned id calls (delete_among b ns id (gathered b ns r) calls)
  delete_among-DeletesOwned id (err e) calls = inl refl
  delete_among-DeletesOwned id (ok nodes) calls =
      delete_found-DeletesOwned id (gather b ns nodes).1 _ calls
        (find-OwnedId id (gather b ns nodes).0 (gather-Owned nodes))

  -- Deleting a snapshot asks for nothing, or for the deletion of one snapshot of that id on the node
  -- that keeps it, which some node lists under a name stamped with the caller's own namespace.
  pub delete_snapshot-DeletesOwned :
      (id : Text) (calls : List Call) → DeletesOwned id calls (delete_snapshot b ns id calls)
  unfolding delete_snapshot snapshots_of
  delete_snapshot-DeletesOwned id calls = delete_among-DeletesOwned id b.nodes calls
