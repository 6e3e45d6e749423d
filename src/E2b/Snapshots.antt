-- ===== src/E2b/Snapshots.antt =====
-- pkg/e2bcompat/lifecycle.go: the snapshots that a caller sees and deletes.
use sandbox_operator.Prelude.{
  Bool, true, false, not, ◌&&◌, ◌||◌, Option, none, some, List, [], ◌∷◌, ◌++◌, map, if◌then◌else◌,
  ◌==◌, keep, find, Text, codes, is_empty, text_eq, nat_eq,
}
use sandbox_operator.Errors.{Result, ok, err}
use sandbox_operator.SandboxId.{matches_id}
use sandbox_operator.Scale.Entry.{Sandbox}
use sandbox_operator.Scale.Lifecycle.{Snapshot}
use sandbox_operator.Scale.Stamps.{checkpoint_name, checkpoint_name_in}
use sandbox_operator.Storage.{claim_id_of}
use sandbox_operator.E2b.{
  Call, snaps, unsnaps, Backend, nothing, snapshot_ids, Reply, refuses, answers, Verb, Step, goes,
  replies, ◌>>=◌, looked_up, verb_error,
}

-- The snapshots of one node in a namespace, with the namespace stripped from their names.
abbrev pub renamed : Snapshot → Option Text → List Snapshot
renamed snap none = []
renamed snap (some name) = record snap { name = name } ∷ []

abbrev pub stripped : Text → List Snapshot → List Snapshot
stripped ns [] = []
stripped ns (snap ∷ rest) = renamed snap (checkpoint_name_in ns snap.name) ++ stripped ns rest

-- `snapshotInfo`
unfoldable pub snapshot_info : Snapshot → Text × List Text
snapshot_info snap = (snap.id, if is_empty snap.name then [] else snap.name ∷ [])

module _ (b : Backend) (ns : Text) where
  abbrev pub from_node : Result (List Snapshot) → List Snapshot × Bool → List Snapshot × Bool
  from_node (err e) (found, complete) = (found, false)
  from_node (ok listed) (found, complete) = (stripped ns listed ++ found, complete)

  -- The snapshots of the nodes in their order, and whether every node answered.
  unfoldable pub gather : List Text → List Snapshot × Bool
  unfolding checkpoint_name_in
  gather [] = ([], true)
  gather (node ∷ nodes) = from_node (b.snapshots node) (gather nodes)

  abbrev pub gathered : Result (List Text) → Result (List Snapshot × Bool)
  gathered (err e) = err e
  gathered (ok nodes) = ok (gather nodes)

  -- `snapshotsOf`
  unfoldable pub snapshots_of : Result (List Snapshot × Bool)
  unfolding gather
  snapshots_of = gathered b.nodes

  abbrev wanted : Text → Text → Snapshot → Bool
  wanted sandbox_id name snap = not (
      (not (is_empty sandbox_id) && not (matches_id b.rewrite snap.sandbox_id sandbox_id))
      || (not (is_empty name) && not (snap.name == name)))

  abbrev listing : Text → Text → Result (List Snapshot × Bool) → Reply
  listing sandbox_id name (err e) = refuses 500 (codes "failed to list snapshots")
  listing sandbox_id name (ok (found, complete)) =
      answers 200 (snapshot_ids (map snapshot_info (keep (wanted sandbox_id name) found)))

  -- `listSnapshots`, with the query's `sandboxID` and `name`
  unfoldable pub list_snapshots : Text → Text → Reply
  unfolding snapshots_of matches_id snapshot_info
  list_snapshots sandbox_id name = listing sandbox_id name snapshots_of

  abbrev pub deleted : Snapshot → List Call → Result (Unit {0}) → Reply × List Call
  deleted snap calls (err e) = (refuses 500 (codes "failed to delete the snapshot"), calls)
  deleted snap calls (ok _) = (answers 204 nothing, calls)

  abbrev pub delete_found : Text → Bool → Option Snapshot → List Call → Reply × List Call
  delete_found id complete none calls =
      if not complete
      then (refuses 500 (codes "failed to delete the snapshot: a node did not answer"), calls)
      else (refuses 404 (codes "snapshot not found"), calls)
  delete_found id complete (some snap) calls =
      let c = unsnaps snap.node id in deleted snap (c ∷ calls) (b.perform calls c)

  abbrev pub delete_among : Text → Result (List Snapshot × Bool) → List Call → Reply × List Call
  delete_among id (err e) calls = (refuses 500 (codes "failed to delete the snapshot"), calls)
  delete_among id (ok (found, complete)) calls =
      delete_found id complete (find (λ snap. snap.id == id) found) calls

  -- `deleteSnapshot`
  unfoldable pub delete_snapshot : Text → List Call → Reply × List Call
  unfolding snapshots_of
  delete_snapshot id calls = delete_among id snapshots_of calls

  abbrev snapped : Text → Text → Result Snapshot → Step Reply
  snapped id name (err e) = replies (verb_error b id (codes "failed to snapshot the sandbox") e)
  snapped id name (ok snap) =
      goes (answers 201 (snapshot_ids (snapshot_info (record snap { name = name }) ∷ [])))

  abbrev snapshot_as : Text → Text → Sandbox → Result Text → Verb Reply
  snapshot_as id name sb (err e) calls =
      (replies (verb_error b id (codes "failed to snapshot the sandbox") e), calls)
  snapshot_as id name sb (ok stamped) calls = (
    snapped id name (b.snapshot calls sb.node_name (claim_id_of sb) stamped),
    snaps sb.node_name (claim_id_of sb) stamped ∷ calls,
  )

  -- `createSnapshot`, with the request's `name`
  unfoldable pub create_snapshot : Text → Text → Verb Reply
  unfolding looked_up verb_error checkpoint_name snapshot_info
  create_snapshot id name =
      looked_up b ns id >>= λ sb. snapshot_as id name sb (checkpoint_name b.quoted ns name)
