-- ===== src/Scale/Lifecycle/Tests.antt =====
-- The verbs of pkg/scale/sandboxstore_lifecycle.go, and their theorems at concrete inputs.
use sandbox_operator.Prelude.{◌≡◌, refl, true, false, List, [], ◌∷◌, arith, codes}
use sandbox_operator.Prelude.Int.{pos}
use sandbox_operator.Errors.{http_error, ok, err, as_http_error, as_status_error}
use sandbox_operator.Scale.NodeIndex.{NodeIndex, looks}
use sandbox_operator.Scale.Claim.{Assignment}
use sandbox_operator.Scale.Lifecycle.{
  Formats, Child, Fleet, Store, node_verb_error, node_client, child_assignment, below_one, fork,
}
use sandbox_operator.Scale.Lifecycle.Outcomes.{client_code, code_of, or_code, node_verb_error-code}
use sandbox_operator.Scale.Lifecycle.Forked.{Forked, fork-Found}

abbrev formats : Formats
formats = record {
  quoted = λ s. s;
  decimal = λ n. [];
  not_found_message = λ s. s;
  response_message = λ code verb id. verb;
}

abbrev child : Child
child = record { id = codes "sb_2"; token = []; deadline = 0; owner_addr = codes "a1" }

abbrev fleet : Fleet
fleet = record {
  release = λ addr id. ok tt;
  hibernate = λ addr id. ok tt;
  wake = λ addr id. err (http_error 404 []);
  renew = λ addr id spec. ok 0;
  fork = λ addr id spec. ok (child ∷ []);
  checkpoint = λ addr id name. err (http_error 500 []);
  checkpoints = λ addr. ok [];
  delete_checkpoint = λ addr id. ok tt;
  delete_template = λ addr key digest. ok tt;
  promote = λ addr id template. err (http_error 500 []);
  set_template_labels = λ addr key labels digest. ok tt;
  info = λ addr. err (http_error 500 []);
  set_instance_metadata = λ addr id doc. ok tt;
  sandbox = λ addr id. err (http_error 500 []);
}

abbrev store : Store
store = record { configured = true; capacity = λ node. ok (codes "a1") }

abbrev index : NodeIndex
index = record { max_entries = 4; cur = []; prev = [] }

node_verb_error-code_example :
    code_of (as_status_error (node_verb_error formats (http_error 409 []) (codes "pause") [] []))
    ≡ or_code
        (client_code (as_http_error (http_error 409 [])))
        (code_of (as_status_error (http_error 409 [])))
node_verb_error-code_example =
    node_verb_error-code formats (http_error 409 []) (codes "pause") [] []

abbrev made : List Assignment
made = child_assignment (codes "n1") child ∷ []

forked-made :
    (fork formats fleet store index (codes "ns") (codes "n1") (codes "sb_1") (pos 2) (pos 0)).1
    ≡ ok made
unfolding fork node_client
forked-made = refl

fork-Found_example :
    (below_one (pos 2) ≡ false)
    × Forked fleet store
        (codes "ns")
        (codes "n1")
        (codes "sb_1")
        (pos 2)
        (pos 0)
        (looks (codes "k") ∷ [])
        (
          (fork formats fleet store index
              (codes "ns")
              (codes "n1")
              (codes "sb_1")
              (pos 2)
              (pos 0)).0,
          made,
        )
fork-Found_example =
    fork-Found formats fleet store index (codes "ns") (codes "n1") (codes "sb_1") (pos 2) (pos 0)
      (looks (codes "k") ∷ []) made forked-made (omega arith)
