-- ===== src/Storage/Tests.antt =====
-- Requests of pkg/scale/apiserver/storage.go, and their theorems at concrete inputs.
use sandbox_operator.Prelude.{
  ◌≡◌, refl, true, false, none, some, [], ◌∷◌, list_beq, codes, is_empty, text_eq,
}
use sandbox_operator.Prelude.Dict
use sandbox_operator.Prelude.Dict.{Dict}
use sandbox_operator.Errors.{Result, ok}
use sandbox_operator.Scale.Claim.{Assignment}
use sandbox_operator.Scale.Entry.{Codecs, Sandbox}
use sandbox_operator.Storage.{
  Submitted, World, ttl_seconds_for_sandbox, synthesize_claimed_sandbox, name_of, create, delete,
}
use sandbox_operator.Storage.Requests.{Released, Claimed, delete-Released, create-Claimed}

abbrev codecs : Codecs
codecs = record {
  decimal = λ n. [];
  rfc3339 = λ n. [];
  unix = λ n. [];
  fnv = λ s. [];
  marshal = λ d. none;
  split_host = λ s. some s;
}

abbrev found : Sandbox
found = record {
  namespace = codes "ns";
  name = codes "x";
  labels = [];
  annotations = (codes "sandbox.cocoonstack.io/claim-id", codes "sb_1") ∷ [];
  resource_version = [];
  node_name = codes "n1";
  pod_ips = [];
  ready = true;
  reason = [];
  created = none;
}

abbrev assignment : Assignment
assignment = record {
  sandbox_name = codes "sb_1";
  node = codes "n1";
  address = codes "a1";
  token = codes "t";
  deadline = 5;
  net_route = [];
}

abbrev world : World
world = record {
  codecs = codecs;
  now = 1500000000;
  generate = λ s. s;
  atoi = λ s. none;
  claim = λ namespace name pool options. ok assignment;
  get = λ namespace name. ok found;
  release = λ node id. ok tt;
}

abbrev submitted : Submitted
submitted = record {
  namespace = codes "ns";
  name = codes "x";
  generate_name = [];
  annotations = [];
  pod_annotations = [];
  containers = [];
  shutdown_time = some 4;
}

abbrev admit {ℓ} : {A : Type ℓ} → A → Result (Unit {0})
admit a = ok tt

delete-Released_example :
    Released world
      (codes "ns")
      (codes "x")
      found
      (delete world false admit (codes "ns") (codes "x")).0
unfolding delete list_beq Dict.get
delete-Released_example = delete-Released world false admit (codes "ns") (codes "x") found refl

create-Claimed_example :
    (false ≡ false)
    × (admit submitted ≡ ok tt)
    × (is_empty (name_of world submitted) ≡ false)
    × Claimed world
        (codes "other")
        submitted
        (synthesize_claimed_sandbox codecs (codes "other") (codes "x") submitted assignment)
unfolding create ttl_seconds_for_sandbox
create-Claimed_example =
    create-Claimed world false admit (codes "other") submitted
      (synthesize_claimed_sandbox codecs (codes "other") (codes "x") submitted assignment) refl
