-- ===== src/Scale/Entry/Tests.antt =====
-- The theorems on the names of pkg/scale/sandboxstore_impl.go, at concrete inputs.
use sandbox_operator.Prelude.{cut, ◌≡◌, refl, true, false, none, some, [], codes, cut}
use sandbox_operator.Scale.Model.{SandboxSummary}
use sandbox_operator.Scale.Entry.{Codecs, entry_from_summary, entry_to_sandbox}

abbrev codecs : Codecs
codecs = record {
  decimal = λ n. [];
  rfc3339 = λ n. [];
  unix = λ n. [];
  fnv = λ s. [];
  marshal = λ d. none;
  split_host = λ s. some s;
}

abbrev row : SandboxSummary
row = record {
  id = codes "sb_2";
  key = record { template = codes "base"; net = []; size = [] };
  deadline = 0;
  claimed_at = 5;
  hibernated = true;
  archived = false;
  claim_ref = codes "ns/y";
  token = [];
  metadata = [];
  cpu_count = 2;
  mem_total_bytes = 0;
}

row_name : (entry_to_sandbox codecs (codes "n1") (entry_from_summary codecs row)).name ≡ codes "y"
unfolding entry_to_sandbox cut entry_from_summary
row_name = refl
