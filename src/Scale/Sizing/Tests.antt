-- ===== src/Scale/Sizing/Tests.antt =====
-- The theorems on pkg/scale/poolkey.go, at concrete inputs.
use sandbox_operator.Prelude.{ℕ, codes}
use sandbox_operator.Scale.Sizing.{Container}

abbrev container : ℕ → ℕ → Container
container cpu mem = record {
  image = codes "base";
  request_cpu = 0;
  request_memory = mem;
  limit_cpu = cpu;
  limit_memory = 0;
}
