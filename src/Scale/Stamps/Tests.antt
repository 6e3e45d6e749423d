-- ===== src/Scale/Stamps/Tests.antt =====
-- Stamped names of pkg/scale/sandboxstore_lifecycle.go, and their theorems at concrete inputs.
use sandbox_operator.Prelude.{◌≡◌, refl, arith, codes, cut_prefix, Lacks}
use sandbox_operator.Scale.Stamps.{matches_name, stamped_name, checkpoint_name, checkpoint_name_in}
use sandbox_operator.Scale.Stamps.Names.{checkpoint_name_in-other}

ns-Lacks : Lacks b'/' (codes "ns")
ns-Lacks = (omega arith, (omega arith, tt))

checkpoint_name_in-other_example : (codes "ns" ≡ codes "ns") × (codes "a.b" ≡ codes "a.b")
unfolding checkpoint_name stamped_name matches_name checkpoint_name_in cut_prefix
checkpoint_name_in-other_example =
    checkpoint_name_in-other (λ s. s) (codes "ns") (codes "ns") (codes "a.b") (codes "ns/a.b")
      (codes "a.b") ns-Lacks ns-Lacks refl refl
