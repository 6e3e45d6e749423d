-- ===== src/SandboxId/Tests.antt =====
-- The theorems on pkg/e2bcompat/sandboxid.go, at concrete inputs.
use sandbox_operator.Prelude.{◌≡◌, not, ◌&&◌, ◌||◌, ◌==◌, Text, codes, is_empty, text_eq, nat_eq}
use sandbox_operator.SandboxId.{public_id, matches_id}
use sandbox_operator.SandboxId.Matches.{matches_id-public_id}

abbrev rewrite : Text → Text
rewrite s = codes "-"

matches_id-public_id_example : matches_id rewrite (codes "sb_0A") (codes "sb-0a") ≡ (
    not (is_empty (codes "sb_0A") || is_empty (codes "sb-0a"))
    && (codes "sb_0A" == codes "sb-0a" || public_id rewrite (codes "sb_0A") == codes "sb-0a"))
matches_id-public_id_example = matches_id-public_id rewrite (codes "sb_0A") (codes "sb-0a")
