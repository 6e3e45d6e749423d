-- ===== src/Scale/Stamps.antt =====
-- pkg/scale/sandboxstore_lifecycle.go: names of snapshots and templates, stamped with a namespace.
-- A refusal is a bad request, which the Kubernetes API machinery gives the code 400;
-- `quoted` is the `%q` of package fmt.
pub mod Names
mod Tests
use sandbox_operator.Prelude.{
  ℕ, ◌-◌, ◌/◌, Bool, false, not, ◌&&◌, ◌||◌, Option, [], ◌∷◌, ◌++◌, ltb, leb, nat_beq,
  if◌then◌else◌, length, all, Text, codes, cut_prefix, text_eq,
}
use sandbox_operator.Prelude.Dict.{Dict}
use sandbox_operator.Prelude.Int.{ℤ, pos, negsuc}
use sandbox_operator.Errors.{
  Error, plain, wrapped, status_error, Result, ok, err, ◌>>=◌, or_error, as_http_error,
}
use sandbox_operator.Scale.Model.{
  PoolKey, PromotedTemplate, SandboxSummary, NodeInfo, templates_from_info,
}
use sandbox_operator.Scale.NodeIndex.{NodeIndex, remember, name_key, claim_key}
use sandbox_operator.Scale.Claim.{Assignment, namespaced_name}

-- The characters of `sandboxdName` after the first, and the first's.
abbrev pub is_alnum : ℕ → Bool
is_alnum c =
    (leb b'0' c && leb c b'9') || ((leb b'A' c && leb c b'Z') || (leb b'a' c && leb c b'z'))

abbrev pub is_name_char : ℕ → Bool
is_name_char c =
    is_alnum c
    || (nat_beq c b'.'
        || (nat_beq c b'_' || (nat_beq c b':' || (nat_beq c b'/' || nat_beq c b'-'))))

-- `sandboxdName.MatchString`
unfoldable pub matches_name : Text → Bool
matches_name [] = false
matches_name (c ∷ s) = is_alnum c && (all is_name_char s && leb (length s) 62)

abbrev pub max_sandboxd_name : ℕ
max_sandboxd_name = 63

-- `StampedName`
unfoldable pub stamped_name : (Text → Text) → Text → Text → Text → Text → Result Text
stamped_name quoted kind prefix namespace name =
    let stamped = prefix ++ (namespace ++ (b'/' ∷ name)) in
    if ltb max_sandboxd_name (length stamped)
    then err (
        status_error 400
          (kind ++ (codes " name " ++ (quoted name ++ codes ": too many characters"))))
    else if not (matches_name stamped)
    then err (
        status_error 400 (
          kind
          ++ (codes " name " ++ (quoted name ++ codes ": letters, digits and . _ : / - only"))))
    else ok stamped

-- `CheckpointName`
unfoldable pub checkpoint_name : (Text → Text) → Text → Text → Result Text
checkpoint_name quoted namespace name = stamped_name quoted (codes "snapshot") [] namespace name

-- `CheckpointNameIn`
unfoldable pub checkpoint_name_in : Text → Text → Option Text
checkpoint_name_in namespace stamped = cut_prefix stamped (namespace ++ (b'/' ∷ []))
