-- ===== src/SandboxId.antt =====
-- pkg/e2bcompat/sandboxid.go: claim ids and the sandbox ids published for them. A byte of 0x80 or
-- more belongs to a rune that is not ASCII; what strings.ToLower and strings.Map make of a text
-- with such a rune is a parameter.
pub mod Matches
mod Tests
use sandbox_operator.Prelude.{
  ℕ, ◌+◌, ◌-◌, Bool, true, false, not, ◌&&◌, ◌||◌, Option, none, some, [], ◌∷◌, ◌++◌, map, leb,
  nat_beq, if◌then◌else◌, ◌==◌, length, any, Text, codes, is_empty, cut_prefix, text_eq, nat_eq,
}

-- `isDNSSafe`
unfoldable pub is_dns_safe : ℕ → Bool
is_dns_safe c = (leb b'a' c && leb c b'z') || ((leb b'0' c && leb c b'9') || nat_beq c b'-')

-- `needsRewrite`
unfoldable pub needs_rewrite : Text → Bool
unfolding is_dns_safe
needs_rewrite s = any (λ c. not (is_dns_safe c)) s

-- `isASCII`
unfoldable pub is_ascii : Text → Bool
is_ascii s = not (any (λ c. leb 128 c) s)

-- `c += 'a' - 'A'` on an upper-case letter
abbrev pub lower : ℕ → ℕ
lower c = if leb b'A' c && leb c b'Z' then c + 32 else c

abbrev pub safe_or_dash : ℕ → ℕ
safe_or_dash c = if is_dns_safe c then c else b'-'

-- `PublicID`; `rewrite` is the rewriting of a text that is not ASCII.
unfoldable pub public_id : (Text → Text) → Text → Text
unfolding needs_rewrite is_ascii is_dns_safe
public_id rewrite id =
    if not (needs_rewrite id)
    then id
    else if is_ascii id
    then map (λ c. safe_or_dash (lower c)) id
    else rewrite id

abbrev or_given : Text → Option Text → Text
or_given s none = s
or_given s (some rest) = codes "sb_" ++ rest

-- `ClaimID`
unfoldable pub claim_id : Text → Text
unfolding cut_prefix
claim_id s = or_given s (cut_prefix s (codes "sb-"))

-- The loop of `MatchesID`, over texts of one length.
unfoldable pub renders : Text → Text → Bool
unfolding is_dns_safe
renders [] requested = true
renders (c ∷ s) [] = false
renders (c ∷ s) (d ∷ t) =
    let rest = renders s t in if nat_beq d (safe_or_dash (lower c)) then rest else false

-- `MatchesID`
unfoldable pub matches_id : (Text → Text) → Text → Text → Bool
unfolding public_id renders
matches_id rewrite id requested =
    if is_empty id || is_empty requested
    then false
    else if id == requested
    then true
    else if not (is_ascii id)
    then public_id rewrite id == requested
    else if not (nat_beq (length id) (length requested))
    then false
    else renders id requested
