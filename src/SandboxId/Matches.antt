-- ===== src/SandboxId/Matches.antt =====
-- pkg/e2bcompat/sandboxid.go: the comparison in place is the comparison with the published id.
use sandbox_operator.Prelude.{
  suc, ◌≡◌, refl, sym, ap, ◌∙◌, true, false, not, ◌&&◌, ◌||◌, [], ◌∷◌, ◌++◌, map, arith, ◌==◌,
  text_beq_iff, list_beq, length, Text, codes, is_empty, cut_prefix, text_eq, nat_eq,
}
use sandbox_operator.SandboxId.{
  is_dns_safe, needs_rewrite, is_ascii, lower, safe_or_dash, public_id, claim_id, renders,
  matches_id,
}

abbrev rendered : Text → Text
rendered = map (λ c. safe_or_dash (lower c))

renders_lem : (s t : Text) → length s ≡ length t → renders s t ≡ (rendered s == t)
unfolding renders is_dns_safe list_beq
renders_lem [] [] h = refl
renders_lem [] (d ∷ t) h = ground arith
renders_lem (c ∷ s) [] h = ground arith
renders_lem (c ∷ s) (d ∷ t) h = ground (arith, renders_lem s t)

length-rendered : (s : Text) → length (rendered s) ≡ length s
length-rendered [] = refl
length-rendered (c ∷ s) = ap suc (length-rendered s)

rendered-length : (s t : Text) → (rendered s == t) ≡ true → length s ≡ length t
rendered-length s t h = sym (length-rendered s) ∙ ap length ((text_beq_iff (rendered s) t).0 h)

-- A safe text is its own rendering.
rendered-safe : (s : Text) → needs_rewrite s ≡ false → rendered s ≡ s
unfolding needs_rewrite is_dns_safe
rendered-safe [] h = refl
rendered-safe (c ∷ s) h = ground (arith, rendered-safe s)

public_id-ascii :
    (rewrite : Text → Text) (s : Text) → is_ascii s ≡ true → public_id rewrite s ≡ rendered s
unfolding public_id
public_id-ascii rewrite s h = ground (arith, rendered-safe s)

-- A claim id and a requested id match exactly when neither is empty and the requested one is the
-- claim id itself or the id published for it.
pub matches_id-public_id :
    (rewrite : Text → Text) (id requested : Text)
    → matches_id rewrite id requested ≡ (
        not (is_empty id || is_empty requested)
        && (id == requested || public_id rewrite id == requested))
unfolding matches_id
matches_id-public_id rewrite id requested = ground (
  arith,
  public_id-ascii rewrite id,
  renders_lem id requested,
  rendered-length id requested,
  ap (λ s. s == requested) (public_id-ascii rewrite id _),
)

rendered-is_safe : (s : Text) → needs_rewrite (rendered s) ≡ false
unfolding needs_rewrite is_dns_safe
rendered-is_safe [] = refl
rendered-is_safe (c ∷ s) = ground (arith, rendered-is_safe s)

-- The id published for an ASCII claim id has only lower-case letters, digits and hyphens, as a DNS
-- label needs, as many characters as the claim id, and is its own published id.
pub public_id-safe :
    (rewrite : Text → Text) (id : Text)
    → is_ascii id ≡ true
    → let s = public_id rewrite id in
      (needs_rewrite s ≡ false) × (length s ≡ length id) × (public_id rewrite s ≡ s)
unfolding public_id
public_id-safe rewrite id h =
    let e = public_id-ascii rewrite id h in
    rw e (rendered-is_safe id, length-rendered id, rw (rendered-is_safe id))

safe-ascii : (s : Text) → needs_rewrite s ≡ false → is_ascii s ≡ true
unfolding needs_rewrite is_dns_safe is_ascii
safe-ascii [] h = refl
safe-ascii (c ∷ s) h = ground (arith, safe-ascii s)

prefix-ascii : (rest : Text) → is_ascii rest ≡ true → is_ascii (codes "sb_" ++ rest) ≡ true
unfolding is_ascii
prefix-ascii rest h = h

prefix-rendered :
    (rest : Text) → rendered rest ≡ rest → rendered (codes "sb_" ++ rest) ≡ codes "sb-" ++ rest
unfolding is_dns_safe
prefix-rendered rest h = ap (λ s. codes "sb-" ++ s) h

claim_id-dash : (rest : Text) → claim_id (codes "sb-" ++ rest) ≡ codes "sb_" ++ rest
unfolding claim_id cut_prefix
claim_id-dash rest = refl

-- The claim id is read back from the published id, where the claim id is `sb_` before characters
-- that are safe already, as sandboxd's hexadecimal digits are.
pub claim_id-public_id :
    (rewrite : Text → Text) (rest : Text)
    → needs_rewrite rest ≡ false
    → claim_id (public_id rewrite (codes "sb_" ++ rest)) ≡ codes "sb_" ++ rest
claim_id-public_id rewrite rest h =
    let published =
      public_id-ascii rewrite (codes "sb_" ++ rest) (prefix-ascii rest (safe-ascii rest h)) in
    ap claim_id (published ∙ prefix-rendered rest (rendered-safe rest h)) ∙ claim_id-dash rest
