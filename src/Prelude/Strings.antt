-- ===== src/Prelude/Strings.antt =====
-- Go strings as lists of bytes, and what the code uses of package strings.
use Prim.Native.Char.{code}
use Prim.Native.Nat.{ℕ}
use Prim.Native.String.{String}
use mathlib.Core.Path.{◌≡◌, refl}
use mathlib.Core.Logic.{◌↔◌, ◌≢◌, inl, inr}
use mathlib.Core.Bool.{Bool, true, false}
use mathlib.Core.List.{List, [], ◌∷◌, ◌++◌}
use mathlib.Core.Option.{Option, none, some}
use native.Mathlib.Omega.{arith}
use sandbox_operator.Prelude.Tests.{if◌then◌else◌, nat_beq, Option-cases}
use sandbox_operator.Prelude.Equality.{Eq, ◌==◌, nat_eq, list_eq, list_beq_iff}
use sandbox_operator.Prelude.Lists.{All}

abbrev pub Text : Type 0
Text = List ℕ

instance abbrev pub text_eq : Eq Text
text_eq = list_eq

pub text_beq_iff : (s t : Text) → ((s == t) ≡ true) ↔ (s ≡ t)
text_beq_iff = list_beq_iff

-- The bytes of an ASCII literal.
abbrev pub codes : String → Text
codes String.[] = []
codes (String.◌∷◌ c s) = code c ∷ codes s

-- `s == ""`
abbrev pub is_empty : Text → Bool
is_empty [] = true
is_empty (c ∷ s) = false

-- `cmp.Or(s, t)`
abbrev pub or_else : Text → Text → Text
or_else [] t = t
or_else (c ∷ s) t = c ∷ s

-- `strings.CutPrefix(s, p)`
unfoldable pub cut_prefix : Text → Text → Option Text
cut_prefix s [] = some s
cut_prefix [] (d ∷ p) = none
cut_prefix (c ∷ s) (d ∷ p) = if nat_beq c d then cut_prefix s p else none

-- `strings.Cut(s, sep)` for a separator of one byte
unfoldable pub cut : ℕ → Text → Option (Text × Text)
cut b [] = none
cut b (c ∷ s) =
    let rest : Option (Text × Text) = elim (cut b s) [
      | none ↦ none
      | some (before, after) ↦ some (c ∷ before, after)
    ] in
    if nat_beq c b then some ([], s) else rest

abbrev pub Lacks : ℕ → Text → Type 0
Lacks b = All (λ c. c ≢ b)

pub cut_prefix-append : (p s : Text) → cut_prefix (p ++ s) p ≡ some s
unfolding cut_prefix
cut_prefix-append [] s = refl
cut_prefix-append (c ∷ p) s = ground (arith, cut_prefix-append p s)

pub cut_prefix_sound : (s p r : Text) → cut_prefix s p ≡ some r → s ≡ p ++ r
unfolding cut_prefix
cut_prefix_sound s [] r h = ground arith
cut_prefix_sound [] (d ∷ p) r h = ground arith
cut_prefix_sound (c ∷ s) (d ∷ p) r h = ground (arith, cut_prefix_sound s p r)

-- A text is cut at the first separator.
pub cut-append : (b : ℕ) (s t : Text) → Lacks b s → cut b (s ++ b ∷ t) ≡ some (s, t)
unfolding cut
cut-append b [] t h = ground arith
cut-append b (c ∷ s) t (n, h) = ground (arith, cut-append b s t h)

pub cut-none : (b : ℕ) (s : Text) → Lacks b s → cut b s ≡ none
unfolding cut
cut-none b [] h = refl
cut-none b (c ∷ s) (n, h) = ground (arith, cut-none b s h)

pub cut_sound :
    (b : ℕ) (s before after : Text)
    → cut b s ≡ some (before, after)
    → (s ≡ before ++ b ∷ after) × Lacks b before
unfolding cut
cut_sound b [] before after h = ground arith
cut_sound b (c ∷ s) before after h = elim (Option-cases (cut b s)) [
  | inl e ↦ ground arith
  | inr ((p, q), e) ↦ ground (arith, cut_sound b s p q e)
]
