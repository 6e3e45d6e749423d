-- ===== src/Prelude/Sorting.antt =====
-- `slices.Sorted(maps.Keys(m))`: the keys of a map in the byte order of Go strings.
use mathlib.Core.Path.{◌≡◌, refl}
use mathlib.Core.Bool.{Bool, true, false, ◌||◌}
use mathlib.Core.List.{List, [], ◌∷◌, map}
use mathlib.Core.Option.{Option, none, some}
use native.Mathlib.Omega.{arith}
use sandbox_operator.Prelude.Tests.{if◌then◌else◌, ltb, nat_beq}
use sandbox_operator.Prelude.Equality.{◌==◌}
use sandbox_operator.Prelude.Lists.{any}
use sandbox_operator.Prelude.Strings.{Text, text_eq, text_beq_iff}
use sandbox_operator.Prelude.Dict
use sandbox_operator.Prelude.Dict.{Dict}

abbrev pub text_leb : Text → Text → Bool
text_leb [] t = true
text_leb (c ∷ s) [] = false
text_leb (c ∷ s) (d ∷ t) =
    let rest = text_leb s t in if ltb c d then true else if nat_beq c d then rest else false

abbrev pub insert : Text → List Text → List Text
insert s [] = s ∷ []
insert s (t ∷ ts) = let rest = insert s ts in if text_leb s t then s ∷ (t ∷ ts) else t ∷ rest

abbrev pub sorted : List Text → List Text
sorted [] = []
sorted (s ∷ ss) = insert s (sorted ss)

-- `slices.Contains`
abbrev pub contains : Text → List Text → Bool
contains s = any (λ t. t == s)

abbrev pub keys {ℓ} : {A : Type ℓ} → Dict Text A → List Text
keys d = map (λ e. e.0) d

abbrev pub is_some {ℓ} : {A : Type ℓ} → Option A → Bool
is_some none = false
is_some (some a) = true

contains-insert :
    (x s : Text) (ts : List Text) → contains x (insert s ts) ≡ (s == x || contains x ts)
contains-insert x s [] = refl
contains-insert x s (t ∷ ts) = ground (arith, contains-insert x s ts)

pub contains-sorted : (x : Text) (ss : List Text) → contains x (sorted ss) ≡ contains x ss
contains-sorted x [] = refl
contains-sorted x (s ∷ ss) = ground (arith, contains-sorted x ss, contains-insert x s (sorted ss))

pub contains-keys {ℓ} :
    {A : Type ℓ} (x : Text) (d : Dict Text A) → contains x (keys d) ≡ is_some (Dict.get x d)
unfolding Dict.get
contains-keys x [] = refl
contains-keys x ((k, v) ∷ d) = ground (arith, contains-keys x d, text_beq_iff k x)
