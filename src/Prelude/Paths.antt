-- ===== src/Prelude/Paths.antt =====
-- What the code uses of `strings.Split`, `strings.Join` and package path.
use Prim.Native.Nat.{ℕ}
use mathlib.Core.Path.{◌≡◌, refl}
use mathlib.Core.Bool.{Bool, true, false, ◌||◌}
use mathlib.Core.List.{List, [], ◌∷◌, ◌++◌}
use native.Mathlib.Omega.{arith}
use sandbox_operator.Prelude.Tests.{if◌then◌else◌, nat_beq}
use sandbox_operator.Prelude.Equality.{◌==◌}
use sandbox_operator.Prelude.Strings.{Text, text_eq, codes, is_empty}

abbrev cons_head : ℕ → List Text → List Text
cons_head c [] = (c ∷ []) ∷ []
cons_head c (s ∷ ss) = (c ∷ s) ∷ ss

-- `strings.Split(s, sep)` for a separator of one byte
unfoldable pub split : ℕ → Text → List Text
split b [] = [] ∷ []
split b (c ∷ s) = let rest = split b s in if nat_beq c b then [] ∷ rest else cons_head c rest

-- `strings.Join(ss, sep)`
unfoldable pub join : Text → List Text → Text
join sep [] = []
join sep (s ∷ []) = s
join sep (s ∷ t ∷ ts) = s ++ (sep ++ join sep (t ∷ ts))

-- `path.IsAbs(p)`
unfoldable pub is_abs : Text → Bool
is_abs [] = false
is_abs (c ∷ s) = nat_beq c b'/'

-- The elements that `path.Clean` keeps, the last one first. A `..` at the root is dropped.
abbrev up : Bool → List Text → List Text
up rooted [] = if rooted then [] else codes ".." ∷ []
up rooted (s ∷ ss) = if s == codes ".." then codes ".." ∷ (s ∷ ss) else ss

abbrev clean_from : Bool → List Text → List Text → List Text
clean_from rooted out [] = out
clean_from rooted out (s ∷ ss) =
    clean_from rooted
      (if is_empty s || s == codes "."
        then out
        else if s == codes ".."
        then up rooted out
        else s ∷ out)
      ss

abbrev reversed_onto {ℓ} : {A : Type ℓ} → List A → List A → List A
reversed_onto [] ys = ys
reversed_onto (x ∷ xs) ys = reversed_onto xs (x ∷ ys)

-- `path.Clean(p)`
unfoldable pub clean : Text → Text
unfolding split join is_abs
clean p =
    let body = join (codes "/") (reversed_onto (clean_from (is_abs p) [] (split b'/' p)) []) in
    if is_abs p then b'/' ∷ body else if is_empty body then codes "." else body

-- `path.Join(base, name)`: elements that are empty are left out.
unfoldable pub path_join : Text → Text → Text
unfolding clean
path_join [] [] = []
path_join [] (c ∷ t) = clean (c ∷ t)
path_join (c ∷ s) [] = clean (c ∷ s)
path_join (c ∷ s) (d ∷ t) = clean ((c ∷ s) ++ (b'/' ∷ (d ∷ t)))

clean-is_abs : (p : Text) → is_abs p ≡ true → is_abs (clean p) ≡ true
unfolding clean is_abs
clean-is_abs [] h = ground arith
clean-is_abs (c ∷ p) h = rw h refl

-- What is joined to a rooted path is rooted.
pub path_join-is_abs : (s t : Text) → is_abs s ≡ true → is_abs (path_join s t) ≡ true
unfolding path_join is_abs
path_join-is_abs [] t h = ground arith
path_join-is_abs (c ∷ s) [] h = clean-is_abs (c ∷ s) h
path_join-is_abs (c ∷ s) (d ∷ t) h = clean-is_abs (c ∷ s ++ b'/' ∷ (d ∷ t)) h

climbing : path_join (codes "/a/b") (codes "../../../c//./d") ≡ codes "/c/d"
unfolding path_join clean split join is_abs sandbox_operator.Prelude.Equality.list_beq
climbing = refl
