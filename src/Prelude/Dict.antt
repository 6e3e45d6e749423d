-- ===== src/Prelude/Dict.antt =====
-- Go maps as association lists. Proofs elsewhere go by the laws of `get`; a map that the code
-- iterates over is walked in the list's order, which stands for an arbitrary one.
use Prim.Native.Nat.{◌+◌, ◌≤◌}
use mathlib.Core.Path.{◌≡◌, refl, ap, ◌∙◌}
use mathlib.Core.List.{List, [], ◌∷◌}
use mathlib.Core.Option.{Option, none, some}
use native.Mathlib.Omega.{arith}
use sandbox_operator.Prelude.Tests.{if◌then◌else◌}
use sandbox_operator.Prelude.Equality.{Eq, ◌==◌}
use mathlib.Core.Bool.{Bool, true, false}
use sandbox_operator.Prelude.Lists.{length, keep}

abbrev pub Dict {ℓ κ} : Type ℓ → Type κ → Type (ℓ ⊔ κ)
Dict K V = List (K × V)

module _ {ℓ κ} {K : Type ℓ} {V : Type κ} ⦃e : Eq K⦄ where
  unfoldable pub get : K → Dict K V → Option V
  get k [] = none
  get k ((j, v) ∷ d) = if j == k then some v else get k d

  -- `d[k] = v`
  unfoldable pub put : K → V → Dict K V → Dict K V
  put k v [] = (k, v) ∷ []
  put k v ((j, w) ∷ d) = if j == k then (k, v) ∷ d else (j, w) ∷ put k v d

  -- `delete(d, k)`
  unfoldable pub delete : K → Dict K V → Dict K V
  delete k [] = []
  delete k ((j, w) ∷ d) = let rest = delete k d in if j == k then rest else (j, w) ∷ rest

  pub get-nil : (k : K) → get k [] ≡ none
  unfolding get
  get-nil k = refl

  pub get-cons :
      (j k : K) (v : V) (d : Dict K V) → get j ((k, v) ∷ d) ≡ (if k == j then some v else get j d)
  unfolding get
  get-cons j k v d = refl

  pub get-put :
      (j k : K) (v : V) (d : Dict K V) → get j (put k v d) ≡ (if k == j then some v else get j d)
  unfolding put get
  get-put j k v [] = refl
  get-put j k v ((i, w) ∷ d) =
      ground (arith, e.same_iff k j, e.same_iff i k, e.same_iff i j, get-put j k v d)

  pub get-delete :
      (j k : K) (d : Dict K V) → get j (delete k d) ≡ (if k == j then none else get j d)
  unfolding delete get
  get-delete j k [] = ground arith
  get-delete j k ((i, w) ∷ d) =
      ground (arith, e.same_iff k j, e.same_iff i k, e.same_iff i j, get-delete j k d)

  pub length-put-le : (k : K) (v : V) (d : Dict K V) → length (put k v d) ≤ length d + 1
  unfolding put
  length-put-le k v [] = omega arith
  length-put-le k v ((i, w) ∷ d) = ground (arith, length-put-le k v d)

  -- No key stands twice, as in a Go map.
  abbrev pub NodupKeys : Dict K V → Type κ
  NodupKeys [] = Unit
  NodupKeys ((k, _) ∷ d) = (get k d ≡ none) × NodupKeys d

  pub put-NodupKeys : (k : K) (v : V) (d : Dict K V) → NodupKeys d → NodupKeys (put k v d)
  unfolding put
  put-NodupKeys k v [] _ = (get-nil k, tt)
  put-NodupKeys k v ((i, _) ∷ d) (fresh, u) =
      ground (arith, put-NodupKeys k v d u, get-put i k v d, e.same_iff i k, e.same_iff k i)

-- What a test leaves of an optional value.
abbrev pub sift {κ} : {V : Type κ} → (V → Bool) → Option V → Option V
sift p none = none
sift p (some v) = if p v then some v else none

module _ {ℓ κ} {K : Type ℓ} {V : Type κ} ⦃e : Eq K⦄ (p : V → Bool) where
  -- `maps.DeleteFunc` keeps an entry when its value passes, and leaves every other as it was.
  pub get-keep :
      (k : K) (d : Dict K V) → NodupKeys d → get k (keep (λ kv. p kv.1) d) ≡ sift p (get k d)
  unfolding get
  get-keep k [] u = refl
  get-keep k ((j, v) ∷ d) (fresh, u) = ground (arith, e.same_iff j k, get-keep k d u)

  cons_if-NodupKeys :
      (b : Bool) (j : K) (v : V) (d : Dict K V)
      → get j d ≡ none
      → NodupKeys d
      → NodupKeys (if b then (j, v) ∷ d else d)
  cons_if-NodupKeys true j v d fresh u = (fresh, u)
  cons_if-NodupKeys false j v d fresh u = u

  pub keep-NodupKeys : (d : Dict K V) → NodupKeys d → NodupKeys (keep (λ kv. p kv.1) d)
  keep-NodupKeys [] u = tt
  keep-NodupKeys ((j, v) ∷ d) (fresh, u) =
      cons_if-NodupKeys (p v) j v (keep (λ kv. p kv.1) d) (get-keep j d u ∙ ap (sift p) fresh)
        (keep-NodupKeys d u)
