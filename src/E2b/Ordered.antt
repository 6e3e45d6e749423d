-- ===== src/E2b/Ordered.antt =====
-- Sorting by a key, and cutting a sorted list into pages by the last key of each: what
-- pkg/e2bcompat/server.go does to a list of sandboxes, for any total order of keys.
use sandbox_operator.Prelude.{
  ℕ, zero, suc, ◌<◌, ◌≡◌, refl, sym, ap, ◌∙◌, ◌≢◌, inl, inr, Bool, true, false, not, some, List, [],
  ◌∷◌, ◌++◌, arith, if◌then◌else◌, Bool-cases, if_either, length, get_elem?, take, keep, All,
}

-- A total order on keys, as a Boolean test.
pub record Order (K : Type 0) : Type 0 where
  pub below : K → K → Bool
  pub below_total : (a b : K) → below a b ≡ false → below b a ≡ true
  pub below_refl : (a : K) → below a a ≡ true
  pub below_trans : (a b c : K) → below a b ≡ true → below b c ≡ true → below a c ≡ true
  pub below_antisym : (a b : K) → below a b ≡ true → below b a ≡ true → a ≡ b

abbrev pub drop_all : {A : Type 0} → (A → Bool) → List A → List A
drop_all p xs = keep (λ x. not (p x)) xs

module _ {A : Type 0} where
  pub All-keep : (P : A → Type 0) (p : A → Bool) (xs : List A) → All P xs → All P (keep p xs)
  All-keep P p [] h = tt
  All-keep P p (x ∷ xs) (px, h) =
      let rest = All-keep P p xs h in if_either (All P) (p x) _ _ (λ _. (px, rest)) (λ _. rest)

  push_if :
      (f : List A → List A) (c : Bool) (x y : List A)
      → (if c then f x else f y) ≡ f (if c then x else y)
  push_if f true x y = refl
  push_if f false x y = refl

  pub All-map : (P Q : A → Type 0) (xs : List A) → ((x : A) → P x → Q x) → All P xs → All Q xs
  All-map P Q [] f h = tt
  All-map P Q (x ∷ xs) f (px, h) = (f x px, All-map P Q xs f h)

  pub All-kept : (p : A → Bool) (xs : List A) → All (λ x. p x ≡ true) (keep p xs)
  All-kept p [] = tt
  All-kept p (x ∷ xs) =
      let rest = All-kept p xs in
      if_either (All (λ y. p y ≡ true)) (p x) _ _ (λ e. (e, rest)) (λ _. rest)

  keep-All : (p : A → Bool) (xs : List A) → All (λ x. p x ≡ true) xs → keep p xs ≡ xs
  keep-All p [] h = refl
  keep-All p (x ∷ xs) (px, h) = rw (px, keep-All p xs h) refl

  pub keep-keep :
      (p q : A → Bool) (xs : List A)
      → ((x : A) → q x ≡ true → p x ≡ true)
      → keep q (keep p xs) ≡ keep q xs
  keep-keep p q [] f = refl
  keep-keep p q (x ∷ xs) f = ground (arith, f x, keep-keep p q xs f)

module _ {K A : Type 0} (o : Order K) (key : A → K) where
  abbrev pub le : A → A → Bool
  le x y = o.below (key x) (key y)

  abbrev pub insert_by : A → List A → List A
  insert_by x [] = x ∷ []
  insert_by x (y ∷ ys) = let rest = insert_by x ys in if le x y then x ∷ y ∷ ys else y ∷ rest

  -- `slices.SortFunc`, for items with different keys
  unfoldable pub sort_by : List A → List A
  sort_by [] = []
  sort_by (x ∷ xs) = insert_by x (sort_by xs)

  -- No two items have one key.
  abbrev pub Differs : A → List A → Type 0
  Differs x = All λ y. key y ≢ key x

  abbrev pub Distinct : List A → Type 0
  Distinct [] = Unit
  Distinct (x ∷ xs) = Differs x xs × Distinct xs

  -- Each item's key is strictly below those of the later items.
  abbrev Above : A → List A → Type 0
  Above x = All λ y. le y x ≡ false

  abbrev pub Strict : List A → Type 0
  Strict [] = Unit
  Strict (x ∷ xs) = Above x xs × Strict xs

  All-insert_by : (P : A → Type 0) (x : A) (ys : List A) → P x → All P ys → All P (insert_by x ys)
  All-insert_by P x [] px h = (px, tt)
  All-insert_by P x (y ∷ ys) px (py, h) =
      if_either (All P) (le x y) _ _ (λ _. (px, (py, h))) (λ _. (py, All-insert_by P x ys px h))

  pub All-sort_by : (P : A → Type 0) (xs : List A) → All P xs → All P (sort_by xs)
  unfolding sort_by
  All-sort_by P [] h = tt
  All-sort_by P (x ∷ xs) (px, h) = All-insert_by P x (sort_by xs) px (All-sort_by P xs h)

  not_le : (x y : A) → le x y ≡ true → key y ≢ key x → le y x ≡ false
  not_le x y h n = elim (Bool-cases (le y x)) [
    | inl e ↦ absurd (n (o.below_antisym (key y) (key x) e h))
    | inr e ↦ e
  ]

  above_trans : (x y z : A) → le x y ≡ true → le z y ≡ false → le z x ≡ false
  above_trans x y z h n = elim (Bool-cases (le z x)) [
    | inl e ↦ absurd (true-false (sym (o.below_trans (key z) (key x) (key y) e h) ∙ n))
    | inr e ↦ e
  ]
    where
      true-false : true ≡ false → ⊥
      true-false e = ground arith

  insert_by-Strict : (x : A) (ys : List A) → Strict ys → Differs x ys → Strict (insert_by x ys)
  insert_by-Strict x [] s d = (tt, tt)
  insert_by-Strict x (y ∷ ys) (a, s) (n, d) =
      if_either Strict (le x y) _ _
        (λ e. ((not_le x y e n, All-map _ _ ys (λ z h. above_trans x y z e h) a), (a, s)))
        (λ e. (All-insert_by (λ z. le z y ≡ false) x ys e a, insert_by-Strict x ys s d))

  pub keep-Distinct : (p : A → Bool) (xs : List A) → Distinct xs → Distinct (keep p xs)
  keep-Distinct p [] d = tt
  keep-Distinct p (x ∷ xs) (n, d) =
      let rest = keep-Distinct p xs d in
      if_either Distinct (p x) _ _ (λ _. (All-keep _ p xs n, rest)) (λ _. rest)

  pub sort_by-Strict : (xs : List A) → Distinct xs → Strict (sort_by xs)
  unfolding sort_by
  sort_by-Strict [] d = tt
  sort_by-Strict (x ∷ xs) (n, d) =
      insert_by-Strict x (sort_by xs) (sort_by-Strict xs d) (All-sort_by (λ y. key y ≢ key x) xs n)

  insert_by-first : (x : A) (ys : List A) → All (λ y. le x y ≡ true) ys → insert_by x ys ≡ x ∷ ys
  insert_by-first x [] h = refl
  insert_by-first x (y ∷ ys) (e, h) = rw e refl

  below_later : (x y z : A) → le x y ≡ true → le z y ≡ false → le x z ≡ true
  below_later x y z h n = o.below_trans (key x) (key y) (key z) h (o.below_total (key z) (key y) n)

  keep-insert_by :
      (p : A → Bool) (x : A) (ys : List A)
      → Strict ys
      → keep p (insert_by x ys) ≡ (if p x then insert_by x (keep p ys) else keep p ys)
  keep-insert_by p x [] s = refl
  keep-insert_by p x (y ∷ ys) (a, s) = elim (Bool-cases (le x y)) [
    | inl e ↦
        let later = All-map _ (λ z. le x z ≡ true) ys (λ z h. below_later x y z e h) a in
        rw (e, insert_by-first x _ (All-keep (λ z. le x z ≡ true) p (y ∷ ys) (e, later))) refl
    | inr e ↦ rw (e, keep-insert_by p x ys s) (ground arith)
  ]

  pub keep-sort_by :
      (p : A → Bool) (xs : List A) → Distinct xs → keep p (sort_by xs) ≡ sort_by (keep p xs)
  unfolding sort_by
  keep-sort_by p [] d = refl
  keep-sort_by p (x ∷ xs) (n, d) =
      keep-insert_by p x (sort_by xs) (sort_by-Strict xs d)
      ∙ rw (keep-sort_by p xs d) (push_if sort_by (p x) (x ∷ keep p xs) (keep p xs))

  -- The item at index `n` of `x ∷ xs`, or the last one.
  abbrev pub last_of : A → List A → ℕ → A
  last_of x xs zero = x
  last_of x [] (suc n) = x
  last_of x (y ∷ ys) (suc n) = last_of y ys n

  pub get_elem?-last_of :
      (x : A) (xs : List A) (n : ℕ)
      → n < length (x ∷ xs)
      → get_elem? (x ∷ xs) n ≡ some (last_of x xs n)
  get_elem?-last_of x xs zero h = refl
  get_elem?-last_of x [] (suc n) h = absurd (omega arith)
  get_elem?-last_of x (y ∷ ys) (suc n) h = get_elem?-last_of y ys n (omega arith)

  pub All-last_of :
      (P : A → Type 0) (x : A) (xs : List A) (n : ℕ) → P x → All P xs → P (last_of x xs n)
  All-last_of P x xs zero px h = px
  All-last_of P x [] (suc n) px h = px
  All-last_of P x (y ∷ ys) (suc n) px (py, h) = All-last_of P y ys n py h

  -- The items whose key is above `c`.
  abbrev pub after_key : K → A → Bool
  after_key c x = not (o.below (key x) c)

  -- A sorted list is its first `n + 1` items and those above the last of these.
  pub take-after_key :
      (x : A) (xs : List A) (n : ℕ)
      → Strict (x ∷ xs)
      → x ∷ xs ≡ take (suc n) (x ∷ xs) ++ keep (after_key (key (last_of x xs n))) (x ∷ xs)
  take-after_key x xs zero (a, s) =
      rw
        (
          o.below_refl (key x),
          keep-All (after_key (key x)) xs (All-map _ _ xs (λ z h. rw h refl) a),
        )
        refl
  take-after_key x [] (suc n) s = rw (o.below_refl (key x)) refl
  take-after_key x (y ∷ ys) (suc n) (a, s) =
      let up : le x (last_of y ys n) ≡ true =
        o.below_total (key (last_of y ys n)) (key x)
          (All-last_of (λ z. le z x ≡ false) y ys n a.0 a.1) in
      rw up (ap (λ t. x ∷ t) (take-after_key y ys n s))

  length-insert_by : (x : A) (ys : List A) → length (insert_by x ys) ≡ suc (length ys)
  length-insert_by x [] = refl
  length-insert_by x (y ∷ ys) = ground (arith, length-insert_by x ys)

  pub length-sort_by : (xs : List A) → length (sort_by xs) ≡ length xs
  unfolding sort_by
  length-sort_by [] = refl
  length-sort_by (x ∷ xs) = length-insert_by x (sort_by xs) ∙ ap suc (length-sort_by xs)
