-- ===== src/E2b/Walk/Whole.antt =====
-- The pages of pkg/e2bcompat/server.go, one after the other, are the sorted list.
use sandbox_operator.Prelude.{
  ℕ, zero, suc, ◌-◌, ◌≤◌, ◌<◌, ◌≡◌, refl, sym, ap, ◌∙◌, subst, ◌⊎◌, inl, inr, Bool, true, false,
  not, some, List, [], ◌∷◌, ◌++◌, arith, leb, Bool-cases, if_either, length, get_elem?, take, keep,
  length-append, All, Text, is_empty,
}
use sandbox_operator.Errors.{ok}
use sandbox_operator.E2b.PageKey.{PageKey, key_order}
use sandbox_operator.E2b.Ordered.{
  Order, sort_by, Distinct, Strict, after_key, last_of, keep-keep, keep-sort_by, sort_by-Strict,
  All-sort_by, All-keep, All-kept, All-map, keep-Distinct, get_elem?-last_of, All-last_of,
  take-after_key, length-sort_by,
}
use sandbox_operator.E2b.Page.{
  Base64, SandboxDetail, key_of, ListPage, list_page_of, is_no_key, filtered, token_of, cut_page,
}
use sandbox_operator.E2b.Walk.{
  and_on, walk, Readable, encode_some, list_page_of-token, list_page_of-first,
}

module _ (p : ListPage) (items : List SandboxDetail) where
  abbrev order_of : Order PageKey
  order_of = key_order p.desc

  -- What the pages after the key `k` hold.
  abbrev found : PageKey → List SandboxDetail
  found k = sort_by order_of key_of (filtered (record p { after = k }) items)

  abbrev Later : PageKey → SandboxDetail → Type 0
  Later k d = (is_no_key k ≡ true) ⊎ (after_key order_of key_of k d ≡ true)

  found-Strict : (k : PageKey) → Distinct order_of key_of items → Strict order_of key_of (found k)
  found-Strict k d = sort_by-Strict order_of key_of _ (
      if_either (Distinct order_of key_of) (is_no_key k) _ _ (λ _. d)
        (λ _. keep-Distinct order_of key_of (after_key order_of key_of k) items d))

  found-Readable : (k : PageKey) → Readable items → Readable (found k)
  found-Readable k r = All-sort_by order_of key_of _ _ (
      if_either Readable (is_no_key k) _ _ (λ _. r)
        (λ _. All-keep _ (after_key order_of key_of k) items r))

  All-held :
      (P : SandboxDetail → Type 0) (xs : List SandboxDetail)
      → ((x : SandboxDetail) → P x)
      → All P xs
  All-held P [] f = tt
  All-held P (x ∷ xs) f = (f x, All-held P xs f)

  found-Later : (k : PageKey) → All (Later k) (found k)
  found-Later k = All-sort_by order_of key_of _ _ (
      if_either (All (Later k)) (is_no_key k) _ _ (λ e. All-held (Later k) items λ x. inl e)
        (λ _. All-map _ (Later k) _ (λ x e. inr e) (All-kept (after_key order_of key_of k) items)))

  -- What is above a later item is above `k`.
  after-Later :
      (k : PageKey) (last x : SandboxDetail)
      → Later k last
      → after_key order_of key_of (key_of last) x ≡ true
      → is_no_key k ≡ false
      → after_key order_of key_of k x ≡ true
  after-Later k last x (inl e) a n = absurd (ground arith)
  after-Later k last x (inr l) a n =
      let o = order_of in
      let up = o.below_total (key_of last) k (ground arith) in
      elim (Bool-cases (o.below (key_of x) k)) [
        | inl e ↦ absurd (no (o.below_trans (key_of x) k (key_of last) e up) a)
        | inr e ↦ rw e refl
      ]
    where
      no : {b : Bool} → b ≡ true → not b ≡ true → ⊥
      no h g = ground arith

  found-next :
      (k : PageKey) (last : SandboxDetail)
      → Distinct order_of key_of items
      → Later k last
      → is_no_key (key_of last) ≡ false
      → found (key_of last) ≡ keep (after_key order_of key_of (key_of last)) (found k)
  found-next k last d l n =
      let after = after_key order_of key_of in
      let sorted = sort_by order_of key_of items in
      rw n (
        sym (keep-sort_by order_of key_of (after (key_of last)) items d)
        ∙ elim (Bool-cases (is_no_key k)) [
          | inl e ↦ rw e refl
          | inr e ↦
              rw (e, ← keep-sort_by order_of key_of (after k) items d)
                (sym (
                  keep-keep (after k) (after (key_of last)) sorted
                    λ x a. after-Later k last x l a e))
        ])

and_on-token :
    (c : Base64) (limit order : Text) (items : List SandboxDetail)
    (rest : Text → List SandboxDetail) (page : List SandboxDetail) (token : Text)
    → is_empty token ≡ false
    → and_on c limit order items rest (page, token) ≡ page ++ rest token
and_on-token c limit order items rest page [] h = absurd (ground arith)
and_on-token c limit order items rest page (t ∷ token) h = refl

module _ (c : Base64) (limit order : Text) (items : List SandboxDetail) (p : ListPage) (m : ℕ) where
  abbrev held : PageKey → List SandboxDetail
  held = found p items

  abbrev Reads : ℕ → PageKey → Type 0
  Reads f k =
      (token : Text)
      → list_page_of c limit order token ≡ ok (record p { after = k })
      → length (held k) ≤ f
      → walk c limit order items (suc f) token ≡ held k

  next_page :
      (f : ℕ) (k : PageKey) (x : SandboxDetail) (xs : List SandboxDetail)
      → held k ≡ x ∷ xs
      → p.limit ≡ suc m
      → list_page_of c limit order [] ≡ ok p
      → Distinct (key_order p.desc) key_of items
      → Readable items
      → suc m < length (x ∷ xs)
      → length (x ∷ xs) ≤ suc f
      → ((k' : PageKey) → Reads f k')
      → and_on c limit order items
          (walk c limit order items (suc f))
          (take p.limit (held k), token_of c (get_elem? (held k) (p.limit - 1)))
        ≡ held k
  next_page f k x xs e l first d r more fits ih =
      let o = key_order p.desc in
      let last = last_of o key_of x xs m in
      let readable : Readable (x ∷ xs) = subst Readable e (found-Readable p items k r) in
      let strict : Strict o key_of (x ∷ xs) =
        subst (Strict o key_of) e (found-Strict p items k d) in
      let later : All (Later p items k) (x ∷ xs) =
        subst (All (Later p items k)) e (found-Later p items k) in
      let (some_id, no_space) = All-last_of o key_of _ x xs m readable.0 readable.1 in
      let is_later = All-last_of o key_of (Later p items k) x xs m later.0 later.1 in
      let above = after_key o key_of (key_of last) in
      let rest : held (key_of last) ≡ keep above (held k) =
        found-next p items k last d is_later (ground arith) in
      let whole = take-after_key o key_of x xs m strict in
      let page = take p.limit (held k) in
      let token = token_of c (some last) in
      let short : length (keep above (x ∷ xs)) ≤ f = omega (
        arith,
        fits,
        ap length whole,
        length-append (take (suc m) (x ∷ xs)) (keep above (x ∷ xs)),
      ) in
      let fewer : length (held (key_of last)) ≤ f =
        subst (λ n. n ≤ f) (sym (ap length (rest ∙ ap (keep above) e))) short in
      let shown : get_elem? (held k) (p.limit - 1) ≡ some last =
        ap (get_elem? (held k)) (omega (arith, l))
        ∙ (ap (λ ys. get_elem? ys m) e ∙ get_elem?-last_of o key_of x xs m (omega arith)) in
      let read : walk c limit order items (suc f) token ≡ held (key_of last) =
        ih (key_of last) token (list_page_of-token c limit order p last first no_space) fewer in
      let joined : page ++ keep above (held k) ≡ held k =
        subst (λ ys. take p.limit ys ++ keep above ys ≡ ys) (sym e) (rw l (sym whole)) in
      rw shown (
        and_on-token c limit order items (walk c limit order items (suc f)) page token
          (encode_some c last.started_at_key last.sandbox_id b' ')
        ∙ (ap (λ ys. page ++ ys) (read ∙ rest) ∙ joined))

  next_of :
      (f : ℕ) (k : PageKey) (ys : List SandboxDetail)
      → held k ≡ ys
      → p.limit ≡ suc m
      → list_page_of c limit order [] ≡ ok p
      → Distinct (key_order p.desc) key_of items
      → Readable items
      → suc m < length ys
      → length ys ≤ suc f
      → ((k' : PageKey) → Reads f k')
      → and_on c limit order items
          (walk c limit order items (suc f))
          (take p.limit (held k), token_of c (get_elem? (held k) (p.limit - 1)))
        ≡ held k
  next_of f k [] e l first d r more fits ih = absurd (omega arith)
  next_of f k (x ∷ xs) e l first d r more fits ih = next_page f k x xs e l first d r more fits ih

  over_limit : (n limit' : ℕ) → limit' ≡ suc m → leb n limit' ≡ false → suc m < n
  over_limit n limit' l h = ground arith

  walk_from :
      (f : ℕ) (k : PageKey)
      → p.limit ≡ suc m
      → list_page_of c limit order [] ≡ ok p
      → Distinct (key_order p.desc) key_of items
      → Readable items
      → Reads f k
  unfolding walk cut_page
  walk_from zero k l first d r token e fits = rw e (
      if_either (λ x. and_on c limit order items (walk c limit order items 0) x ≡ held k)
        (leb (length (held k)) p.limit) _ _ (λ _. refl)
        (λ over. absurd (omega (arith, over_limit (length (held k)) p.limit l over, fits))))
  walk_from (suc f) k l first d r token e fits = rw e (
      if_either (λ x. and_on c limit order items (walk c limit order items (suc f)) x ≡ held k)
        (leb (length (held k)) p.limit) _ _ (λ _. refl)
        (λ over.
          next_of f k (held k) refl l first d r (over_limit (length (held k)) p.limit l over) fits
            λ k'. walk_from f k' l first d r))

-- A client that asks for pages of any accepted size and order, each with the token of the page
-- before, is given every sandbox of the list exactly once, in order, in at most one page more than
-- there are sandboxes; when no two of them have one start and id, each has an id, and no start has a
-- space in it.
pub walk-sort_by :
    (c : Base64) (limit order : Text) (items : List SandboxDetail) (p : ListPage)
    → list_page_of c limit order [] ≡ ok p
    → 0 < p.limit
    → Distinct (key_order p.desc) key_of items
    → Readable items
    → walk c limit order items (suc (length items)) [] ≡ sort_by (key_order p.desc) key_of items
walk-sort_by c limit order items p first pos d r =
    walk_from c limit order items p (p.limit - 1) (length items) ([], []) (omega (arith, pos)) first
      d r [] (list_page_of-first c limit order p first)
      (omega (arith, length-sort_by (key_order p.desc) key_of items))
