-- ===== src/E2b/Walk.antt =====
-- A client that walks the pages of pkg/e2bcompat/server.go sees the whole list.
pub mod Whole
use sandbox_operator.Prelude.{
  ℕ, zero, suc, ◌≡◌, refl, sym, ap, ◌∙◌, Bool, false, some, List, [], ◌∷◌, ◌++◌, arith, All, Text,
  is_empty, Lacks, cut-append,
}
use sandbox_operator.Errors.{Error, Result, ok, err, ◌>>=◌}
use sandbox_operator.E2b.PageKey.{PageKey, key_order}
use sandbox_operator.E2b.Ordered.{
  Order, sort_by, Distinct, Strict, after_key, last_of, keep-keep, keep-sort_by, sort_by-Strict,
  All-sort_by, All-keep, get_elem?-last_of, All-last_of, take-after_key,
}
use sandbox_operator.E2b.Page.{
  Base64, SandboxDetail, key_of, ListPage, limit_of, desc_of, after_of, list_page_of, is_no_key,
  filtered, token_of, cut_page,
}

module _ (c : Base64) (limit order : Text) (items : List SandboxDetail) where
  abbrev pub and_on : (Text → List SandboxDetail) → List SandboxDetail × Text → List SandboxDetail
  and_on rest (page, []) = page
  and_on rest (page, t ∷ token) = page ++ rest (t ∷ token)

  abbrev pub page_then : (Text → List SandboxDetail) → Result ListPage → List SandboxDetail
  page_then rest (err e) = []
  page_then rest (ok p) = and_on rest (cut_page c p items)

  -- What a client reads that asks for a page, and then for the next one as long as it is given a
  -- token, at most so many times.
  unfoldable pub walk : ℕ → Text → List SandboxDetail
  unfolding list_page_of cut_page
  walk zero token = []
  walk (suc n) token = page_then (walk n) (list_page_of c limit order token)

-- No sandbox lacks an id, and no start has a space in it.
abbrev pub Readable : List SandboxDetail → Type 0
Readable = All λ d. (is_empty d.sandbox_id ≡ false) × Lacks b' ' d.started_at_key

module _ (c : Base64) where
  encode_nil_only : (s : Text) → c.encode s ≡ [] → s ≡ []
  encode_nil_only s h =
      some-inj (sym (c.decode_encode s) ∙ (ap c.decode (h ∙ sym c.encode_nil) ∙ c.decode_encode []))
    where
      some-inj : {r t : Text} → some r ≡ some t → r ≡ t
      some-inj e = ground arith

  pub encode_some : (s t : Text) (x : ℕ) → is_empty (c.encode (s ++ (x ∷ t))) ≡ false
  encode_some s t x = go (c.encode (s ++ (x ∷ t))) refl
    where
      cons-nil : (r : Text) → r ++ (x ∷ t) ≡ [] → ⊥
      cons-nil [] e = ground arith
      cons-nil (y ∷ r) e = ground arith

      go : (r : Text) → c.encode (s ++ (x ∷ t)) ≡ r → is_empty r ≡ false
      go [] h = absurd (cons-nil s (encode_nil_only _ h))
      go (y ∷ r) h = refl

  after_of-token :
      (d : SandboxDetail)
      → Lacks b' ' d.started_at_key
      → after_of c (token_of c (some d)) ≡ ok (key_of d)
  unfolding after_of
  after_of-token d h =
      rw
        (
          encode_some d.started_at_key d.sandbox_id b' ',
          c.decode_encode (d.started_at_key ++ (b' ' ∷ d.sandbox_id)),
          cut-append b' ' d.started_at_key d.sandbox_id h,
        )
        refl

  unfoldable pub page_at : Result ℕ → Result Bool → Result PageKey → Result ListPage
  page_at n desc after = n >>= λ n.
      desc >>= λ desc. after >>= λ after. ok (record { limit = n; desc = desc; after = after })

  pub page_at-after :
      (n : Result ℕ) (desc : Result Bool) (p : ListPage) (k : PageKey)
      → page_at n desc (ok ([], [])) ≡ ok p
      → page_at n desc (ok k) ≡ ok (record p { after = k })
  unfolding page_at
  page_at-after (ok n) (ok desc) p k h = ground arith
  page_at-after (ok n) (err e) p k h = absurd (ground arith)
  page_at-after (err e) desc p k h = absurd (ground arith)

  pub list_page_of-token :
      (limit order : Text) (p : ListPage) (d : SandboxDetail)
      → list_page_of c limit order [] ≡ ok p
      → Lacks b' ' d.started_at_key
      → list_page_of c limit order (token_of c (some d)) ≡ ok (record p { after = key_of d })
  unfolding list_page_of page_at after_of
  list_page_of-token limit order p d h l =
      rw (after_of-token d l) (page_at-after (limit_of limit) (desc_of order) p (key_of d) h)

  pub list_page_of-first :
      (limit order : Text) (p : ListPage)
      → list_page_of c limit order [] ≡ ok p
      → list_page_of c limit order [] ≡ ok (record p { after = ([], []) })
  unfolding list_page_of page_at after_of
  list_page_of-first limit order p h = page_at-after (limit_of limit) (desc_of order) p ([], []) h
