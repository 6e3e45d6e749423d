-- ===== src/E2b/Auth.antt =====
-- Whom pkg/e2bcompat/server.go lets in, by the options that its configuration was made of.
mod Tests
use sandbox_operator.Prelude.{
  ℕ, ◌≡◌, refl, sym, ap, ◌∙◌, subst, ◌≢◌, ◌⊎◌, inl, inr, Bool, true, false, not, ◌&&◌, none, some,
  List, [], ◌∷◌, arith, if◌then◌else◌, Bool-cases, ◌==◌, text_beq_iff, All, Text, codes, is_empty,
  or_else, keys, text_eq, nat_eq,
}
use sandbox_operator.Prelude.Dict
use sandbox_operator.Prelude.Dict.{Dict}
use sandbox_operator.Errors.{Error, Result, ok, err, ◌>>=◌, require}
use sandbox_operator.EnvdProxy.{Unicode, trim_space}
use sandbox_operator.E2b.Keys.{
  Options, Config, fields, add_key, parse_keys, parse_aliases, is_nil, new_server,
  namespace_for_key, auth,
}

bind-ok :
    {A B : Type 0} (r : Result A) (f : A → Result B) (y : B)
    → (r >>= f) ≡ ok y
    → (x : A) × (r ≡ ok x) × (f x ≡ ok y)
bind-ok (ok x) f y h = (x, refl, h)
bind-ok (err e) f y h = absurd (ground arith)

require-ok : (c : Bool) (e : Error) (u : Unit {0}) → require c e ≡ ok u → c ≡ true
require-ok true e u h = refl
require-ok false e u h = absurd (ground arith)

ok-inj : {A : Type 0} (x y : A) → ok x ≡ ok y → x ≡ y
ok-inj x y h = ground arith

got :
    (key ns : Text) (keys more : Dict Text Text)
    → ok keys ≡ ok more
    → Dict.get key more ≡ some ns
    → Dict.get key keys ≡ some ns
got key ns keys more h g = subst (λ d. Dict.get key d ≡ some ns) (sym (ok-inj keys more h)) g

put-cons : (k v : Text) (keys : Dict Text Text) → Dict.put k v keys ≢ []
unfolding Dict.put
put-cons k v [] h = ground arith
put-cons k v ((j, w) ∷ keys) h = ground arith

module _ (other : Text → List Text) (default : Text) where
  -- An entry's words are a key, whose namespace is the default one, or a key and its namespace.
  abbrev pub Grants : List Text → Text → Text → Type 0
  Grants words key ns = ((words ≡ key ∷ []) × (ns ≡ default)) ⊎ (words ≡ key ∷ ns ∷ [])

  abbrev pub Listed : List Text → Text → Text → Type 0
  Listed [] key ns = ⊥
  Listed (entry ∷ entries) key ns = Grants (fields other entry) key ns ⊎ Listed entries key ns

  -- A key of the map was there before the entry, or is the entry's.
  put_key :
      (words : List Text) (k v key ns : Text) (keys : Dict Text Text)
      → Dict.get key (Dict.put k v keys) ≡ some ns
      → ((k ≡ key) → (v ≡ ns) → Grants words key ns)
      → (Dict.get key keys ≡ some ns) ⊎ Grants words key ns
  put_key words k v key ns keys h grants = elim (Bool-cases (k == key)) [
    | inl e ↦ inr (grants ((text_beq_iff k key).0 e) (ground (arith, Dict.get-put key k v keys)))
    | inr e ↦ inl (ground (arith, Dict.get-put key k v keys))
  ]

  add_key-Grants :
      (words : List Text) (keys more : Dict Text Text) (key ns : Text)
      → add_key default keys words ≡ ok more
      → Dict.get key more ≡ some ns
      → (Dict.get key keys ≡ some ns) ⊎ Grants words key ns
  add_key-Grants [] keys more key ns h g = inl (got key ns keys more h g)
  add_key-Grants (k ∷ []) keys more key ns h g =
      put_key (k ∷ []) k default key ns keys (got key ns _ more h g)
        λ same v. inl (ground arith, sym v)
  add_key-Grants (k ∷ v ∷ []) keys more key ns h g =
      put_key (k ∷ v ∷ []) k v key ns keys (got key ns _ more h g)
        λ same same_ns. inr (ground arith)
  add_key-Grants (k ∷ v ∷ w ∷ ws) keys more key ns h g = absurd (ground arith)

  parse_keys-Listed :
      (entries : List Text) (keys all_keys : Dict Text Text) (key ns : Text)
      → parse_keys other default keys entries ≡ ok all_keys
      → Dict.get key all_keys ≡ some ns
      → (Dict.get key keys ≡ some ns) ⊎ Listed entries key ns
  unfolding parse_keys
  parse_keys-Listed [] keys all_keys key ns h g = inl (got key ns keys all_keys h g)
  parse_keys-Listed (entry ∷ entries) keys all_keys key ns h g =
      let (more, added, parsed) =
        bind-ok (add_key default keys (fields other entry)) _ all_keys h in
      elim (parse_keys-Listed entries more all_keys key ns parsed g) [
        | inr l ↦ inr (inr l)
        | inl before ↦ elim (add_key-Grants (fields other entry) keys more key ns added before) [
          | inl b ↦ inl b
          | inr grants ↦ inr (inl grants)
        ]
      ]

  abbrev pub Blank : List Text → Type 0
  Blank = All λ entry. fields other entry ≡ []

  add_key-nil :
      (words : List Text) (keys : Dict Text Text)
      → add_key default keys words ≡ ok []
      → (keys ≡ []) × (words ≡ [])
  add_key-nil [] keys h = (ok-inj keys [] h, refl)
  add_key-nil (k ∷ []) keys h = absurd (put-cons k default keys (ok-inj _ [] h))
  add_key-nil (k ∷ v ∷ []) keys h = absurd (put-cons k v keys (ok-inj _ [] h))
  add_key-nil (k ∷ v ∷ w ∷ ws) keys h = absurd (ground arith)

  parse_keys-nil :
      (entries : List Text) (keys : Dict Text Text)
      → parse_keys other default keys entries ≡ ok []
      → (keys ≡ []) × Blank entries
  unfolding parse_keys
  parse_keys-nil [] keys h = (ok-inj keys [] h, tt)
  parse_keys-nil (entry ∷ entries) keys h =
      let (more, added, parsed) = bind-ok (add_key default keys (fields other entry)) _ [] h in
      let (nil, blank) = parse_keys-nil entries more parsed in
      let (was, none_here) = add_key-nil (fields other entry) keys (added ∙ ap ok nil) in
      (was, (none_here, blank))

no_key : (key ns : Text) (keys : Dict Text Text) → keys ≡ [] → Dict.get key keys ≡ some ns → ⊥
unfolding Dict.get
no_key key ns [] e h = ground arith
no_key key ns (k ∷ keys) e h = ground arith

admitted_by :
    (keys : Dict Text Text) (default presented ns : Text) (anonymous : Bool)
    → not (is_nil keys && not anonymous) ≡ true
    → (if is_nil keys
        then some default
        else if is_empty presented
        then none
        else Dict.get presented keys)
      ≡ some ns
    → ((keys ≡ []) × (anonymous ≡ true) × (ns ≡ default))
      ⊎ (is_empty presented ≡ false) × (Dict.get presented keys ≡ some ns)
admitted_by [] default presented ns true g h = inl (refl, refl, ground arith)
admitted_by [] default presented ns false g h = absurd (ground arith)
admitted_by (e ∷ keys) default [] ns anonymous g h = absurd (ground arith)
admitted_by (e ∷ keys) default (c ∷ presented) ns anonymous g h = inr (refl, h)

-- The namespaces that a key may enter.
abbrev pub Admits : (Text → List Text) → Options → Text → Text → Type 0
Admits other given presented ns =
    let default = or_else given.namespace (codes "default") in
    ((given.allow_anonymous ≡ true) × (ns ≡ default) × Blank other default given.api_keys)
    ⊎ (is_empty presented ≡ false) × Listed other default given.api_keys presented ns

-- A server that was made of some options lets a request into a namespace only if an entry of its
-- keys grants that namespace to the key that the request presents, which is not empty; or, where no
-- entry holds a key and anonymous access is allowed, into the configured namespace.
pub auth-Admits :
    (u : Unicode) (other : Text → List Text) (version : Text) (timeout : ℕ) (given : Options)
    (s : Config) (presented ns : Text)
    → new_server u other version timeout given ≡ ok s
    → auth s presented ≡ some ns
    → Admits other given presented ns
unfolding new_server auth namespace_for_key
auth-Admits u other version timeout given s presented ns made h =
    let default = or_else given.namespace (codes "default") in
    let (keys, parsed, made1) = bind-ok (parse_keys other default [] given.api_keys) _ s made in
    let (u1, guarded, made2) =
      bind-ok (require (not (is_nil keys && not given.allow_anonymous)) _) _ s made1 in
    let (u2, _, made3) =
      bind-ok (require (not (is_empty (trim_space u given.domain))) _) _ s made2 in
    let (u3, _, made4) = bind-ok (require (not (is_empty given.envd_secret)) _) _ s made3 in
    let (a, _, made5) = bind-ok (parse_aliases other ([], []) given.template_aliases) _ s made4 in
    elim (admitted_by keys default presented ns given.allow_anonymous (require-ok _ _ u1 guarded)
      (subst (λ x. auth x presented ≡ some ns) (sym (ok-inj _ s made5)) h)) [
        | inl (nil, anonymous, same) ↦ inl (
          anonymous,
          same,
          (parse_keys-nil other default given.api_keys [] (parsed ∙ ap ok nil)).1,
        )
        | inr (presents, found) ↦
            elim (parse_keys-Listed other default given.api_keys [] keys presented ns parsed
              found) [
                | inl none_before ↦ absurd (no_key presented ns [] refl none_before)
                | inr listed ↦ inr (presents, listed)
              ]
      ]
