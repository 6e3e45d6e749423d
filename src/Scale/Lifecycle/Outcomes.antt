-- ===== src/Scale/Lifecycle/Outcomes.antt =====
-- pkg/scale/sandboxstore_lifecycle.go: what a verb answers.
use sandbox_operator.Prelude.{
  ℕ, ◌≡◌, refl, ◌↔◌, inl, inr, true, false, ◌&&◌, Option, none, some, [], ◌∷◌, ◌++◌, arith, ltb,
  leb, if◌then◌else◌, Option-cases, Text, codes, is_empty,
}
use sandbox_operator.Errors.{
  Error, Sentinel, Result, ok, err, ◌>>=◌, or_error, is, wrapped, as_http_error, as_status_error,
}
use sandbox_operator.Scale.Lifecycle.{
  Formats, Fleet, Store, replace_status, node_verb_error, addressed, node_client, on_node, pause,
  resume,
}

abbrev pub client_code : Option (ℕ × Text) → Option ℕ
client_code none = none
client_code (some (code, m)) = if leb 400 code && ltb code 500 then some code else none

abbrev pub code_of : Option (ℕ × Text) → Option ℕ
code_of none = none
code_of (some (code, m)) = some code

abbrev pub or_code : Option ℕ → Option ℕ → Option ℕ
or_code none d = d
or_code (some c) d = some c

replace_status-code :
    (f : Formats) (e : Error) (verb id node : Text) (r : ℕ × Text)
    → code_of (as_status_error (replace_status f e verb id node r))
      ≡ or_code (client_code (some r)) (code_of (as_status_error e))
unfolding as_status_error
replace_status-code f e verb id node (code, m) = ground arith

-- The status that a failed verb reports is the node's own when that is a client error (400 to 499),
-- 404 included; any other failure keeps the status it had.
pub node_verb_error-code :
    (f : Formats) (e : Error) (verb id node : Text)
    → code_of (as_status_error (node_verb_error f e verb id node))
      ≡ or_code (client_code (as_http_error e)) (code_of (as_status_error e))
unfolding node_verb_error as_status_error
node_verb_error-code f e verb id node = elim (Option-cases (as_http_error e)) [
  | inl h ↦ ground arith
  | inr (r, h) ↦ ground (arith, replace_status-code f e verb id node r)
]

replace_status-is :
    (f : Formats) (e : Error) (verb id node : Text) (t : Sentinel) (r : ℕ × Text)
    → client_code (some r) ≡ none
    → is (replace_status f e verb id node r) t ≡ is e t
unfolding is
replace_status-is f e verb id node t (code, m) h = ground arith

-- A failure that is not a client error stays what it was to `errors.Is`.
pub node_verb_error-is :
    (f : Formats) (e : Error) (verb id node : Text) (t : Sentinel)
    → client_code (as_http_error e) ≡ none
    → is (node_verb_error f e verb id node) t ≡ is e t
unfolding node_verb_error is
node_verb_error-is f e verb id node t h = elim (Option-cases (as_http_error e)) [
  | inl k ↦ ground arith
  | inr (r, k) ↦ ground (arith, replace_status-is f e verb id node t r)
]

-- The node can be dialled, at this address.
abbrev pub Routable : Store → Text → Text → Type 0
Routable s node addr =
    (s.configured ≡ true)
    × (is_empty node ≡ false)
    × (s.capacity node ≡ ok addr)
    × (is_empty addr ≡ false)

addressed-ok :
    (r : Result Text) (w : Error → Error) (addr : Text)
    → (or_error r w >>= addressed) ≡ ok addr
    → (r ≡ ok addr) × (is_empty addr ≡ false)
addressed-ok (err e) w addr h = cc
addressed-ok (ok []) w addr h = cc
addressed-ok (ok (c ∷ a)) w [] h = cc
addressed-ok (ok (c ∷ a)) w (d ∷ b) h = (h, refl)

node_client-ok :
    (s : Store) (node verb addr : Text) → node_client s node verb ≡ ok addr → Routable s node addr
unfolding node_client
node_client-ok s node verb addr h = ground (
  arith,
  addressed-ok (s.capacity node) (wrapped (codes "scale: resolve node for " ++ verb)) addr,
)

node_client-Routable :
    (s : Store) (node verb addr : Text) → Routable s node addr → node_client s node verb ≡ ok addr
unfolding node_client
node_client-Routable s node verb [] h = cc
node_client-Routable s node verb (c ∷ addr) h = ground arith

or_error-ok {ℓ} :
    {A : Type ℓ} (r : Result A) (w : Error → Error) (a : A) → or_error r w ≡ ok a → r ≡ ok a
or_error-ok (ok b) w a h = h
or_error-ok (err e) w a h = cc

module _ {ℓ} {A : Type ℓ} (f : Formats) (s : Store) (node verb id : Text)
    (ask : Text → Result A) where
  answered-ok :
      (c : Result Text) (a : A)
      → (c >>= λ addr. or_error (ask addr) (λ e. node_verb_error f e verb id node)) ≡ ok a
      → (addr : Text) × (c ≡ ok addr) × (ask addr ≡ ok a)
  answered-ok (err e) a h = cc
  answered-ok (ok addr) a h =
      (addr, refl, or_error-ok (ask addr) (λ e. node_verb_error f e verb id node) a h)

  pub on_node-Routable :
      (a : A)
      → on_node f s node verb id ask ≡ ok a
      → (addr : Text) × Routable s node addr × (ask addr ≡ ok a)
  on_node-Routable a h =
      let (addr, c, k) = answered-ok (node_client s node verb) a h in
      (addr, node_client-ok s node verb addr c, k)

  Routable-on_node :
      (a : A) (addr : Text)
      → Routable s node addr
      → ask addr ≡ ok a
      → on_node f s node verb id ask ≡ ok a
  Routable-on_node a addr r k = rw (node_client-Routable s node verb addr r, k)

module _ (f : Formats) (fleet : Fleet) (s : Store) (node id : Text) where
  -- A pause succeeds exactly when the store is configured for node calls, the node is named, its
  -- inventory has an address, and the node at that address hibernates the sandbox.
  pub pause-ok :
      (pause f fleet s node id ≡ ok tt)
      ↔ ((addr : Text) × Routable s node addr × (fleet.hibernate addr id ≡ ok tt))
  unfolding pause
  pause-ok = (
    on_node-Routable f s node (codes "pause") id (λ addr. fleet.hibernate addr id) tt,
    λ x.
        Routable-on_node f s node (codes "pause") id (λ addr. fleet.hibernate addr id) tt x.0 x.1
          x.2,
  )

  -- A resume succeeds exactly when the node can be called in the same way and wakes the sandbox.
  pub resume-ok :
      (resume f fleet s node id ≡ ok tt)
      ↔ ((addr : Text) × Routable s node addr × (fleet.wake addr id ≡ ok tt))
  unfolding resume
  resume-ok = (
    on_node-Routable f s node (codes "resume") id (λ addr. fleet.wake addr id) tt,
    λ x. Routable-on_node f s node (codes "resume") id (λ addr. fleet.wake addr id) tt x.0 x.1 x.2,
  )
