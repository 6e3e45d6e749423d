-- ===== src/EnvdProxy/Serve/Relayed.antt =====
-- Which requests the proxy of pkg/envdproxy/envdproxy.go relays.
use sandbox_operator.Prelude.{
  ℕ, ◌≡◌, refl, ◌∙◌, ◌⊎◌, inl, inr, Bool, true, false, not, ◌&&◌, Option, none, some, arith,
  nat_beq, if◌then◌else◌, Text, is_empty,
}
use sandbox_operator.Errors.{Result, ok, err}
use sandbox_operator.EnvdProxy.{
  Route, Request, trim_space, route_of, internal_path, signed_file_url,
}
use sandbox_operator.EnvdProxy.Recent.{Owner}
use sandbox_operator.EnvdProxy.Resolver.{Asks, Resolver, owner, locate}
use sandbox_operator.EnvdProxy.Admission.{IsDerived, owner-IsDerived}
use sandbox_operator.EnvdProxy.Serve.{
  Options, Target, Reply, refuses, relays, envd_port, answered, with_node_token, routed, serve,
}

module _ (w : Asks) (opts : Options) where
  -- A request with the access token of the sandbox that it is relayed to, or a signed link to a file,
  -- on envd's own port, that is relayed with the node's token.
  abbrev pub Admitted : Request → Target → Type 0
  Admitted r t =
      (trim_space w.unicode r.access_token ≡ w.derive t.owner.token)
      ⊎ (t.port ≡ envd_port) × (signed_file_url r ≡ true) × (t.owner.token ≡ opts.node_token)

  answered-ok :
      (rt : Route) (res : Result Owner) (t : Target)
      → answered w opts rt res ≡ relays t
      → (res ≡ ok t.owner) × (t.port ≡ rt.port)
  answered-ok rt (ok o) t h = ground arith
  answered-ok rt (err e) t h = absurd (ground arith)

  with_node_token-ok :
      (res : Result Owner) (o : Owner)
      → with_node_token w opts res ≡ ok o
      → o.token ≡ opts.node_token
  with_node_token-ok (ok x) o h = ground arith
  with_node_token-ok (err e) o h = absurd (ground arith)

  if_relays :
      {G : Type 0} (b : Bool) (x y : Reply × Resolver) (t : Target)
      → (if b then x else y).0 ≡ relays t
      → (b ≡ true → x.0 ≡ relays t → G)
      → (b ≡ false → y.0 ≡ relays t → G)
      → G
  if_relays true x y t h hx hy = hx refl h
  if_relays false x y t h hx hy = hy refl h

  refuses-relays : (code : ℕ) (msg : Text) (t : Target) → refuses code msg ≡ relays t → ⊥
  refuses-relays code msg t h = ground arith

  abbrev Safe : Request → Target → Type 0
  Safe r t = (internal_path w.unicode r.path ≡ false) × Admitted r t

  routed-Safe :
      (allow : Bool) (now : ℕ) (r : Request) (s : Resolver) (rt : Option Route) (t : Target)
      → IsDerived w s
      → (routed w opts allow now r s rt).0 ≡ relays t
      → Safe r t
  routed-Safe allow now r s none t d h = absurd (refuses-relays _ _ t h)
  routed-Safe allow now r s (some rt) t d h =
      let token = trim_space w.unicode r.access_token in
      let asked = owner w allow rt.sandbox_id token now s in
      let found = (locate w allow rt.sandbox_id now s).0 in
      if_relays {G = Safe r t} (internal_path w.unicode r.path) _ _ t h
        (λ i k. absurd (refuses-relays _ _ t k))
        λ i k.
          if_relays {G = Safe r t} (not (is_empty token)) _ _ t k
            (λ given l.
              let (o, _) = answered-ok rt asked.0 t l in
              (i, inl ((owner-IsDerived w allow rt.sandbox_id token now s d).1 t.owner o)))
            λ none_given l.
              if_relays {G = Safe r t} (nat_beq rt.port envd_port && signed_file_url r) _ _ t l
                (λ signed m.
                  let (o, p) = answered-ok rt (with_node_token w opts found) t m in
                  (i, inr (p ∙ ground arith, ground arith, with_node_token-ok found t.owner o)))
                λ plain m. absurd (refuses-relays _ _ t m)

  -- A request is relayed only when its path is none of the guest's own control paths, and it carries
  -- the access token of the very sandbox it goes to or is a signed link to a file, which goes to
  -- envd's port alone and with the node's token in place of the sandbox's.
  pub serve-Admitted :
      (allow : Bool) (now : ℕ) (r : Request) (s : Resolver) (t : Target)
      → IsDerived w s
      → (serve w opts allow now r s).0 ≡ relays t
      → (internal_path w.unicode r.path ≡ false) × Admitted r t
  unfolding serve
  serve-Admitted allow now r s t d h =
      routed-Safe allow now r s (route_of w.unicode r opts.domain) t d h
