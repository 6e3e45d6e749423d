-- ===== src/EnvdProxy/Serve.antt =====
-- pkg/envdproxy/envdproxy.go: what the proxy answers, or where it relays a request to.
pub mod Relayed
use sandbox_operator.Prelude.{
  ℕ, Bool, not, ◌&&◌, ◌||◌, Option, none, some, ◌∷◌, ◌++◌, nat_beq, if◌then◌else◌, Text, codes,
  is_empty,
}
use sandbox_operator.Prelude.Decimal.{itoa}
use sandbox_operator.Errors.{Error, plain, err_access_denied, Result, ok, err, is, as_http_error}
use sandbox_operator.EnvdProxy.{
  Unicode, Route, Request, trim_space, route_of, internal_path, signed_file_url,
}
use sandbox_operator.EnvdProxy.Recent.{Owner}
use sandbox_operator.EnvdProxy.Resolver.{Asks, Resolver, owner, locate}

-- `Server.sandboxHost`
unfoldable pub sandbox_host : Route → Text → Text
unfolding itoa
sandbox_host rt domain = itoa rt.port ++ (b'-' ∷ (rt.sandbox_id ++ (b'.' ∷ domain)))

-- `Options`
pub record Options : Type 0 where
  pub domain : Text
  pub guest_http2 : Bool
  pub node_token : Text

-- `NewServer`
unfoldable pub new_server : Unicode → Bool → Options → Result Options
unfolding trim_space
new_server u has_resolver opts =
    if not has_resolver
    then err (plain (codes "envdproxy: resolver is required"))
    else if is_empty (trim_space u opts.domain)
    then err
        (plain (codes "envdproxy: no domain configured; the SDK's sandbox host is derived from it"))
    else if is_empty (trim_space u opts.node_token)
    then err
        (plain (codes "envdproxy: the node token is required; a signed file URL relays with it"))
    else ok opts

-- The `target` of a relayed request, with the host that the guest sees.
pub record Target : Type 0 where
  pub owner : Owner
  pub port : ℕ
  pub h2 : Bool
  pub host : Text

-- An error reply with its status and message, or a relay into the guest.
pub data Reply : Type 0 where
  refuses : ℕ → Text → Reply
  relays : Target → Reply

abbrev pub envd_port : ℕ
envd_port = 49983

module _ (w : Asks) (opts : Options) where
  abbrev pub answered : Route → Result Owner → Reply
  answered rt (ok o) = relays (record {
    owner = o;
    port = rt.port;
    h2 = opts.guest_http2;
    host = sandbox_host rt opts.domain;
  })
  answered rt (err e) =
      if is e err_access_denied
      then refuses 401 (codes "invalid sandbox access token")
      else refuses 502 (codes "sandbox unavailable")

  -- `owner.Token = s.opts.NodeToken`
  abbrev pub with_node_token : Result Owner → Result Owner
  with_node_token (err e) = err e
  with_node_token (ok o) = ok (record o { token = opts.node_token })

  abbrev pub routed : Bool → ℕ → Request → Resolver → Option Route → Reply × Resolver
  routed allow now r s none = (refuses 400 (codes "no sandbox in the request host or headers"), s)
  routed allow now r s (some rt) =
      let token = trim_space w.unicode r.access_token in
      if internal_path w.unicode r.path
      then (refuses 404 (codes "not found"), s)
      else if not (is_empty token)
      then (let (o, s') = owner w allow rt.sandbox_id token now s in (answered rt o, s'))
      else if nat_beq rt.port envd_port && signed_file_url r
      then (let (o, s') = locate w allow rt.sandbox_id now s in
          (answered rt (with_node_token o), s'))
      else (refuses 401 (codes "missing X-Access-Token"), s)

  -- `Server.serve`, with the answer of the rate limiter and the time
  unfoldable pub serve : Bool → ℕ → Request → Resolver → Reply × Resolver
  unfolding trim_space internal_path owner signed_file_url locate is route_of sandbox_host
  serve allow now r s = routed allow now r s (route_of w.unicode r opts.domain)

abbrev unreachable : Reply
unreachable = refuses 502 (codes "sandbox unreachable")

abbrev by_status : Option (ℕ × Text) → Reply
by_status none = unreachable
by_status (some (code, m)) =
    if nat_beq code 404 || nat_beq code 401
    then refuses 401 (codes "invalid sandbox access token")
    else if nat_beq code 400
    then refuses 400 (codes "unsupported sandbox port")
    else if nat_beq code 409
    then refuses 502 (codes "sandbox is paused")
    else unreachable

-- `Server.writeUpstreamError`
unfoldable pub write_upstream_error : Error → Reply
unfolding as_http_error
write_upstream_error e = by_status (as_http_error e)
