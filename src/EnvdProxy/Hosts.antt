-- ===== src/EnvdProxy/Hosts.antt =====
-- The hosts that pkg/envdproxy makes and reads are the same.
use sandbox_operator.Prelude.{
  ℕ, ◌≤◌, ◌<◌, ◌≡◌, refl, ap, Bool, true, false, ◌||◌, none, some, [], ◌∷◌, ◌++◌, map, append_assoc,
  arith, nat_beq, text_beq_iff, beq_refl, length, any, all, length-append, Text, is_empty, cut,
  Lacks, cut-append, cut-none,
}
use sandbox_operator.Prelude.Decimal.{is_digit, itoa, itoa-all, parse_uint-itoa}
use sandbox_operator.SandboxId.{is_ascii, is_dns_safe, lower, needs_rewrite}
use sandbox_operator.EnvdProxy.{
  Unicode, Route, is_space, trim_left, trim_right, trim_space, to_lower, parse_port, cut_suffix,
  has, split_host_port, route_of_host,
}
use sandbox_operator.EnvdProxy.Serve.{sandbox_host}

-- The characters of a domain name in lower case.
abbrev pub is_host_char : ℕ → Bool
is_host_char c = is_dns_safe c || nat_beq c b'.'

module _ (p : ℕ → Bool) where
  all-append : (s t : Text) → all p s ≡ true → all p t ≡ true → all p (s ++ t) ≡ true
  all-append [] t hs ht = ht
  all-append (c ∷ s) t hs ht = ground (arith, all-append s t)

  all_mono :
      (q : ℕ → Bool) (s : Text)
      → ((c : ℕ) → p c ≡ true → q c ≡ true)
      → all p s ≡ true
      → all q s ≡ true
  all_mono q [] h hs = refl
  all_mono q (c ∷ s) h hs = ground (arith, h c, all_mono q s h)

  all-has : (b : ℕ) (s : Text) → p b ≡ false → all p s ≡ true → has b s ≡ false
  all-has b [] h hs = refl
  all-has b (c ∷ s) h hs = ground (arith, all-has b s h)

has-Lacks : (b : ℕ) (s : Text) → has b s ≡ false → Lacks b s
has-Lacks b [] h = tt
has-Lacks b (c ∷ s) h = ground (arith, has-Lacks b s)

host-is_ascii : (s : Text) → all is_host_char s ≡ true → is_ascii s ≡ true
unfolding is_ascii is_dns_safe
host-is_ascii [] h = refl
host-is_ascii (c ∷ s) h = ground (arith, host-is_ascii s)

host-lower : (s : Text) → all is_host_char s ≡ true → map lower s ≡ s
unfolding is_dns_safe
host-lower [] h = refl
host-lower (c ∷ s) h = ground (arith, host-lower s)

to_lower-host : (u : Unicode) (s : Text) → all is_host_char s ≡ true → to_lower u s ≡ s
unfolding to_lower
to_lower-host u s h = rw (host-is_ascii s h, host-lower s h) refl

trim_left-none : (s : Text) → any is_space s ≡ false → trim_left is_space s ≡ s
trim_left-none [] h = refl
trim_left-none (c ∷ s) h = ground arith

trim_right-none : (s : Text) → any is_space s ≡ false → trim_right is_space s ≡ s
trim_right-none [] h = refl
trim_right-none (c ∷ []) h = ground arith
trim_right-none (c ∷ d ∷ s) h = rw (trim_right-none (d ∷ s) (ground arith)) refl

digits-no_space : (s : Text) → all is_digit s ≡ true → any is_space s ≡ false
digits-no_space [] h = refl
digits-no_space (c ∷ s) h = ground (arith, digits-no_space s)

digits-host : (c : ℕ) → is_digit c ≡ true → is_host_char c ≡ true
unfolding is_dns_safe
digits-host c h = ground arith

parse_port-itoa : (u : Unicode) (n : ℕ) → 0 < n → n ≤ 65535 → parse_port u (itoa n) ≡ some n
unfolding parse_port trim_space
parse_port-itoa u n pos fits =
    let ds = itoa-all is_digit n (λ c h. h) in
    let plain = digits-no_space (itoa n) ds in
    rw
      (
        host-is_ascii (itoa n) (all_mono is_digit is_host_char (itoa n) digits-host ds),
        trim_left-none (itoa n) plain,
        trim_right-none (itoa n) plain,
        parse_uint-itoa 65535 n fits,
      )
      (ground arith)

cut_suffix-append : (s p : Text) → cut_suffix (s ++ p) p ≡ some s
unfolding cut_suffix
cut_suffix-append [] [] = refl
cut_suffix-append [] (c ∷ p) = rw (beq_refl (c ∷ p)) refl
cut_suffix-append (c ∷ s) p = ground (
  arith,
  cut_suffix-append s p,
  text_beq_iff (c ∷ s ++ p) p,
  length-append s p,
  ap length {x = c ∷ s ++ p} {y = p},
)

needs_rewrite-all : (s : Text) → needs_rewrite s ≡ false → all is_dns_safe s ≡ true
unfolding needs_rewrite
needs_rewrite-all [] h = refl
needs_rewrite-all (c ∷ s) h = ground (arith, needs_rewrite-all s)

split_host_port-host : (s : Text) → all is_host_char s ≡ true → split_host_port s ≡ none
unfolding split_host_port is_dns_safe
split_host_port-host [] h = refl
split_host_port-host (c ∷ s) h =
    rw (cut-none b':' (c ∷ s) (has-Lacks b':' (c ∷ s) (all-has is_host_char b':' (c ∷ s) refl h)))
      (ground arith)

-- The label that a sandbox's host starts with.
abbrev label_of : Route → Text
label_of rt = itoa rt.port ++ (b'-' ∷ rt.sandbox_id)

sandbox_host-label :
    (rt : Route) (domain : Text) → sandbox_host rt domain ≡ label_of rt ++ (b'.' ∷ domain)
unfolding sandbox_host
sandbox_host-label rt domain = rw append_assoc refl

is_empty-append : (s t : Text) → is_empty t ≡ false → is_empty (s ++ t) ≡ false
is_empty-append [] t h = h
is_empty-append (c ∷ s) t h = refl

module _ (u : Unicode) (rt : Route) (domain : Text)
    (safe : all is_dns_safe rt.sandbox_id ≡ true) where
  label-host : all is_host_char (label_of rt) ≡ true
  unfolding is_dns_safe
  label-host =
      all-append is_host_char (itoa rt.port) _ (itoa-all is_host_char rt.port digits-host)
        (all_mono is_dns_safe is_host_char rt.sandbox_id (λ c h. ground arith) safe)

  label-no_dot : has b'.' (label_of rt) ≡ false
  unfolding is_dns_safe
  label-no_dot = all-has is_dns_safe b'.' (label_of rt) refl (
      all-append is_dns_safe (itoa rt.port) _ (itoa-all is_dns_safe rt.port (λ c h. ground arith))
        safe)

  label-cut : cut b'-' (label_of rt) ≡ some (itoa rt.port, rt.sandbox_id)
  label-cut = cut-append b'-' (itoa rt.port) rt.sandbox_id (
      has-Lacks b'-' (itoa rt.port)
        (all-has is_digit b'-' (itoa rt.port) refl (itoa-all is_digit rt.port (λ c h. h))))

-- A request to the host that the proxy and the SDK spell for a sandbox's port is routed to that
-- sandbox and port, when the port is a TCP port, the id needs no rewriting and is not empty, and the
-- domain is in lower case, digits, hyphens and dots.
pub route_of_host-sandbox_host :
    (u : Unicode) (rt : Route) (domain : Text)
    → 0 < rt.port
    → rt.port ≤ 65535
    → is_empty rt.sandbox_id ≡ false
    → needs_rewrite rt.sandbox_id ≡ false
    → all is_host_char domain ≡ true
    → route_of_host u (sandbox_host rt domain) domain ≡ some rt
unfolding route_of_host is_dns_safe
route_of_host-sandbox_host u rt domain pos fits some_id safe dom =
    let safe' = needs_rewrite-all rt.sandbox_id safe in
    let whole =
      all-append is_host_char (label_of rt) (b'.' ∷ domain) (label-host u rt domain safe')
        (rw dom refl) in
    rw
      (
        sandbox_host-label rt domain,
        split_host_port-host (label_of rt ++ (b'.' ∷ domain)) whole,
        to_lower-host u (label_of rt ++ (b'.' ∷ domain)) whole,
        to_lower-host u domain dom,
        cut_suffix-append (label_of rt) (b'.' ∷ domain),
        is_empty-append (itoa rt.port) (b'-' ∷ rt.sandbox_id) refl,
        label-no_dot u rt domain safe',
        label-cut u rt domain safe',
        some_id,
        parse_port-itoa u rt.port pos fits,
      )
      refl
