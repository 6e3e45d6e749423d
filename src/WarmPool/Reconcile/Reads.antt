-- ===== src/WarmPool/Reconcile/Reads.antt =====
-- pkg/scale/warmpool/driver.go: which failed reads end a reconcile.
use sandbox_operator.Prelude.{
  ◌≡◌, refl, sym, ◌∙◌, inl, inr, Bool, true, false, not, ◌&&◌, ◌||◌, List, [], ◌∷◌, arith,
  Bool-cases, any, Text, is_empty,
}
use sandbox_operator.Errors.{
  err_no_template_ref, Result, ok, err, is, as_status_error, is_not_found,
}
use sandbox_operator.Scale.Model.{NodePools}
use sandbox_operator.WarmPool.{NodeView}
use sandbox_operator.WarmPool.Reconcile.{
  WarmPool, Template, StatusWrite, Wanted, pool_key, add_desired, resolve_pools,
}

abbrev pub is_err {ℓ} : {A : Type ℓ} → Result A → Bool
is_err (ok a) = false
is_err (err e) = true

-- The read of a pool's template failed, other than by its not being there.
abbrev pub unread : Result Template → Bool
unread (ok t) = false
unread (err e) = not (is_not_found e || is e err_no_template_ref)

abbrev pub template_unread : (Text → Text → Result Template) → WarmPool → Bool
template_unread template p =
    not (is_empty p.template_ref) && unread (template p.namespace p.template_ref)

-- Some read of a reconcile failed: of the pools, of the inventories, or of a pool's template.
abbrev pub reads_failed :
    (Text → Text → Result Template) → Result (List NodePools) → Result (List WarmPool) → Bool
reads_failed template capacities (err e) = true
reads_failed template (err e) (ok pools) = true
reads_failed template (ok nodes) (ok pools) = any (template_unread template) pools

add_desired-is_err :
    (template : Text → Text → Result Template) (p : WarmPool) (vs : List NodeView)
    (t : Result Template) (rest : List StatusWrite × Result Wanted)
    → is_empty p.template_ref ≡ false
    → template p.namespace p.template_ref ≡ t
    → is_err (add_desired p vs (pool_key template p) rest).1 ≡ (unread t || is_err rest.1)
unfolding pool_key is_not_found is as_status_error
add_desired-is_err template p vs (ok t) (writes, ok rest) h e = rw (h, e) refl
add_desired-is_err template p vs (ok t) (writes, err x) h e = rw (h, e) refl
add_desired-is_err template p vs (err x) (writes, rest) h e = rw (h, e) (ground arith)

no_ref-is_err :
    (template : Text → Text → Result Template) (p : WarmPool) (vs : List NodeView)
    (rest : List StatusWrite × Result Wanted)
    → is_empty p.template_ref ≡ true
    → is_err (add_desired p vs (pool_key template p) rest).1 ≡ is_err rest.1
unfolding pool_key is_not_found is as_status_error
no_ref-is_err template p vs (writes, rest) h = rw h refl

pub resolve_pools-is_err :
    (template : Text → Text → Result Template) (vs : List NodeView) (pools : List WarmPool)
    → is_err (resolve_pools template vs pools).1 ≡ any (template_unread template) pools
unfolding resolve_pools
resolve_pools-is_err template vs [] = refl
resolve_pools-is_err template vs (p ∷ ps) = elim (Bool-cases (is_empty p.template_ref)) [
  | inl e ↦
      no_ref-is_err template p vs (resolve_pools template vs ps) e
      ∙ (resolve_pools-is_err template vs ps ∙ sym (rw e refl))
  | inr e ↦
      add_desired-is_err template p vs _ (resolve_pools template vs ps) e refl
      ∙ rw (e, resolve_pools-is_err template vs ps) refl
]
