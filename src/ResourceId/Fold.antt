-- ===== src/ResourceId/Fold.antt =====
-- What lowering the resource group keeps of an identifier.
use cluster_autoscaler_provi.Base.{
  ◌≡◌, refl, ◌∙◌, sym, ap, true, [], ◌∷◌, arith, Option-cases, inl, inr,
}
use cluster_autoscaler_provi.Base.Text.{
  Text, to_lower, eq_fold, eq_fold_iff, replace_first, strip_prefix, strip_prefix-append,
  to_lower-append, to_lower-to_lower, lower,
}
use cluster_autoscaler_provi.Errors.{ok}
use cluster_autoscaler_provi.ResourceId.{resource_group_re, convert_resource_group_name_to_lower}

to_lower-replace_first : (s g : Text) → to_lower (replace_first s g (to_lower g)) ≡ to_lower s
unfolding replace_first
to_lower-replace_first [] g = refl
to_lower-replace_first (c ∷ s) g = elim (Option-cases (strip_prefix g (c ∷ s))) [
  | inl e ↦ rw (e, replace_first) (ap (◌∷◌ (lower c)) (to_lower-replace_first s g))
  | inr (rest, e) ↦
      rw (e, replace_first)
        (rw (to_lower-append, to_lower-to_lower)
          (sym (to_lower-append g rest) ∙ ap to_lower (sym (strip_prefix-append g (c ∷ s) rest e))))
]

-- The identifier that `convertResourceGroupNameToLower` gives differs from its argument in the
-- case of letters only.
pub convert-eq_fold :
    (id r : Text) → convert_resource_group_name_to_lower id ≡ ok r → eq_fold r id ≡ true
unfolding convert_resource_group_name_to_lower
convert-eq_fold id r h = elim (Option-cases (resource_group_re id)) [
  | inl e ↦ ground arith
  | inr (found, e) ↦ ground (arith, to_lower-replace_first id found.0, eq_fold_iff r id)
]
