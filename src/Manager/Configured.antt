-- ===== src/Manager/Configured.antt =====
-- What `fetchExplicitNodeGroups` of azure_manager.go keeps.
use cluster_autoscaler_provi.Base.Int.{ℤ}
use cluster_autoscaler_provi.Base.Text.{Text}
use cluster_autoscaler_provi.Base.{◌≡◌, refl, List, [], ◌∷◌, arith}
use cluster_autoscaler_provi.Cache.Registration.{IsDistinct, register-unregister-IsDistinct}
use cluster_autoscaler_provi.Errors.{Outcome, ok, err, panic, then_run-ends}
use cluster_autoscaler_provi.Manager.Explicit.{
  Library, build_node_group_from_spec, register_explicit, register_specs,
  fetch_explicit_node_groups,
}
use cluster_autoscaler_provi.Manager.{Manager, invalidate}
use cluster_autoscaler_provi.Types.{NodeGroup}

module _ (lib : Library) where
  register_specs-IsDistinct :
      (specs : List Text) (m : Manager)
      → IsDistinct m.cache.registered_node_groups
      → IsDistinct (register_specs lib specs m).1.cache.registered_node_groups
  unfolding register_specs register_explicit
  register_specs-IsDistinct [] m d = d
  register_specs-IsDistinct (spec ∷ specs) m d =
      go (λ m'. register_specs-IsDistinct specs m') (build_node_group_from_spec lib spec m) refl
    where
      go :
          ((m' : Manager)
            → IsDistinct m'.cache.registered_node_groups
            → IsDistinct (register_specs lib specs m').1.cache.registered_node_groups)
          → (r : Outcome NodeGroup) → build_node_group_from_spec lib spec m ≡ r
          → IsDistinct (register_specs lib (spec ∷ specs) m).1.cache.registered_node_groups
      go rest (err e) h = rw (h, register_specs) d
      go rest panic h = rw (h, register_specs) d
      go rest (ok g) h =
          (let m' = (register_explicit lib g m).1 in
            let d' = rest m' (register-unregister-IsDistinct g m.cache d).0 in
            rw (h, register_specs)
              (then_run-ends (λ s. IsDistinct s.cache.registered_node_groups)
                (register_specs lib specs m') _ d' (λ changed e. d')))

  -- fetchExplicitNodeGroups, whatever it is given and whether it fails or not, never leaves two
  -- registered groups whose Ids differ in letter case at most, when there were none before.
  pub fetch_explicit_node_groups-IsDistinct :
      (now : ℤ) (specs : List Text) (m : Manager)
      → IsDistinct m.cache.registered_node_groups
      → IsDistinct (fetch_explicit_node_groups lib now specs m).1.cache.registered_node_groups
  unfolding fetch_explicit_node_groups invalidate
  fetch_explicit_node_groups-IsDistinct now specs m d =
      let d' = register_specs-IsDistinct specs m d in
      then_run-ends (λ s. IsDistinct s.cache.registered_node_groups) (register_specs lib specs m) _
        d' (λ changed e. ground (arith, d'))
