-- ===== src/ScaleSet/Deletion/Marked.antt =====
-- The instances that `DeleteInstances` of azure_scale_set.go marks, and its test that skips them in
-- the next call.
use cluster_autoscaler_provi.Base.Maps.{member}
use cluster_autoscaler_provi.Base.Text.{Text}
use cluster_autoscaler_provi.Base.{
  ◌≡◌, refl, ap, ◌∙◌, Bool, true, List, [], ◌∷◌, arith, if◌then◌else◌, is_some,
}
use cluster_autoscaler_provi.Cache.{AzureCache, set_instance_state_by_provider_id}
use cluster_autoscaler_provi.Errors.{Outcome, ok, then_run}
use cluster_autoscaler_provi.ScaleSet.Deletion.{
  deleting_status, in_deletion, check_deletion, mark_deleting,
}
use cluster_autoscaler_provi.ScaleSet.Instances.Found.{find_instance-set_status}
use cluster_autoscaler_provi.ScaleSet.Instances.{
  write_status, status_after, find_instance, set_status, validate_instance_cache,
  get_instance_by_provider_id, set_instance_status_by_provider_id,
}
use cluster_autoscaler_provi.ScaleSet.Size.{is_fresh}
use cluster_autoscaler_provi.ScaleSet.{Client, World}
use cluster_autoscaler_provi.Types.{Instance, InstanceStatus, deleting}

-- The instances, and the states in the manager's cache, with those of a list in deletion.
abbrev pub marked : List Text → List Instance → List Instance
marked [] cache = cache
marked (i ∷ is) cache = marked is (set_status i deleting_status cache)

abbrev pub marked_states : List Text → AzureCache → AzureCache
marked_states [] c = c
marked_states (i ∷ is) c = marked_states is (set_instance_state_by_provider_id i deleting c)

-- Whether an instance is in deletion.
abbrev pub skipped : Text → List Instance → Outcome Bool
skipped j cache = in_deletion (ok (find_instance j cache))

skipped-marked :
    (is : List Text) (j : Text) (cache : List Instance)
    → is_some (find_instance j cache) ≡ true
    → skipped j (marked is cache) ≡ (if member j is then ok true else skipped j cache)
unfolding member
skipped-marked [] j cache known = refl
skipped-marked (i ∷ is) j cache known = ground (
  arith,
  find_instance-set_status i j deleting_status cache,
  skipped-marked is j (set_status i deleting_status cache),
)

module _ {C : Type 0} (client : Client C) where
  validate_fresh :
      (w : World C)
      → is_fresh client w.set.last_instance_refresh w.set.instances_refresh_period w ≡ true
      → validate_instance_cache client w ≡ (ok tt, w)
  unfolding validate_instance_cache
  validate_fresh w fresh = simp (fresh)

  set_status_fresh :
      (i : Text) (s : InstanceStatus) (w : World C)
      → is_fresh client w.set.last_instance_refresh w.set.instances_refresh_period w ≡ true
      → set_instance_status_by_provider_id client i s w ≡ (ok tt, write_status client i s w)
  unfolding set_instance_status_by_provider_id status_after
  set_status_fresh i s w fresh = ap (status_after client i s) (validate_fresh w fresh)

  mark_deleting-marked :
      (is : List Text) (w : World C)
      → is_fresh client w.set.last_instance_refresh w.set.instances_refresh_period w ≡ true
      → mark_deleting client is w ≡ (
        ok tt,
        record w {
          set = record w.set { instance_cache = marked is w.set.instance_cache };
          cache = marked_states is w.cache;
        },
      )
  unfolding mark_deleting
  mark_deleting-marked [] w fresh = refl
  mark_deleting-marked (i ∷ is) w fresh =
      let w₁ = write_status client i deleting_status w in
      ap
        (λ r. then_run r (λ u w'.
          mark_deleting client is
            (record w' { cache = set_instance_state_by_provider_id i deleting w'.cache })))
        (set_status_fresh i deleting_status w fresh)
      ∙ mark_deleting-marked is
          (record w₁ { cache = set_instance_state_by_provider_id i deleting w₁.cache }) fresh

  -- While the instance cache is fresh, the instances that DeleteInstances has marked are skipped by
  -- the test of the next DeleteInstances, which refreshes nothing; of any other instance that the
  -- cache knows the test answers what it answered before.
  pub check_deletion-mark_deleting :
      (is : List Text) (j : Text) (w : World C)
      → is_fresh client w.set.last_instance_refresh w.set.instances_refresh_period w ≡ true
      → is_some (find_instance j w.set.instance_cache) ≡ true
      → let w' = (mark_deleting client is w).1 in
        check_deletion client j w'
        ≡ (if member j is then ok true else (check_deletion client j w).0, w')
  unfolding check_deletion get_instance_by_provider_id
  check_deletion-mark_deleting is j w fresh known =
      let w' = record w {
        set = record w.set { instance_cache = marked is w.set.instance_cache };
        cache = marked_states is w.cache;
      } in
      rw
        (
          mark_deleting-marked is w fresh,
          validate_fresh w fresh,
          validate_fresh w' fresh,
          check_deletion,
          get_instance_by_provider_id,
          skipped-marked is j w.set.instance_cache known,
        )
        refl
