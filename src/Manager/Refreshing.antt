-- ===== src/Manager/Refreshing.antt =====
-- The time of the last refresh and the set of node groups, across `Refresh`, `forceRefresh` and
-- `fetchAutoNodeGroups` of azure_manager.go.
use cluster_autoscaler_provi.Base.Int.{ℤ, ◌<ℤ◌, ◌+ℤ◌, ltb_ℤ}
use cluster_autoscaler_provi.Base.Maps.{member}
use cluster_autoscaler_provi.Base.Text.{Text}
use cluster_autoscaler_provi.Base.{
  ◌≡◌, refl, inl, inr, false, ◌||◌, List, [], ◌∷◌, arith, Bool-cases,
}
use cluster_autoscaler_provi.Cache.Fetch.{Listing}
use cluster_autoscaler_provi.Cache.Regenerate.{regenerate}
use cluster_autoscaler_provi.Cache.Registration.{IsDistinct, register-unregister-IsDistinct}
use cluster_autoscaler_provi.Cache.{AzureCache, register, unregister}
use cluster_autoscaler_provi.Errors.{Outcome, ok, err, panic}
use cluster_autoscaler_provi.Manager.{
  Manager, ids, stays, register_all, unregister_others, invalidate, get_filtered_node_groups,
  apply_auto_node_groups, fetch_auto_node_groups, finish_refresh, force_refresh, refresh,
}
use cluster_autoscaler_provi.Types.{Instance, NodeGroup}

register_all-IsDistinct :
    (explicit : List Text) (gs : List NodeGroup) (c : AzureCache)
    → IsDistinct c.registered_node_groups
    → IsDistinct (register_all explicit gs c).0.registered_node_groups
unfolding register_all
register_all-IsDistinct explicit [] c d = d
register_all-IsDistinct explicit (g ∷ gs) c d = elim (Bool-cases (member g.id explicit)) [
  | inl e ↦ rw (e, register_all) (register_all-IsDistinct explicit gs c d)
  | inr e ↦
      rw (e, register_all)
        (register_all-IsDistinct explicit gs (register g c).0
          (register-unregister-IsDistinct g c d).0)
]

unregister_others-IsDistinct :
    (exists explicit : List Text) (gs : List NodeGroup) (c : AzureCache)
    → IsDistinct c.registered_node_groups
    → IsDistinct (unregister_others exists explicit gs c).0.registered_node_groups
unfolding unregister_others
unregister_others-IsDistinct exists explicit [] c d = d
unregister_others-IsDistinct exists explicit (g ∷ gs) c d =
    elim (Bool-cases (stays exists explicit g)) [
      | inl e ↦ rw (e, unregister_others) (unregister_others-IsDistinct exists explicit gs c d)
      | inr e ↦
          rw (e, unregister_others)
            (unregister_others-IsDistinct exists explicit gs (unregister g c).0
              (register-unregister-IsDistinct g c d).1)
    ]

apply_auto_node_groups-IsDistinct :
    (now : ℤ) (gs : List NodeGroup) (m : Manager)
    → IsDistinct m.cache.registered_node_groups
    → IsDistinct (apply_auto_node_groups now gs m).cache.registered_node_groups
unfolding apply_auto_node_groups invalidate
apply_auto_node_groups-IsDistinct now gs m d =
    let r = register_all m.explicitly_configured gs m.cache in
    let s = unregister_others (ids gs) m.explicitly_configured r.0.registered_node_groups r.0 in
    let d' =
      unregister_others-IsDistinct (ids gs) m.explicitly_configured r.0.registered_node_groups r.0
        (register_all-IsDistinct m.explicitly_configured gs m.cache d) in
    elim (Bool-cases (r.1 || s.1)) [
      | inl e ↦ rw (e, apply_auto_node_groups) d'
      | inr e ↦ rw (e, apply_auto_node_groups) d'
    ]

-- `fetchAutoNodeGroups`, whatever it discovers and whether it fails or not, never leaves two
-- registered groups whose Ids differ in letter case at most, when there were none before.
pub fetch_auto_node_groups-IsDistinct :
    (now : ℤ) (m : Manager)
    → IsDistinct m.cache.registered_node_groups
    → IsDistinct (fetch_auto_node_groups now m).1.cache.registered_node_groups
unfolding fetch_auto_node_groups
fetch_auto_node_groups-IsDistinct now m d =
    go (get_filtered_node_groups m.auto_discovery_specs m) refl
  where
    go :
        (r : Outcome (List NodeGroup))
        → get_filtered_node_groups m.auto_discovery_specs m ≡ r
        → IsDistinct (fetch_auto_node_groups now m).1.cache.registered_node_groups
    go (ok gs) e = rw (e, fetch_auto_node_groups) (apply_auto_node_groups-IsDistinct now gs m d)
    go (err x) e = rw (e, fetch_auto_node_groups) d
    go panic e = rw (e, fetch_auto_node_groups) d

finish_refresh_ok :
    (now : ℤ) (m : Manager) (r : Outcome (Unit {0}) × AzureCache)
    → (finish_refresh now m r).0 ≡ ok tt
    → (finish_refresh now m r).1.last_refresh ≡ now
unfolding finish_refresh
finish_refresh_ok now m (ok u, c) h = refl
finish_refresh_ok now m (err e, c) h = absurd (cc)
finish_refresh_ok now m (panic, c) h = absurd (cc)

force_refresh_ok :
    (now : ℤ) (l : Listing) (nodes : NodeGroup → Outcome (List Instance)) (m : Manager)
    → (force_refresh now l nodes m).0 ≡ ok tt
    → (force_refresh now l nodes m).1.last_refresh ≡ now
unfolding force_refresh
force_refresh_ok now l nodes m = go (fetch_auto_node_groups now m).0 refl
  where
    go :
        (r : Outcome (Unit {0}))
        → (fetch_auto_node_groups now m).0 ≡ r
        → (force_refresh now l nodes m).0 ≡ ok tt
        → (force_refresh now l nodes m).1.last_refresh ≡ now
    go (ok u) e =
        rw (e, force_refresh)
          (finish_refresh_ok now (fetch_auto_node_groups now m).1
            (regenerate l nodes (fetch_auto_node_groups now m).1.cache))
    go (err x) e =
        rw (e, force_refresh)
          (finish_refresh_ok now (fetch_auto_node_groups now m).1
            (regenerate l nodes (fetch_auto_node_groups now m).1.cache))
    go panic e = rw (e, force_refresh) (λ h. absurd (cc))

-- After a Refresh that found the cache stale and succeeded, Refresh does nothing at any time
-- before the refresh interval has passed, whatever Azure would list by then.
pub refresh-refresh :
    (now later : ℤ) (l l' : Listing) (nodes nodes' : NodeGroup → Outcome (List Instance))
    (m : Manager)
    → ltb_ℤ now (m.last_refresh +ℤ m.cache.refresh_interval) ≡ false
    → (refresh now l nodes m).0 ≡ ok tt
    → later <ℤ now +ℤ (refresh now l nodes m).1.cache.refresh_interval
    → refresh later l' nodes' (refresh now l nodes m).1 ≡ (ok tt, (refresh now l nodes m).1)
unfolding refresh
refresh-refresh now later l l' nodes nodes' m stale h early =
    ground (arith, force_refresh_ok now l nodes m)
