-- ===== src/Manager/Pruned.antt =====
-- Which node groups are registered after `fetchAutoNodeGroups` of azure_manager.go.
use cluster_autoscaler_provi.Base.Text.{Text, eq_fold, eq_fold_iff}
use cluster_autoscaler_provi.Base.Int.{ℤ}
use cluster_autoscaler_provi.Base.{
  ◌≡◌, ◌⊎◌, inl, inr, true, false, ◌||◌, List, [], ◌∷◌, arith, All, All-map, All-zip, Bool-cases,
}
use cluster_autoscaler_provi.Cache.Registration.{IsAbsent}
use cluster_autoscaler_provi.Cache.{AzureCache, unregister_groups, unregister}
use cluster_autoscaler_provi.Errors.{ok}
use cluster_autoscaler_provi.Manager.{
  Manager, ids, stays, register_all, unregister_others, invalidate, get_filtered_node_groups,
  apply_auto_node_groups, fetch_auto_node_groups,
}
use cluster_autoscaler_provi.Types.{NodeGroup}

module _ {κ} (P : NodeGroup → Type κ) where
  -- Unregister takes groups away only.
  unregister_groups-All :
      (g : NodeGroup) (es : List NodeGroup) → All P es → All P (unregister_groups g es).0
  unfolding unregister_groups
  unregister_groups-All g [] a = tt
  unregister_groups-All g (e ∷ es) a = ground (arith, unregister_groups-All g es a.1, a.0)

  unregister_others-All :
      (exists explicit : List Text) (gs : List NodeGroup) (c : AzureCache)
      → All P c.registered_node_groups
      → All P (unregister_others exists explicit gs c).0.registered_node_groups
  unfolding unregister_others unregister
  unregister_others-All exists explicit [] c a = a
  unregister_others-All exists explicit (g ∷ gs) c a = elim (Bool-cases (stays exists explicit g)) [
    | inl e ↦ rw (e, unregister_others) (unregister_others-All exists explicit gs c a)
    | inr e ↦
        rw (e, unregister_others)
          (unregister_others-All exists explicit gs (unregister g c).0
            (unregister_groups-All g c.registered_node_groups a))
  ]

-- No registered group has the Id of the one that is unregistered, letter case aside.
unregister_groups-IsAbsent :
    (g : NodeGroup) (es : List NodeGroup) → IsAbsent g.id (unregister_groups g es).0
unfolding unregister_groups
unregister_groups-IsAbsent g [] = tt
unregister_groups-IsAbsent g (e ∷ es) = ground (arith, unregister_groups-IsAbsent g es)

-- The group is none of those of a list that do not stay.
abbrev IsUnlike : List Text → List Text → List NodeGroup → NodeGroup → Type 0
IsUnlike exists explicit gs e =
    All (λ g. (stays exists explicit g ≡ true) ⊎ (eq_fold e.id g.id ≡ false)) gs

trivial : (es : List NodeGroup) → All (λ e. Unit {0}) es
trivial [] = tt
trivial (e ∷ es) = (tt, trivial es)

unregister_others-IsUnlike :
    (exists explicit : List Text) (gs : List NodeGroup) (c : AzureCache)
    → All
        (IsUnlike exists explicit gs)
        (unregister_others exists explicit gs c).0.registered_node_groups
unfolding unregister_others unregister
unregister_others-IsUnlike exists explicit [] c = trivial c.registered_node_groups
unregister_others-IsUnlike exists explicit (g ∷ gs) c =
    elim (Bool-cases (stays exists explicit g)) [
      | inl h ↦
          rw (h, unregister_others)
            (All-map _ _ (λ e u. (inl h, u)) _ (unregister_others-IsUnlike exists explicit gs c))
      | inr h ↦
          let c' = (unregister g c).0 in
          rw (h, unregister_others)
            (All-map _ _ (λ e u. (inr u.0, u.1)) _
              (All-zip _ _ _
                (unregister_others-All (λ e. eq_fold e.id g.id ≡ false) exists explicit gs c'
                  (unregister_groups-IsAbsent g c.registered_node_groups))
                (unregister_others-IsUnlike exists explicit gs c')))
    ]

-- A group of a list that is unlike those of the list that do not stay, stays.
IsUnlike-self :
    (exists explicit : List Text) (gs : List NodeGroup)
    → All (λ e. IsUnlike exists explicit gs e → stays exists explicit e ≡ true) gs
IsUnlike-self exists explicit [] = tt
IsUnlike-self exists explicit (g ∷ gs) = (
  (λ u. elim u.0 [ inl h ↦ h | inr h ↦ absurd (ground (arith, h, eq_fold_iff g.id g.id)) ]),
  All-map _ _ (λ e f u. f u.1) gs (IsUnlike-self exists explicit gs),
)

apply_auto_node_groups-stays :
    (now : ℤ) (groups : List NodeGroup) (m : Manager)
    → All
        (λ g. stays (ids groups) m.explicitly_configured g ≡ true)
        (apply_auto_node_groups now groups m).cache.registered_node_groups
unfolding apply_auto_node_groups invalidate
apply_auto_node_groups-stays now groups m =
    let r = register_all m.explicitly_configured groups m.cache in
    let gs = r.0.registered_node_groups in
    let exists = ids groups in
    let explicit = m.explicitly_configured in
    let s = unregister_others exists explicit gs r.0 in
    let kept =
      All-map _ _ (λ e u. u.0 u.1) s.0.registered_node_groups
        (All-zip _ _ s.0.registered_node_groups
          (unregister_others-All
            (λ e. IsUnlike exists explicit gs e → stays exists explicit e ≡ true) exists explicit gs
            r.0 (IsUnlike-self exists explicit gs))
          (unregister_others-IsUnlike exists explicit gs r.0)) in
    elim (Bool-cases (r.1 || s.1)) [
      | inl e ↦ rw (e, apply_auto_node_groups) kept
      | inr e ↦ rw (e, apply_auto_node_groups) kept
    ]

-- After fetchAutoNodeGroups has succeeded, each registered node group was discovered in this round
-- or is configured explicitly: its Id is among those of the discovered groups or of the configured
-- ones. All others have been unregistered.
pub fetch_auto_node_groups-stays :
    (now : ℤ) (m : Manager) (groups : List NodeGroup)
    → get_filtered_node_groups m.auto_discovery_specs m ≡ ok groups
    → All
        (λ g. stays (ids groups) m.explicitly_configured g ≡ true)
        (fetch_auto_node_groups now m).1.cache.registered_node_groups
unfolding fetch_auto_node_groups
fetch_auto_node_groups-stays now m groups h =
    rw (h, fetch_auto_node_groups) (apply_auto_node_groups-stays now groups m)
