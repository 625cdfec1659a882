-- ===== src/Manager/Discovered.antt =====
-- Which node groups `getFilteredScaleSets` of azure_manager.go discovers.
use cluster_autoscaler_provi.Autodiscovery.{
  LabelAutoDiscoveryConfig, match_discovery_config, AutoDiscoveryConfigSizes,
}
use cluster_autoscaler_provi.Base.Int.{ℤ, pos, ◌≤ℤ◌}
use cluster_autoscaler_provi.Base.Text.{Text}
use cluster_autoscaler_provi.Base.{
  ℕ, ◌≡◌, refl, Bool, true, false, ◌⊎◌, inl, inr, Option, none, some, List, [], ◌∷◌, arith, All,
  Option-cases, is_some,
}
use cluster_autoscaler_provi.Errors.{ok_inj, Outcome, ok, err, panic, ◌>>=◌}
use cluster_autoscaler_provi.Manager.{
  min_size_of, max_size_of, new_scale_set, filter_scale_set, push, get_filtered_scale_sets,
}
use cluster_autoscaler_provi.Types.{Vmss, Tags, NodeGroup}

-- The sizes of a node group are in order, and not negative.
abbrev pub IsSized : NodeGroup → Type 0
IsSized g = (pos 0 ≤ℤ g.min_size) × (g.min_size ≤ℤ g.max_size)

-- A result that is a value there, or another one.
abbrev is_found : Outcome (Option ℤ) → Bool
is_found (ok (some n)) = true
is_found (ok none) = false
is_found (err e) = false
is_found panic = false

Found-cases : (m : Outcome (Option ℤ)) → ((n : ℤ) × (m ≡ ok (some n))) ⊎ (is_found m ≡ false)
Found-cases (ok (some n)) = inl (n, refl)
Found-cases (ok none) = inr refl
Found-cases (err e) = inr refl
Found-cases panic = inr refl

min_size_of_sound :
    (tags : Tags) (sizes : Option AutoDiscoveryConfigSizes) (lo : ℤ)
    → min_size_of tags sizes ≡ ok (some lo)
    → pos 0 ≤ℤ lo
unfolding min_size_of
min_size_of_sound tags sizes lo h = ground arith

max_size_of_sound :
    (lo : ℤ) (tags : Tags) (sizes : Option AutoDiscoveryConfigSizes) (hi : ℤ)
    → max_size_of lo tags sizes ≡ ok (some hi)
    → lo ≤ℤ hi
unfolding max_size_of
max_size_of_sound lo tags sizes hi h = ground arith

new_scale_set_sound :
    (v : Vmss) (sizes : Option AutoDiscoveryConfigSizes) (g : NodeGroup)
    → new_scale_set v sizes ≡ ok (some g)
    → (g.id ≡ v.name) × IsSized g
unfolding new_scale_set
new_scale_set_sound v sizes g h = elim (Found-cases (min_size_of v.tags sizes)) [
  | inr f ↦ absurd (ground (arith, h, f))
  | inl (lo, e) ↦ elim (Found-cases (max_size_of lo v.tags sizes)) [
    | inr f ↦ absurd (ground (arith, h, f, e))
    | inl (hi, f) ↦ ground (
      arith,
      h,
      e,
      f,
      min_size_of_sound v.tags sizes lo e,
      max_size_of_sound lo v.tags sizes hi f,
    )
  ]
]

-- A node group of a scale set whose tags match, with sizes in order.
abbrev pub IsSelected : List LabelAutoDiscoveryConfig → Vmss → NodeGroup → Type 0
IsSelected filter v g =
    (g.id ≡ v.name) × (is_some (match_discovery_config v.tags filter) ≡ true) × IsSized g

filter_scale_set_sound :
    (c : LabelAutoDiscoveryConfig) (cs : List LabelAutoDiscoveryConfig) (v : Vmss) (g : NodeGroup)
    → filter_scale_set (c ∷ cs) v ≡ ok (some g)
    → IsSelected (c ∷ cs) v g
unfolding filter_scale_set
filter_scale_set_sound c cs v g h = elim (Option-cases (match_discovery_config v.tags (c ∷ cs))) [
  | inl e ↦ absurd (ground (arith, h, e))
  | inr (sizes, e) ↦ ground (arith, h, e, new_scale_set_sound v (some sizes) g)
]

-- Some scale set of the cache's map was selected as the group.
abbrev pub Selected :
    List LabelAutoDiscoveryConfig → (ℕ → Vmss) → NodeGroup → List (Text × ℕ) → Type 0
Selected filter heap g [] = ⊥
Selected filter heap g ((name, p) ∷ m) = IsSelected filter (heap p) g ⊎ Selected filter heap g m

All-weaken :
    (filter : List LabelAutoDiscoveryConfig) (heap : ℕ → Vmss) (name : Text) (p : ℕ)
    (m : List (Text × ℕ)) (gs : List NodeGroup)
    → All (λ g. Selected filter heap g m) gs
    → All (λ g. Selected filter heap g ((name, p) ∷ m)) gs
All-weaken filter heap name p m [] h = tt
All-weaken filter heap name p m (g ∷ gs) h = (inr h.0, All-weaken filter heap name p m gs h.1)

-- One round of the loop.
collect-Selected :
    (filter : List LabelAutoDiscoveryConfig) (heap : ℕ → Vmss) (name : Text) (p : ℕ)
    (m : List (Text × ℕ)) (found : Outcome (Option NodeGroup)) (rest : Outcome (List NodeGroup))
    (gs : List NodeGroup)
    → ((g : NodeGroup) → found ≡ ok (some g) → IsSelected filter (heap p) g)
    → ((hs : List NodeGroup) → rest ≡ ok hs → All (λ g. Selected filter heap g m) hs)
    → (found >>= (λ g. rest >>= (λ hs. ok (push g hs)))) ≡ ok gs
    → All (λ g. Selected filter heap g ((name, p) ∷ m)) gs
collect-Selected filter heap name p m (ok none) (ok hs) gs f r h =
    rw (← ok_inj h) (All-weaken filter heap name p m hs (r hs refl))
collect-Selected filter heap name p m (ok (some g)) (ok hs) gs f r h =
    rw (← ok_inj h) (inl (f g refl), All-weaken filter heap name p m hs (r hs refl))
collect-Selected filter heap name p m (ok g) (err e) gs f r h = absurd (cc)
collect-Selected filter heap name p m (ok g) panic gs f r h = absurd (cc)
collect-Selected filter heap name p m (err e) rest gs f r h = absurd (cc)
collect-Selected filter heap name p m panic rest gs f r h = absurd (cc)

-- With at least one configuration, each node group that getFilteredScaleSets discovers has the
-- name of a scale set in the cache whose tags match the configurations, a minimum size that is not
-- negative and a maximum size that is not below it.
pub get_filtered_scale_sets-Selected :
    (c : LabelAutoDiscoveryConfig) (cs : List LabelAutoDiscoveryConfig) (heap : ℕ → Vmss)
    (m : List (Text × ℕ)) (gs : List NodeGroup)
    → get_filtered_scale_sets (c ∷ cs) heap m ≡ ok gs
    → All (λ g. Selected (c ∷ cs) heap g m) gs
unfolding get_filtered_scale_sets
get_filtered_scale_sets-Selected c cs heap [] [] h = tt
get_filtered_scale_sets-Selected c cs heap [] (g ∷ gs) h = absurd (ground (arith, h))
get_filtered_scale_sets-Selected c cs heap ((name, p) ∷ m) gs h =
    collect-Selected (c ∷ cs) heap name p m (filter_scale_set (c ∷ cs) (heap p))
      (get_filtered_scale_sets (c ∷ cs) heap m) gs (filter_scale_set_sound c cs (heap p))
      (get_filtered_scale_sets-Selected c cs heap m) h
