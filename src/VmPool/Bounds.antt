-- ===== src/VmPool/Bounds.antt =====
-- The VMs that a VMPool counts and the scale profiles that it updates: `getVMsFromCache` and
-- `buildRequestBodyForScaleUp` of azure_vms_pool.go.
use cluster_autoscaler_provi.Base.Int.{ℤ}
use cluster_autoscaler_provi.Base.Text.{Text, eq_fold}
use cluster_autoscaler_provi.Base.{
  ◌≡◌, refl, ◌≤◌, any, if◌then◌else◌, Bool, true, false, Option, none, some, List, [], ◌∷◌, arith,
  length,
}
use cluster_autoscaler_provi.Types.{Vm, SizeCount}
use cluster_autoscaler_provi.VmPool.{filter_vms, set_count}

-- Leaving out more VMs never makes the pool larger: the size that IncreaseSize starts from, which
-- leaves out failed VMs as well, is at most the number of VMs that TargetSize counts.
pub filter_vms-length :
    (sku : Text) (vms : List Vm)
    → length (filter_vms (record { skip_deleting = true; skip_failed = true }) sku vms)
      ≤ length (filter_vms (record { skip_deleting = true; skip_failed = false }) sku vms)
unfolding filter_vms
filter_vms-length sku [] = omega arith
filter_vms-length sku (vm ∷ vms) = ground (arith, filter_vms-length sku vms)

-- Whether a profile is of the SKU.
abbrev pub is_of_sku : Text → Option SizeCount → Bool
is_of_sku sku none = false
is_of_sku sku (some p) = elim p.size [ none ↦ false | some size ↦ eq_fold size sku ]

-- The profiles with an update made to the first that is of the SKU, and to no other.
abbrev pub update_first :
    Text → (SizeCount → SizeCount) → List (Option SizeCount) → List (Option SizeCount)
update_first sku f [] = []
update_first sku f (none ∷ ps) = none ∷ update_first sku f ps
update_first sku f (some p ∷ ps) =
    if is_of_sku sku (some p) then some (f p) ∷ ps else some p ∷ update_first sku f ps

-- The loop of buildRequestBodyForScaleUp finds a profile exactly where some profile is of the pool's
-- SKU, and then gives the profiles with the new count in the first of them, and every other profile
-- as it was, those of other SKUs among them.
pub set_count-update_first :
    (sku : Text) (count : ℤ) (ps : List (Option SizeCount))
    → set_count sku count ps ≡ (
        if any (is_of_sku sku) ps
        then some (update_first sku (λ p. record p { count = some count }) ps)
        else none)
unfolding set_count
set_count-update_first sku count [] = refl
set_count-update_first sku count (none ∷ ps) = ground (arith, set_count-update_first sku count ps)
set_count-update_first sku count (some p ∷ ps) = ground (arith, set_count-update_first sku count ps)
