-- ===== src/Cache/Store.antt =====
-- The store of VMSS objects behind the cache's map of scale sets, and the maps that the
-- `fetchScaleSets` and `fetchVirtualMachines` of azure_cache.go fill.
use cluster_autoscaler_provi.Base.{
  ℕ, suc, ◌<◌, ◌≡◌, refl, sym, ap, ◌∙◌, Bool, false, Option, none, some, List, [], ◌∷◌, ◌++◌, arith,
  All, if◌then◌else◌, deref, Option-cases, inl, inr,
}
use cluster_autoscaler_provi.Base.Maps.{lookup, insert, lookup-insert}
use cluster_autoscaler_provi.Base.Text.{Text, text_eq, text_eq_iff}
use cluster_autoscaler_provi.Cache.Fetch.{
  store_scale_sets, vm_pool_name, append_vm, file_vm, group_virtual_machines,
}
use cluster_autoscaler_provi.Cache.{AzureCache, update, set_scale_set}
use cluster_autoscaler_provi.Types.{Vmss, Vm}
use mathlib.Core.List.{append-nil, append_assoc}

-- Every address that the map holds is in use.
abbrev pub IsStored : ℕ → List (Text × ℕ) → Type 0
IsStored n = All (λ e. e.1 < n)

-- What a reader of `getScaleSets()[name]` sees.
unfoldable pub read : Text → (ℕ → Vmss) → List (Text × ℕ) → Option Vmss
read name h [] = none
read name h ((k, p) ∷ m) = if text_eq k name then some (h p) else read name h m

IsStored-mono : (n : ℕ) (m : List (Text × ℕ)) → IsStored n m → IsStored (suc n) m
IsStored-mono n [] s = tt
IsStored-mono n (e ∷ m) s = (omega arith, IsStored-mono n m s.1)

IsStored-insert :
    (name : Text) (n : ℕ) (m : List (Text × ℕ)) → IsStored n m → IsStored (suc n) (insert name n m)
unfolding insert
IsStored-insert name n [] s = (omega arith, tt)
IsStored-insert name n (e ∷ m) s =
    ground (arith, IsStored-insert name n m s.1, IsStored-mono n m s.1)

read-update :
    (other : Text) (v : Vmss) (n : ℕ) (h : ℕ → Vmss) (m : List (Text × ℕ))
    → IsStored n m
    → read other (update h n v) m ≡ read other h m
unfolding read update
read-update other v n h [] s = refl
read-update other v n h (e ∷ m) s = ground (arith, read-update other v n h m s.1)

read-insert :
    (name other : Text) (v : Vmss) (n : ℕ) (h : ℕ → Vmss) (m : List (Text × ℕ))
    → IsStored n m
    → read other (update h n v) (insert name n m)
      ≡ (if text_eq name other then some v else read other h m)
unfolding read update insert
read-insert name other v n h [] s = ground arith
read-insert name other v n h (e ∷ m) s = ground (
  arith,
  text_eq_iff e.0 name,
  text_eq_iff e.0 other,
  text_eq_iff name other,
  read-update other v n h m s.1,
  read-insert name other v n h m s.1,
)

-- The state that the store's laws need.
abbrev pub IsSound : AzureCache → Type 0
IsSound c = IsStored c.next c.scale_sets

pub set_scale_set-IsSound :
    (name : Text) (v : Vmss) (c : AzureCache) → IsSound c → IsSound (set_scale_set name v c)
unfolding set_scale_set
set_scale_set-IsSound name v c s = IsStored-insert name c.next c.scale_sets s

-- After `setScaleSet` a reader of the name gets the fresh object, and a reader of any other name
-- what it got before.
pub read-set_scale_set :
    (name other : Text) (v : Vmss) (c : AzureCache)
    → IsSound c
    → let c' = set_scale_set name v c in
      read other c'.heap c'.scale_sets
      ≡ (if text_eq name other then some v else read other c.heap c.scale_sets)
unfolding set_scale_set
read-set_scale_set name other v c s = read-insert name other v c.next c.heap c.scale_sets s

-- The last of the listed objects with the name, or a default.
abbrev pub latest : Text → List Vmss → Option Vmss → Option Vmss
latest name [] d = d
latest name (v ∷ vs) d = latest name vs (if text_eq v.name name then some v else d)

store_scale_sets-IsSound :
    (vs : List Vmss) (c : AzureCache) → IsSound c → IsSound (store_scale_sets vs c)
unfolding store_scale_sets
store_scale_sets-IsSound [] c s = s
store_scale_sets-IsSound (v ∷ vs) c s =
    store_scale_sets-IsSound vs (set_scale_set v.name v c) (set_scale_set-IsSound v.name v c s)

-- `fetchScaleSets` makes the map read as the listing: each name gives the last object listed
-- under it.
pub read-store_scale_sets :
    (name : Text) (vs : List Vmss) (c : AzureCache)
    → IsSound c
    → let c' = store_scale_sets vs c in
      read name c'.heap c'.scale_sets ≡ latest name vs (read name c.heap c.scale_sets)
unfolding store_scale_sets
read-store_scale_sets name [] c s = refl
read-store_scale_sets name (v ∷ vs) c s =
    read-store_scale_sets name vs (set_scale_set v.name v c) (set_scale_set-IsSound v.name v c s)
    ∙ ap (latest name vs) (read-set_scale_set v.name name v c s)

-- The VMs of a pool's entry, none where there is no entry.
abbrev pub pool_vms : Text → List (Text × List Vm) → List Vm
pool_vms pool m = deref (lookup pool m) []

abbrev pub is_named : Text → Option Text → Bool
is_named pool none = false
is_named pool (some name) = text_eq name pool

-- The listed VMs whose tags name the pool, in the order of the listing.
abbrev pub tagged_vms : Text → List Vm → List Vm
tagged_vms pool [] = []
tagged_vms pool (vm ∷ vms) =
    if is_named pool (vm_pool_name vm) then vm ∷ tagged_vms pool vms else tagged_vms pool vms

pool_vms-append_vm :
    (pool name : Text) (vm : Vm) (m : List (Text × List Vm))
    → pool_vms pool (append_vm name vm m)
      ≡ pool_vms pool m ++ (if text_eq name pool then vm ∷ [] else [])
unfolding append_vm
pool_vms-append_vm pool name vm m = elim (Option-cases (lookup name m)) [
  | inl e ↦ ground (
    arith,
    lookup-insert name pool (vm ∷ []) m,
    text_eq_iff name pool,
    append-nil (pool_vms pool m),
  )
  | inr (old, e) ↦ ground (
    arith,
    lookup-insert name pool (old ++ vm ∷ []) m,
    text_eq_iff name pool,
    append-nil (pool_vms pool m),
  )
]

pool_vms-file_vm :
    (pool : Text) (vm : Vm) (m : List (Text × List Vm))
    → pool_vms pool (file_vm vm m)
      ≡ pool_vms pool m ++ (if is_named pool (vm_pool_name vm) then vm ∷ [] else [])
unfolding file_vm
pool_vms-file_vm pool vm m = elim (Option-cases (vm_pool_name vm)) [
  | inl e ↦ rw (e, file_vm) (sym (append-nil (pool_vms pool m)))
  | inr (name, e) ↦ rw (e, file_vm) (pool_vms-append_vm pool name vm m)
]

-- `fetchVirtualMachines` files each VM under the pool that its tags name: an entry is what it was,
-- followed by the VMs of the listing that name the pool, in order.
pub pool_vms-group_virtual_machines :
    (pool : Text) (vms : List Vm) (m : List (Text × List Vm))
    → pool_vms pool (group_virtual_machines vms m) ≡ pool_vms pool m ++ tagged_vms pool vms
unfolding group_virtual_machines
pool_vms-group_virtual_machines pool [] m = sym (append-nil (pool_vms pool m))
pool_vms-group_virtual_machines pool (vm ∷ vms) m =
    let old = pool_vms pool m in
    rw (pool_vms-group_virtual_machines pool vms (file_vm vm m), pool_vms-file_vm)
      (ground (arith, append_assoc old (vm ∷ []) (tagged_vms pool vms), append-nil old))
