-- ===== src/Cache/Lookup.antt =====
-- What `HasInstance`, `FindForInstance` and `setInstanceStateByProviderID` of azure_cache.go read
-- and write.
use mathlib.Core.List.{Memᴰ}
use cluster_autoscaler_provi.Base.{
  ◌≡◌, refl, true, false, not, some, List, [], ◌∷◌, arith, if◌then◌else◌, Bool-cases, inl, inr,
}
use cluster_autoscaler_provi.Base.Maps.{lookup-insert, member}
use cluster_autoscaler_provi.Base.Text.{
  Text, text_eq, text_eq_iff, text_eq_self, eq_fold, eq_fold_trans,
}
use cluster_autoscaler_provi.Cache.{
  AzureCache, find_entry, get_instance_from_cache, has_instance, set_instance_state_by_provider_id,
  is_omitted, find_for_instance,
}
use cluster_autoscaler_provi.Errors.{ok, Outcome-cases}
use cluster_autoscaler_provi.ResourceId.{convert_resource_group_name_to_lower}
use cluster_autoscaler_provi.ResourceId.Fold.{convert-eq_fold}
use cluster_autoscaler_provi.Types.{
  InstanceState, is_deleting, NodeGroup, VmType, vmss_type, standard_type, other_vm_type,
}

-- The entry that is found is one of the map, and its key folds to the identifier.
pub find_entry_sound :
    (id : Text) (m : List (Text × NodeGroup)) (e : Text × NodeGroup)
    → find_entry id m ≡ some e
    → Memᴰ (e.0, e.1) m × (eq_fold e.0 id ≡ true)
unfolding find_entry
find_entry_sound id [] e h = absurd (cc)
find_entry_sound id ((key, v) ∷ m) e h = elim (Bool-cases (eq_fold key id)) [
  | inl hit ↦ let same : (key, v) ≡ e = ground arith in rw (← same) (Memᴰ.head refl, hit)
  | inr miss ↦ let (found, fold) = find_entry_sound id m e (ground arith) in (Memᴰ.tail found, fold)
]

get_instance_sound :
    (id : Text) (m : List (Text × NodeGroup)) (g : NodeGroup)
    → get_instance_from_cache id m ≡ some g
    → (key : Text) × Memᴰ (key, g) m × (eq_fold key id ≡ true)
unfolding get_instance_from_cache
get_instance_sound id [] g h = absurd (cc)
get_instance_sound id ((key, v) ∷ m) g h = elim (Bool-cases (eq_fold key id)) [
  | inl hit ↦ (key, Memᴰ.head (ground arith), hit)
  | inr miss ↦
      let (k, found, fold) = get_instance_sound id m g (ground arith) in (k, Memᴰ.tail found, fold)
]

-- Once a state is recorded for an instance that the cache knows, `HasInstance` of any identifier
-- of the same entry goes by it (an instance in deletion is gone), and of any other known
-- instance it answers what it answered before.
pub has_instance-set_instance_state :
    (id j r q : Text) (s : InstanceState) (c : AzureCache) (e f : Text × NodeGroup)
    → convert_resource_group_name_to_lower id ≡ ok r
    → find_entry r c.instance_to_node_group ≡ some e
    → convert_resource_group_name_to_lower j ≡ ok q
    → find_entry q c.instance_to_node_group ≡ some f
    → has_instance j (set_instance_state_by_provider_id id s c)
      ≡ (if text_eq e.0 f.0 then ok (not (is_deleting s)) else has_instance j c)
unfolding has_instance set_instance_state_by_provider_id
has_instance-set_instance_state id j r q s c e f hr he hq hf =
    ground (arith, lookup-insert e.0 f.0 s c.instance_states)

-- Where `FindForInstance` gives a group, the identifier has a resource identifier that is not among
-- the unowned instances and is not left out by the type of the VMs, and the group is that of a
-- cached instance whose key is the given identifier but for the case of letters.
pub find_for_instance_sound :
    (name : Text) (type : VmType) (c : AzureCache) (g : NodeGroup)
    → (find_for_instance name type c).0 ≡ ok (some g)
    → (id : Text) × (convert_resource_group_name_to_lower name ≡ ok id)
      × (member id c.unowned_instances ≡ false)
      × (is_omitted type id c ≡ false)
      × ((key : Text) × Memᴰ (key, g) c.instance_to_node_group × (eq_fold key name ≡ true))
unfolding find_for_instance
find_for_instance_sound name type c g h =
    elim (Outcome-cases (convert_resource_group_name_to_lower name)) [
      | inr e ↦ absurd (ground arith)
      | inl (r, e) ↦
          let found : get_instance_from_cache r c.instance_to_node_group ≡ some g = ground arith in
          let (key, mem, fold) = get_instance_sound r c.instance_to_node_group g found in
          (
            r,
            e,
            ground arith,
            ground arith,
            (key, mem, rw (← eq_fold_trans r name key (convert-eq_fold name r e)) at fold),
          )
    ]

-- Asked again, `FindForInstance` gives the same answer and changes the cache no further.
pub find_for_instance_twice :
    (name : Text) (type : VmType) (c : AzureCache)
    → let (answer, c') = find_for_instance name type c in
      find_for_instance name type c' ≡ (answer, c')
unfolding find_for_instance member
find_for_instance_twice name type c =
    elim (Outcome-cases (convert_resource_group_name_to_lower name)) [
      | inr e ↦ ground arith
      | inl (r, e) ↦ ground (arith, text_eq_self r)
    ]

is_omitted-unowned :
    (type : VmType) (id : Text) (c : AzureCache) (ids : List Text)
    → is_omitted type id (record c { unowned_instances = ids }) ≡ is_omitted type id c
unfolding is_omitted
is_omitted-unowned vmss_type id c ids = refl
is_omitted-unowned standard_type id c ids = refl
is_omitted-unowned (other_vm_type t) id c ids = refl

is_omitted-states :
    (type : VmType) (id : Text) (c : AzureCache) (states : List (Text × InstanceState))
    → is_omitted type id (record c { instance_states = states }) ≡ is_omitted type id c
unfolding is_omitted
is_omitted-states vmss_type id c states = refl
is_omitted-states standard_type id c states = refl
is_omitted-states (other_vm_type t) id c states = refl

-- What `FindForInstance` answers of an identifier stays when it is asked of another.
pub find_for_instance-find_for_instance :
    (i j : Text) (type : VmType) (c : AzureCache)
    → (find_for_instance j type (find_for_instance i type c).1).0 ≡ (find_for_instance j type c).0
unfolding find_for_instance member
find_for_instance-find_for_instance i j type c =
    elim (Outcome-cases (convert_resource_group_name_to_lower i)) [
      | inr e ↦ ground arith
      | inl (r, e) ↦ elim (Outcome-cases (convert_resource_group_name_to_lower j)) [
        | inr e' ↦ ground arith
        | inl (q, e') ↦
            ground (arith, text_eq_iff r q, is_omitted-unowned type q c (r ∷ c.unowned_instances))
      ]
    ]

-- Nor does the state of an instance decide it.
pub find_for_instance-set_instance_state :
    (i j : Text) (type : VmType) (s : InstanceState) (c : AzureCache)
    → (find_for_instance j type (set_instance_state_by_provider_id i s c)).0
      ≡ (find_for_instance j type c).0
unfolding find_for_instance set_instance_state_by_provider_id
find_for_instance-set_instance_state i j type s c = ground (arith, is_omitted-states type)
