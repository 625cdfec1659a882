-- ===== src/Cache/Registration.antt =====
-- `Register` and `Unregister` of azure_cache.go, and the Ids of the node groups.
use cluster_autoscaler_provi.Base.{
  ◌≡◌, refl, Bool, true, false, ◌&&◌, Option, none, some, List, [], ◌∷◌, arith, All, if◌then◌else◌,
  is_some,
}
use cluster_autoscaler_provi.Base.Int.{eqb_ℤ}
use cluster_autoscaler_provi.Base.Text.{Text, eq_fold, eq_fold_iff, eq_fold_trans, eq_fold_sym}
use cluster_autoscaler_provi.Cache.{
  AzureCache, register_groups, register, unregister_groups, unregister,
}
use cluster_autoscaler_provi.Types.{NodeGroup}

-- The registered group of an Id, letter case aside.
unfoldable pub find_group : Text → List NodeGroup → Option NodeGroup
find_group id [] = none
find_group id (e ∷ es) = if eq_fold e.id id then some e else find_group id es

-- No group of the list has the Id, letter case aside.
abbrev pub IsAbsent : Text → List NodeGroup → Type 0
IsAbsent id = All (λ e. eq_fold e.id id ≡ false)

-- No two groups have the same Id, letter case aside.
abbrev pub IsDistinct : List NodeGroup → Type 0
IsDistinct [] = Unit
IsDistinct (e ∷ es) = IsAbsent e.id es × IsDistinct es

-- Whether the sizes of two groups agree.
abbrev pub same_sizes : NodeGroup → NodeGroup → Bool
same_sizes e g = eqb_ℤ e.min_size g.min_size && eqb_ℤ e.max_size g.max_size

IsAbsent-fold :
    (s t : Text) (es : List NodeGroup) → eq_fold s t ≡ true → IsAbsent s es → IsAbsent t es
IsAbsent-fold s t [] h a = tt
IsAbsent-fold s t (e ∷ es) h a = (rw (eq_fold_trans s t e.id h) a.0, IsAbsent-fold s t es h a.1)

register_groups-IsAbsent :
    (t : Text) (g : NodeGroup) (es : List NodeGroup)
    → eq_fold g.id t ≡ false
    → IsAbsent t es
    → IsAbsent t (register_groups g es).0
unfolding register_groups
register_groups-IsAbsent t g [] h a = (h, tt)
register_groups-IsAbsent t g (e ∷ es) h a = ground (arith, register_groups-IsAbsent t g es h a.1)

register_groups-IsDistinct :
    (g : NodeGroup) (es : List NodeGroup) → IsDistinct es → IsDistinct (register_groups g es).0
unfolding register_groups
register_groups-IsDistinct g [] d = (tt, tt)
register_groups-IsDistinct g (e ∷ es) d = ground (
  arith,
  IsAbsent-fold e.id g.id es,
  eq_fold_sym e.id g.id,
  register_groups-IsAbsent e.id g es,
  register_groups-IsDistinct g es d.1,
)

unregister_groups-IsAbsent :
    (t : Text) (g : NodeGroup) (es : List NodeGroup)
    → IsAbsent t es
    → IsAbsent t (unregister_groups g es).0
unfolding unregister_groups
unregister_groups-IsAbsent t g [] a = tt
unregister_groups-IsAbsent t g (e ∷ es) a = ground (arith, unregister_groups-IsAbsent t g es a.1)

unregister_groups-IsDistinct :
    (g : NodeGroup) (es : List NodeGroup) → IsDistinct es → IsDistinct (unregister_groups g es).0
unfolding unregister_groups
unregister_groups-IsDistinct g [] d = tt
unregister_groups-IsDistinct g (e ∷ es) d =
    ground (arith, unregister_groups-IsAbsent e.id g es d.0, unregister_groups-IsDistinct g es d.1)

-- `Register` and `Unregister` never leave two registered groups whose Ids differ in case at most.
pub register-unregister-IsDistinct :
    (g : NodeGroup) (c : AzureCache)
    → IsDistinct c.registered_node_groups
    → IsDistinct (register g c).0.registered_node_groups
      × IsDistinct (unregister g c).0.registered_node_groups
unfolding register unregister
register-unregister-IsDistinct g c d = (
  ground (arith, register_groups-IsDistinct g c.registered_node_groups d),
  unregister_groups-IsDistinct g c.registered_node_groups d,
)

-- What `Register` leaves of one Id.
abbrev pub registered_as : NodeGroup → Option NodeGroup → NodeGroup
registered_as g none = g
registered_as g (some e) = if same_sizes e g then e else g

abbrev pub is_unchanged : NodeGroup → Option NodeGroup → Bool
is_unchanged g none = false
is_unchanged g (some e) = same_sizes e g

find_group-register_groups :
    (t : Text) (g : NodeGroup) (es : List NodeGroup)
    → find_group t (register_groups g es).0
      ≡ (if eq_fold g.id t then some (registered_as g (find_group g.id es)) else find_group t es)
unfolding find_group register_groups
find_group-register_groups t g [] = refl
find_group-register_groups t g (e ∷ es) = ground (
  arith,
  eq_fold_iff e.id g.id,
  eq_fold_iff e.id t,
  eq_fold_iff g.id t,
  find_group-register_groups t g es,
)

changed-register_groups :
    (g : NodeGroup) (es : List NodeGroup)
    → (register_groups g es).1 ≡ (if is_unchanged g (find_group g.id es) then false else true)
unfolding find_group register_groups
changed-register_groups g [] = refl
changed-register_groups g (e ∷ es) = ground (arith, changed-register_groups g es)

unchanged-register_groups :
    (g : NodeGroup) (es : List NodeGroup)
    → (register_groups g es).1 ≡ false
    → (register_groups g es).0 ≡ es
unfolding register_groups
unchanged-register_groups g [] h = cc
unchanged-register_groups g (e ∷ es) h = ground (arith, unchanged-register_groups g es)

-- After `Register g` every Id but g's finds the group that it found before, and g's finds g, or
-- the group that was there with g's sizes. In that last case the call answers false and the cache
-- is the same; otherwise it answers true, the unowned instances are forgotten, and nothing else of
-- the cache but the registered groups changes.
pub find_group-register :
    (t : Text) (g : NodeGroup) (c : AzureCache)
    → let old = find_group g.id c.registered_node_groups in
      (find_group t (register g c).0.registered_node_groups ≡ (
        if eq_fold g.id t
        then some (registered_as g old)
        else find_group t c.registered_node_groups))
      × ((register g c).1 ≡ (if is_unchanged g old then false else true))
      × ((register g c).0 ≡ (
          if is_unchanged g old then c else record c {
            registered_node_groups = (register g c).0.registered_node_groups;
            unowned_instances = [];
          }))
unfolding register
find_group-register t g c =
    let es = c.registered_node_groups in
    ground (
      arith,
      find_group-register_groups t g es,
      changed-register_groups g es,
      unchanged-register_groups g es,
    )

find_group-unregister_groups :
    (t : Text) (g : NodeGroup) (es : List NodeGroup)
    → find_group t (unregister_groups g es).0 ≡ (if eq_fold g.id t then none else find_group t es)
unfolding find_group unregister_groups
find_group-unregister_groups t g [] = ground arith
find_group-unregister_groups t g (e ∷ es) = ground (
  arith,
  eq_fold_iff e.id g.id,
  eq_fold_iff e.id t,
  eq_fold_iff g.id t,
  find_group-unregister_groups t g es,
)

found-unregister_groups :
    (g : NodeGroup) (es : List NodeGroup)
    → (unregister_groups g es).1 ≡ is_some (find_group g.id es)
unfolding find_group unregister_groups
found-unregister_groups g [] = refl
found-unregister_groups g (e ∷ es) = ground (arith, found-unregister_groups g es)

-- After `Unregister g` no registered group has g's Id, every other Id finds what it found before,
-- and the call answers whether a group was there.
pub find_group-unregister :
    (t : Text) (g : NodeGroup) (c : AzureCache)
    → (find_group t (unregister g c).0.registered_node_groups
        ≡ (if eq_fold g.id t then none else find_group t c.registered_node_groups))
      × ((unregister g c).1 ≡ is_some (find_group g.id c.registered_node_groups))
unfolding unregister
find_group-unregister t g c = (
  find_group-unregister_groups t g c.registered_node_groups,
  found-unregister_groups g c.registered_node_groups,
)
