-- ===== src/ScaleSet/Deletion/Selected.antt =====
-- The instances that the first loop of `DeleteInstances` of azure_scale_set.go lets through.
use mathlib.Core.List.{Memᴰ}
use cluster_autoscaler_provi.Base.Text.{Text, eq_fold}
use cluster_autoscaler_provi.Base.{
  ◌≡◌, refl, sym, ◌∙◌, Bool, true, false, some, List, [], ◌∷◌, arith, All, if◌then◌else◌, ap, inl,
  inr, Option-cases,
}
use cluster_autoscaler_provi.Errors.{ok, ok_inj, then_run_ok}
use cluster_autoscaler_provi.ScaleSet.Deletion.Looking.{
  owner_of, IsLooking, IsLooking-trans, verify_node_group-IsLooking, check_deletion-IsLooking,
}
use cluster_autoscaler_provi.ScaleSet.Deletion.{
  find_group, instance_ids, verify_node_group, check_deletion, select_instances,
}
use cluster_autoscaler_provi.ScaleSet.{Client, World}
use cluster_autoscaler_provi.Types.{NodeGroup}

module _ {C : Type 0} where
  -- The cache has the instance in the group of the Id.
  abbrev pub IsOwned : World C → Text → Text → Type 0
  IsOwned w id i = (g : NodeGroup) × (owner_of i w ≡ ok (some g)) × (eq_fold g.id id ≡ true)

  -- One of the given instances, and in the group.
  abbrev pub IsChosen : World C → Text → List Text → Text → Type 0
  IsChosen w id is i = Memᴰ i is × IsOwned w id i

  -- What a request to delete may be for: all of its identifiers are those of given instances, which
  -- the cache has in the request's group.
  abbrev pub IsOfOneGroup : World C → List Text → Text → List Text → Type 0
  IsOfOneGroup w is group ids =
      (chosen : List Text) × (instance_ids chosen ≡ ok ids) × All (IsChosen w group is) chosen

  IsOwned-back : (w w' : World C) (id i : Text) → IsLooking w w' → IsOwned w' id i → IsOwned w id i
  IsOwned-back w w' id i k (g, owned, fold) = (g, sym (k.same_owner i) ∙ owned, fold)

  pub IsChosen-back :
      (w w' : World C) (id : Text) (is js chosen : List Text)
      → ((j : Text) → Memᴰ j is → Memᴰ j js)
      → IsLooking w w'
      → All (IsChosen w' id is) chosen
      → All (IsChosen w id js) chosen
  IsChosen-back w w' id is js [] m k a = tt
  IsChosen-back w w' id is js (c ∷ chosen) m k ((mem, owned), rest) =
      ((m c mem, IsOwned-back w w' id c k owned), IsChosen-back w w' id is js chosen m k rest)

  verify_node_group-IsOwned :
      (i id : Text) (w : World C) → (verify_node_group i id w).0 ≡ ok tt → IsOwned w id i
  unfolding verify_node_group find_group
  verify_node_group-IsOwned i id w h =
      let (found, h₁, h₂) = then_run_ok (find_group i w) _ tt h in
      elim (Option-cases found) [
        | inl e ↦ absurd (ground (arith, h₂, e))
        | inr (g, e) ↦ (g, h₁ ∙ ap ok e, ground (arith, h₂, e))
      ]

module _ {C : Type 0} (client : Client C) where
  pub select_instances-IsChosen :
      (id : Text) (is chosen : List Text) (w : World C)
      → (select_instances client id is w).0 ≡ ok chosen
      → All (IsChosen w id is) chosen
  unfolding select_instances
  select_instances-IsChosen id [] chosen w h = rw (← ok_inj h) tt
  select_instances-IsChosen id (i ∷ is) chosen w h =
      let (u, h₁, r₁) = then_run_ok (verify_node_group i id w) _ chosen h in
      let w₁ = (verify_node_group i id w).1 in
      let (skip, h₂, r₂) = then_run_ok (check_deletion client i w₁) _ chosen r₁ in
      let w₂ = (check_deletion client i w₁).1 in
      let (rest, h₃, r₃) = then_run_ok (select_instances client id is w₂) _ chosen r₂ in
      let looked =
        IsLooking-trans w w₁ w₂ (verify_node_group-IsLooking i id w)
          (check_deletion-IsLooking client i w₁) in
      let later =
        IsChosen-back w w₂ id is (i ∷ is) rest (λ j m. Memᴰ.tail m) looked
          (select_instances-IsChosen id is rest w₂ h₃) in
      rw (← ok_inj r₃) (kept skip rest (Memᴰ.head refl, verify_node_group-IsOwned i id w h₁) later)
    where
      kept :
          (skip : Bool) (rest : List Text)
          → IsChosen w id (i ∷ is) i
          → All (IsChosen w id (i ∷ is)) rest
          → All (IsChosen w id (i ∷ is)) (if skip then rest else i ∷ rest)
      kept true rest a later = later
      kept false rest a later = (a, later)
