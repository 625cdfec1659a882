-- ===== src/Cache/Order.antt =====
-- `getInstanceFromCache` of azure_cache.go and the order of a `range` over the instance map.
use mathlib.Core.List.{Permᴰ}
use mathlib.Core.Path.{subst}
use cluster_autoscaler_provi.Base.{◌≡◌, refl, ◌∙◌, false, List, [], ◌∷◌, arith, All}
use cluster_autoscaler_provi.Base.Text.{Text, eq_fold, eq_fold_iff, eq_fold_sym}
use cluster_autoscaler_provi.Cache.{find_entry, get_instance_from_cache}
use cluster_autoscaler_provi.Types.{NodeGroup}

module _ {ℓ} {V : Type ℓ} where
  abbrev pub KeyDiffers : Text → Text × V → Type 0
  KeyDiffers k e = eq_fold e.0 k ≡ false

  -- No two keys are the same but for the case of letters.
  abbrev pub HasDistinctKeys : List (Text × V) → Type 0
  HasDistinctKeys [] = Unit
  HasDistinctKeys (e ∷ m) = All (KeyDiffers e.0) m × HasDistinctKeys m

find_entry-swap :
    (id : Text) (a b : Text × NodeGroup) (m : List (Text × NodeGroup))
    → eq_fold b.0 a.0 ≡ false
    → find_entry id (a ∷ b ∷ m) ≡ find_entry id (b ∷ a ∷ m)
unfolding find_entry
find_entry-swap id a b m d =
    ground (arith, eq_fold_iff a.0 id, eq_fold_iff b.0 id, eq_fold_iff b.0 a.0)

All-perm :
    (k : Text) {m n : List (Text × NodeGroup)}
    → Permᴰ m n
    → All (KeyDiffers k) m
    → All (KeyDiffers k) n
All-perm k Permᴰ.nil a = tt
All-perm k (Permᴰ.cons e p) a = (rw (← e) a.0, All-perm k p a.1)
All-perm k (Permᴰ.swap e f) a = (rw (← f) a.1.0, (rw (← e) a.0, a.1.1))
All-perm k (Permᴰ.trans p q) a = All-perm k q (All-perm k p a)

HasDistinctKeys-perm :
    {m n : List (Text × NodeGroup)} → Permᴰ m n → HasDistinctKeys m → HasDistinctKeys n
HasDistinctKeys-perm Permᴰ.nil d = tt
HasDistinctKeys-perm (Permᴰ.cons e p) d = (rw (← e) (All-perm _ p d.0), HasDistinctKeys-perm p d.1)
HasDistinctKeys-perm (Permᴰ.swap {a = a} {b = b} {l = l} e f) d = (
  (rw (← e, ← f) (eq_fold_sym b.0 a.0 d.0.0), subst (λ x. All (KeyDiffers x.0) l) f d.1.0),
  (subst (λ x. All (KeyDiffers x.0) l) e d.0.1, d.1.1),
)
HasDistinctKeys-perm (Permᴰ.trans p q) d = HasDistinctKeys-perm q (HasDistinctKeys-perm p d)

-- The entry that a lookup finds does not depend on the order of the map.
pub find_entry-perm :
    (id : Text) {m n : List (Text × NodeGroup)}
    → Permᴰ m n
    → HasDistinctKeys m
    → find_entry id m ≡ find_entry id n
unfolding find_entry
find_entry-perm id Permᴰ.nil d = refl
find_entry-perm id (Permᴰ.cons e p) d = rw (← e) (ground (arith, find_entry-perm id p d.1))
find_entry-perm id (Permᴰ.swap {a = a} {b = b} {l = l} e f) d =
    rw (← e, ← f) (find_entry-swap id a b l d.0.0)
find_entry-perm id (Permᴰ.trans p q) d =
    find_entry-perm id p d ∙ find_entry-perm id q (HasDistinctKeys-perm p d)

-- `getInstanceFromCache` gives the same group whatever the order of the map, if no two of its
-- keys differ in case at most.
pub get_instance_from_cache-perm :
    (id : Text) {m n : List (Text × NodeGroup)}
    → Permᴰ m n
    → HasDistinctKeys m
    → get_instance_from_cache id m ≡ get_instance_from_cache id n
unfolding get_instance_from_cache
get_instance_from_cache-perm id p d = ground (arith, find_entry-perm id p d)
