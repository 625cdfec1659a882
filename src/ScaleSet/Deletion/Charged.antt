-- ===== src/ScaleSet/Deletion/Charged.antt =====
-- How `DeleteInstances` of azure_scale_set.go takes a deletion that Azure accepted off the size, and
-- leaves the goroutine that waits.
use mathlib.Core.Path.{subst}
use cluster_autoscaler_provi.Base.Int.{ℤ, pos, negsuc, ◌+ℤ◌, ◌≤ℤ◌, ◌<ℤ◌, ltb_ℤ, sub64}
use cluster_autoscaler_provi.Base.Text.{Text}
use cluster_autoscaler_provi.Base.{
  ℕ, ◌^◌, ◌≡◌, ◌≢◌, refl, sym, ap, ◌∙◌, ◌⊎◌, inl, inr, Bool, true, false, ◌||◌, Option, none, some,
  List, [], ◌∷◌, arith, if◌then◌else◌, length, Bool-cases,
}
use cluster_autoscaler_provi.Errors.{
  Error, Outcome, ok, err, panic, then_run-results, Outcome-cases,
}
use cluster_autoscaler_provi.ScaleSet.Deletion.Looking.{
  Batch, batches, IsLooking, IsLooking-refl, mark_deleting-IsLooking,
}
use cluster_autoscaler_provi.ScaleSet.Deletion.Requested.{IsAsking, begin_deletion-IsAsking}
use cluster_autoscaler_provi.ScaleSet.Deletion.{
  deleting_status, zero_time, should_force_delete, get_sku, begin_deletion, call_begin_delete,
  request_deletion, charge, publish_deletion, leave_deletion, mark_deleting,
}
use cluster_autoscaler_provi.ScaleSet.Instances.{
  status_after, validate_instance_cache, set_instance_status_by_provider_id,
}
use cluster_autoscaler_provi.ScaleSet.{Client, Config, ScaleSet, World}
use cluster_autoscaler_provi.Types.{InstanceStatus}

-- The instances of the latest request.
abbrev pub last_ids : List Batch → List Text
last_ids [] = []
last_ids ((group, (ids, force)) ∷ bs) = ids

-- A size in memory that k instances were counted off, or that could not count them and is stale.
abbrev pub IsCounted : ℕ → ℤ → ℤ → ℤ → Type 0
IsCounted k before after refreshed =
    ((pos 0 ≤ℤ after) × (after +ℤ pos k ≡ before))
    ⊎ ((before <ℤ pos k) × (after ≡ before) × (refreshed ≡ zero_time))

-- The difference of two sizes that int64 holds.
sub64_exact :
    (n : ℤ) (k : ℕ)
    → n <ℤ pos (2 ^ 63)
    → ltb_ℤ n (pos k) ≡ false
    → (pos 0 ≤ℤ sub64 n (pos k)) × (sub64 n (pos k) +ℤ pos k ≡ n)
sub64_exact (pos n) k small h = ground arith
sub64_exact (negsuc n) k small h = ground arith

-- The size after a request for k instances: it is left alone under strict cache updates, and where
-- an instance is not registered.
abbrev pub IsSize : Bool → ℕ → ℤ → ℤ → ℤ → Type 0
IsSize true k before after refreshed = after ≡ before
IsSize false k before after refreshed = IsCounted k before after refreshed

pub IsSize-congr :
    (b b' : Bool) (k k' : ℕ) (x x' y y' z z' : ℤ)
    → b ≡ b'
    → k ≡ k'
    → x ≡ x'
    → y ≡ y'
    → z ≡ z'
    → IsSize b' k' x' y' z'
    → IsSize b k x y z
IsSize-congr b b' k k' x x' y y' z z' p q r s t h = rw (p, q, r, s, t) h

module _ {C : Type 0} where
  -- A request that failed.
  pub record IsUnrecorded (w w' : World C) : Type 0 where
    pub same_size : w'.set.cur_size ≡ w.set.cur_size
    pub same_refresh : w'.set.last_size_refresh ≡ w.set.last_size_refresh
    pub same_deletions : w'.deletions ≡ w.deletions

  -- A request that succeeded: the size, and the poller that is left, if Azure gave one.
  pub record IsRecord (unregistered : Bool) (w w' : World C) : Type 0 where
    pub size :
        IsSize
          (w.config.strict_cache_updates || unregistered)
          (length (last_ids (batches w'.sent)))
          w.set.cur_size
          w'.set.cur_size
          w'.set.last_size_refresh
    pub waiting :
        (w'.deletions ≡ w.deletions)
        ⊎ ((poller : ℕ) × (w'.deletions ≡ (poller, last_ids (batches w'.sent)) ∷ w.deletions))

  -- By the result: success with or without a request, an error, or a panic, which ends the program.
  abbrev pub Recorded : Bool → World C → Outcome (Unit {0}) × World C → Type 0
  Recorded unregistered w (ok u, w') = IsLooking w w' ⊎ IsRecord unregistered w w'
  Recorded unregistered w (err e, w') = IsUnrecorded w w'
  Recorded unregistered w (panic, w') = Unit

  pub unrecorded : (w w' : World C) → IsLooking w w' → IsUnrecorded w w'
  unrecorded w w' k = record {
    same_size = k.same_size;
    same_refresh = k.same_refresh;
    same_deletions = k.same_deletions;
  }

module _ {C : Type 0} (client : Client C) where
  charge-IsCounted :
      (k : ℕ) (w : World C)
      → w.set.cur_size <ℤ pos (2 ^ 63)
      → let w' = charge client (pos k) w in
        IsCounted k w.set.cur_size w'.set.cur_size w'.set.last_size_refresh
  unfolding charge
  charge-IsCounted k w small = elim (Bool-cases (ltb_ℤ w.set.cur_size (pos k))) [
    | inl e ↦ rw (e, charge) (inr (ground arith, refl, refl))
    | inr e ↦ rw (e, charge) (inl (sub64_exact w.set.cur_size k small e))
  ]

  begin_deletion-last_ids :
      (force : Bool) (ids : List Text) (group : Text) (w : World C)
      → last_ids (batches (begin_deletion client force ids group w).1.sent) ≡ ids
  unfolding begin_deletion call_begin_delete
  begin_deletion-last_ids force ids group w = ground arith

  -- A deletion that Azure took on asks for these instances, and changes nothing else.
  pub record IsRequest (ids : List Text) (w w' : World C) : Type 0 where
    pub asking : IsAsking client w w'
    pub latest : last_ids (batches w'.sent) ≡ ids

  pub request_deletion-IsRequest :
      (ids : List Text) (group : Text) (poller : Option ℕ) (w : World C)
      → (request_deletion client ids group w).0 ≡ ok poller
      → IsRequest ids w (request_deletion client ids group w).1
  unfolding request_deletion
  request_deletion-IsRequest ids group poller w h = elim (Outcome-cases (get_sku w)) [
    | inl (sku, e) ↦
        (let force = should_force_delete sku w.set in
          rw (e, request_deletion)
            (record {
              asking = begin_deletion-IsAsking client force ids group w;
              latest = begin_deletion-last_ids force ids group w;
            }))
    | inr e ↦ absurd (ground arith)
  ]

  pub request_deletion-IsUnrecorded :
      (ids : List Text) (group : Text) (w : World C)
      → IsUnrecorded w (request_deletion client ids group w).1
  unfolding request_deletion begin_deletion call_begin_delete
  request_deletion-IsUnrecorded ids group w = ground arith

  -- The size, as DeleteInstances leaves it before it marks the instances.
  abbrev charged : Bool → List Text → World C → World C
  charged unregistered ids w =
      if w.config.strict_cache_updates || unregistered
      then w
      else charge client (pos (length ids)) w

  charged-IsSize :
      (unregistered : Bool) (ids : List Text) (w : World C)
      → w.set.cur_size <ℤ pos (2 ^ 63)
      → let w' = charged unregistered ids w in
        IsSize
          (w.config.strict_cache_updates || unregistered)
          (length ids)
          w.set.cur_size
          w'.set.cur_size
          w'.set.last_size_refresh
  charged-IsSize unregistered ids w small =
      elim (Bool-cases (w.config.strict_cache_updates || unregistered)) [
        | inl e ↦ rw e refl
        | inr e ↦ rw e (charge-IsCounted (length ids) w small)
      ]

  pub publish_deletion-IsLooking :
      (instances ids : List Text) (unregistered : Bool) (w : World C)
      → IsLooking
          (charged unregistered ids w)
          (publish_deletion client instances ids unregistered w).1
  unfolding publish_deletion
  publish_deletion-IsLooking instances ids unregistered w = ground (
    arith,
    IsLooking-refl w,
    mark_deleting-IsLooking client instances w,
    mark_deleting-IsLooking client instances (charge client (pos (length ids)) w),
  )

  status_after-never_fails :
      (i : Text) (s : InstanceStatus) (r : Outcome (Unit {0}) × World C) (e : Error)
      → (status_after client i s r).0 ≢ err e
  unfolding status_after
  status_after-never_fails i s (panic, w) e = λ h. absurd (cc)
  status_after-never_fails i s (ok u, w) e = λ h. absurd (cc)
  status_after-never_fails i s (err x, w) e = λ h. absurd (cc)

  mark_deleting-never_fails :
      (is : List Text) (w : World C) (e : Error) → (mark_deleting client is w).0 ≢ err e
  unfolding mark_deleting set_instance_status_by_provider_id
  mark_deleting-never_fails [] w e = λ h. absurd (cc)
  mark_deleting-never_fails (i ∷ is) w e =
      then_run-results (λ r. r.0 ≢ err e)
        (set_instance_status_by_provider_id client i deleting_status w) _
        (λ x h.
          absurd
            (status_after-never_fails i deleting_status (validate_instance_cache client w) x h))
        (λ h. absurd (cc)) (λ u h. mark_deleting-never_fails is _ e)

  pub publish_deletion-never_fails :
      (instances ids : List Text) (unregistered : Bool) (w : World C) (e : Error)
      → (publish_deletion client instances ids unregistered w).0 ≢ err e
  unfolding publish_deletion
  publish_deletion-never_fails instances ids unregistered w e h = absurd (
      ground (
        arith,
        h,
        mark_deleting-never_fails instances w e,
        mark_deleting-never_fails instances (charge client (pos (length ids)) w) e,
      ))

  charged-batches :
      (unregistered : Bool) (ids : List Text) (w : World C)
      → batches (charged unregistered ids w).sent ≡ batches w.sent
  unfolding charge
  charged-batches unregistered ids w = ground arith

  charged-deletions :
      (unregistered : Bool) (ids : List Text) (w : World C)
      → (charged unregistered ids w).deletions ≡ w.deletions
  unfolding charge
  charged-deletions unregistered ids w = ground arith

  finished-IsSize :
      (unregistered : Bool) (ids : List Text) (w w₂ w₃ : World C)
      → w.set.cur_size <ℤ pos (2 ^ 63)
      → IsRequest ids w w₂
      → IsLooking (charged unregistered ids w₂) w₃
      → batches w₃.sent ≡ batches w₂.sent
      → IsSize
          (w.config.strict_cache_updates || unregistered)
          (length (last_ids (batches w₃.sent)))
          w.set.cur_size
          w₃.set.cur_size
          w₃.set.last_size_refresh
  finished-IsSize unregistered ids w w₂ w₃ small q k sent =
      let size = ap (λ (s : ScaleSet). s.cur_size) q.asking.same_set in
      IsSize-congr _ _ _ _ _ _ _ _ _ _
        (ap (λ (c : Config). c.strict_cache_updates || unregistered) (sym q.asking.same_config))
        (ap (λ bs. length (last_ids bs)) sent ∙ ap (λ (is : List Text). length is) q.latest)
        (sym size) k.same_size k.same_refresh
        (charged-IsSize unregistered ids w₂ (subst (λ n. n <ℤ pos (2 ^ 63)) (sym size) small))

  -- The step that leaves the poller changes neither the size nor the calls.
  pub finish-IsRecord :
      (unregistered : Bool) (ids : List Text) (poller : Option ℕ) (w w₂ w₃ : World C)
      → w.set.cur_size <ℤ pos (2 ^ 63)
      → IsRequest ids w w₂
      → IsLooking (charged unregistered ids w₂) w₃
      → IsRecord unregistered w (leave_deletion client poller ids w₃)
  unfolding leave_deletion
  finish-IsRecord unregistered ids none w w₂ w₃ small q k =
      let sent = k.same_batches ∙ charged-batches unregistered ids w₂ in
      record {
        size = finished-IsSize unregistered ids w w₂ w₃ small q k sent;
        waiting =
            inl (k.same_deletions ∙ charged-deletions unregistered ids w₂ ∙ q.asking.same_pending);
      }
  finish-IsRecord unregistered ids (some poller) w w₂ w₃ small q k =
      let sent = k.same_batches ∙ charged-batches unregistered ids w₂ in
      record {
        size = finished-IsSize unregistered ids w w₂ w₃ small q k sent;
        waiting = inr (
          poller,
          rw
              (
                ap last_ids sent ∙ q.latest,
                k.same_deletions ∙ charged-deletions unregistered ids w₂ ∙ q.asking.same_pending,
              )
              refl,
        );
      }
