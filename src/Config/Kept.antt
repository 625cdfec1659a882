-- ===== src/Config/Kept.antt =====
-- What the lists of assignments of `BuildAzureConfig` of azure_config.go leave in a field, and which
-- of them decides it.
use cluster_autoscaler_provi.Base.Int.{ℤ}
use cluster_autoscaler_provi.Base.Text.{Text}
use cluster_autoscaler_provi.Base.{
  ◌≡◌, refl, sym, ap, ◌∙◌, Bool, true, false, Option, none, some, List, [], ◌∷◌, ◌⊎◌, inl, inr, All,
  if◌then◌else◌,
}
use cluster_autoscaler_provi.Config.Build.{apply_environment}
use cluster_autoscaler_provi.Config.Table.{
  text_assignments, flag_assignments, backoff_assignments, last_assignments,
}
use cluster_autoscaler_provi.Config.{
  Config, Library, Assignment, assign, assign_bool, assign_int, assign_int64, assign_float,
  env_value, assign_parsed, apply, apply_all,
}
use cluster_autoscaler_provi.Errors.{bind_ok, ok_inj, ok}
use cluster_autoscaler_provi.ResourceId.{trim_space}

module _ {F : Type 0} {A : Type 0} (get : Config F → A) where
  -- An assignment leaves a field alone, whatever it assigns.
  abbrev pub Keeps : Assignment F → Type 0
  Keeps (assign name set) = (v : Text) (c : Config F) → get (set v c) ≡ get c
  Keeps (assign_bool name set) = (v : Bool) (c : Config F) → get (set v c) ≡ get c
  Keeps (assign_int name set) = (v : ℤ) (c : Config F) → get (set v c) ≡ get c
  Keeps (assign_int64 name set) = (v : ℤ) (c : Config F) → get (set v c) ≡ get c
  Keeps (assign_float bits name set) = (v : F) (c : Config F) → get (set v c) ≡ get c

  module _ (lib : Library F) where
    assign_parsed-Keeps :
        {B : Type 0} (name : Text) (value : Option Text) (parse : Text → Option B)
        (set : B → Config F → Config F) (c c' : Config F)
        → ((b : B) (d : Config F) → get (set b d) ≡ get d)
        → assign_parsed lib name value parse set c ≡ ok c'
        → get c' ≡ get c
    unfolding assign_parsed
    assign_parsed-Keeps {B = B} name none parse set c c' k = λ h. ap get (sym (ok_inj h))
    assign_parsed-Keeps {B = B} name (some value) parse set c c' k = go (parse value) refl
      where
        go :
            (m : Option B)
            → parse value ≡ m
            → assign_parsed lib name (some value) parse set c ≡ ok c'
            → get c' ≡ get c
        go none e = rw (e, assign_parsed) (λ h. absurd (cc))
        go (some b) e = rw (e, assign_parsed) (λ h. ap get (sym (ok_inj h)) ∙ k b c)

    apply-Keeps :
        (a : Assignment F) (c c' : Config F) → Keeps a → apply lib a c ≡ ok c' → get c' ≡ get c
    unfolding apply
    apply-Keeps (assign name set) c c' k = go (env_value lib name) refl
      where
        go :
            (m : Option Text)
            → env_value lib name ≡ m
            → apply lib (assign name set) c ≡ ok c'
            → get c' ≡ get c
        go none e = rw (e, apply) (λ h. ap get (sym (ok_inj h)))
        go (some v) e = rw (e, apply) (λ h. ap get (sym (ok_inj h)) ∙ k (trim_space v) c)
    apply-Keeps (assign_bool name set) c c' k =
        assign_parsed-Keeps name (env_value lib name) _ set c c' k
    apply-Keeps (assign_int name set) c c' k =
        assign_parsed-Keeps name (env_value lib name) _ set c c' k
    apply-Keeps (assign_int64 name set) c c' k =
        assign_parsed-Keeps name (env_value lib name) _ set c c' k
    apply-Keeps (assign_float bits name set) c c' k =
        assign_parsed-Keeps name (env_value lib name) _ set c c' k

    apply_all-Keeps :
        (as' : List (Assignment F)) (c c' : Config F)
        → All Keeps as'
        → apply_all lib as' c ≡ ok c'
        → get c' ≡ get c
    unfolding apply_all
    apply_all-Keeps [] c c' k h = ap get (sym (ok_inj h))
    apply_all-Keeps (a ∷ rest) c c' k h =
        let (d, first, second) = bind_ok (apply lib a c) _ c' h in
        apply_all-Keeps rest d c' k.1 second ∙ apply-Keeps a c d k.0 first

    -- An assignment writes this text to the field.
    abbrev pub Writes : A → Text → Assignment F → Type 0
    Writes a v (assign name set) =
        (env_value lib name ≡ some v) × ((c : Config F) → get (set (trim_space v) c) ≡ a)
    Writes a v (assign_bool name set) = ⊥
    Writes a v (assign_int name set) = ⊥
    Writes a v (assign_int64 name set) = ⊥
    Writes a v (assign_float bits name set) = ⊥

    -- It is written, and no later assignment touches the field.
    abbrev pub Wins : A → Text → List (Assignment F) → Type 0
    Wins a v [] = ⊥
    Wins a v (b ∷ rest) = (Writes a v b × All Keeps rest) ⊎ Wins a v rest

    apply-Writes :
        (a : A) (v : Text) (b : Assignment F) (c c' : Config F)
        → Writes a v b
        → apply lib b c ≡ ok c'
        → get c' ≡ a
    unfolding apply
    apply-Writes a v (assign name set) c c' (known, w) =
        rw (known, apply) (λ h. ap get (sym (ok_inj h)) ∙ w c)
    apply-Writes a v (assign_bool name set) c c' w = absurd w
    apply-Writes a v (assign_int name set) c c' w = absurd w
    apply-Writes a v (assign_int64 name set) c c' w = absurd w
    apply-Writes a v (assign_float bits name set) c c' w = absurd w

    apply_all-Wins :
        (a : A) (v : Text) (table : List (Assignment F)) (c c' : Config F)
        → Wins a v table
        → apply_all lib table c ≡ ok c'
        → get c' ≡ a
    unfolding apply_all
    apply_all-Wins a v [] c c' w h = absurd w
    apply_all-Wins a v (b ∷ rest) c c' (inl w) h =
        let (d, first, second) = bind_ok (apply lib b c) _ c' h in
        apply_all-Keeps rest d c' w.1 second ∙ apply-Writes a v b c d w.0 first
    apply_all-Wins a v (b ∷ rest) c c' (inr w) h =
        let (d, first, second) = bind_ok (apply lib b c) _ c' h in
        apply_all-Wins a v rest d c' w second

    -- The rest of the environment leaves the field alone.
    pub apply_environment-Wins :
        (a : A) (v : Text) (c c' : Config F)
        → Wins a v text_assignments
        → All Keeps flag_assignments
        → All Keeps backoff_assignments
        → All Keeps last_assignments
        → apply_environment lib c ≡ ok c'
        → get c' ≡ a
    unfolding apply_environment
    apply_environment-Wins a v c c' w k₂ k₃ k₄ h =
        let (c₁, h₁, r₁) = bind_ok (apply_all lib text_assignments c) _ c' h in
        let (c₂, h₂, r₂) = bind_ok (apply_all lib flag_assignments c₁) _ c' r₁ in
        let backoff =
          if c₂.cloud_provider_backoff then apply_all lib backoff_assignments c₂ else ok c₂ in
        let (c₃, h₃, r₃) = bind_ok backoff _ c' r₂ in
        apply_all-Keeps last_assignments c₃ c' k₄ r₃
        ∙ enabled c₂.cloud_provider_backoff c₂ c₃ h₃
        ∙ apply_all-Keeps flag_assignments c₁ c₂ k₂ h₂
        ∙ apply_all-Wins a v text_assignments c c₁ w h₁
      where
        enabled :
            (b : Bool) (d d' : Config F)
            → (if b then apply_all lib backoff_assignments d else ok d) ≡ ok d'
            → get d' ≡ get d
        enabled true d d' h = apply_all-Keeps backoff_assignments d d' k₃ h
        enabled false d d' h = ap get (sym (ok_inj h))
