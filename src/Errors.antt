-- ===== src/Errors.antt =====
-- Go's results: a value, an error or a panic (a nil dereference, an index out of range).
use cluster_autoscaler_provi.Base.{ℕ, ◌≡◌, ◌⊎◌, inl, inr, refl, Bool, true, false}
use cluster_autoscaler_provi.Base.Int.{ℤ}
use cluster_autoscaler_provi.Base.Text.{Text}

-- What a call of the Azure clients fails with: a response error (`azcore.ResponseError`: its
-- status, its error code, and the Retry-After header of its response, empty for none), or any other
-- error, by its message.
pub data ApiError : Type 0 where
  response : ℕ → Text → Text → ApiError
  other_error : Text → ApiError

-- The errors of the configuration. A constructor stands for one message; the last one for the
-- failures of the parts that only read a file or a service.
pub data ConfigError : Type 0 where
  config_malformed : ConfigError
  ttl_too_large : ℤ → ConfigError
  env_invalid : Text → Text → ConfigError
  resource_group_missing : ConfigError
  deployment_missing : ConfigError
  deployment_parameters_missing : ConfigError
  subscription_missing : ConfigError
  identities_combined : ConfigError
  tenant_missing : ConfigError
  client_id_missing : ConfigError
  auth_method_unsupported : Text → ConfigError
  retries_missing : ConfigError
  not_readable : ConfigError

-- The errors of the provider. A constructor stands for one message of the source, but
-- `vmss_failed` for a GetVMSSFailedError: whether the VMSS was not found, and the cause.
pub data Error : Type 0 where
  api : ApiError → Error
  config : ConfigError → Error
  not_resource_id : Text → Error
  name_missing : Error
  instance_not_implemented : Error
  vmss_not_found : Text → Error
  vmss_failed : Bool → Error → Error
  vmss_no_id : Error
  size_not_positive : Error
  size_uninitialized : Error
  size_too_large : ℤ → ℤ → Error
  size_cached_negative : Error
  min_size_reached : Error
  different_group : Text → Error
  not_same_group : Text → Error
  unknown_group : Text → Error
  flex_disabled : Error
  orchestration_unknown : Error
  already_exist : Error
  not_implemented : Error
  pool_not_found : Text → Error
  delete_existing : ℤ → ℤ → ℕ → Error
  spot_size_missing : Text → Error
  client_missing : Error
  spec_format : Text → Error
  discoverer_unsupported : Text → Error
  pair_invalid : Error
  pair_empty : Error
  min_invalid : Text → Error
  max_invalid : Text → Error
  max_below_min : ℤ → ℤ → Error
  group_spec_invalid : Error
  vm_type_unsupported : Text → Error
  autodiscovery_unsupported : Error
  autodiscovery_failed : Error
  atoi_failed : Text → Error
  os_disk_missing : Error
  os_disk_no_vhd : Error
  url_invalid : Text → Error
  provider_id_empty : Text → Error
  provider_id_invalid : Text → Error
  sku_missing : Text → Error
  location_missing : Text → Error
  properties_missing : Text → Error
  template_missing : Error
  instance_type_unsupported : Text → Error

-- What a client answers.
pub data Reply {ℓ} (A : Type ℓ) : Type ℓ where
  answer : A → Reply A
  failure : ApiError → Reply A

-- The two continuations of a client's call.
abbrev pub on_reply {ℓ κ λ₁} :
    {A : Type ℓ} {S : Type κ} {R : Type λ₁} → Reply A × S → (A → S → R) → (ApiError → S → R) → R
on_reply (answer a, s) f g = f a s
on_reply (failure e, s) f g = g e s

pub data Outcome {ℓ} (A : Type ℓ) : Type ℓ where
  ok : A → Outcome A
  err : Error → Outcome A
  panic : Outcome A

-- What a client answers, as a result.
abbrev pub outcome_of {ℓ} : {A : Type ℓ} → Reply A → Outcome A
outcome_of (answer a) = ok a
outcome_of (failure e) = err (api e)

pub ok_inj {ℓ} : {A : Type ℓ} {a b : A} → ok a ≡ ok b → a ≡ b
ok_inj h = cc

infixl 5 ◌>>=◌
abbrev pub ◌>>=◌ {ℓ κ} : {A : Type ℓ} {B : Type κ} → Outcome A → (A → Outcome B) → Outcome B
ok a >>= f = f a
err e >>= f = err e
panic >>= f = panic

-- A chain that succeeds: its first step did, and the rest on its value.
pub bind_ok {ℓ κ} :
    {A : Type ℓ} {B : Type κ} (m : Outcome A) (f : A → Outcome B) (b : B)
    → (m >>= f) ≡ ok b
    → (a : A) × (m ≡ ok a) × (f a ≡ ok b)
bind_ok (ok a) f b h = (a, refl, h)
bind_ok (err e) f b h = absurd (cc)
bind_ok panic f b h = absurd (cc)

abbrev pub is_ok {ℓ} : {A : Type ℓ} → Outcome A → Bool
is_ok (ok a) = true
is_ok (err e) = false
is_ok panic = false

-- A step of code that changes a state: its result, and the state that it leaves, after an error
-- too. The next step runs only on success.
abbrev pub then_run {ℓ κ λ₁} :
    {A : Type ℓ} {B : Type κ} {S : Type λ₁}
    → Outcome A × S
    → (A → S → Outcome B × S)
    → Outcome B × S
then_run (ok a, s) f = f a s
then_run (err e, s) f = (err e, s)
then_run (panic, s) f = (panic, s)

-- A split on a result that keeps the equation: a value, or the same failure at every type.
pub Outcome-cases {ℓ} : {A : Type ℓ} (m : Outcome A) → ((a : A) × (m ≡ ok a)) ⊎ (is_ok m ≡ false)
Outcome-cases (ok a) = inl (a, refl)
Outcome-cases (err e) = inr refl
Outcome-cases panic = inr refl

-- The second step runs on the value and the state of the first, or the first one's failure stays.
module _ {ℓ κ λ₁} {A : Type ℓ} {B : Type κ} {S : Type λ₁} where
  pub then_run-cases :
      (r : Outcome A × S) (f : A → S → Outcome B × S)
      → ((a : A) × (r.0 ≡ ok a) × (then_run r f ≡ f a r.1))
        ⊎ ((is_ok (then_run r f).0 ≡ false) × ((then_run r f).1 ≡ r.1))
  then_run-cases (ok a, s) f = inl (a, refl, refl)
  then_run-cases (err e, s) f = inr (refl, refl)
  then_run-cases (panic, s) f = inr (refl, refl)

-- Two steps that succeed: the first did, and the second on what it left.
module _ {ℓ κ λ₁} {A : Type ℓ} {B : Type κ} {S : Type λ₁} where
  pub then_run_ok :
      (r : Outcome A × S) (f : A → S → Outcome B × S) (b : B)
      → (then_run r f).0 ≡ ok b
      → (a : A) × (r.0 ≡ ok a) × ((f a r.1).0 ≡ ok b)
  then_run_ok (ok a, s) f b h = (a, refl, h)
  then_run_ok (err e, s) f b h = absurd (cc)
  then_run_ok (panic, s) f b h = absurd (cc)

-- A relation between states that composes holds across two steps where it holds across each.
module _ {ℓ κ λ₁ μ} {S : Type λ₁} (R : S → S → Type μ) where
  pub then_run-trans :
      {A : Type ℓ} {B : Type κ} (w : S) (r : Outcome A × S) (f : A → S → Outcome B × S)
      → ((s t u : S) → R s t → R t u → R s u)
      → R w r.1
      → ((a : A) → R r.1 (f a r.1).1)
      → R w (then_run r f).1
  then_run-trans w (ok a, s) f trans h k = trans w s (f a s).1 h (k a)
  then_run-trans w (err e, s) f trans h k = h
  then_run-trans w (panic, s) f trans h k = h

-- What holds of the state after the first step, and after the second where that runs, holds at the
-- end.
module _ {ℓ κ λ₁ μ} {S : Type λ₁} (P : S → Type μ) where
  pub then_run-ends :
      {A : Type ℓ} {B : Type κ} (r : Outcome A × S) (f : A → S → Outcome B × S)
      → P r.1
      → ((a : A) → r.0 ≡ ok a → P (f a r.1).1)
      → P (then_run r f).1
  then_run-ends (ok a, s) f h k = k a refl
  then_run-ends (err e, s) f h k = h
  then_run-ends (panic, s) f h k = h

-- What holds of each failure of the first step, and of every result of the second, holds at the
-- end.
module _ {ℓ κ λ₁ μ} {A : Type ℓ} {B : Type κ} {S : Type λ₁} (P : Outcome B × S → Type μ) where
  pub then_run-results :
      (r : Outcome A × S) (f : A → S → Outcome B × S)
      → ((e : Error) → r.0 ≡ err e → P (err e, r.1))
      → P (panic, r.1)
      → ((a : A) → r.0 ≡ ok a → P (f a r.1))
      → P (then_run r f)
  then_run-results (ok a, s) f h p k = k a refl
  then_run-results (err e, s) f h p k = h e refl
  then_run-results (panic, s) f h p k = p
