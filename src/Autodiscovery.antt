-- ===== src/Autodiscovery.antt =====
-- pkg/cloudprovider/azure/azure_autodiscovery.go: specs such as label:key=value,min=1,max=5, and
-- how the tags of a scale set are matched against them.
pub mod Parsed
pub mod Matched
use cluster_autoscaler_provi.Base.Atoi.{atoi}
use cluster_autoscaler_provi.Base.Int.{ℤ, pos, negsuc, ltb_ℤ, eqb_ℤ}
use cluster_autoscaler_provi.Base.Maps.{lookup, insert}
use cluster_autoscaler_provi.Base.Text.{Text, codes, text_eq, split}
use cluster_autoscaler_provi.Base.{
  Bool, true, false, not, ◌&&◌, ◌||◌, Option, none, some, List, [], ◌∷◌, if◌then◌else◌, is_empty,
}
use cluster_autoscaler_provi.Errors.{
  Error, Outcome, ok, err, panic, ◌>>=◌, spec_format, discoverer_unsupported, pair_invalid,
  pair_empty, min_invalid, max_invalid, max_below_min,
}
use cluster_autoscaler_provi.Types.{Tags}

pub record LabelAutoDiscoveryConfig : Type 0 where
  pub selector : List (Text × Text)
  pub min_size : Option ℤ
  pub max_size : Option ℤ

pub record AutoDiscoveryConfigSizes : Type 0 where
  pub min : ℤ
  pub max : ℤ

abbrev pub empty_config : LabelAutoDiscoveryConfig
empty_config = record { selector = []; min_size = none; max_size = none }

-- A size must be a number that is not negative.
unfoldable pub parse_size : Text → Error → Outcome ℤ
unfolding atoi
parse_size v e = elim (atoi v) [ none ↦ err e | some n ↦ if ltb_ℤ n (pos 0) then err e else ok n ]

-- The `switch` on the key.
unfoldable pub set_pair : Text → Text → LabelAutoDiscoveryConfig → Outcome LabelAutoDiscoveryConfig
set_pair k v cfg =
    if text_eq k (codes "min")
    then parse_size v (min_invalid v) >>= (λ n. ok (record cfg { min_size = some n }))
    else if text_eq k (codes "max")
    then parse_size v (max_invalid v) >>= (λ n. ok (record cfg { max_size = some n }))
    else ok (record cfg { selector = insert k v cfg.selector })

-- One round of the loop, on the parts of an argument at `=`.
unfoldable pub parse_pair : List Text → LabelAutoDiscoveryConfig → Outcome LabelAutoDiscoveryConfig
unfolding set_pair
parse_pair (k ∷ v ∷ []) cfg = if is_empty k || is_empty v then err pair_empty else set_pair k v cfg
parse_pair kv cfg = err pair_invalid

unfoldable pub parse_pairs : List Text → LabelAutoDiscoveryConfig → Outcome LabelAutoDiscoveryConfig
unfolding parse_pair split
parse_pairs [] cfg = ok cfg
parse_pairs (arg ∷ args) cfg = parse_pair (split b'=' arg) cfg >>= parse_pairs args

-- The test after the loop.
unfoldable pub check_sizes : LabelAutoDiscoveryConfig → Outcome LabelAutoDiscoveryConfig
check_sizes cfg = elim cfg.max_size [
  | none ↦ ok cfg
  | some hi ↦ elim cfg.min_size [
    | none ↦ ok cfg
    | some lo ↦ if ltb_ℤ hi lo then err (max_below_min hi lo) else ok cfg
  ]
]

unfoldable pub parse_tokens : Text → List Text → Outcome LabelAutoDiscoveryConfig
unfolding parse_pairs check_sizes
parse_tokens spec (discoverer ∷ args ∷ []) =
    if text_eq discoverer (codes "label")
    then parse_pairs (split b',' args) empty_config >>= check_sizes
    else err (discoverer_unsupported discoverer)
parse_tokens spec tokens = err (spec_format spec)

unfoldable pub parse_label_auto_discovery_spec : Text → Outcome LabelAutoDiscoveryConfig
unfolding parse_tokens
parse_label_auto_discovery_spec spec = parse_tokens spec (split b':' spec)

unfoldable pub parse_label_auto_discovery_specs :
    List Text → Outcome (List LabelAutoDiscoveryConfig)
unfolding parse_label_auto_discovery_spec
parse_label_auto_discovery_specs [] = ok []
parse_label_auto_discovery_specs (spec ∷ specs) =
    parse_label_auto_discovery_spec spec
    >>= (λ cfg. parse_label_auto_discovery_specs specs >>= (λ cfgs. ok (cfg ∷ cfgs)))

-- Whether a tag has the value: a nil value has none.
abbrev pub has_value : Text → Option Text → Bool
has_value v none = false
has_value v (some value) = text_eq value v

-- One pair of a selector: the key must be there, with the value unless that is empty.
unfoldable pub matches_pair : Tags → Text → Text → Bool
unfolding lookup
matches_pair labels k v = elim (lookup k labels) [
  | none ↦ false
  | some value ↦ is_empty v || has_value v value
]

unfoldable pub matches_selector : Tags → List (Text × Text) → Bool
unfolding matches_pair
matches_selector labels [] = true
matches_selector labels ((k, v) ∷ pairs) = matches_pair labels k v && matches_selector labels pairs

-- `minSize < *c.MinSize`: the greater of the two.
abbrev pub raise_min : ℤ → Option ℤ → ℤ
raise_min lo none = lo
raise_min lo (some n) = if ltb_ℤ lo n then n else lo

-- The lesser of the two, where -1 stands for none so far.
abbrev pub lower_max : ℤ → Option ℤ → ℤ
lower_max hi none = hi
lower_max hi (some n) = if eqb_ℤ hi (negsuc 0) || ltb_ℤ n hi then n else hi

-- The loop over the configurations.
unfoldable pub match_configs :
    Tags
    → List LabelAutoDiscoveryConfig
    → AutoDiscoveryConfigSizes
    → Option AutoDiscoveryConfigSizes
unfolding matches_selector
match_configs labels [] sizes = some sizes
match_configs labels (c ∷ cs) sizes =
    let rest =
      match_configs labels cs
        (record { min = raise_min sizes.min c.min_size; max = lower_max sizes.max c.max_size }) in
    if is_empty c.selector then none else if matches_selector labels c.selector then rest else none

unfoldable pub match_discovery_config :
    Tags → List LabelAutoDiscoveryConfig → Option AutoDiscoveryConfigSizes
unfolding match_configs
match_discovery_config labels configs =
    if is_empty configs
    then none
    else match_configs labels configs (record { min = negsuc 0; max = negsuc 0 })
