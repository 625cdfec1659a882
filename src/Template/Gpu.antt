-- ===== src/Template/Gpu.antt =====
-- `isNvidiaEnabledSKU` of pkg/cloudprovider/azure/azure_instance_gpu_sku.go, with its list.
use cluster_autoscaler_provi.Base.Maps.{member}
use cluster_autoscaler_provi.Base.Text.{Text, codes, to_lower, text_eq}
use cluster_autoscaler_provi.Base.{Bool, List, [], ◌∷◌, if◌then◌else◌}

abbrev pub nvidia_enabled_skus : List Text
nvidia_enabled_skus =
    codes "standard_nc6"
    ∷ codes "standard_nc12"
    ∷ codes "standard_nc24"
    ∷ codes "standard_nc24r"
    ∷ codes "standard_nv6"
    ∷ codes "standard_nv12"
    ∷ codes "standard_nv12s_v3"
    ∷ codes "standard_nv24"
    ∷ codes "standard_nv24s_v3"
    ∷ codes "standard_nv24r"
    ∷ codes "standard_nv48s_v3"
    ∷ codes "standard_nd6s"
    ∷ codes "standard_nd12s"
    ∷ codes "standard_nd24s"
    ∷ codes "standard_nd24rs"
    ∷ codes "standard_nc6s_v2"
    ∷ codes "standard_nc12s_v2"
    ∷ codes "standard_nc24s_v2"
    ∷ codes "standard_nc24rs_v2"
    ∷ codes "standard_nc6s_v3"
    ∷ codes "standard_nc12s_v3"
    ∷ codes "standard_nc24s_v3"
    ∷ codes "standard_nc24rs_v3"
    ∷ codes "standard_nd40s_v3"
    ∷ codes "standard_nd40rs_v2"
    ∷ codes "standard_nc4as_t4_v3"
    ∷ codes "standard_nc8as_t4_v3"
    ∷ codes "standard_nc16as_t4_v3"
    ∷ codes "standard_nc64as_t4_v3"
    ∷ codes "standard_nd96asr_v4"
    ∷ codes "standard_nd112asr_a100_v4"
    ∷ codes "standard_nd120asr_a100_v4"
    ∷ codes "standard_nd96amsr_a100_v4"
    ∷ codes "standard_nd112amsr_a100_v4"
    ∷ codes "standard_nd120amsr_a100_v4"
    ∷ codes "standard_nc24ads_a100_v4"
    ∷ codes "standard_nc48ads_a100_v4"
    ∷ codes "standard_nc96ads_a100_v4"
    ∷ []

-- A text without a suffix, if it has it.
unfoldable pub trim_suffix : Text → Text → Text
unfolding text_eq
trim_suffix suffix [] = []
trim_suffix suffix (c ∷ s) =
    let rest = trim_suffix suffix s in if text_eq (c ∷ s) suffix then [] else c ∷ rest

unfoldable pub is_nvidia_enabled_sku : Text → Bool
unfolding member trim_suffix
is_nvidia_enabled_sku vm_size =
    member (trim_suffix (codes "_promo") (to_lower vm_size)) nvidia_enabled_skus
