-- ===== src/ResourceId.antt =====
-- Resource identifiers: pkg/cloudprovider/azure/azure_util.go (`convertResourceGroupNameToLower`,
-- `resourceName`, `getLastSegment`) and `virtualMachineRE` of azure_cache.go.
pub mod Fold
use cluster_autoscaler_provi.Base.{
  ℕ, Bool, true, false, ◌||◌, Option, none, some, List, [], ◌∷◌, if◌then◌else◌, ◌==◌, is_some,
  is_empty,
}
use cluster_autoscaler_provi.Base.Text.{
  Text, codes, to_lower, split, last_part, replace_first, greedy, greedy_capture_some, literal,
  search_match, has_prefix,
}
use cluster_autoscaler_provi.Errors.{Outcome, ok, err, not_resource_id, name_missing}

abbrev pub azure_prefix : Text
azure_prefix = codes "azure://"

-- `azureResourceGroupNameRE`, .*/subscriptions/(?:.*)/resourceGroups/(.+)/providers/(?:.*), with
-- the resource group that it captures.
unfoldable pub resource_group_re : Text → Option (Text × Unit {0})
unfolding search_match greedy literal greedy_capture_some
resource_group_re = search_match (
    greedy (
      literal (codes "/subscriptions/") (
        greedy (
          literal (codes "/resourceGroups/")
            (greedy_capture_some (literal (codes "/providers/") (λ rest. some tt)))))))

unfoldable pub convert_resource_group_name_to_lower : Text → Outcome Text
unfolding resource_group_re replace_first
convert_resource_group_name_to_lower resource_id = elim (resource_group_re resource_id) [
  | none ↦ err (not_resource_id resource_id)
  | some found ↦ ok (replace_first resource_id found.0 (to_lower found.0))
]

unfoldable pub resource_name : Text → Outcome Text
unfolding split
resource_name id =
    let name = last_part (split b'/' id) in if is_empty name then err name_missing else ok name

-- `unicode.IsSpace` on ASCII.
abbrev pub is_space : ℕ → Bool
is_space c = c == 9 || c == 10 || c == 11 || c == 12 || c == 13 || c == 32

unfoldable pub trim_left : Text → Text
trim_left [] = []
trim_left (c ∷ s) = if is_space c then trim_left s else c ∷ s

-- A text without the white space at its end.
unfoldable pub trim_right : Text → Text
trim_right [] = []
trim_right (c ∷ s) =
    let rest = trim_right s in
    if is_empty rest then (if is_space c then [] else c ∷ []) else c ∷ rest

-- `strings.TrimSpace`.
unfoldable pub trim_space : Text → Text
unfolding trim_left trim_right
trim_space s = trim_right (trim_left s)

unfoldable pub get_last_segment : Text → Outcome Text
unfolding split trim_space
get_last_segment id =
    let name = last_part (split b'/' (trim_space id)) in
    if is_empty name then err name_missing else ok name

-- `.*` up to the end of the text.
unfoldable pub no_newline : Text → Bool
no_newline [] = true
no_newline (c ∷ s) = if c == 10 then false else no_newline s

-- `(.+)$`.
unfoldable pub one_line : Text → Option (Unit {0})
unfolding no_newline
one_line [] = none
one_line (c ∷ s) = if no_newline (c ∷ s) then some tt else none

-- The part of `virtualMachineRE` after `Microsoft`: its unescaped dot stands for any byte but a
-- newline.
unfoldable pub compute_machine : Text → Option (Unit {0})
unfolding literal one_line
compute_machine [] = none
compute_machine (c ∷ s) =
    if c == 10 then none else literal (codes "Compute/virtualMachines/") one_line s

-- `virtualMachineRE`, ^azure://(?:.*)/providers/Microsoft.Compute/virtualMachines/(.+)$.
unfoldable pub virtual_machine_re : Text → Bool
unfolding greedy literal compute_machine
virtual_machine_re s =
    is_some
      (literal azure_prefix (greedy (literal (codes "/providers/Microsoft") compute_machine)) s)
