-- ===== src/VmName.antt =====
-- The names of virtual machines that aks-engine deploys: `k8sLinuxVMNameParts`,
-- `windowsVMNameParts` and `GetVMNameIndex` of pkg/cloudprovider/azure/azure_util.go.
use cluster_autoscaler_provi.Base.Atoi.{atoi, is_digit}
use cluster_autoscaler_provi.Base.Int.{ℤ, pos}
use cluster_autoscaler_provi.Base.Text.{Text, codes, text_eq, literal, greedy_capture_some}
use cluster_autoscaler_provi.Base.{
  ℕ, zero, suc, Bool, ◌&&◌, ◌||◌, Option, none, some, [], ◌∷◌, if◌then◌else◌, leb, ◌==◌, all,
  length,
}
use cluster_autoscaler_provi.Errors.{Outcome, ok, err, panic, ◌>>=◌, name_missing, atoi_failed}

abbrev pub is_hex : ℕ → Bool
is_hex c = is_digit c || leb b'a' c && leb c b'f' || leb b'A' c && leb c b'F'

abbrev pub is_alphanumeric : ℕ → Bool
is_alphanumeric c = is_digit c || leb b'a' c && leb c b'z' || leb b'A' c && leb c b'Z'

-- `(class{n})` before a pattern.
module _ {ℓ} {B : Type ℓ} where
  unfoldable pub exactly : (ℕ → Bool) → ℕ → (Text → Option B) → Text → Option (Text × B)
  exactly p zero k s = elim (k s) [ none ↦ none | some b ↦ some ([], b) ]
  exactly p (suc n) k [] = none
  exactly p (suc n) k (c ∷ s) =
      let rest = exactly p n k s in
      if p c then elim rest [ none ↦ none | some found ↦ some (c ∷ found.0, found.1) ] else none

  -- `-{0,n}` before a pattern, as many as can be.
  unfoldable pub dashes : ℕ → (Text → Option B) → Text → Option B
  dashes zero k s = k s
  dashes (suc n) k [] = k []
  dashes (suc n) k (c ∷ s) =
      let rest = dashes n k s in
      elim (if c == b'-' then rest else none) [ some b ↦ some b | none ↦ k (c ∷ s) ]

-- `(class{lo,hi})$`.
unfoldable pub to_end : (ℕ → Bool) → ℕ → ℕ → Text → Option Text
to_end p lo hi s = if all p s && leb lo (length s) && leb (length s) hi then some s else none

-- `([0-9]+)$`.
unfoldable pub digits_to_end : Text → Option Text
digits_to_end s = if all is_digit s && leb 1 (length s) then some s else none

-- `vmnameLinuxRegexp`, ^[0-9a-zA-Z]{3}-(.+)-([0-9a-fA-F]{8})-{0,2}([0-9]+)$: the parts after the
-- first three characters.
unfoldable pub vmname_linux_regexp : Text → Option (Text × (Text × (Text × Text)))
unfolding exactly literal greedy_capture_some dashes digits_to_end
vmname_linux_regexp = exactly is_alphanumeric 3 (
    literal (codes "-")
      (greedy_capture_some (literal (codes "-") (exactly is_hex 8 (dashes 2 digits_to_end)))))

-- `oldvmnameWindowsRegexp`, ^([a-fA-F0-9]{5})([0-9a-zA-Z]{3})([9])([a-zA-Z0-9]{3,5})$.
unfoldable pub oldvmname_windows_regexp : Text → Option (Text × (Text × Text))
unfolding exactly literal to_end
oldvmname_windows_regexp =
    exactly is_hex 5 (exactly is_alphanumeric 3 (literal (codes "9") (to_end is_alphanumeric 3 5)))

-- `vmnameWindowsRegexp`, ^([a-fA-F0-9]{4})([0-9a-zA-Z]{3})([0-9]{3,8})$.
unfoldable pub vmname_windows_regexp : Text → Option (Text × (Text × Text))
unfolding exactly to_end
vmname_windows_regexp = exactly is_hex 4 (exactly is_alphanumeric 3 (to_end is_digit 3 8))

abbrev pub number : Text → Outcome ℤ
number s = elim (atoi s) [ none ↦ err (atoi_failed s) | some n ↦ ok n ]

-- The pool, the suffix and the index.
unfoldable pub k8s_linux_vm_name_parts : Text → Outcome (Text × (Text × ℤ))
unfolding vmname_linux_regexp
k8s_linux_vm_name_parts vm_name = elim (vmname_linux_regexp vm_name) [
  | none ↦ err name_missing
  | some parts ↦ number parts.1.1.1 >>= (λ n. ok (parts.1.0, (parts.1.1.0, n)))
]

-- `poolInfo[:2]` and `poolInfo[2:]`, which panic on a shorter text.
abbrev pub pool_info_parts : Text → Outcome (Text × Text)
pool_info_parts (a ∷ b ∷ s) = ok (a ∷ b ∷ [], s)
pool_info_parts s = panic

-- The prefix, the orchestrator, the index of the pool and that of the agent.
unfoldable pub windows_vm_name_parts : Text → Outcome (Text × (Text × (ℤ × ℤ)))
unfolding oldvmname_windows_regexp vmname_windows_regexp
windows_vm_name_parts vm_name =
    let found : Option (Text × (Text × Text)) = elim (oldvmname_windows_regexp vm_name) [
      | none ↦ vmname_windows_regexp vm_name
      | some parts ↦ some parts
    ] in
    elim found [
      | none ↦ err name_missing
      | some parts ↦ pool_info_parts parts.1.1 >>= (λ info. number info.0 >>= (λ pool_index.
          number info.1 >>= (λ agent_index. ok (parts.0, (parts.1.0, (pool_index, agent_index))))))
    ]

-- `GetVMNameIndex`; the type of an operating system that is nil is the empty text.
unfoldable pub get_vm_name_index : Text → Text → Outcome ℤ
unfolding k8s_linux_vm_name_parts windows_vm_name_parts
get_vm_name_index os_type vm_name =
    if text_eq os_type (codes "Linux")
    then k8s_linux_vm_name_parts vm_name >>= (λ parts. ok parts.1.1)
    else if text_eq os_type (codes "Windows")
    then windows_vm_name_parts vm_name >>= (λ parts. ok parts.1.1.1)
    else ok (pos 0)
