-- ===== src/AgentPool/Deletion/Planned.antt =====
-- The order in which `deleteVirtualMachine` of azure_agent_pool.go deletes a VM and what belongs to
-- it.
use mathlib.Core.Path.{subst}
use cluster_autoscaler_provi.AgentPool.Deletion.{
  MachineClient, check_disk, nic_name, nic_of, split_blob_uri, call_get, call_delete,
  delete_resource, delete_nic, delete_os_disk, delete_found, delete_virtual_machine,
}
use cluster_autoscaler_provi.AgentPool.{
  MachineCall, get_machine, delete_machine, delete_interface, delete_disk, Call, machine_call,
  Client, World, os_disk_of,
}
use cluster_autoscaler_provi.Base.Text.{Text}
use cluster_autoscaler_provi.Base.{
  ◌≡◌, refl, Bool-cases, inl, inr, Option, none, some, List, [], ◌∷◌, ◌++◌, if◌then◌else◌, is_empty,
}
use cluster_autoscaler_provi.Errors.{
  ok_inj, Reply, answer, failure, Outcome, ok, err, panic, ◌>>=◌, then_run,
}
use cluster_autoscaler_provi.Types.{Vm, OsDisk}

-- The calls after a whole plan was carried out.
abbrev pub carried_out : List MachineCall → List Call → List Call
carried_out [] s = s
carried_out (c ∷ plan) s = carried_out plan (machine_call c ∷ s)

-- The calls after a part of a plan, from its start.
pub data Begun : List MachineCall → List Call → List Call → Type 0 where
  stopped : {plan : List MachineCall} {s : List Call} → Begun plan s s
  next :
      {c : MachineCall} {plan : List MachineCall} {s s' : List Call}
      → Begun plan (machine_call c ∷ s) s'
      → Begun (c ∷ plan) s s'

Begun-append :
    {plan : List MachineCall} (rest : List MachineCall) {s s' : List Call}
    → Begun plan s s'
    → Begun (plan ++ rest) s s'
Begun-append rest stopped = stopped
Begun-append rest (next k) = next (Begun-append rest k)

-- What the interface and the OS disk add to the plan.
abbrev pub nic_plan : Text → List MachineCall
nic_plan nic = if is_empty nic then [] else delete_interface nic ∷ []

abbrev pub disk_plan : (Text → Option (Text × Text)) → OsDisk → Outcome (List MachineCall)
disk_plan parse_url disk = elim disk.vhd [
  | some none ↦ panic
  | some (some uri) ↦ split_blob_uri parse_url uri >>= (λ blob. ok (blob ∷ []))
  | none ↦ elim disk.disk_name [ none ↦ ok [] | some name ↦ ok (delete_disk name ∷ []) ]
]

module _ {C : Type 0} where
  -- By the result: the whole plan on success, its start on an error, and no panic.
  abbrev pub Carried : List MachineCall → List Call → Outcome (Unit {0}) × World C → Type 0
  Carried plan s (ok u, w) = w.sent ≡ carried_out plan s
  Carried plan s (err e, w) = Begun plan s w.sent
  Carried plan s (panic, w) = ⊥

  Carried-append :
      (plan rest : List MachineCall) (s : List Call) (r : Outcome (Unit {0}) × World C)
      → Carried rest (carried_out plan s) r
      → Carried (plan ++ rest) s r
  Carried-append [] rest s r h = h
  Carried-append (c ∷ plan) rest s r h = step r (Carried-append plan rest (machine_call c ∷ s) r h)
    where
      step :
          (r : Outcome (Unit {0}) × World C)
          → Carried (plan ++ rest) (machine_call c ∷ s) r
          → Carried (c ∷ plan ++ rest) s r
      step (ok u, w) k = k
      step (err e, w) k = next k
      step (panic, w) k = k

  Carried-then :
      (plan rest : List MachineCall) (s : List Call) (r : Outcome (Unit {0}) × World C)
      (f : Unit {0} → World C → Outcome (Unit {0}) × World C)
      → Carried plan s r
      → ((w : World C) → Carried rest w.sent (f tt w))
      → Carried (plan ++ rest) s (then_run r f)
  Carried-then plan rest s (ok u, w) f h k =
      Carried-append plan rest s (f tt w) (subst (λ t. Carried rest t (f tt w)) h (k w))
  Carried-then plan rest s (err e, w) f h k = Begun-append rest h
  Carried-then plan rest s (panic, w) f h k = absurd h

module _ {C : Type 0} (client : Client C) (machines : MachineClient C) where
  delete_resource-Carried :
      (c : MachineCall) (w : World C)
      → Carried (c ∷ []) w.sent (delete_resource client machines c w)
  unfolding delete_resource call_delete
  delete_resource-Carried c w = go (machines.delete c w.cloud).0 refl
    where
      go :
          (m : Reply (Unit {0}))
          → (machines.delete c w.cloud).0 ≡ m
          → Carried (c ∷ []) w.sent (delete_resource client machines c w)
      go (answer u) e = rw (e, delete_resource, call_delete) refl
      go (failure x) e = elim (Bool-cases (machines.is_not_found x)) [
        | inl b ↦ rw (e, b, delete_resource, call_delete) refl
        | inr b ↦ rw (e, b, delete_resource, call_delete) (next stopped)
      ]

  delete_nic-Carried :
      (nic : Text) (w : World C) → Carried (nic_plan nic) w.sent (delete_nic client machines nic w)
  unfolding delete_nic
  delete_nic-Carried [] w = refl
  delete_nic-Carried (b ∷ nic) w = delete_resource-Carried (delete_interface (b ∷ nic)) w

  delete_blob-Carried :
      (blob : Outcome MachineCall) (rest : List MachineCall) (w : World C)
      → (blob >>= (λ b. ok (b ∷ []))) ≡ ok rest
      → Carried rest w.sent (then_run (blob, w) (λ b w'. delete_resource client machines b w'))
  delete_blob-Carried (ok b) rest w h = rw (← ok_inj h) (delete_resource-Carried b w)
  delete_blob-Carried (err e) rest w h = absurd (cc)
  delete_blob-Carried panic rest w h = absurd (cc)

  delete_os_disk-Carried :
      (disk : OsDisk) (rest : List MachineCall) (w : World C)
      → disk_plan machines.parse_url disk ≡ ok rest
      → Carried rest w.sent (delete_os_disk client machines disk w)
  unfolding delete_os_disk
  delete_os_disk-Carried disk rest w = go disk.vhd disk.disk_name refl refl
    where
      go :
          (vhd : Option (Option Text)) (name : Option Text)
          → disk.vhd ≡ vhd
          → disk.disk_name ≡ name
          → disk_plan machines.parse_url disk ≡ ok rest
          → Carried rest w.sent (delete_os_disk client machines disk w)
      go (some none) name e e' = rw (e, delete_os_disk) (λ h. absurd (cc))
      go (some (some uri)) name e e' =
          rw (e, delete_os_disk)
            (delete_blob-Carried (split_blob_uri machines.parse_url uri) rest w)
      go none none e e' = rw (e, e', delete_os_disk) (λ h. rw (← ok_inj h) refl)
      go none (some name) e e' =
          rw (e, e', delete_os_disk)
            (λ h. rw (← ok_inj h) (delete_resource-Carried (delete_disk name) w))

  delete_found-Carried :
      (name nic : Text) (vm : Vm) (disk : OsDisk) (rest : List MachineCall) (w : World C)
      → check_disk (os_disk_of vm) ≡ ok disk
      → nic_name (nic_of vm) ≡ ok nic
      → disk_plan machines.parse_url disk ≡ ok rest
      → Carried
          (delete_machine name ∷ nic_plan nic ++ rest)
          w.sent
          (delete_found client machines name vm w)
  unfolding delete_found
  delete_found-Carried name nic vm disk rest w d n p =
      rw (d, n, delete_found)
        (Carried-then (delete_machine name ∷ []) (nic_plan nic ++ rest) w.sent
          (delete_resource client machines (delete_machine name) w) _
          (delete_resource-Carried (delete_machine name) w)
          (λ w₃.
            Carried-then (nic_plan nic) rest w₃.sent (delete_nic client machines nic w₃) _
              (delete_nic-Carried nic w₃) (λ w₄. delete_os_disk-Carried disk rest w₄ p)))

  -- Where Azure gives the VM, its OS disk has a VHD or is managed, its interface's identifier has a
  -- name (or there is none), and the VHD's URI names a blob, deleteVirtualMachine deletes the VM,
  -- then the interface, then the blob or the named managed disk. It succeeds only when it has
  -- asked for all of these in that order; on an error it has asked for a part of them from the
  -- start, so that nothing that belongs to the VM is deleted before the VM; and it does not panic.
  pub delete_virtual_machine-Carried :
      (name nic : Text) (vm : Vm) (disk : OsDisk) (rest : List MachineCall) (c : C) (w : World C)
      → machines.get name w.cloud ≡ (answer vm, c)
      → check_disk (os_disk_of vm) ≡ ok disk
      → nic_name (nic_of vm) ≡ ok nic
      → disk_plan machines.parse_url disk ≡ ok rest
      → Carried
          (delete_machine name ∷ nic_plan nic ++ rest)
          (machine_call (get_machine name) ∷ w.sent)
          (delete_virtual_machine client machines name w)
  unfolding delete_virtual_machine call_get
  delete_virtual_machine-Carried name nic vm disk rest c w g d n p =
      rw (g, delete_virtual_machine, call_get) (delete_found-Carried name nic vm disk rest _ d n p)
