-- ===== src/ScaleSet/Templates.antt =====
-- `TemplateNodeInfo` of azure_scale_set.go: the node that a group's VMs would be.
use cluster_autoscaler_provi.Base.Text.{Text}
use cluster_autoscaler_provi.Base.{ℕ, ◌≡◌, ap, ◌∙◌, arith, Bool, Option, some, []}
use cluster_autoscaler_provi.Errors.{Outcome, ok, ◌>>=◌, bind_ok, ok_inj}
use cluster_autoscaler_provi.ScaleSet.{World, get_vmss_from_cache}
use cluster_autoscaler_provi.Template.Build.{
  build_node_template_from_vmss, process_vmss_template, build_node_from_template, instance_type,
}
use cluster_autoscaler_provi.Template.Nodes.{VmssNodeTemplate, of_vmss, NodeTemplate, Node, Library}
use cluster_autoscaler_provi.Template.{
  extract_taints_from_tags, extract_labels_from_tags, extract_allocatable_resources,
}
use cluster_autoscaler_provi.Types.{Vmss}

module _ {C Q S : Type 0} (lib : Library Q S) where
  -- No labels and no taints of a spec are passed on.
  unfoldable pub template_node_info : Text → Option Text → Bool → Bool → World C → Outcome (Node Q)
  template_node_info node_name zone dynamic predict w = get_vmss_from_cache w >>= (λ p.
      build_node_template_from_vmss lib (w.cache.heap p) [] []
      >>= (λ t. build_node_from_template lib node_name zone t dynamic predict))

-- What a template of a scale set has of it, where no spec adds to it.
abbrev pub own_template : Vmss → VmssNodeTemplate
own_template v = record {
  input_labels = [];
  input_taints = [];
  tags = v.tags;
  os_disk = v.template_disk;
}

module _ {Q S : Type 0} (lib : Library Q S) where
  build_node_template_from_vmss-pool :
      (v : Vmss) (t : NodeTemplate)
      → build_node_template_from_vmss lib v [] [] ≡ ok t
      → t.pool ≡ some (of_vmss (own_template v))
  unfolding build_node_template_from_vmss
  build_node_template_from_vmss-pool v t h = ground (arith, h)

  -- The taints of a node are those of the tags.
  process_vmss_template-taints :
      (t : NodeTemplate) (v : Vmss) (domain : Option Text) (predict : Bool) (n n' : Node Q)
      → process_vmss_template lib t (own_template v) domain predict n ≡ ok n'
      → extract_taints_from_tags v.tags ≡ ok n'.taints
  unfolding process_vmss_template
  process_vmss_template-taints t v domain predict n n' h =
      let (labels, h₁, r₁) = bind_ok (extract_labels_from_tags v.tags []) _ n' h in
      let (resources, h₂, r₂) =
        bind_ok (extract_allocatable_resources lib.parse_quantity v.tags []) _ n' r₁ in
      let (taints, h₃, r₃) = bind_ok (extract_taints_from_tags v.tags) _ n' r₂ in
      h₃ ∙ ap ok (ap (λ m. m.taints) (ok_inj r₃))

  build_node_from_template-taints :
      (name : Text) (domain : Option Text) (t : NodeTemplate) (v : Vmss) (dynamic predict : Bool)
      (node : Node Q)
      → t.pool ≡ some (of_vmss (own_template v))
      → build_node_from_template lib name domain t dynamic predict ≡ ok node
      → extract_taints_from_tags v.tags ≡ ok node.taints
  unfolding build_node_from_template
  build_node_from_template-taints name domain t v dynamic predict node e h =
      let (i, h₁, r₁) = bind_ok (instance_type lib dynamic t) _ node h in
      process_vmss_template-taints _ v domain predict _ node (rw (e) at r₁)

  -- The node of a group's template has the taints of the tags of the group's scale set, as the cache
  -- has it.
  pub template_node_info-taints :
      {C : Type 0} (name : Text) (domain : Option Text) (dynamic predict : Bool) (w : World C)
      (p : ℕ) (node : Node Q)
      → get_vmss_from_cache w ≡ ok p
      → template_node_info lib name domain dynamic predict w ≡ ok node
      → extract_taints_from_tags (w.cache.heap p).tags ≡ ok node.taints
  unfolding template_node_info
  template_node_info-taints name domain dynamic predict w p node e h =
      let (t, h₁, r₁) =
        bind_ok (build_node_template_from_vmss lib (w.cache.heap p) [] []) _ node (rw (e) at h) in
      build_node_from_template-taints name domain t (w.cache.heap p) dynamic predict node
        (build_node_template_from_vmss-pool (w.cache.heap p) t h₁) r₁
