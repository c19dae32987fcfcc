-- ===== src/Templates.antt =====
-- The volume claim templates that handleSyncing of
-- internal/controller/volumeresize_controller.go gives the StatefulSet back.
use migcontroller.Prelude.{
  ℕ, zero, suc, ◌≡◌, ◌≢◌, refl, sym, subst, ap, ◌∙◌, Option, none, some, Option-cases, List, [],
  ◌∷◌, inl, inr, arith, eq_iff, get_elem?,
}
use migcontroller.Prelude.Dict.{lookup, lookup-insert}
use migcontroller.Objects.{ObjectMeta, Pvc, Quantity}
use migcontroller.VolumeResize.{VolumeResizeTarget}
use migcontroller.Controller.Syncing.{resize_template, resize_by_all, resize_templates}
use migcontroller.Walk.Index.{NotNamed, AreDistinct, get_elem?-NotNamed}

-- The storage that a claim requests.
abbrev pub storage_of : Pvc → Option Quantity
storage_of p = elim p.requests [ none ↦ none | some m ↦ lookup "storage" m ]

resize_by_all-NotNamed :
    (vols : List VolumeResizeTarget) (t : Pvc)
    → NotNamed t.meta.name vols
    → resize_by_all vols t ≡ some t
unfolding resize_by_all resize_template
resize_by_all-NotNamed [] t h = refl
resize_by_all-NotNamed (v ∷ rest) t h =
    ground (arith, eq_iff t.meta.name v.name, h.0, resize_by_all-NotNamed rest t h.1)

-- One target on a template of its name.
resize_template-named :
    (v : VolumeResizeTarget) (t t' : Pvc)
    → v.name ≡ t.meta.name
    → resize_template v t ≡ some t'
    → (t'.meta ≡ t.meta) × (storage_of t' ≡ some v.new_size)
unfolding resize_template
resize_template-named v t t' e done = elim (Option-cases t.requests) [
  | inl missing ↦ absurd (ground (arith, eq_iff t.meta.name v.name))
  | inr (m, given) ↦
      ground (arith, eq_iff t.meta.name v.name, lookup-insert "storage" "storage" v.new_size m)
]

resize_template-other :
    (v : VolumeResizeTarget) (t : Pvc) → v.name ≢ t.meta.name → resize_template v t ≡ some t
unfolding resize_template
resize_template-other v t other = ground (arith, eq_iff t.meta.name v.name)

resize_by_all-named :
    (vols : List VolumeResizeTarget) (t t' : Pvc) (j : ℕ) (v : VolumeResizeTarget)
    → AreDistinct vols
    → get_elem? vols j ≡ some v
    → v.name ≡ t.meta.name
    → resize_by_all vols t ≡ some t'
    → (t'.meta ≡ t.meta) × (storage_of t' ≡ some v.new_size)
unfolding resize_by_all
resize_by_all-named [] t t' j v d at e done = absurd cc
resize_by_all-named (x ∷ rest) t t' zero v d at e done = elim (Option-cases (resize_template x t)) [
  | inl missing ↦ absurd (ground arith)
  | inr (t₁, one) ↦
      let e' : x.name ≡ t.meta.name = cc in
      let (kept, sized) = resize_template-named x t t₁ e' one in
      let e₁ : x.name ≡ t₁.meta.name = e' ∙ sym (ap (λ (m : ObjectMeta). m.name) kept) in
      let rest_same = resize_by_all-NotNamed rest t₁ (subst (λ n. NotNamed n rest) e₁ d.0) in
      let same : t₁ ≡ t' = ground (arith, one, rest_same, done) in
      (ap (λ (p : Pvc). p.meta) (sym same) ∙ kept, ap storage_of (sym same) ∙ sized ∙ cc)
]
resize_by_all-named (x ∷ rest) t t' (suc j) v d at e done =
    let other : x.name ≢ t.meta.name = λ p. get_elem?-NotNamed x.name rest j v d.0 at (e ∙ sym p) in
    resize_by_all-named rest t t' j v d.1 at e
      (ground (arith, resize_template-other x t other, done))

resize_templates-get_elem? :
    (vols : List VolumeResizeTarget) (ts ts' : List Pvc) (i : ℕ) (t : Pvc)
    → resize_templates vols ts ≡ some ts'
    → get_elem? ts i ≡ some t
    → (t' : Pvc) × (get_elem? ts' i ≡ some t') × (resize_by_all vols t ≡ some t')
unfolding resize_templates
resize_templates-get_elem? vols [] ts' i t done at = absurd cc
resize_templates-get_elem? vols (x ∷ rest) ts' zero t done at =
    elim (Option-cases (resize_by_all vols x)) [
      | inl missing ↦ absurd (ground arith)
      | inr (x', one) ↦ elim (Option-cases (resize_templates vols rest)) [
        | inl missing ↦ absurd (ground arith)
        | inr (rest', others) ↦
            let whole : x' ∷ rest' ≡ ts' = ground (arith, one, others, done) in
            let here : t ≡ x = cc in
            (
              x',
              ap (λ (l : List Pvc). get_elem? l 0) (sym whole),
              ap (resize_by_all vols) here ∙ one,
            )
      ]
    ]
resize_templates-get_elem? vols (x ∷ rest) ts' (suc i) t done at =
    elim (Option-cases (resize_by_all vols x)) [
      | inl missing ↦ absurd (ground arith)
      | inr (x', one) ↦ elim (Option-cases (resize_templates vols rest)) [
        | inl missing ↦ absurd (ground arith)
        | inr (rest', others) ↦
            let whole : x' ∷ rest' ≡ ts' = ground (arith, one, others, done) in
            let (t', there, resized) = resize_templates-get_elem? vols rest rest' i t others at in
            (t', ap (λ (l : List Pvc). get_elem? l (suc i)) (sym whole) ∙ there, resized)
      ]
    ]

-- Where the targets have distinct names and the templates are resized without a panic, a template
-- that a target names is, at its place, a template with the same metadata that requests the
-- target's new size.
pub templates_resized :
    (vols : List VolumeResizeTarget) (ts ts' : List Pvc) (i j : ℕ) (t : Pvc)
    (v : VolumeResizeTarget)
    → AreDistinct vols
    → resize_templates vols ts ≡ some ts'
    → get_elem? ts i ≡ some t
    → get_elem? vols j ≡ some v
    → v.name ≡ t.meta.name
    → (t' : Pvc) × (get_elem? ts' i ≡ some t')
      × (t'.meta ≡ t.meta)
      × (storage_of t' ≡ some v.new_size)
templates_resized vols ts ts' i j t v d done at target named =
    let (t', there, resized) = resize_templates-get_elem? vols ts ts' i t done at in
    let (kept, sized) = resize_by_all-named vols t t' j v d target named resized in
    (t', there, kept, sized)

-- Where the templates are resized without a panic, a template that no target names is unchanged at
-- its place.
pub templates_kept :
    (vols : List VolumeResizeTarget) (ts ts' : List Pvc) (i : ℕ) (t : Pvc)
    → resize_templates vols ts ≡ some ts'
    → get_elem? ts i ≡ some t
    → NotNamed t.meta.name vols
    → get_elem? ts' i ≡ some t
templates_kept vols ts ts' i t done at other =
    let (t', there, resized) = resize_templates-get_elem? vols ts ts' i t done at in
    there ∙ sym resized ∙ resize_by_all-NotNamed vols t other
