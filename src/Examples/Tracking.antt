-- ===== src/Examples/Tracking.antt =====
-- Instances of the theorems on the stored status: the API server of the tests keeps its
-- VolumeResize, and five passes complete a migration.
use mathlib.Mathlib.Logic.Relation.{ReflTransGenᴰ}
use migcontroller.Prelude.{
  List, ◌≤◌, length, ℕ, zero, suc, ◌^◌, ◌<◌, String, ◌≡◌, refl, sym, ap, ◌∙◌, subst, ◌⊎◌, inl, inr,
  Option, none, some, [], ◌∷◌, ◌==◌, Bool, true, false, ltb, not, ◌||◌, map, all, Bool-cases,
  Option-cases, arith, if◌then◌else◌,
}
use migcontroller.Prelude.Int32.{Int32}
use migcontroller.Objects.{Pvc, GoError, Except, ok, err, not_found, StatefulSet, ConfigMap}
use migcontroller.Prelude.Dict.{lookup}
use migcontroller.Names.{get_sts_backup_config_map_name}
use migcontroller.VolumeResize.{
  VolumeResize, VolumeResizeStatus, syncing, completed, config_map_key_sts_spec,
}
use migcontroller.Call.{
  Call, vr_get, vr_update, vr_update_status, vr_create, vr_delete, sts_get, sts_create,
  config_map_get, Lib,
}
use migcontroller.Prog.{Handler, returned, stopped, run}
use migcontroller.Status.{volume_index?, append_replicas, loop_rounds, already_completed}
use migcontroller.Controller.{replicas_of, reconcile}
use migcontroller.Plain.{AfterPlain}
use migcontroller.Tracking.{Target, Stored, view_of, saved, target_of}
use migcontroller.Tracking.Entries.{key_of}
use migcontroller.Tracking.Refines.{KeepsObject, Turn}
use migcontroller.Tracking.Panics.{HaveRequests, passes_return}
use migcontroller.Tracking.Complete.{is_before, passes_complete, passes_in_order}
use migcontroller.Waiting.{IsClock}
use migcontroller.Controller.Results.{Outcome}
use migcontroller.Examples.Ending.{forward}
use migcontroller.Examples.Opened.{opened}
use migcontroller.Examples.Cluster.{Cluster, serve, lib, cluster, resize, fault, web, claim}

-- `spec.replicas` is no larger than its type
abbrev sized : Except StatefulSet → Except StatefulSet
sized (ok sts) = if ltb (replicas_of sts) (2 ^ 32) then ok sts else fault not_found
sized (err e) = err e

-- a StatefulSet with a template that does not say what it requests
abbrev blank : StatefulSet
blank = record web {
  spec = record web.spec {
    volume_claim_templates = (record (claim "data" "" "9Gi") { requests = none }) ∷ [];
  };
}

abbrev reading : Lib
reading = record lib {
  unmarshal =
      λ s. if s == "web" then ok web else if s == "blank" then ok blank else fault not_found;
}

abbrev is_web : Option String → Bool
is_web none = true
is_web (some s) = s == "web"

-- only backups of "web"
abbrev backed : Except ConfigMap → Except ConfigMap
backed (ok cm) =
    if is_web (lookup config_map_key_sts_spec cm.entries) then ok cm else fault not_found
backed (err e) = err e

abbrev holds : Handler Cluster
holds (sts_get ns name) w = let (r, w') = serve (sts_get ns name) w in (sized r, w')
holds (config_map_get ns name) w = let (r, w') = serve (config_map_get ns name) w in (backed r, w')
holds c w = serve c w

abbrev view : Option VolumeResize → Stored
view none = view_of resize
view (some vr) = view_of vr

abbrev stored : Cluster → Stored
stored w = view w.vr

abbrev replicas_in : Except StatefulSet → ℕ
replicas_in (ok sts) = replicas_of sts
replicas_in (err e) = 0

refused : (x sts : StatefulSet) → ltb (replicas_of x) (2 ^ 32) ≡ false → sized (ok x) ≡ ok sts → ⊥
refused x sts large e = let gone : sized (ok x) ≡ fault not_found = rw large refl in cc

sized-fits :
    (r : Except StatefulSet) (sts : StatefulSet) → sized r ≡ ok sts → replicas_of sts < 2 ^ 32
sized-fits (ok x) sts e = elim (Bool-cases (ltb (replicas_of x) (2 ^ 32))) [
  | inl small ↦
      let is : ok x ≡ ok sts = sym (rw small refl) ∙ e in
      subst (λ (y : Except StatefulSet). replicas_in y < 2 ^ 32) is (ground (arith, small))
  | inr large ↦ absurd (refused x sts large e)
]
sized-fits (err x) sts e = cc

abbrev view_in : Except VolumeResize → Stored
view_in (ok vr) = view_of vr
view_in (err e) = view_of resize

reads :
    (ns name : String) (w : Cluster) (vr : VolumeResize)
    → (holds (vr_get ns name) w).0 ≡ ok vr
    → view_of vr ≡ stored w
unfolding serve
reads ns name w vr r = elim (Option-cases w.vr) [
  | inl e ↦
      let gone : (holds (vr_get ns name) w).0 ≡ fault not_found = rw (e, serve) refl in absurd cc
  | inr (x, e) ↦
      let got : ok vr ≡ ok x = sym r ∙ rw (e, serve) refl in ap view_in got ∙ ap view (sym e)
]

abbrev Answered : Type 0
Answered = Except VolumeResize × Cluster

abbrev retargeted : Target → VolumeResizeStatus → Stored
retargeted target status = record { target = target; status = status }

updates :
    (v : VolumeResize) (w : Cluster)
    → target_of v ≡ (stored w).target
    → (stored (holds (vr_update v) w).1 ≡ stored w)
      × ((x : VolumeResize) → (holds (vr_update v) w).0 ≡ ok x → view_of x ≡ stored w)
unfolding serve
updates v w e = elim (Option-cases w.vr) [
  | inl is ↦
      let ran : serve (vr_update v) w ≡ (fault not_found, w) = simp (is, serve) in
      (
        ap (λ (p : Answered). stored p.1) ran,
        λ y r.
            let gone : fault not_found ≡ ok y = sym (ap (λ (p : Answered). p.0) ran) ∙ r in
            absurd cc,
      )
  | inr (x, is) ↦
      let v' : VolumeResize = record v { status = x.status } in
      let ran : serve (vr_update v) w ≡ (ok v', record w { vr = some v' }) = rw (is, serve) refl in
      let kept : view_of v' ≡ stored w =
        ap (λ (o : Target). retargeted o x.status) (e ∙ ap (λ (s : Stored). s.target) (ap view is))
        ∙ sym (ap view is) in
      (
        ap (λ (p : Answered). stored p.1) ran ∙ kept,
        λ y r. sym (ap view_in (sym (ap (λ (p : Answered). p.0) ran) ∙ r)) ∙ kept,
      )
]

saves :
    (v : VolumeResize) (w : Cluster)
    → target_of v ≡ (stored w).target
    → ((x : VolumeResize)
        → (holds (vr_update_status v) w).0 ≡ ok x
        → (stored (holds (vr_update_status v) w).1 ≡ saved (stored w) v.status)
          × (view_of x ≡ saved (stored w) v.status))
      × ((e : GoError)
          → (holds (vr_update_status v) w).0 ≡ err e
          → (stored (holds (vr_update_status v) w).1 ≡ stored w)
            ⊎ (stored (holds (vr_update_status v) w).1 ≡ saved (stored w) v.status))
unfolding serve
saves v w e = elim (Option-cases w.vr) [
  | inl is ↦
      let ran : serve (vr_update_status v) w ≡ (fault not_found, w) = simp (is, serve) in
      (
        λ y r.
            let gone : fault not_found ≡ ok y = sym (ap (λ (p : Answered). p.0) ran) ∙ r in
            absurd cc,
        λ x r. inl (ap (λ (p : Answered). stored p.1) ran),
      )
  | inr (x, is) ↦
      let v' : VolumeResize = record x { status = v.status } in
      let ran : serve (vr_update_status v) w ≡ (ok v', record w { vr = some v' }) =
        rw (is, serve) refl in
      let kept : view_of v' ≡ saved (stored w) v.status =
        ap (λ (s : Stored). saved s v.status) (sym (ap view is)) in
      (
        λ y r. (
          ap (λ (p : Answered). stored p.1) ran ∙ kept,
          sym (ap view_in (sym (ap (λ (p : Answered). p.0) ran) ∙ r)) ∙ kept,
        ),
        λ x r. inr (ap (λ (p : Answered). stored p.1) ran ∙ kept),
      )
]

others : (c : Call) (w : Cluster) → AfterPlain c (Unit {0}) → (holds c w).1.vr ≡ w.vr
unfolding serve
others (vr_update _) w p = absurd p
others (vr_update_status _) w p = absurd p
others (vr_create _) w p = absurd p
others (vr_delete _ _) w p = absurd p
others (sts_get _ _) w p = refl
others (sts_create sts) w p = elim (Option-cases w.sts) [
  | inl e ↦ rw (e, serve) refl
  | inr (x, e) ↦ rw (e, serve) refl
]
others c w p = refl

keeps : KeepsObject holds "default" "shrink" stored
keeps = record {
  reads = reads "default" "shrink";
  updates = updates;
  saves = saves;
  others = λ c w p. ap view (others c w p);
  fits = λ w ns name sts e. sized-fits (serve (sts_get ns name) w).0 sts e;
}

abbrev after : ℕ → Cluster
after zero = cluster
after (suc n) = (run holds (reconcile reading "default" "shrink") (after n) []).world

passes :
    (n : ℕ) → ReflTransGenᴰ (Turn holds reading "default" "shrink" stored keeps) cluster (after n)
passes zero = ReflTransGenᴰ.refl
passes (suc n) = ReflTransGenᴰ.tail (passes n) (Turn.pass (after n))

five : (stored (after 5)).status.phase ≡ completed
unfolding opened
five = refl

four : (stored (after 4)).status.phase ≡ syncing
unfolding opened
four = refl

passes_complete_example :
    let ss = (stored (after 5)).status.volume_statuses in
    (replicas : Int32) × ((map key_of ss
        ≡ map key_of
            (append_replicas (loop_rounds replicas) 0 (stored cluster).target.2.volumes []))
      × (all (λ vs. already_completed vs.volume_name vs.replica ss) ss ≡ true))
passes_complete_example =
    passes_complete holds reading "default" "shrink" stored keeps cluster (after 5) (passes 5)
      (inl refl) five

passes_in_order_example :
    let st = (stored (after 4)).status in
    (r : Int32) × ((i : ℕ) × ((st.current_replica ≡ some r)
        × ((volume_index? st.current_volume (stored cluster).target.2.volumes ≡ some i)
            × (all
                  (λ vs.
                    not (is_before r i (stored cluster).target.2.volumes (key_of vs))
                    || already_completed vs.volume_name vs.replica st.volume_statuses)
                  st.volume_statuses
                ≡ true))))
passes_in_order_example =
    passes_in_order holds reading "default" "shrink" stored keeps cluster (after 4) (passes 4)
      (inl refl) four

abbrev templates_in : Except StatefulSet → List Pvc
templates_in (ok sts) = sts.spec.volume_claim_templates
templates_in (err e) = []

refused_backup :
    (x cm : ConfigMap)
    → is_web (lookup config_map_key_sts_spec x.entries) ≡ false
    → backed (ok x) ≡ ok cm
    → ⊥
refused_backup x cm other e = let gone : backed (ok x) ≡ fault not_found = rw other refl in cc

abbrev text_in : Except ConfigMap → Option String
text_in (ok cm) = lookup config_map_key_sts_spec cm.entries
text_in (err e) = none

backed-is_web :
    (r : Except ConfigMap) (cm : ConfigMap)
    → backed r ≡ ok cm
    → is_web (lookup config_map_key_sts_spec cm.entries) ≡ true
backed-is_web (ok x) cm e = elim (Bool-cases (is_web (lookup config_map_key_sts_spec x.entries))) [
  | inl fine ↦
      let is : ok x ≡ ok cm = sym (rw fine refl) ∙ e in
      subst (λ (r : Except ConfigMap). is_web (text_in r) ≡ true) is fine
  | inr other ↦ absurd (refused_backup x cm other e)
]
backed-is_web (err x) cm e = cc

web_requests :
    (cm : ConfigMap) (json : String) (sts : StatefulSet) (v : Cluster)
    → (holds (config_map_get "default" (get_sts_backup_config_map_name "shrink")) v).0 ≡ ok cm
    → lookup config_map_key_sts_spec cm.entries ≡ some json
    → reading.unmarshal json ≡ ok sts
    → HaveRequests sts.spec.volume_claim_templates
web_requests cm json sts v answer text read =
    let fine : (json == "web") ≡ true =
      subst (λ (o : Option String). is_web o ≡ true) text
        (backed-is_web
          (serve (config_map_get "default" (get_sts_backup_config_map_name "shrink")) v).0 cm
          answer) in
    let is : ok web ≡ ok sts = sym (rw fine refl) ∙ read in
    subst (λ (x : Except StatefulSet). HaveRequests (templates_in x)) is
      (λ none_given. absurd cc, tt)

some_volume : 0 < length (stored cluster).target.2.volumes
some_volume = omega arith

forward_here : (c : Call) (w : Cluster) → w.clock ≤ (holds c w).1.clock
forward_here (sts_get ns name) w = forward (sts_get ns name) w
forward_here (config_map_get ns name) w = forward (config_map_get ns name) w
forward_here c w = forward c w

clock_here : IsClock holds (λ w. w.clock)
unfolding serve
clock_here = record {
  forward = forward_here;
  reads_after = λ w. omega arith;
  reads_before = λ w. omega arith;
  sleeps = λ d w. omega arith;
}

passes_return_example :
    let end = (run holds (reconcile reading "default" "shrink") (after 4) []).end in
    (o : Outcome) × ((end ≡ returned o) ⊎ (end ≡ stopped o))
passes_return_example =
    passes_return holds reading "default" "shrink" stored keeps (λ w. w.clock) clock_here cluster
      (after 4) (passes 4) (inl refl) some_volume web_requests
