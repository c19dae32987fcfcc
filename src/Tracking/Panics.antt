-- ===== src/Tracking/Panics.antt =====
-- Where Reconcile of internal/controller/volumeresize_controller.go may panic, why it does not, and
-- that it returns.
use mathlib.Mathlib.Logic.Relation.{ReflTransGenᴰ}
use migcontroller.Prelude.{
  ℕ, ◌<◌, String, ◌≡◌, ◌≢◌, refl, subst, ◌⊎◌, inl, inr, none, some, List, [], ◌∷◌, ◌==◌, Bool-cases,
  Option-cases, length, StringMap,
}
use migcontroller.Prelude.Dict.{insert, lookup}
use migcontroller.Objects.{ok, Pvc, StatefulSet, ConfigMap}
use migcontroller.Names.{get_sts_backup_config_map_name}
use migcontroller.VolumeResize.{VolumeResizeTarget, syncing, config_map_key_sts_spec}
use migcontroller.Call.{Lib, vr_get, config_map_get}
use migcontroller.Prog.{
  Prog, ret, stop, panic, out_of_fuel, call, Handler, Log, End, returned, stopped, panicked,
  exhausted, run,
}
use migcontroller.Controller.Results.{Outcome}
use migcontroller.Waiting.{IsClock}
use migcontroller.Waiting.Total.{IsOver}
use migcontroller.Waiting.Reconcile.{reconcile-Ends}
use migcontroller.Walk.Index.{get_elem?-lt}
use migcontroller.Controller.{reconcile}
use migcontroller.Controller.Syncing.{resize_template, resize_by_all, resize_templates}
use migcontroller.Tracking.{
  Target, IsBackup, Stored, MayPanic, no_volume, no_replica, no_requests, Tracks,
}
use migcontroller.Tracking.Refines.{serves, KeepsObject, Turn, one_call, read-Tracks}
use migcontroller.Tracking.Complete.{IsNew, passes_keep-IsGood}
use migcontroller.Tracking.Good.{IsGood, at_phase}

-- Every template has a map of requests.
abbrev pub HaveRequests : List Pvc → Type 0
HaveRequests [] = Unit {0}
HaveRequests (t ∷ rest) = (t.requests ≢ none) × HaveRequests rest

-- a template with requests is resized to one with requests
resize_template-some :
    (v : VolumeResizeTarget) (t : Pvc) (m : StringMap)
    → t.requests ≡ some m
    → (t' : Pvc) × ((resize_template v t ≡ some t') × ((m' : StringMap) × (t'.requests ≡ some m')))
unfolding resize_template
resize_template-some v t m given = elim (Bool-cases (t.meta.name == v.name)) [
  | inr e ↦ (t, (rw (e, resize_template) refl, (m, given)))
  | inl e ↦
      let t' : Pvc = record t {
        requests = some (insert "storage" v.new_size m);
        storage_class_name = elim v.storage_class [
          | some sc ↦ some sc
          | none ↦ t.storage_class_name
        ];
      } in
      (t', (simp (e, given, resize_template), (insert "storage" v.new_size m, refl)))
]

resize_by_all-some :
    (vs : List VolumeResizeTarget) (t : Pvc) (m : StringMap)
    → t.requests ≡ some m
    → (t' : Pvc) × (resize_by_all vs t ≡ some t')
unfolding resize_by_all
resize_by_all-some [] t m given = (t, refl)
resize_by_all-some (v ∷ rest) t m given =
    let (t', (e, (m', given'))) = resize_template-some v t m given in
    let (t'', e') = resize_by_all-some rest t' m' given' in (t'', rw (e, resize_by_all) e')

resize_templates-some :
    (vs : List VolumeResizeTarget) (ts : List Pvc)
    → HaveRequests ts
    → (ts' : List Pvc) × (resize_templates vs ts ≡ some ts')
unfolding resize_templates
resize_templates-some vs [] has = ([], refl)
resize_templates-some vs (t ∷ rest) (has, more) = elim (Option-cases t.requests) [
  | inl missing ↦ absurd (has missing)
  | inr (m, given) ↦
      let (t', e) = resize_by_all-some vs t m given in
      let (rest', e') = resize_templates-some vs rest more in
      (t' ∷ rest', rw (e, e', resize_templates) refl)
]

end_result :
    (e : End Outcome Outcome)
    → IsOver e
    → e ≢ panicked
    → (o : Outcome) × ((e ≡ returned o) ⊎ (e ≡ stopped o))
end_result (returned o) over calm = (o, inl refl)
end_result (stopped o) over calm = (o, inr refl)
end_result panicked over calm = absurd (calm refl)
end_result exhausted over calm = absurd over

module _ {W : Type 0} (h : Handler W) (lib : Lib) (namespace name : String) (stored : W → Stored)
    (keeps : KeepsObject h namespace name stored) where
  run-MayPanic :
      {X A : Type 0} (m : Prog X A) (post : Stored → A → Type 0) (w : W) (l : Log)
      → Tracks (serves h) lib (stored w) m post
      → (run h m w l).end ≡ panicked
      → MayPanic (serves h) lib (stored (run h m w l).world)
  unfolding run
  run-MayPanic (ret a) post w l t e = absurd cc
  run-MayPanic (stop x) post w l t e = absurd cc
  run-MayPanic panic post w l t e = t
  run-MayPanic out_of_fuel post w l t e = absurd cc
  run-MayPanic (call c k) post w l t e =
      let (next, here) =
        one_call h lib namespace name stored keeps c w (λ r s'. Tracks (serves h) lib s' (k r) post)
          t in
      run-MayPanic (k (h c w).0) post (h c w).1 ((c, (h c w).0) ∷ l) next e

  pass-MayPanic :
      (w : W)
      → (run h (reconcile lib namespace name) w []).end ≡ panicked
      → MayPanic (serves h) lib (stored (run h (reconcile lib namespace name) w []).world)
  unfolding reconcile run
  pass-MayPanic w e =
      let (r, w') = h (vr_get namespace name) w in
      let kept : stored w' ≡ stored w = keeps.others (vr_get namespace name) w tt in
      run-MayPanic _ (λ _ _. Unit {0}) w' ((vr_get namespace name, r) ∷ [])
        (read-Tracks h lib namespace name stored keeps w w' r kept (keeps.reads w)) e

  -- Each StatefulSet that a text of the backup reads as has requests in its templates.
  abbrev HasGoodBackup : Target → Type 0
  HasGoodBackup t =
      (json : String) (sts : StatefulSet)
      → IsBackup (serves h) t.0 t.1 json
      → lib.unmarshal json ≡ ok sts
      → HaveRequests sts.spec.volume_claim_templates

  not_possible :
      (s : Stored)
      → 0 < length s.target.2.volumes
      → HasGoodBackup s.target
      → IsGood s.target.2.volumes s.status
      → MayPanic (serves h) lib s
      → ⊥
  not_possible s some_volume requests good (no_volume e) =
      let (v, is_first) = get_elem?-lt s.target.2.volumes 0 some_volume in cc
  not_possible s some_volume requests good (no_replica phase e) =
      let (r, (volume, (at, work))) = at_phase s.target.2.volumes s.status syncing phase good in
      let e' = at.at_replica in cc
  not_possible s some_volume requests good (no_requests json sts backup read e) =
      let (ts, e') =
        resize_templates-some s.target.2.volumes sts.spec.volume_claim_templates
          (requests json sts backup read) in
      cc

  passes_never_panic :
      (w w' : W)
      → ReflTransGenᴰ (Turn h lib namespace name stored keeps) w w'
      → IsNew (stored w)
      → 0 < length (stored w).target.2.volumes
      → HasGoodBackup (stored w).target
      → (run h (reconcile lib namespace name) w' []).end ≢ panicked
  passes_never_panic w w' turns new some_volume requests e =
      let last = (run h (reconcile lib namespace name) w' []).world in
      let (kept, good) =
        passes_keep-IsGood h lib namespace name stored keeps w last
          (ReflTransGenᴰ.tail turns (Turn.pass w')) new in
      subst
        (λ (t : Target).
          0 < length t.2.volumes → HasGoodBackup t → IsGood t.2.volumes (stored last).status → ⊥)
        kept (λ volume backup is. not_possible (stored last) volume backup is (pass-MayPanic w' e))
        some_volume requests good

  -- Where an API server keeps the VolumeResize as for passes_move, its clock does not run
  -- backwards and advances by what is slept, the spec has a volume, and the text that the API
  -- server holds, in any state, as the StatefulSet in the ConfigMap of the VolumeResize's backup
  -- reads back, if at all, as one with a map of requests in each template, then after any sequence
  -- of passes of Reconcile, and of changes by others that leave namespace, name, spec and status,
  -- from the phase unset or Pending, a further pass returns a result: it does not panic, and no
  -- wait loop uses up its fuel.
  pub passes_return :
      (time : W → ℕ)
      → IsClock h time
      → (w w' : W) → ReflTransGenᴰ (Turn h lib namespace name stored keeps) w w'
      → IsNew (stored w)
      → 0 < length (stored w).target.2.volumes
      → ((cm : ConfigMap) (json : String) (sts : StatefulSet) (v : W)
          → (h
              (config_map_get
                (stored w).target.0
                (get_sts_backup_config_map_name (stored w).target.1))
              v).0
            ≡ ok cm
          → lookup config_map_key_sts_spec cm.entries ≡ some json
          → lib.unmarshal json ≡ ok sts
          → HaveRequests sts.spec.volume_claim_templates)
      → let end = (run h (reconcile lib namespace name) w' []).end in
        (o : Outcome) × ((end ≡ returned o) ⊎ (end ≡ stopped o))
  passes_return time clock w w' turns new some_volume requests =
      end_result _ (reconcile-Ends h time clock lib namespace name w' []) (
        passes_never_panic w w' turns new some_volume (λ json sts backup read.
          requests backup.config_map json sts backup.answered.0 backup.answered.1 backup.text read))
