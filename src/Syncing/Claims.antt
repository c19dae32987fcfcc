-- ===== src/Syncing/Claims.antt =====
-- The claims: from the first read to the two deletions.
use mathlib.Core.List.{Memᴰ}
use migcontroller.Prelude.Int32.{Int32}
use migcontroller.Prelude.{String, ◌≡◌, refl, inl, inr, true, some, ◌∷◌, if◌then◌else◌, false}
use migcontroller.Objects.{
  ok, err, Pvc, Pv, ReclaimPolicy, retain, reclaim_delete, recycle, is_not_found, BindingMode,
  immediate, wait_for_first_consumer,
}
use migcontroller.VolumeResize.{VolumeResize, VolumeResizeTarget}
use migcontroller.Call.{storage_class_get, Lib, pvc_get, pv_get}
use migcontroller.Prog.{Log, ret, ask, ◌>>=◌}
use migcontroller.Prog.Safe.{
  Spec, Safe, Extends, Has-Extends, Extends-trans, Safe-bind, Safe-if, Safe-try, OnOk,
}
use migcontroller.Pvc.{get_pvc, create_temp_pvc, set_retain_on_pv, update_to_retain, is_retain}
use migcontroller.Controller.Syncing.{prepare_volumes, wait_for_binding, is_bound}
use migcontroller.Names.{get_original_pvc_name}
use migcontroller.Prelude.{Option, none, ◌==◌}
use migcontroller.Controller.Results.{Outcome, set_failed, fail}
use migcontroller.Syncing.Guard.{Has, Target, sync_spec, IsRetained, KeepsVolume}

pub IsRetained-Extends :
    (name : String) {l m : Log} → IsRetained name l → Extends l m → IsRetained name m
IsRetained-Extends name (pv, h, inl r) x = (pv, Has-Extends h x, inl r)
IsRetained-Extends name (pv, h, inr (stored, u)) x =
    (pv, Has-Extends h x, inr (stored, Has-Extends u x))

pub KeepsVolume-Extends :
    (namespace name : String) {l m : Log}
    → KeepsVolume namespace name l
    → Extends l m
    → KeepsVolume namespace name m
KeepsVolume-Extends namespace name (p, h, r) x =
    (p, Has-Extends h x, IsRetained-Extends p.volume_name r x)

module _ {X : Type 0} (s : Spec X) where
  pub get_pvc-Safe :
      (l : Log) (namespace name : String)
      → s.guard l (pvc_get namespace name)
      → Safe s l
          (get_pvc namespace name)
          (λ l' r. OnOk r (λ p. Has l' (pvc_get namespace name) (ok p)))
  unfolding get_pvc
  get_pvc-Safe l namespace name g = (g, elim [ ok p ↦ λ _. Memᴰ.head refl | err e ↦ λ _. tt ])

module _ (lib : Lib) (t : Target) where
  -- the early returns and setFailed ask for nothing that is guarded
  pub fail-Safe :
      {A : Type 0} (l : Log) (vr : VolumeResize) (message : String) (post : Log → A → Type 0)
      → Safe (sync_spec lib t) l (fail vr message) post
  unfolding set_failed
  fail-Safe l vr message post = (tt, elim [ ok v ↦ λ _. tt | err e ↦ λ _. tt ])

  retained :
      (l : Log) (name : String) (pv : Pv) (policy : ReclaimPolicy)
      → pv.reclaim_policy ≡ policy
      → Has l (pv_get name) (ok pv)
      → Safe
          (sync_spec lib t)
          l
          (is_retain policy (ret (ok tt)) (update_to_retain name pv))
          (λ l' r. OnOk r (λ _. IsRetained name l'))
  unfolding update_to_retain
  retained l name pv retain e h = (pv, h, inl e)
  retained l name pv reclaim_delete e h = (
    tt,
    elim [ ok stored ↦ λ _. (pv, Memᴰ.tail h, inr (stored, Memᴰ.head refl)) | err _ ↦ λ _. tt ],
  )
  retained l name pv recycle e h = (
    tt,
    elim [ ok stored ↦ λ _. (pv, Memᴰ.tail h, inr (stored, Memᴰ.head refl)) | err _ ↦ λ _. tt ],
  )

  pub set_retain_on_pv-Safe :
      (l : Log) (name : String)
      → Safe (sync_spec lib t) l (set_retain_on_pv name) (λ l' r. OnOk r (λ _. IsRetained name l'))
  unfolding set_retain_on_pv
  set_retain_on_pv-Safe l name = (
    tt,
    elim [
      | ok pv ↦
          λ _. retained ((pv_get name, ok pv) ∷ l) name pv pv.reclaim_policy refl (Memᴰ.head refl)
      | err e ↦ λ _. tt
    ],
  )

  create_temp_pvc-Safe :
      (l : Log) (vr : VolumeResize) (vol : VolumeResizeTarget) (original_pvc : Pvc)
      (replica : Int32)
      → Safe
          (sync_spec lib t)
          l
          (create_temp_pvc vr vol original_pvc replica)
          (λ l' r. OnOk r (λ _. Unit {0}))
  unfolding create_temp_pvc
  create_temp_pvc-Safe l vr vol original_pvc replica = (
    tt,
    elim [
      | ok p ↦ λ _. tt
      | err e ↦ λ _.
          Safe-if (sync_spec lib t) _ (is_not_found e) _ _ _
            (λ _. (tt, elim [ ok p ↦ λ _. tt | err e' ↦ λ _. tt ])) (λ _. tt)
    ],
  )

  wait_for_binding-Safe :
      (l : Log) (temp_pvc : Pvc)
      → Safe (sync_spec lib t) l (wait_for_binding temp_pvc) (λ _ _. Unit {0})
  unfolding wait_for_binding
  wait_for_binding-Safe l temp_pvc = by_class temp_pvc.storage_class_name
    where
      by_mode :
          (m : Log) (mode : Option BindingMode)
          → Safe
              (sync_spec lib t)
              m
              (elim mode [ some wait_for_first_consumer ↦ ret false | _ ↦ ret true ])
              (λ _ _. Unit {0})
      by_mode m none = tt
      by_mode m (some immediate) = tt
      by_mode m (some wait_for_first_consumer) = tt

      by_class :
          (sc : Option String)
          → Safe
              (sync_spec lib t)
              l
              (elim sc [
                | none ↦ ret true
                | some name ↦ if name == "" then ret true else (do
                  found ← ask (storage_class_get name)
                  elim found [
                    | err _ ↦ ret true
                    | ok sc ↦ elim sc.binding_mode [
                      | some wait_for_first_consumer ↦ ret false
                      | _ ↦ ret true
                    ]
                  ])
              ])
              (λ _ _. Unit {0})
      by_class none = tt
      by_class (some name) =
          Safe-if (sync_spec lib t) l (name == "") _ _ _ (λ _. tt)
            (λ _. (tt, elim [ ok sc ↦ λ _. by_mode _ sc.binding_mode | err _ ↦ λ _. tt ]))

  -- behind prepareVolumes the original claim was read, and its volume is retained
  pub prepare_volumes-Safe :
      (l : Log) (vr : VolumeResize) (vol : VolumeResizeTarget) (vol_name : String) (replica : Int32)
      → let name = get_original_pvc_name vol_name vr.spec.stateful_set_name replica in
        Safe
          (sync_spec lib t)
          l
          (prepare_volumes vr vol vol_name replica)
          (λ l' _. KeepsVolume vr.meta.namespace name l')
  unfolding prepare_volumes
  prepare_volumes-Safe l vr vol vol_name replica =
      Safe-try s l (get_pvc vr.meta.namespace name) _ _
        (λ l' p. Has l' (pvc_get vr.meta.namespace name) (ok p)) _
        (get_pvc-Safe s l vr.meta.namespace name tt) (λ l' e _. fail-Safe l' vr _ _)
        (λ l₁ p x₁ read.
          Safe-try s l₁ (create_temp_pvc vr vol p replica) _ _ (λ _ _. Unit {0}) _
            (create_temp_pvc-Safe l₁ vr vol p replica) (λ l' e _. fail-Safe l' vr _ _)
            (λ l₂ temp x₂ _.
              Safe-bind s l₂ (wait_for_binding temp) _ (λ _ _. Unit {0}) _
                (wait_for_binding-Safe l₂ temp)
                (λ l₃ waits x₃ _.
                  Safe-bind s l₃ (if waits then _ else _) _ (λ _ _. Unit {0}) _
                    (Safe-if s l₃ waits _ _ _
                      (λ _. Safe-if s l₃ (is_bound temp.phase) _ _ _ (λ _. tt) (λ _. tt)) (λ _. tt))
                    (λ l₄ _ x₄ _.
                      Safe-try s l₄ (set_retain_on_pv p.volume_name) _ _
                        (λ l' _. IsRetained p.volume_name l') _
                        (set_retain_on_pv-Safe l₄ p.volume_name) (λ l' e _. fail-Safe l' vr _ _)
                        (λ l₅ _ x₅ kept. (
                          p,
                          Has-Extends read
                              (Extends-trans x₂ (Extends-trans x₃ (Extends-trans x₄ x₅))),
                          kept,
                        ))))))
    where
      s : Spec Outcome
      s = sync_spec lib t

      name : String
      name = get_original_pvc_name vol_name vr.spec.stateful_set_name replica
