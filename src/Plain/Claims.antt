-- ===== src/Plain/Claims.antt =====
-- The functions of internal/controller/pvc.go, and the question of handleSyncing whether
-- to wait for a binding.
use migcontroller.Prelude.{
  ℕ, zero, suc, String, Option, none, some, inl, inr, Option-cases, ◌==◌, true, false,
  if◌then◌else◌,
}
use migcontroller.Prelude.Int32.{Int32}
use migcontroller.Objects.{
  Except, ok, err, GoError, is_not_found, Pvc, ReclaimPolicy, retain, BindingMode,
  wait_for_first_consumer, immediate,
}
use migcontroller.VolumeResize.{VolumeResize, VolumeResizeTarget}
use migcontroller.Prog.{Prog, ret, stop, ◌>>=◌, expect, tolerate_not_found, or_stop}
use migcontroller.Pvc.{
  get_pvc, create_temp_pvc, create_new_temp_pvc, update_to_retain, is_retain, set_retain_on_pv,
  wait_for_pvc_deletion, release_temp_pvc, bind_new_pvc, replace_pvc,
}
use migcontroller.Controller.Results.{Outcome}
use migcontroller.Controller.Syncing.{wait_for_binding}
use migcontroller.Plain.{
  IsPlain, IsPlain-bind, IsPlain-attempt, IsPlain-if, IsPlain-try, IsPlain-tolerate_not_found,
  IsPlain-expect,
}

module _ (loops : Type 0) where
  pub get_pvc-IsPlain :
      (X : Type 0) (namespace name : String) → IsPlain loops (get_pvc {X = X} namespace name)
  unfolding get_pvc
  get_pvc-IsPlain X namespace name = elim [ ok _ ↦ tt | err _ ↦ tt ]

  pub create_temp_pvc-IsPlain :
      (X : Type 0) (vr : VolumeResize) (vol : VolumeResizeTarget) (p : Pvc) (replica : Int32)
      → IsPlain loops (create_temp_pvc {X = X} vr vol p replica)
  unfolding create_temp_pvc create_new_temp_pvc get_pvc
  create_temp_pvc-IsPlain X vr vol p replica = elim [
    | ok _ ↦ tt
    | err e ↦ IsPlain-if loops (is_not_found e) _ _ (elim [ ok _ ↦ tt | err _ ↦ tt ]) tt
  ]

  is_retain-IsPlain :
      (X : Type 0) (policy : ReclaimPolicy) (m n : Prog X (Except (Unit {0})))
      → IsPlain loops m
      → IsPlain loops n
      → IsPlain loops (is_retain policy m n)
  is_retain-IsPlain X retain m n t u = t
  is_retain-IsPlain X _ m n t u = u

  pub set_retain_on_pv-IsPlain :
      (X : Type 0) (name : String) → IsPlain loops (set_retain_on_pv {X = X} name)
  unfolding set_retain_on_pv update_to_retain
  set_retain_on_pv-IsPlain X name = elim [
    | ok pv ↦ is_retain-IsPlain X pv.reclaim_policy _ _ tt (elim [ ok _ ↦ tt | err _ ↦ tt ])
    | err _ ↦ tt
  ]

  wait_for_pvc_deletion-IsPlain :
      (X : Type 0) (n : ℕ) (message namespace name : String)
      → IsPlain loops (wait_for_pvc_deletion {X = X} n message namespace name)
  unfolding wait_for_pvc_deletion get_pvc
  wait_for_pvc_deletion-IsPlain X zero message namespace name = tt
  wait_for_pvc_deletion-IsPlain X (suc n) message namespace name = elim [
    | ok _ ↦ elim [ ok _ ↦ wait_for_pvc_deletion-IsPlain X n message namespace name | err _ ↦ tt ]
    | err e ↦ IsPlain-if loops (is_not_found e) _ _ tt tt
  ]

  pub expected :
      {A B : Type 0} (message : String) (r : Except A) (k : A → Prog GoError B)
      → ((a : A) → IsPlain loops (k a))
      → IsPlain loops (expect message r >>= k)
  expected message r k t =
      IsPlain-bind loops (expect message r) k (IsPlain-expect loops message r) t

  pub tolerated :
      {B : Type 0} (message : String) (r : Except (Unit {0})) (k : Unit {0} → Prog GoError B)
      → ((a : Unit {0}) → IsPlain loops (k a))
      → IsPlain loops (tolerate_not_found message r >>= k)
  tolerated message r k t =
      IsPlain-bind loops (tolerate_not_found message r) k
        (IsPlain-tolerate_not_found loops message r) t

  waited :
      {B : Type 0} (n : ℕ) (message namespace name : String) (k : Unit {0} → Prog GoError B)
      → ((a : Unit {0}) → IsPlain loops (k a))
      → IsPlain loops (wait_for_pvc_deletion n message namespace name >>= λ r. or_stop r >>= k)
  waited n message namespace name k t =
      IsPlain-try loops (wait_for_pvc_deletion n message namespace name) stop k
        (wait_for_pvc_deletion-IsPlain GoError n message namespace name) (λ _. tt) t

  bind_new_pvc-IsPlain :
      (namespace name : String) (vol : VolumeResizeTarget) (temp original : Pvc)
      → IsPlain loops (bind_new_pvc namespace name vol temp original)
  unfolding bind_new_pvc
  bind_new_pvc-IsPlain namespace name vol temp original = λ r. expected _ r _ (λ pv. λ r₁.
      expected _ r₁ _ (λ _.
        λ r₂. tolerated _ r₂ _ (λ _. waited 60 _ _ _ _ (λ _. λ r₃. expected _ r₃ _ (λ _. tt)))))

  release_temp_pvc-IsPlain :
      (namespace original temp : String) → IsPlain loops (release_temp_pvc namespace original temp)
  unfolding release_temp_pvc
  release_temp_pvc-IsPlain namespace original temp =
      IsPlain-bind loops (get_pvc namespace temp) _ (get_pvc-IsPlain GoError namespace temp) (λ r.
        expected _ r _ (λ p.
          IsPlain-bind loops (if p.volume_name == "" then _ else _) _
            (IsPlain-if loops (p.volume_name == "") _ _ tt tt)
            (λ _.
              IsPlain-bind loops (get_pvc namespace original) _
                (get_pvc-IsPlain GoError namespace original)
                (λ r₁. expected _ r₁ _ (λ _ r₂. expected _ r₂ _ (λ _ r₃.
                  expected _ r₃ _
                    (λ _ r₄. tolerated _ r₄ _ (λ _. waited 60 _ _ _ _ (λ _. tt)))))))))

  pub replace_pvc-IsPlain :
      (X : Type 0) (vr : VolumeResize) (vol : VolumeResizeTarget) (replica : Int32)
      → IsPlain loops (replace_pvc {X = X} vr vol replica)
  unfolding replace_pvc
  replace_pvc-IsPlain X vr vol replica = IsPlain-attempt loops X _ (
      IsPlain-bind loops (release_temp_pvc _ _ _) _ (release_temp_pvc-IsPlain _ _ _)
        (λ claims. bind_new_pvc-IsPlain _ _ vol claims.0 claims.1))

  binding_mode-IsPlain :
      (mode : Option BindingMode)
      → IsPlain loops {X = Outcome}
          (elim mode [ some wait_for_first_consumer ↦ ret false | _ ↦ ret true ])
  binding_mode-IsPlain none = tt
  binding_mode-IsPlain (some wait_for_first_consumer) = tt
  binding_mode-IsPlain (some immediate) = tt

  pub wait_for_binding-IsPlain : (temp : Pvc) → IsPlain loops (wait_for_binding temp)
  unfolding wait_for_binding
  wait_for_binding-IsPlain temp = elim (Option-cases temp.storage_class_name) [
    | inl missing ↦ rw missing tt
    | inr (name, given) ↦ rw given (
        IsPlain-if loops (name == "") (ret true) _ tt
          (elim [ ok sc ↦ binding_mode-IsPlain sc.binding_mode | err _ ↦ tt ]))
  ]
