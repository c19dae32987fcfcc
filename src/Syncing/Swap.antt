-- ===== src/Syncing/Swap.antt =====
-- replacePVC and the two updates of the status around it.
use mathlib.Core.List.{Memᴰ}
use mathlib.Core.Path.{subst₂}
use migcontroller.Prelude.{
  ℕ, zero, suc, String, ◌≡◌, refl, sym, inl, inr, some, [], ◌∷◌, ◌==◌, if◌then◌else◌,
}
use migcontroller.Objects.{GoError, ok, err, is_not_found, Pvc, wrap}
use migcontroller.VolumeResize.{VolumeResize}
use migcontroller.Call.{Lib, pvc_get, pvc_create, pvc_delete}
use migcontroller.Prog.{Prog, Log, ret, stop, ask, ◌>>=◌, attempt}
use migcontroller.Prog.Safe.{
  Spec, inside, Safe, Extends, same, later, Has-Extends, Extends-trans, Safe-bind, Safe-if,
  Safe-attempt, Safe-try, OnOk,
}
use migcontroller.Pvc.{
  get_pvc, wait_for_pvc_deletion, release_temp_pvc, bind_new_pvc, new_pvc_object, replace_pvc,
}
use migcontroller.Names.{get_original_pvc_name, get_temp_pvc_name}
use migcontroller.Syncing.Guard.{
  Has, Target, IsOf, sync_spec, IsRetained, KeepsVolume, MayDeleteClaim, IsOver, original_name,
  temp_name,
}
use migcontroller.Syncing.Claims.{get_pvc-Safe, KeepsVolume-Extends}

pub IsOver-Extends :
    (t : Target) (namespace : String) {l m : Log}
    → IsOver t namespace l
    → Extends l m
    → IsOver t namespace m
IsOver-Extends t namespace (name, k, seen, inl (pod, y, h, e)) x =
    (name, k, seen, inl (pod, Extends-trans y x, Has-Extends h x, e))
IsOver-Extends t namespace (name, k, seen, inr (inl (e, y))) x =
    (name, k, seen, inr (inl (e, Extends-trans y x)))
IsOver-Extends t namespace (name, k, seen, inr (inr (pod, y, e))) x =
    (name, k, seen, inr (inr (pod, Extends-trans y x, e)))

-- A claim with the original name and the new size was created.
abbrev pub IsCreated : Target → Log → Type 0
IsCreated t l =
    (p : Pvc) × (stored : Pvc) × (p.meta.name ≡ original_name t)
    × (p.requests ≡ some (("storage", t.vol.new_size) ∷ []))
    × Has l (pvc_create p) (ok stored)

module _ (lib : Lib) (t : Target) where
  -- the same demands in a function that returns an error
  abbrev pub inner : Spec GoError
  inner = inside (sync_spec lib t) (λ l e. Unit {0})

  wait_for_pvc_deletion-Safe :
      (rounds : ℕ) (l : Log) (message namespace name : String)
      → Safe inner l
          (wait_for_pvc_deletion rounds message namespace name)
          (λ l' r. OnOk r (λ _. Unit {0}))
  unfolding wait_for_pvc_deletion
  wait_for_pvc_deletion-Safe zero l message namespace name = tt
  wait_for_pvc_deletion-Safe (suc rounds) l message namespace name = (
    tt,
    elim [
      | ok p ↦ λ _. (
        tt,
        elim [
          | ok u ↦ λ _. wait_for_pvc_deletion-Safe rounds _ message namespace name
          | err e ↦ λ _. tt
        ],
      )
      | err e ↦ λ _. Safe-if inner _ (is_not_found e) _ _ _ (λ _. tt) (λ _. tt)
    ],
  )

  pub tolerated :
      (l : Log) (message : String) (e : GoError)
      → Safe inner l
          (if is_not_found e then ret tt else stop (wrap message e))
          (λ l' (_ : Unit {0}). Unit {0})
  tolerated l message e = Safe-if inner l (is_not_found e) _ _ _ (λ _. tt) (λ _. tt)

  may_delete_temp :
      (l : Log) (temp : Pvc)
      → Has l (pvc_get t.namespace (temp_name t)) (ok temp)
      → IsRetained temp.volume_name l
      → MayDeleteClaim t l temp.meta.namespace temp.meta.name
  may_delete_temp l temp read kept =
      (temp, temp_name t, inr refl, read, refl, refl, (temp, read, kept))

  release_temp_pvc-Safe :
      (l : Log)
      → KeepsVolume t.namespace (original_name t) l
      → IsOver t t.namespace l
      → Safe inner l
          (release_temp_pvc t.namespace (original_name t) (temp_name t))
          (λ l' claims. Has l' (pvc_get t.namespace (original_name t)) (ok claims.1))
  unfolding release_temp_pvc
  release_temp_pvc-Safe l kept over =
      Safe-try inner l (get_pvc t.namespace (temp_name t)) _ _
        (λ l' p. Has l' (pvc_get t.namespace (temp_name t)) (ok p)) _
        (get_pvc-Safe inner l t.namespace (temp_name t) tt) (λ _ _ _. tt)
        (λ l₁ temp x₁ read_temp.
          Safe-bind inner l₁ (if temp.volume_name == "" then _ else _) _ (λ _ _. Unit {0}) _
            (Safe-if inner l₁ (temp.volume_name == "") _ _ _ (λ _. tt) (λ _. tt))
            (λ l₂ _ x₂ _.
              Safe-try inner l₂ (get_pvc t.namespace (original_name t)) _ _
                (λ l' p. Has l' (pvc_get t.namespace (original_name t)) (ok p)) _
                (get_pvc-Safe inner l₂ t.namespace (original_name t) tt) (λ _ _ _. tt)
                (λ l₃ original x₃ read. (
                  tt,
                  elim [
                    | err e ↦ λ _. tt
                    | ok pv ↦ λ _. (
                      tt,
                      elim [
                        | err e ↦ λ _. tt
                        | ok stored ↦ λ _.
                            Safe-try inner _ (ask (pvc_delete temp.meta.namespace temp.meta.name)) _
                              _ (λ _ _. Unit {0}) _
                              (
                                (
                                  may_delete_temp _ temp
                                      (Has-Extends read_temp
                                        (Extends-trans x₂ (Extends-trans x₃ (later (later same)))))
                                      (
                                        pv,
                                        Memᴰ.tail (Memᴰ.head refl),
                                        inr (stored, Memᴰ.head refl),
                                      ),
                                  IsOver-Extends t t.namespace over (
                                      Extends-trans x₁
                                        (Extends-trans x₂ (Extends-trans x₃ (later (later same))))),
                                ),
                                elim [ ok u ↦ λ _. tt | err e ↦ λ _. tt ],
                              )
                              (λ l' e _. tolerated l' _ e)
                              (λ l₄ _ x₄ _.
                                Safe-try inner l₄ (wait_for_pvc_deletion 60 _ _ _) _ _
                                  (λ _ _. Unit {0}) _ (wait_for_pvc_deletion-Safe 60 l₄ _ _ _)
                                  (λ _ _ _. tt)
                                  (λ l₅ _ x₅ _.
                                    Has-Extends read
                                      (Extends-trans (later (later same)) (Extends-trans x₄ x₅))))
                      ],
                    )
                  ],
                ))))

  bind_new_pvc-Safe :
      (l : Log) (temp original : Pvc)
      → Has l (pvc_get t.namespace (original_name t)) (ok original)
      → KeepsVolume t.namespace (original_name t) l
      → IsOver t t.namespace l
      → Safe inner l
          (bind_new_pvc t.namespace (original_name t) t.vol temp original)
          (λ l' _. IsCreated t l')
  unfolding bind_new_pvc
  bind_new_pvc-Safe l temp original read kept over = (
    tt,
    elim [
      | err e ↦ λ _. tt
      | ok pv ↦ λ _. (
        tt,
        elim [
          | err e ↦ λ _. tt
          | ok stored ↦ λ _.
              Safe-try inner _ (ask (pvc_delete original.meta.namespace original.meta.name)) _ _
                (λ _ _. Unit {0}) _
                (
                  (
                    (
                      original,
                      original_name t,
                      inl refl,
                      Has-Extends read (later (later same)),
                      refl,
                      refl,
                      KeepsVolume-Extends t.namespace (original_name t) kept (later (later same)),
                    ),
                    IsOver-Extends t t.namespace over (later (later same)),
                  ),
                  elim [ ok u ↦ λ _. tt | err e ↦ λ _. tt ],
                )
                (λ l' e _. tolerated l' _ e)
                (λ l₁ _ x₁ _.
                  Safe-try inner l₁ (wait_for_pvc_deletion 60 _ _ _) _ _ (λ _ _. Unit {0}) _
                    (wait_for_pvc_deletion-Safe 60 l₁ _ _ _) (λ _ _ _. tt)
                    (λ l₂ _ x₂ _. (
                      tt,
                      elim [
                        | err e ↦ λ _. tt
                        | ok new_pvc ↦ λ _. (
                          new_pvc_object t.namespace (original_name t) temp original t.vol,
                          new_pvc,
                          refl,
                          refl,
                          Memᴰ.head refl,
                        )
                      ],
                    )))
        ],
      )
    ],
  )

module _ (lib : Lib) (t : Target) where
  pub replace_pvc-Safe :
      (l : Log) (vr : VolumeResize)
      → IsOf t vr
      → KeepsVolume t.namespace (original_name t) l
      → IsOver t t.namespace l
      → Safe
          (sync_spec lib t)
          l
          (replace_pvc vr t.vol t.replica)
          (λ l' r. OnOk r (λ _. IsCreated t l'))
  unfolding replace_pvc
  replace_pvc-Safe l vr of kept over = subst₂ at_names (sym of.namespace) (sym of.sts_name) (
      Safe-attempt (sync_spec lib t) l (steps t.namespace t.sts_name)
        (λ l' r. OnOk r (λ _. IsCreated t l'))
        (Safe-bind (inner lib t) l (release_temp_pvc t.namespace (original_name t) (temp_name t)) _
          (λ l' claims. Has l' (pvc_get t.namespace (original_name t)) (ok claims.1)) _
          (release_temp_pvc-Safe lib t l kept over)
          (λ l₁ claims x₁ read.
            bind_new_pvc-Safe lib t l₁ claims.0 claims.1 read
              (KeepsVolume-Extends t.namespace (original_name t) kept x₁)
              (IsOver-Extends t t.namespace over x₁))))
    where
      steps : String → String → Prog GoError (Unit {0})
      steps n k =
          release_temp_pvc n (get_original_pvc_name t.vol.name k t.replica)
            (get_temp_pvc_name t.vol.name k t.replica)
          >>= λ claims.
              bind_new_pvc n (get_original_pvc_name t.vol.name k t.replica) t.vol claims.0 claims.1

      at_names : String → String → Type 0
      at_names n k =
          Safe (sync_spec lib t) l (attempt (steps n k)) (λ l' r. OnOk r (λ _. IsCreated t l'))
