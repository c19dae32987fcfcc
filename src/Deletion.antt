-- ===== src/Deletion.antt =====
-- What handleDeletion of internal/controller/volumeresize_controller.go deletes, and what it has
-- deleted when it lets go of the VolumeResize.
use mathlib.Core.List.{Memᴰ}
use migcontroller.Prelude.{◌≡◌, refl, ◌⊎◌, inl, inr, List, [], ◌∷◌, StringMap}
use migcontroller.Objects.{Except, ok, err, GoError, Pvc, Pod}
use migcontroller.VolumeResize.{VolumeResize, label_migration_name}
use migcontroller.Call.{Call, Answer, Lib, vr_update, pvc_list, pvc_delete, pod_list, pod_delete}
use migcontroller.Prog.{End, returned, stopped, panicked, exhausted, Log, ret, Handler, run}
use migcontroller.Prog.Safe.{
  Spec, Safe, Extends, Extends-trans, same, later, Has-Extends, Guarded, Safe-bind, Safe-mono-from,
  run-Safe, Safe-mono, Ends,
}
use migcontroller.Controller.{delete_pvcs, delete_pods, without_finalizer, handle_deletion}
use migcontroller.Controller.Results.{Outcome, finished, failure}
use migcontroller.Syncing.Guard.{Has}
use migcontroller.Validating.{AllOf, AllOf-mono}
use migcontroller.Validating.Start.{any_answer}

-- the labels of the objects of a VolumeResize
abbrev own_labels : VolumeResize → StringMap
own_labels vr = (label_migration_name, vr.meta.name) ∷ []

abbrev pub WasAsked : Log → Call → Type 0
WasAsked l c = (r : Answer c) × Has l c r

WasAsked-Extends : (c : Call) {l m : Log} → Extends l m → WasAsked l c → WasAsked m c
WasAsked-Extends c x (r, h) = (r, Has-Extends h x)

-- Its deletion was asked for.
abbrev IsPvcGone : Log → Pvc → Type 0
IsPvcGone l p = WasAsked l (pvc_delete p.meta.namespace p.meta.name)

abbrev IsPodGone : Log → Pod → Type 0
IsPodGone l p = WasAsked l (pod_delete p.meta.namespace p.meta.name)

-- What holds of the listed objects; nothing, when listing failed.
abbrev AllListed : {A : Type 0} → (A → Type 0) → Except (List A) → Type 0
AllListed P (ok items) = AllOf P items
AllListed P (err e) = Unit {0}

abbrev ArePvcsGone : VolumeResize → Log → Type 0
ArePvcsGone vr l =
    (r : Except (List Pvc)) × Has l (pvc_list vr.meta.namespace (own_labels vr)) r
    × AllListed (IsPvcGone l) r

abbrev ArePodsGone : VolumeResize → Log → Type 0
ArePodsGone vr l =
    (r : Except (List Pod)) × Has l (pod_list vr.meta.namespace (own_labels vr)) r
    × AllListed (IsPodGone l) r

-- the VolumeResize with what controllerutil.RemoveFinalizer leaves of its finalizers
abbrev pub released : Lib → VolumeResize → VolumeResize
released lib vr = record vr {
  meta = record vr.meta {
    finalizers = lib.remove_finalizer vr.meta.finalizers "storage.maurice.fr/finalizer";
  };
}

-- Only what was listed under the label is deleted, and the finalizer goes last.
abbrev pub DeletionGuard : Lib → VolumeResize → Log → Call → Type 0
DeletionGuard lib vr l (pvc_list namespace labels) = Unit {0}
DeletionGuard lib vr l (pod_list namespace labels) = Unit {0}
DeletionGuard lib vr l (pvc_delete namespace name) =
    (items : List Pvc) × (p : Pvc) × Has l (pvc_list vr.meta.namespace (own_labels vr)) (ok items)
    × Memᴰ p items
    × (p.meta.namespace ≡ namespace)
    × (p.meta.name ≡ name)
DeletionGuard lib vr l (pod_delete namespace name) =
    (items : List Pod) × (p : Pod) × Has l (pod_list vr.meta.namespace (own_labels vr)) (ok items)
    × Memᴰ p items
    × (p.meta.namespace ≡ namespace)
    × (p.meta.name ≡ name)
DeletionGuard lib vr l (vr_update v) = (v ≡ released lib vr) × ArePvcsGone vr l × ArePodsGone vr l
DeletionGuard lib vr l _ = ⊥

-- The finalizer was asked to be removed, and the outcome is that of the request.
abbrev pub HasLetGo : Lib → VolumeResize → Log → Outcome → Type 0
HasLetGo lib vr l o =
    ((saved : VolumeResize) × Has l (vr_update (released lib vr)) (ok saved) × (o ≡ finished))
    ⊎ ((e : GoError) × Has l (vr_update (released lib vr)) (err e) × (o ≡ failure e))

abbrev pub deletion_spec : Lib → VolumeResize → Spec Outcome
deletion_spec lib vr = record {
  guard = DeletionGuard lib vr;
  fair = λ _ _. Unit {0};
  stops = λ _ _. ⊥;
  panics = ⊥;
  exhausts = ⊥;
}

module _ (lib : Lib) (vr : VolumeResize) where
  abbrev s : Spec Outcome
  s = deletion_spec lib vr

  delete_pvcs-Safe :
      (l : Log) (items rest : List Pvc)
      → Has l (pvc_list vr.meta.namespace (own_labels vr)) (ok items)
      → ((p : Pvc) → Memᴰ p rest → Memᴰ p items)
      → Safe s l (delete_pvcs rest) (λ l' _. AllOf (IsPvcGone l') rest)
  unfolding delete_pvcs
  delete_pvcs-Safe l items [] listed within = tt
  delete_pvcs-Safe l items (p ∷ rest) listed within = (
    (items, p, listed, within p (Memᴰ.head refl), refl, refl),
    λ r _.
        Safe-mono-from s _ _ (delete_pvcs rest) (λ l' _. AllOf (IsPvcGone l') rest) _ same
          (delete_pvcs-Safe _ items rest (Memᴰ.tail listed) (λ q h. within q (Memᴰ.tail h)))
          (λ l' _ x gone. ((r, Has-Extends (Memᴰ.head refl) x), gone)),
  )

  delete_pods-Safe :
      (l : Log) (items rest : List Pod)
      → Has l (pod_list vr.meta.namespace (own_labels vr)) (ok items)
      → ((p : Pod) → Memᴰ p rest → Memᴰ p items)
      → Safe s l (delete_pods rest) (λ l' _. AllOf (IsPodGone l') rest)
  unfolding delete_pods
  delete_pods-Safe l items [] listed within = tt
  delete_pods-Safe l items (p ∷ rest) listed within = (
    (items, p, listed, within p (Memᴰ.head refl), refl, refl),
    λ r _.
        Safe-mono-from s _ _ (delete_pods rest) (λ l' _. AllOf (IsPodGone l') rest) _ same
          (delete_pods-Safe _ items rest (Memᴰ.tail listed) (λ q h. within q (Memᴰ.tail h)))
          (λ l' _ x gone. ((r, Has-Extends (Memᴰ.head refl) x), gone)),
  )

  listed_pvcs-Safe :
      (l : Log) (r : Except (List Pvc))
      → Has l (pvc_list vr.meta.namespace (own_labels vr)) r
      → Safe s l
          (elim r [ ok items ↦ delete_pvcs items | err _ ↦ ret tt ])
          (λ l' _. ArePvcsGone vr l')
  listed_pvcs-Safe l (ok items) h =
      Safe-mono-from s l l (delete_pvcs items) (λ l' _. AllOf (IsPvcGone l') items) _ same
        (delete_pvcs-Safe l items items h (λ _ m. m))
        (λ l' _ x gone. (ok items, Has-Extends h x, gone))
  listed_pvcs-Safe l (err e) h = (err e, h, tt)

  listed_pods-Safe :
      (l : Log) (r : Except (List Pod))
      → Has l (pod_list vr.meta.namespace (own_labels vr)) r
      → Safe s l
          (elim r [ ok items ↦ delete_pods items | err _ ↦ ret tt ])
          (λ l' _. ArePodsGone vr l')
  listed_pods-Safe l (ok items) h =
      Safe-mono-from s l l (delete_pods items) (λ l' _. AllOf (IsPodGone l') items) _ same
        (delete_pods-Safe l items items h (λ _ m. m))
        (λ l' _ x gone. (ok items, Has-Extends h x, gone))
  listed_pods-Safe l (err e) h = (err e, h, tt)

  ArePvcsGone-Extends : {l m : Log} → Extends l m → ArePvcsGone vr l → ArePvcsGone vr m
  ArePvcsGone-Extends x (ok items, h, gone) = (
    ok items,
    Has-Extends h x,
    AllOf-mono _ _ items (λ (p : Pvc). WasAsked-Extends (pvc_delete p.meta.namespace p.meta.name) x)
        gone,
  )
  ArePvcsGone-Extends x (err e, h, gone) = (err e, Has-Extends h x, tt)

  handle_deletion-HasLetGo : (l : Log) → Safe s l (handle_deletion lib vr) (HasLetGo lib vr)
  unfolding handle_deletion without_finalizer
  handle_deletion-HasLetGo l = (
    tt,
    λ pvcs _.
        Safe-bind s _ (elim pvcs [ ok items ↦ delete_pvcs items | err _ ↦ ret tt ]) _
          (λ l' _. ArePvcsGone vr l') _ (listed_pvcs-Safe _ pvcs (Memᴰ.head refl))
          (λ l₁ _ x₁ gone. (
            tt,
            λ pods _.
                Safe-bind s _ (elim pods [ ok items ↦ delete_pods items | err _ ↦ ret tt ]) _
                  (λ l' _. ArePodsGone vr l') _ (listed_pods-Safe _ pods (Memᴰ.head refl))
                  (λ l₂ _ x₂ done. (
                    (refl, ArePvcsGone-Extends (Extends-trans (later same) x₂) gone, done),
                    elim [
                      | ok saved ↦ λ _. inl (saved, Memᴰ.head refl, refl)
                      | err e ↦ λ _. inr (e, Memᴰ.head refl, refl)
                    ],
                  )),
          )),
  )

  pub handle_deletion-Safe : (l : Log) → Safe s l (handle_deletion lib vr) (λ _ _. Unit {0})
  handle_deletion-Safe l =
      Safe-mono s l (handle_deletion lib vr) (HasLetGo lib vr) _ (handle_deletion-HasLetGo l)
        (λ _ _ _. tt)

-- an end of a run with that specification is a return
Ends-returned :
    (lib : Lib) (vr : VolumeResize) (l : Log) (e : End Outcome Outcome)
    → Ends (deletion_spec lib vr) (HasLetGo lib vr) l e
    → (o : Outcome) × (e ≡ returned o) × HasLetGo lib vr l o
Ends-returned lib vr l (returned o) let_go = (o, refl, let_go)
Ends-returned lib vr l (stopped o) x = absurd x
Ends-returned lib vr l panicked x = absurd x
Ends-returned lib vr l exhausted x = absurd x

-- In every run of handleDeletion, a claim or a pod is deleted only if it was listed under the
-- label of the VolumeResize, the VolumeResize is updated only to itself without the finalizer, and
-- only after the deletion of every claim and pod of a listing that succeeded was asked for; apart
-- from the two listings no other request is made.
pub deletions_listed :
    {W : Type 0} (h : Handler W) (lib : Lib) (vr : VolumeResize) (w : W)
    → Guarded (DeletionGuard lib vr) (run h (handle_deletion lib vr) w []).log
deletions_listed h lib vr w =
    (run-Safe h (deletion_spec lib vr) (handle_deletion lib vr) (λ _ _. Unit {0}) w []
      (any_answer _) (handle_deletion-Safe lib vr []) tt).0

-- Every run of handleDeletion returns, and then the update of the VolumeResize to itself without
-- the finalizer was asked for; it returns without an error if that succeeded, and otherwise with
-- the error of that update, whatever the listings and deletions answered.
pub deletions_let_go :
    {W : Type 0} (h : Handler W) (lib : Lib) (vr : VolumeResize) (w : W)
    → (o : Outcome) × ((run h (handle_deletion lib vr) w []).end ≡ returned o)
      × HasLetGo lib vr (run h (handle_deletion lib vr) w []).log o
deletions_let_go h lib vr w =
    Ends-returned lib vr _ _
      (run-Safe h (deletion_spec lib vr) (handle_deletion lib vr) (HasLetGo lib vr) w []
        (any_answer _) (handle_deletion-HasLetGo lib vr []) tt).1
