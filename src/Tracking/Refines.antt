-- ===== src/Tracking/Refines.antt =====
-- Reconcile of internal/controller/volumeresize_controller.go, run again and again against an API
-- server that keeps the VolumeResize.
use mathlib.Mathlib.Logic.Relation.{ReflTransGenᴰ}
use mathlib.Mathlib.Logic.Relation.ReflTransGenᴰ
use migcontroller.Prelude.{
  String, ◌^◌, ◌<◌, ◌≡◌, refl, sym, subst, ◌⊎◌, inl, inr, [], ◌∷◌, ◌∙◌, Bool, true, false,
  if◌then◌else◌,
}
use migcontroller.Objects.{GoError, Except, ok, err, is_not_found, StatefulSet}
use migcontroller.VolumeResize.{VolumeResize}
use migcontroller.Call.{
  Call, Answer, Lib, vr_get, vr_update, vr_update_status, vr_create, vr_delete, sts_get,
  config_map_get,
}
use migcontroller.Prog.{Prog, ret, stop, panic, out_of_fuel, call, Handler, Log, run}
use migcontroller.Controller.{replicas_of, reconcile_found, reconcile}
use migcontroller.Controller.Results.{Outcome, finished, failure}
use migcontroller.Plain.{AfterPlain}
use migcontroller.Tracking.{
  target_of, Stored, view_of, saved, AnswersWith, AfterSave, Serves, IsServed, Each, Tracks,
}
use migcontroller.Tracking.Moves.{Move}
use migcontroller.Tracking.Handlers.{reconcile_found-Tracks}

-- An API server that keeps the object: `stored` is what a state holds of it. Metadata that is not
-- in the view may change with any request.
pub record KeepsObject {W : Type 0} (h : Handler W) (namespace name : String) (stored : W → Stored)
    : Type 0 where
  pub reads :
      (w : W) (vr : VolumeResize) → (h (vr_get namespace name) w).0 ≡ ok vr → view_of vr ≡ stored w
  -- an update of the object leaves the status, which it answers with
  pub updates :
      (v : VolumeResize) (w : W)
      → target_of v ≡ (stored w).target
      → (stored (h (vr_update v) w).1 ≡ stored w)
        × ((x : VolumeResize) → (h (vr_update v) w).0 ≡ ok x → view_of x ≡ stored w)
  pub saves :
      (v : VolumeResize) (w : W)
      → target_of v ≡ (stored w).target
      → ((x : VolumeResize)
          → (h (vr_update_status v) w).0 ≡ ok x
          → (stored (h (vr_update_status v) w).1 ≡ saved (stored w) v.status)
            × (view_of x ≡ saved (stored w) v.status))
        × ((e : GoError)
            → (h (vr_update_status v) w).0 ≡ err e
            → (stored (h (vr_update_status v) w).1 ≡ stored w)
              ⊎ (stored (h (vr_update_status v) w).1 ≡ saved (stored w) v.status))
  pub others : (c : Call) (w : W) → AfterPlain c (Unit {0}) → stored (h c w).1 ≡ stored w
  pub fits :
      (w : W) (ns sts_name : String) (sts : StatefulSet)
      → (h (sts_get ns sts_name) w).0 ≡ ok sts
      → replicas_of sts < 2 ^ 32

-- what the API server answers with in some state
abbrev pub serves : {W : Type 0} → Handler W → Serves
serves {W} h c r = (w : W) × ((h c w).0 ≡ r)

-- A save of the status that is a move of the abstract view.
abbrev Saves : {W : Type 0} → Handler W → Stored → Stored → Type 0
Saves h s s' =
    (s'.target ≡ s.target)
    × Move (IsServed (serves h) s.target) s.target.2.volumes s.status s'.status

abbrev pub Follows : {W : Type 0} → Handler W → Stored → Stored → Type 0
Follows h = ReflTransGenᴰ (Saves h)

answered :
    (s : Stored) (r : Except VolumeResize) (T : Type 0)
    → ((x : VolumeResize) → r ≡ ok x → view_of x ≡ s)
    → AnswersWith s r T
    → T
answered s (ok x) T law t = t (law x refl)
answered s (err e) T law t = t

-- what is stored after a save
after_save :
    (s s' t : Stored) (r : Except VolumeResize) (P : Stored → Type 0)
    → ((x : VolumeResize) → r ≡ ok x → (t ≡ s') × (view_of x ≡ s'))
    → ((e : GoError) → r ≡ err e → (t ≡ s) ⊎ (t ≡ s'))
    → AfterSave s s' r P
    → P t × ((t ≡ s) ⊎ (t ≡ s'))
after_save s s' t (ok x) P done failed p =
    let (e, view) = done x refl in (subst P (sym e) (p view), inr e)
after_save s s' t (err x) P done failed p = elim (failed x refl) [
  | inl e ↦ (subst P (sym e) p.0, inl e)
  | inr e ↦ (subst P (sym e) p.1, inr e)
]

module _ {W : Type 0} (h : Handler W) (lib : Lib) (namespace name : String) (stored : W → Stored)
    (keeps : KeepsObject h namespace name stored) where
  unchanged :
      (w w' : W) (P : Stored → Type 0)
      → stored w' ≡ stored w
      → P (stored w)
      → P (stored w') × Follows h (stored w) (stored w')
  unchanged w w' P e p =
      (subst P (sym e) p, subst (Follows h (stored w)) (sym e) ReflTransGenᴰ.refl)

  pub one_call :
      (c : Call) (w : W) (P : (r : Answer c) → Stored → Type 0)
      → Each (serves h) (stored w) c P
      → P (h c w).0 (stored (h c w).1) × Follows h (stored w) (stored (h c w).1)
  one_call (vr_update v) w P p =
      let (same_stored, answer) = keeps.updates v w p.0 in
      unchanged w (h (vr_update v) w).1 (P (h (vr_update v) w).0) same_stored
        (answered (stored w) (h (vr_update v) w).0 _ answer (p.1 (h (vr_update v) w).0))
  one_call (vr_update_status v) w P p =
      let s' = saved (stored w) v.status in
      let (done, failed) = keeps.saves v w p.0 in
      let (q, cases) =
        after_save (stored w) s' (stored (h (vr_update_status v) w).1) (h (vr_update_status v) w).0
          (P (h (vr_update_status v) w).0) done failed (p.1.1 (h (vr_update_status v) w).0) in
      (
        q,
        elim cases [
          | inl e ↦ subst (Follows h (stored w)) (sym e) ReflTransGenᴰ.refl
          | inr e ↦
              subst (Follows h (stored w)) (sym e)
                (ReflTransGenᴰ.tail ReflTransGenᴰ.refl (refl, p.1.0))
        ],
      )
  one_call (vr_create v) w P p = absurd p
  one_call (vr_delete _ _) w P p = absurd p
  one_call (sts_get ns sts_name) w P p =
      let r = (h (sts_get ns sts_name) w).0 in
      unchanged w (h (sts_get ns sts_name) w).1 (P r) (keeps.others (sts_get ns sts_name) w tt)
        (p r (w, refl))
  one_call (config_map_get ns cm_name) w P p =
      let r = (h (config_map_get ns cm_name) w).0 in
      unchanged w (h (config_map_get ns cm_name) w).1 (P r)
        (keeps.others (config_map_get ns cm_name) w tt) (p r (w, refl))
  one_call c w P p = unchanged w (h c w).1 (P (h c w).0) (keeps.others c w tt) (p (h c w).0)

  run-Follows :
      {X A : Type 0} (m : Prog X A) (post : Stored → A → Type 0) (w : W) (l : Log)
      → Tracks (serves h) lib (stored w) m post
      → Follows h (stored w) (stored (run h m w l).world)
  unfolding run
  run-Follows (ret a) post w l t = ReflTransGenᴰ.refl
  run-Follows (stop x) post w l t = ReflTransGenᴰ.refl
  run-Follows panic post w l t = ReflTransGenᴰ.refl
  run-Follows out_of_fuel post w l t = ReflTransGenᴰ.refl
  run-Follows (call c k) post w l t =
      let (next, here) = one_call c w (λ r s'. Tracks (serves h) lib s' (k r) post) t in
      ReflTransGenᴰ.trans here (run-Follows (k (h c w).0) post (h c w).1 ((c, (h c w).0) ∷ l) next)

  pub read-Tracks :
      (w w' : W) (r : Except VolumeResize)
      → stored w' ≡ stored w
      → ((vr : VolumeResize) → r ≡ ok vr → view_of vr ≡ stored w)
      → Tracks
          (serves h)
          lib
          (stored w')
          (elim r [
            | ok vr ↦ reconcile_found lib vr
            | err e ↦ if is_not_found e then ret finished else ret (failure e)
          ])
          (λ _ _. Unit {0})
  read-Tracks w w' (ok vr) e law =
      subst (λ x. Tracks (serves h) lib x (reconcile_found lib vr) (λ _ _. Unit {0}))
        (law vr refl ∙ sym e) (reconcile_found-Tracks (serves h) lib vr)
  read-Tracks w w' (err x) e law = ended (is_not_found x)
    where
      ended :
          (b : Bool)
          → Tracks
              (serves h)
              lib
              {X = Outcome}
              (stored w')
              (if b then ret finished else ret (failure x))
              (λ _ _. Unit {0})
      ended true = tt
      ended false = tt

  pass-Follows :
      (w : W) → Follows h (stored w) (stored (run h (reconcile lib namespace name) w []).world)
  unfolding reconcile run
  pass-Follows w =
      let (r, w') = h (vr_get namespace name) w in
      let kept : stored w' ≡ stored w = keeps.others (vr_get namespace name) w tt in
      let last = stored (run h (reconcile lib namespace name) w []).world in
      subst (λ x. Follows h x last) kept
        (run-Follows _ (λ _ _. Unit {0}) w' ((vr_get namespace name, r) ∷ [])
          (read-Tracks w w' r kept (keeps.reads w)))

  -- What happens to the object: a pass, or a change by others that leaves the view.
  pub data Turn : W → W → Type 0 where
    pass : (w : W) → Turn w (run h (reconcile lib namespace name) w []).world
    outside : (w w' : W) → stored w' ≡ stored w → Turn w w'

  Turn-Follows : (w w' : W) → Turn w w' → Follows h (stored w) (stored w')
  Turn-Follows w _ (pass _) = pass-Follows w
  Turn-Follows w w' (outside _ _ e) = subst (Follows h (stored w)) (sym e) ReflTransGenᴰ.refl

  pub passes_move : (w w' : W) → ReflTransGenᴰ Turn w w' → Follows h (stored w) (stored w')
  passes_move w w' ReflTransGenᴰ.refl = ReflTransGenᴰ.refl
  passes_move w w' (ReflTransGenᴰ.tail {b = v} turns turn) =
      ReflTransGenᴰ.trans (passes_move w v turns) (Turn-Follows v w' turn)
