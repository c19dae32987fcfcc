-- ===== src/Validating/Stages.antt =====
-- Each check of handleValidating of internal/controller/volumeresize_controller.go, and whether
-- what follows it starts the migration.
use migcontroller.Prelude.{
  String, ◌++◌, ◌≡◌, refl, inl, inr, ◌↔◌, List, ◌∷◌, Bool, true, false, arith,
}
use migcontroller.Objects.{Except, ok, err, StatefulSet, Pdb, Pvc}
use migcontroller.VolumeResize.{VolumeResize, VolumeResizeTarget, syncing, failed}
use migcontroller.Call.{Lib, vr_update_status}
use migcontroller.Prog.{Prog, Log, Handler, run, ret, stop, call, out_of_fuel, panic, ◌>>=◌}
use migcontroller.Validation.{ValidationResult, refused, compare_sizes, check_budgets}
use migcontroller.Controller.Results.{
  Outcome, failure, finished, mark_failed, save_status, set_failed,
}
use migcontroller.Validating.Eligible.{
  IsOkWith, HasNoBlocker, HasStarted, check_budgets-HasNoBlocker, size_result,
}

module _ {W : Type 0} (h : Handler W) where
  pub run_assoc :
      {X A B C : Type 0} (m : Prog X A) (f : A → Prog X B) (k : B → Prog X C) (w : W) (l : Log)
      → run h ((m >>= f) >>= k) w l ≡ run h (m >>= (λ a. f a >>= k)) w l
  unfolding run
  run_assoc (ret a) f k w l = refl
  run_assoc (stop x) f k w l = refl
  run_assoc panic f k w l = refl
  run_assoc out_of_fuel f k w l = refl
  run_assoc (call c g) f k w l = run_assoc (g (h c w).0) f k (h c w).1 ((c, (h c w).0) ∷ l)

  pub size-run :
      {X A : Type 0} (lib : Lib) (vol : VolumeResizeTarget) (name : String)
      (k : ValidationResult → Prog X A) (answer : Except Pvc) (w : W) (l : Log)
      → run h
          (((elim answer [ ok pvc ↦ ret (ok pvc) | err e ↦ ret (err e) ]) >>= (λ found. elim found [
            | err e ↦ ret (refused ("failed to get PVC " ++ (name ++ (": " ++ e.text))))
            | ok pvc ↦ ret (compare_sizes lib vol name pvc)
          ]))
            >>= k)
          w
          l
        ≡ run h (k (size_result lib vol name answer)) w l
  size-run lib vol name k (ok pvc) w l = refl
  size-run lib vol name k (err e) w l = refl

-- Conditions one after the other.
pub iff_first : {A B Q X : Type 0} → A ↔ B → X ↔ (A × Q) → X ↔ (B × Q)
iff_first (to, back) (into, out) =
    (λ x. let (a, q) = into x in (to a, q), λ (b, q). out (back b, q))

pub iff_assoc : {A B Q X : Type 0} → X ↔ (A × (B × Q)) → X ↔ ((A × B) × Q)
iff_assoc (into, out) =
    (λ x. let (a, (b, q)) = into x in ((a, b), q), λ ((a, b), q). out (a, (b, q)))

pub iff_flat : {A B C X : Type 0} → X ↔ (A × (B × (C × Unit {0}))) → X ↔ (A × B × C)
iff_flat (into, out) =
    (λ x. let (a, (b, (c, _))) = into x in (a, b, c), λ (a, b, c). out (a, (b, (c, tt))))

-- Whether a program starts the migration.
module _ {W : Type 0} (h : Handler W) where
  -- It does exactly if `Q`.
  abbrev pub StartsIf : Prog Outcome Outcome → Type 0 → Type 0
  StartsIf m Q = (w : W) (l : Log) → ¬ HasStarted l → HasStarted (run h m w l).log ↔ Q

  -- What follows a check does exactly if the check was passed and `Q`.
  abbrev pub Continues : (ValidationResult → Prog Outcome Outcome) → Type 0 → Type 0
  Continues k Q = (r : ValidationResult) → StartsIf (k r) ((r.valid ≡ true) × Q)

  pub saved-HasStarted :
      (o : Outcome) (v : VolumeResize) → StartsIf (save_status o v) (v.status.phase ≡ syncing)
  unfolding save_status run
  saved-HasStarted o v w l fresh = at (h (vr_update_status v) w).0
    where
      at :
          (answer : Except VolumeResize)
          → HasStarted
              (run h {X = Outcome}
                (elim answer [ err e ↦ ret (failure e) | ok _ ↦ ret o ])
                (h (vr_update_status v) w).1
                ((vr_update_status v, answer) ∷ l)).log
            ↔ (v.status.phase ≡ syncing)
      at (ok _) = (λ x. elim x [ inl e ↦ e | inr y ↦ absurd (fresh y) ], inl)
      at (err _) = (λ x. elim x [ inl e ↦ e | inr y ↦ absurd (fresh y) ], inl)

  pub choose-StartsIf :
      (vr : VolumeResize) (b : Bool) (message : String) (m : Prog Outcome Outcome) (Q : Type 0)
      → StartsIf m Q
      → StartsIf (elim b [ false ↦ set_failed vr message | true ↦ m ]) ((b ≡ true) × Q)
  unfolding set_failed
  choose-StartsIf vr true message m Q starts w l fresh =
      (λ x. (refl, (starts w l fresh).0 x), λ (_, q). (starts w l fresh).1 q)
  choose-StartsIf vr false message m Q starts w l fresh =
      (λ x. absurd (ended x), λ (e, _). absurd (ground arith))
    where
      ended : HasStarted (run h (set_failed vr message) w l).log → ⊥
      ended x =
          let e : failed ≡ syncing =
            (saved-HasStarted finished (mark_failed vr message) w l fresh).0 x in
          absurd cc

  -- The rest of the volumes is looked at if the first one passed.
  pub later-StartsIf :
      (r : ValidationResult) (b : Bool) (m : Prog Outcome ValidationResult)
      (k : ValidationResult → Prog Outcome Outcome) (R Q : Type 0)
      → r.valid ≡ b
      → StartsIf (m >>= k) (R × Q)
      → Continues k Q
      → StartsIf ((elim b [ true ↦ m | false ↦ ret r ]) >>= k) ((b ≡ true) × (R × Q))
  later-StartsIf r true m k R Q e starts continues w l fresh =
      (λ x. (refl, (starts w l fresh).0 x), λ (_, q). (starts w l fresh).1 q)
  later-StartsIf r false m k R Q e starts continues w l fresh =
      (λ x. absurd (ground (arith, ((continues r w l fresh).0 x).0)), λ (e', _). absurd cc)

  pub budgets-run :
      (lib : Lib) (sts : StatefulSet) (answer : Except (List Pdb))
      (k : ValidationResult → Prog Outcome Outcome) (Q : Type 0)
      → Continues k Q
      → StartsIf
          ((elim answer [
            | err e ↦ ret (refused ("failed to list PodDisruptionBudgets: " ++ e.text))
            | ok items ↦ ret (check_budgets lib sts.spec.template_labels items)
          ])
            >>= k)
          (IsOkWith (HasNoBlocker lib sts) answer × Q)
  budgets-run lib sts (ok items) k Q continues w l fresh =
      iff_first (check_budgets-HasNoBlocker lib sts items) (continues _ w l fresh)
  budgets-run lib sts (err e) k Q continues w l fresh =
      (λ x. absurd (let e' = ((continues _ w l fresh).0 x).0 in cc), λ (a, _). absurd a)
