-- ===== src/Controller/Results.antt =====
-- What a handler returns, and the writes of the status: setFailed and the updates that end a
-- handler in internal/controller/volumeresize_controller.go.
use migcontroller.Prelude.{ℕ, String, Option, none, some, Bool, true, false}
use migcontroller.Objects.{GoError, ok, err}
use migcontroller.VolumeResize.{VolumeResize, failed}
use migcontroller.Call.{vr_update_status}
use migcontroller.Prog.{Prog, ret, stop, ◌>>=◌, ask}

-- ctrl.Result and the error beside it
pub record Outcome : Type 0 where
  pub requeue : Bool
  pub requeue_after : ℕ
  pub error : Option GoError

-- return ctrl.Result{}, nil
abbrev pub finished : Outcome
finished = record { requeue = false; requeue_after = 0; error = none }

-- return ctrl.Result{Requeue: true}, nil
abbrev pub requeue : Outcome
requeue = record { requeue = true; requeue_after = 0; error = none }

-- return ctrl.Result{RequeueAfter: d}, nil
abbrev pub requeue_after : ℕ → Outcome
requeue_after d = record { requeue = false; requeue_after = d; error = none }

-- return ctrl.Result{}, err
abbrev pub failure : GoError → Outcome
failure e = record { requeue = false; requeue_after = 0; error = some e }

-- `if err := r.Status().Update(ctx, vr); err != nil { return ctrl.Result{}, err }; return o, nil`
unfoldable pub save_status : Outcome → VolumeResize → Prog Outcome Outcome
save_status o vr = do
  saved ← ask (vr_update_status vr)
  elim saved [ err e ↦ ret (failure e) | ok _ ↦ ret o ]

abbrev pub mark_failed : VolumeResize → String → VolumeResize
mark_failed vr message = record vr {
  status = record vr.status { phase = failed; message = message };
}

unfoldable pub set_failed : VolumeResize → String → Prog Outcome Outcome
unfolding save_status
set_failed vr message = save_status finished (mark_failed vr message)

-- return r.setFailed(ctx, vr, message)
abbrev pub fail : {A : Type 0} → VolumeResize → String → Prog Outcome A
fail vr message = set_failed vr message >>= stop
