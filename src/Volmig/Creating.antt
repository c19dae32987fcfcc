-- ===== src/Volmig/Creating.antt =====
-- What `volmig create` and `volmig delete` change, and their exit status.
use mathlib.Core.List.{Memᴰ}
use migcontroller.Prelude.{
  ℕ, String, ◌++◌, ◌≡◌, refl, ◌⊎◌, inl, inr, none, some, Bool, true, false, ◌==◌, [], ◌∷◌,
  if◌then◌else◌,
}
use migcontroller.Objects.{Except, ok, err, GoError, Quantity}
use migcontroller.VolumeResize.{VolumeResize}
use migcontroller.Call.{Call, vr_get, vr_create, now, print, print_error}
use migcontroller.Prog.{Log, ret, Handler, run}
use migcontroller.Prog.Safe.{
  Spec, Safe, Safe-bind, Extends, same, later, Has-Extends, Guarded, Ends, run-Safe,
}
use migcontroller.Syncing.Guard.{Has}
use migcontroller.Validating.Start.{any_answer}
use migcontroller.Volmig.Client.{
  Host, Flags, Command, get_client, connect, exit_with_error, or_exit, print_line,
}
use migcontroller.Volmig.Create.{new_volume_resize, print_created, require_absent, run_create}
use migcontroller.Volmig.Prints.{IsPrint, Prints, Prints-bind, Prints-if, Prints-then}

-- No object was asked to be created.
abbrev pub CreatedNone : Log → Type 0
CreatedNone [] = Unit {0}
CreatedNone ((vr_create _, _) ∷ l) = ⊥
CreatedNone (_ ∷ l) = CreatedNone l

module _ (host : Host) (flags : Flags) (name : String) where
  -- The one object that may be created, and after which reads.
  abbrev pub CreateGuard : Log → Call → Type 0
  CreateGuard l (vr_get ns n) = (ns ≡ flags.namespace) × (n ≡ name)
  CreateGuard l (vr_create vr) =
      CreatedNone l
      × ((e : GoError) × Has l (vr_get flags.namespace name) (err e))
      × (vr.meta.namespace ≡ flags.namespace)
      × (vr.meta.name ≡ name)
      × (vr.spec.stateful_set_name ≡ flags.stateful_set_name)
      × ((quantity : Quantity) × (host.parse_quantity flags.new_size ≡ ok quantity)
          × (vr.spec.volumes
              ≡ record {
                name = flags.volume_name;
                new_size = quantity;
                storage_class =
                    if flags.storage_class == "" then none else some flags.storage_class;
              }
                ∷ []))
  CreateGuard l c = IsPrint c

  -- the creation was asked for and succeeded
  abbrev pub WasCreated : Log → Type 0
  WasCreated l = (vr : VolumeResize) × (stored : VolumeResize) × Has l (vr_create vr) (ok stored)

  -- nothing was created: no request for it, or one that was refused
  abbrev pub WasNotCreated : Log → Type 0
  WasNotCreated l =
      CreatedNone l
      ⊎ ((m : Log) × (vr : VolumeResize) × (e : GoError) × CreatedNone m
          × Extends ((vr_create vr, err e) ∷ m) l)

  abbrev pub create_spec : Spec ℕ
  create_spec = record {
    guard = CreateGuard;
    fair = λ _ _. Unit {0};
    stops = λ l status. (status ≡ 1) × WasNotCreated l;
    panics = ⊥;
    exhausts = ⊥;
  }

  allowed : (l : Log) (c : Call) → IsPrint c → CreateGuard l c
  allowed l now p = tt
  allowed l (print _) p = tt
  allowed l (print_error _) p = tt
  allowed l _ p = absurd p

  exit-Safe :
      (A : Type 0) (l : Log) (msg : String) (e : GoError) (post : Log → A → Type 0)
      → WasNotCreated ((print_error ("Error: " ++ (msg ++ (": " ++ (e.text ++ "\n")))), tt) ∷ l)
      → Safe create_spec l (exit_with_error msg e) post
  unfolding exit_with_error
  exit-Safe A l msg e post k = (tt, λ _ _. (refl, k))

  connect-Safe :
      (l : Log) → CreatedNone l → Safe create_spec l (connect host flags) (λ l' _. CreatedNone l')
  unfolding connect
  connect-Safe l fresh = at (get_client host flags)
    where
      at :
          (r : Except (Unit {0}))
          → Safe create_spec l
              (or_exit "failed to create kubernetes client" r)
              (λ l' _. CreatedNone l')
      at (ok u) = fresh
      at (err e) = exit-Safe (Unit {0}) l _ e (λ l' _. CreatedNone l') (inl fresh)

  print_created-Prints : Prints (print_created flags name)
  unfolding print_created
  print_created-Prints = (
    tt,
    λ _. (
      tt,
      λ _. (
        tt,
        λ _. (
          tt,
          λ _.
              Prints-bind
                (if flags.storage_class == ""
                  then ret tt
                  else print_line ("  StorageClass: " ++ flags.storage_class))
                _ (Prints-if (flags.storage_class == "") _ _ tt (tt, λ _. tt))
                (λ _. (tt, λ _. (tt, λ _. (tt, λ _. (tt, λ _. tt))))),
        ),
      ),
    ),
  )

  parsed-Safe :
      (r : Except Quantity)
      → host.parse_quantity flags.new_size ≡ r
      → Safe create_spec []
          (or_exit "invalid size format" r)
          (λ l q. CreatedNone l × (host.parse_quantity flags.new_size ≡ ok q))
  parsed-Safe (ok q) e = (tt, e)
  parsed-Safe (err e') e =
      exit-Safe Quantity [] _ e'
        (λ l q. CreatedNone l × (host.parse_quantity flags.new_size ≡ ok q)) (inl tt)

  require_absent-Safe :
      (l : Log)
      → CreatedNone l
      → Safe create_spec l
          (require_absent flags name)
          (λ l' _. CreatedNone l' × ((e : GoError) × Has l' (vr_get flags.namespace name) (err e)))
  unfolding require_absent exit_with_error
  require_absent-Safe l fresh = (
    (refl, refl),
    elim [ ok _ ↦ λ _. (tt, λ _ _. (refl, inl fresh)) | err e ↦ λ _. (fresh, (e, Memᴰ.head refl)) ],
  )

  tail-Safe :
      (l : Log) (watch : Bool) (m : Command (Unit {0}))
      → watch ≡ false
      → WasCreated l
      → Safe create_spec l
          (elim watch [ true ↦ m | false ↦ ret tt ])
          (λ l' (_ : Unit {0}). WasCreated l')
  tail-Safe l true m quiet made = absurd cc
  tail-Safe l false m quiet made = made

  run_create-Safe :
      (fuel : ℕ)
      → flags.watch ≡ false
      → Safe create_spec [] (run_create fuel host flags name) (λ l _. WasCreated l)
  unfolding run_create new_volume_resize
  run_create-Safe fuel quiet =
      Safe-bind create_spec [] (or_exit "invalid size format" (host.parse_quantity flags.new_size))
        _ _ _ (parsed-Safe (host.parse_quantity flags.new_size) refl)
        (λ l₁ q x₁ (fresh, parsed).
          Safe-bind create_spec l₁ (connect host flags) _ (λ l' _. CreatedNone l') _
            (connect-Safe l₁ fresh)
            (λ l₂ _ x₂ fresh'.
              Safe-bind create_spec l₂ (require_absent flags name) _ _ _
                (require_absent-Safe l₂ fresh')
                (λ l₃ _ x₃ (none_yet, absent). (
                  (none_yet, absent, refl, refl, refl, (q, parsed, refl)),
                  elim [
                    | err e ↦ λ _.
                        exit-Safe VolumeResize _ _ e (λ l _. WasCreated l)
                          (inr (l₃, _, e, none_yet, later same))
                    | ok stored ↦ λ _.
                        Prints-then create_spec allowed _ (print_created flags name) _ _
                          print_created-Prints
                          (λ l₄ _ x₄.
                            tail-Safe l₄ flags.watch _ quiet
                              (_, stored, Has-Extends (Memᴰ.head refl) x₄))
                  ],
                ))))

-- In every run of volmig create without --watch, an object is asked to be created at most once, in
-- the namespace and with the name and spec that the arguments give, where the size was parsed, and
-- only after a read of that name failed; the command returns only after the creation succeeded,
-- and otherwise exits with status 1, where no creation was asked for or the one was refused; no
-- other object is changed, and it never panics.
pub creates_once :
    {W : Type 0} (h : Handler W) (host : Host) (flags : Flags) (name : String) (fuel : ℕ) (w : W)
    → flags.watch ≡ false
    → Guarded (CreateGuard host flags name) (run h (run_create fuel host flags name) w []).log
      × Ends
          (create_spec host flags name)
          (λ l _. WasCreated host flags name l)
          (run h (run_create fuel host flags name) w []).log
          (run h (run_create fuel host flags name) w []).end
creates_once h host flags name fuel w quiet =
    run-Safe h (create_spec host flags name) (run_create fuel host flags name)
      (λ l _. WasCreated host flags name l) w [] (any_answer _)
      (run_create-Safe host flags name fuel quiet) tt
