-- ===== src/Tracking.antt =====
-- What the handlers of internal/controller/volumeresize_controller.go make of the stored
-- VolumeResize: the moves of its status, and what holds of every run against an API server that
-- keeps the object.
pub mod Moves
pub mod Stages
pub mod Swapping
pub mod Syncing
pub mod Handlers
pub mod Entries
pub mod Past
pub mod Good
pub mod Complete
pub mod Panics
pub mod Refines
use mathlib.Mathlib.Logic.Relation.{ReflTransGenᴰ}
use mathlib.Mathlib.Logic.Relation.ReflTransGenᴰ
use migcontroller.Prelude.{
  none, some, get_elem?, String, ◌^◌, ◌<◌, ◌≡◌, refl, sym, ◌⊎◌, inl, inr, Bool, true, false, subst,
  ◌∷◌,
}
use migcontroller.Objects.{GoError, Except, ok, err, StatefulSet, ConfigMap}
use migcontroller.Prelude.Dict.{lookup}
use migcontroller.VolumeResize.{
  VolumeResize, VolumeResizeSpec, VolumeResizeStatus, syncing, config_map_key_sts_spec,
}
use migcontroller.Call.{
  Call, Answer, Lib, vr_update, vr_update_status, vr_create, vr_delete, sts_get, config_map_get,
}
use migcontroller.Prog.{
  Prog, ret, stop, panic, out_of_fuel, call, ◌>>=◌, on_error, Handler, Log, run,
}
use migcontroller.Prog.Safe.{OnOk}
use migcontroller.Plain.{AfterPlain, IsPlain}
use migcontroller.Names.{get_sts_backup_config_map_name}
use migcontroller.Controller.Syncing.{resize_templates}
use Moves.{Move}

-- namespace, name and spec
abbrev pub Target : Type 0
Target = String × String × VolumeResizeSpec

abbrev pub target_of : VolumeResize → Target
target_of vr = (vr.meta.namespace, vr.meta.name, vr.spec)

-- What the API server keeps of a VolumeResize, less the rest of its metadata.
pub record Stored : Type 0 where
  pub target : Target
  pub status : VolumeResizeStatus

abbrev pub view_of : VolumeResize → Stored
view_of vr = record { target = target_of vr; status = vr.status }

-- the object, once the status `st` is saved
abbrev pub saved : Stored → VolumeResizeStatus → Stored
saved s st = record s { status = st }

-- What holds of the value, if there is no error.
abbrev pub AnswersWith : Stored → Except VolumeResize → Type 0 → Type 0
AnswersWith s (ok x) T = view_of x ≡ s → T
AnswersWith s (err e) T = T

-- An error on a save leaves open whether it was done.
abbrev pub AfterSave : Stored → Stored → Except VolumeResize → (Stored → Type 0) → Type 0
AfterSave s s' (ok x) P = view_of x ≡ s' → P s'
AfterSave s s' (err e) P = P s × P s'

-- what the API server may answer to a request
abbrev pub Serves : Type 1
Serves = (c : Call) → Answer c → Type 0

-- a StatefulSet that the API server may answer with, under the name in the spec
abbrev pub IsServed : Serves → Target → StatefulSet → Type 0
IsServed served t sts = served (sts_get t.0 t.2.stateful_set_name) (ok sts)

-- A text that the API server may answer with, in the ConfigMap of the backup for a VolumeResize.
pub record IsBackup (served : Serves) (namespace name json : String) : Type 0 where
  pub config_map : ConfigMap
  pub answered :
      served (config_map_get namespace (get_sts_backup_config_map_name name)) (ok config_map)
  pub text : lookup config_map_key_sts_spec config_map.entries ≡ some json

-- what is asked of a request where `s` is stored, and of what follows
abbrev pub Each : Serves → Stored → (c : Call) → ((r : Answer c) → Stored → Type 0) → Type 0
Each served s (vr_update v) P =
    (target_of v ≡ s.target) × ((r : Except VolumeResize) → AnswersWith s r (P r s))
Each served s (vr_update_status v) P =
    (target_of v ≡ s.target)
    × (Move (IsServed served s.target) s.target.2.volumes s.status v.status
        × ((r : Except VolumeResize) → AfterSave s (saved s v.status) r (P r)))
Each served s (vr_create _) P = ⊥
Each served s (vr_delete _ _) P = ⊥
Each served s (sts_get ns name) P = (r : Except StatefulSet) → served (sts_get ns name) r → P r s
Each served s (config_map_get ns name) P =
    (r : Except ConfigMap) → served (config_map_get ns name) r → P r s
Each served s c P = (r : Answer c) → P r s

-- Where a handler may panic: on a spec without volumes, in Syncing without a current replica, and
-- on a StatefulSet from a backup of which a template to be resized has no map of requests.
pub data MayPanic (served : Serves) (lib : Lib) (s : Stored) : Type 0 where
  no_volume : get_elem? s.target.2.volumes 0 ≡ none → MayPanic served lib s
  no_replica : s.status.phase ≡ syncing → s.status.current_replica ≡ none → MayPanic served lib s
  no_requests :
      (json : String) (sts : StatefulSet)
      → IsBackup served s.target.0 s.target.1 json
      → lib.unmarshal json ≡ ok sts
      → resize_templates s.target.2.volumes sts.spec.volume_claim_templates ≡ none
      → MayPanic served lib s

AnswersWith-map :
    (s : Stored) (r : Except VolumeResize) {T U : Type 0}
    → AnswersWith s r T
    → (T → U)
    → AnswersWith s r U
AnswersWith-map s (ok x) t f = λ e. f (t e)
AnswersWith-map s (err e) t f = f t

AfterSave-map :
    (s s' : Stored) (r : Except VolumeResize) {P Q : Stored → Type 0}
    → AfterSave s s' r P
    → ((x : Stored) → P x → Q x)
    → AfterSave s s' r Q
AfterSave-map s s' (ok x) p f = λ e. f s' (p e)
AfterSave-map s s' (err e) p f = (f s p.0, f s' p.1)

Each-map :
    (served : Serves) (s : Stored) (c : Call) {P Q : (r : Answer c) → Stored → Type 0}
    → Each served s c P
    → ((r : Answer c) (x : Stored) → P r x → Q r x)
    → Each served s c Q
Each-map served s (vr_update v) p f = (p.0, λ r. AnswersWith-map s r (p.1 r) (f r s))
Each-map served s (vr_update_status v) p f =
    (p.0, (p.1.0, λ r. AfterSave-map s (saved s v.status) r (p.1.1 r) (f r)))
Each-map served s (vr_create _) p f = absurd p
Each-map served s (vr_delete _ _) p f = absurd p
Each-map served s (sts_get _ _) p f = λ r is. f r s (p r is)
Each-map served s (config_map_get _ _) p f = λ r is. f r s (p r is)
Each-map served s c p f = λ r. f r s (p r)

Each-plain :
    (served : Serves) (s : Stored) (c : Call) {T : Type 0} (P : (r : Answer c) → Stored → Type 0)
    → AfterPlain c T
    → (T → (r : Answer c) → P r s)
    → Each served s c P
Each-plain served s (vr_update v) P p f = absurd p
Each-plain served s (vr_update_status v) P p f = absurd p
Each-plain served s (vr_create _) P p f = absurd p
Each-plain served s (vr_delete _ _) P p f = absurd p
Each-plain served s (sts_get _ _) P p f = λ r _. f p r
Each-plain served s (config_map_get _ _) P p f = λ r _. f p r
Each-plain served s c P p f = f p

module _ (served : Serves) (lib : Lib) where
  -- The program takes the stored object along moves, and where it returns, `post` holds.
  abbrev pub Tracks : {X A : Type 0} → Stored → Prog X A → (Stored → A → Type 0) → Type 0
  Tracks s (ret a) post = post s a
  Tracks s (stop x) post = Unit {0}
  Tracks s panic post = MayPanic served lib s
  Tracks s out_of_fuel post = Unit {0}
  Tracks s (call c k) post = Each served s c (λ r s'. Tracks s' (k r) post)

  pub Tracks-bind :
      {X A B : Type 0} (s : Stored) (m : Prog X A) (f : A → Prog X B) (mid : Stored → A → Type 0)
      (post : Stored → B → Type 0)
      → Tracks s m mid
      → ((s' : Stored) (a : A) → mid s' a → Tracks s' (f a) post)
      → Tracks s (m >>= f) post
  Tracks-bind s (ret a) f mid post t k = k s a t
  Tracks-bind s (stop x) f mid post t k = tt
  Tracks-bind s panic f mid post t k = t
  Tracks-bind s out_of_fuel f mid post t k = tt
  Tracks-bind s (call c g) f mid post t k =
      Each-map served s c t (λ r s' q. Tracks-bind s' (g r) f mid post q k)

  -- a plain part leaves the object as it is
  Tracks-plain :
      {X A : Type 0} (s : Stored) (m : Prog X A) (post : Stored → A → Type 0)
      → IsPlain (Unit {0}) m
      → ((a : A) → post s a)
      → Tracks s m post
  Tracks-plain s (ret a) post p k = k a
  Tracks-plain s (stop x) post p k = tt
  Tracks-plain s panic post p k = absurd p
  Tracks-plain s out_of_fuel post p k = tt
  Tracks-plain s (call c g) post p k =
      Each-plain served s c (λ r s'. Tracks s' (g r) post) p
        (λ q r. Tracks-plain s (g r) post (q r) k)

  -- a part that leaves the object as it is, and what follows
  pub Tracks-then :
      {X A B : Type 0} (s : Stored) (m : Prog X A) (f : A → Prog X B) (post : Stored → B → Type 0)
      → Tracks s m (λ s' _. s' ≡ s)
      → ((a : A) → Tracks s (f a) post)
      → Tracks s (m >>= f) post
  Tracks-then s m f post t k =
      Tracks-bind s m f (λ s' _. s' ≡ s) post t
        (λ s' a e. subst (λ x. Tracks x (f a) post) (sym e) (k a))

  -- the same, for a plain part
  pub Tracks-after :
      {X A B : Type 0} (s : Stored) (m : Prog X A) (f : A → Prog X B) (post : Stored → B → Type 0)
      → IsPlain (Unit {0}) m
      → ((a : A) → Tracks s (f a) post)
      → Tracks s (m >>= f) post
  Tracks-after s m f post p k = Tracks-then s m f post (Tracks-plain s m _ p (λ _. refl)) k

  -- a call of a function that returns an `error` and leaves the object, and what follows
  pub Tracks-try_of :
      {X A B : Type 0} (s : Stored) (m : Prog X (Except A)) (f : GoError → Prog X A)
      (k : A → Prog X B) (fact : A → Type 0) (post : Stored → B → Type 0)
      → Tracks s m (λ s' r. (s' ≡ s) × OnOk r fact)
      → ((e : GoError) → Tracks s (f e) (λ s' a. (s' ≡ s) × fact a))
      → ((a : A) → fact a → Tracks s (k a) post)
      → Tracks s (m >>= λ r. on_error r f >>= k) post
  Tracks-try_of {A} s m f k fact post t u v =
      Tracks-bind s m (λ r. on_error r f >>= k) (λ s' r. (s' ≡ s) × OnOk r fact) post t
        (λ s' r h. subst (λ x. Tracks x (on_error r f >>= k) post) (sym h.0) (after r h.1))
    where
      after : (r : Except A) → OnOk r fact → Tracks s (on_error r f >>= k) post
      after (ok a) known = v a known
      after (err e) _ =
          Tracks-bind s (f e) k (λ s' a. (s' ≡ s) × fact a) post (u e)
            (λ s' a h. subst (λ x. Tracks x (k a) post) (sym h.0) (v a h.1))

  -- the same, for a plain function
  pub Tracks-try :
      {X A B : Type 0} (s : Stored) (m : Prog X (Except A)) (f : GoError → Prog X A)
      (k : A → Prog X B) (post : Stored → B → Type 0)
      → IsPlain (Unit {0}) m
      → ((e : GoError) → Tracks s (f e) (λ s' _. s' ≡ s))
      → ((a : A) → Tracks s (k a) post)
      → Tracks s (m >>= λ r. on_error r f >>= k) post
  Tracks-try {A} s m f k post p u v = Tracks-after s m (λ r. on_error r f >>= k) post p after
    where
      after : (r : Except A) → Tracks s (on_error r f >>= k) post
      after (ok a) = v a
      after (err e) = Tracks-then s (f e) k post (u e) v

  pub Tracks-if :
      {X A : Type 0} (s : Stored) (b : Bool) (m n : Prog X A) (post : Stored → A → Type 0)
      → Tracks s m post
      → Tracks s n post
      → Tracks s (elim b [ true ↦ m | false ↦ n ]) post
  Tracks-if s true m n post t u = t
  Tracks-if s false m n post t u = u
