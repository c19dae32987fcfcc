-- ===== src/Volmig/Listing.antt =====
-- What `volmig list` asks for, prints, and its exit status: cmd/volmig/cmd/list.go.
use migcontroller.Prelude.{
  ℕ, String, ◌≡◌, ◌≢◌, ◌⊎◌, Option, none, some, List, [], ◌∷◌, map, if◌then◌else◌,
}
use migcontroller.Objects.{ok, err, GoError}
use migcontroller.VolumeResize.{VolumeResize}
use migcontroller.Call.{Call, vr_list, print, now}
use migcontroller.Prog.{Log}
use migcontroller.Prog.Safe.{Spec, Safe}
use migcontroller.Syncing.Guard.{Has}
use migcontroller.Volmig.Text.{sub}
use migcontroller.Volmig.Age.{format_age}
use migcontroller.Volmig.Client.{Host, Flags, get_client}
use migcontroller.Volmig.Prints.{IsPrint}
use migcontroller.Volmig.Rows.{joined, columns, target_column, header_columns}

module _ (host : Host) (flags : Flags) where
  -- the namespace that is listed, or all
  abbrev scope : Option String
  scope = if flags.all_namespaces then none else some flags.namespace

  abbrev pub ListGuard : Log → Call → Type 0
  ListGuard l (vr_list ns) = ns ≡ scope
  ListGuard l c = IsPrint c

  -- The row of an object: its columns, and in the wide format its volumes and its age at a time
  -- that the clock gave.
  abbrev IsRow : Log → VolumeResize → String → Type 0
  IsRow l vr row =
      ((flags.output_format ≢ "wide") × (row ≡ joined "\t" (columns host flags vr [])))
      ⊎ ((flags.output_format ≡ "wide")
          × ((t : ℕ) × Has l now t
              × (row
                  ≡ joined "\t" (
                      columns host flags vr (
                        joined "," (map (target_column host flags) vr.spec.volumes)
                        ∷ format_age (sub t vr.meta.creation_timestamp)
                        ∷ [])))))

  -- A row for each object, in their order.
  abbrev AreRows : Log → List VolumeResize → List String → Type 0
  AreRows l [] [] = Unit {0}
  AreRows l (vr ∷ vrs) (row ∷ rows) = IsRow l vr row × AreRows l vrs rows
  AreRows l _ _ = ⊥

  -- The objects were listed, and the table printed unless there are none.
  abbrev pub WasListed : Log → Type 0
  WasListed l =
      (items : List VolumeResize) × Has l (vr_list scope) (ok items)
      × ((items ≡ [])
          ⊎ ((rows : List String) × AreRows l items rows
              × Has l (print (host.tabulate (joined "\t" (header_columns host flags) ∷ rows))) tt))

  abbrev ListFailed : Log → Type 0
  ListFailed l =
      ((e : GoError) × (get_client host flags ≡ err e))
      ⊎ ((e : GoError) × Has l (vr_list scope) (err e))

  abbrev pub list_spec : Spec ℕ
  list_spec = record {
    guard = ListGuard;
    fair = λ _ _. Unit {0};
    stops = λ l status. (status ≡ 1) × ListFailed l;
    panics = ⊥;
    exhausts = ⊥;
  }
