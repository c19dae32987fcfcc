-- ===== src/Volmig/Rows.antt =====
-- The header and the rows of `volmig list`, as lists of columns: cmd/volmig/cmd/list.go.
use text.Mathlib.TextLemmas.{append_assoc, append-nil, nil-append}
use Prim.Native.String.{len, slice}
use migcontroller.Prelude.{
  ℕ, ◌-◌, String, ◌++◌, ◌≡◌, arith, refl, ap, inl, inr, none, some, List, [], ◌∷◌, true, false,
  Bool-cases, leb, ltb, ◌==◌, map, if◌then◌else◌,
}
use migcontroller.Prelude.Tests.{eqb}
use migcontroller.Prelude.Int32.{show}
use migcontroller.VolumeResize.{VolumeResize, VolumeResizeTarget}
use migcontroller.Volmig.Text.{phase_text, shown_phase, cut, max_message_length}
use migcontroller.Volmig.Client.{Host, Flags}
use migcontroller.Volmig.List.{list_header, narrow_row, more_volumes, volumes_text}

-- the texts, with a separator between them
abbrev pub joined : String → List String → String
joined sep [] = ""
joined sep (x ∷ []) = x
joined sep (x ∷ y ∷ rest) = x ++ (sep ++ joined sep (y ∷ rest))

module _ (host : Host) (flags : Flags) where
  -- the columns, with the namespace first if all are listed
  abbrev with_namespace : String → List String → List String
  with_namespace ns columns = if flags.all_namespaces then ns ∷ columns else columns

  -- a text of at most `n` bytes, or one that is cut
  abbrev shortened : ℕ → String → String
  shortened n s =
      let whole = slice s 0 (n - 3) in
      if leb (len s) n
      then s
      else (if eqb (len whole) (n - 3) then whole else host.split_text s (n - 3)) ++ "..."

  abbrev column_message : VolumeResize → String
  column_message vr =
      if flags.output_format == "wide"
      then shortened 60 vr.status.message
      else shortened 40 vr.status.message

  -- what every row has, and what follows
  abbrev pub columns : VolumeResize → List String → List String
  columns vr last = with_namespace vr.meta.namespace (
      vr.meta.name
      ∷ vr.spec.stateful_set_name
      ∷ (if phase_text vr.status.phase == "" then "Pending" else phase_text vr.status.phase)
      ∷ (elim vr.status.current_replica [ none ↦ "-" | some r ↦ show r ])
      ∷ column_message vr
      ∷ last)

  abbrev pub target_column : VolumeResizeTarget → String
  target_column vol = vol.name ++ (":" ++ host.quantity_string vol.new_size)

  abbrev pub header_columns : List String
  header_columns = with_namespace "NAMESPACE" (
      "NAME"
      ∷ "STATEFULSET"
      ∷ "PHASE"
      ∷ "REPLICA"
      ∷ "MESSAGE"
      ∷ (if flags.output_format == "wide" then "VOLUMES" ∷ "AGE" ∷ [] else []))

  cut-shortened : (n : ℕ) (s : String) → cut host.split_text n s ≡ shortened n s
  unfolding cut
  cut-shortened n s = elim (Bool-cases (leb (len s) n)) [
    | inl e ↦ let e' : ltb n (len s) ≡ false = ground (arith, e) in rw (e, e') refl
    | inr e ↦ let e' : ltb n (len s) ≡ true = ground (arith, e) in rw (e, e') refl
  ]

  pub header_joined : list_header flags ≡ joined "\t" header_columns
  unfolding list_header
  header_joined = elim (Bool-cases flags.all_namespaces) [
    | inl e ↦ elim (Bool-cases (flags.output_format == "wide")) [
      | inl e' ↦ rw (e, e') refl
      | inr e' ↦ rw (e, e') refl
    ]
    | inr e ↦ elim (Bool-cases (flags.output_format == "wide")) [
      | inl e' ↦ rw (e, e') refl
      | inr e' ↦ rw (e, e') refl
    ]
  ]

  pub volumes_joined :
      (vols : List VolumeResizeTarget)
      → volumes_text host vols ≡ joined "," (map target_column vols)
  unfolding volumes_text more_volumes
  volumes_joined [] = refl
  volumes_joined (v ∷ []) = append-nil (target_column v)
  volumes_joined (v ∷ v' ∷ rest) =
      ap (λ s. target_column v ++ ("," ++ s)) (volumes_joined (v' ∷ rest))

  -- the columns in front of which the namespace stands, if all are listed
  front :
      (ns x y : String) (rest : List String)
      → (if flags.all_namespaces then ns ++ "\t" else "") ++ joined "\t" (x ∷ y ∷ rest)
        ≡ joined "\t" (with_namespace ns (x ∷ y ∷ rest))
  front ns x y rest = elim (Bool-cases flags.all_namespaces) [
    | inl e ↦ rw e (append_assoc ns "\t" _)
    | inr e ↦ rw e (nil-append _)
  ]

  pub narrow_joined : (vr : VolumeResize) → narrow_row host flags vr ≡ joined "\t" (columns vr [])
  unfolding narrow_row shown_phase max_message_length
  narrow_joined vr = elim (Bool-cases (flags.output_format == "wide")) [
    | inl e ↦ rw (e, cut-shortened 60 vr.status.message) (front _ _ _ _)
    | inr e ↦ rw (e, cut-shortened 40 vr.status.message) (front _ _ _ _)
  ]

  pub wide_joined :
      (vr : VolumeResize) (volumes age : String)
      → joined "\t" (columns vr []) ++ ("\t" ++ (volumes ++ ("\t" ++ age)))
        ≡ joined "\t" (columns vr (volumes ∷ age ∷ []))
  wide_joined vr volumes age = elim (Bool-cases flags.all_namespaces) [
    | inl e ↦ rw e (simp append_assoc)
    | inr e ↦ rw e (simp append_assoc)
  ]
