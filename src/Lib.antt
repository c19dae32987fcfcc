-- ===== src/Lib.antt =====
-- The volume resize operator, migcontroller: a Kubernetes controller that shrinks the volumes of a
-- StatefulSet by copying each claim of each replica to a smaller one.
--
-- The code is modelled as trees of requests: a function that talks to the API server is a `Prog`,
-- whose `call` nodes are the requests (Call) and whose branches are the answers. The API server,
-- the other controllers and the clock are one parameter, a `Handler` from a state of theirs to
-- answers; `run` gives how a run ends and the log of its requests. Statements about runs hold for
-- every handler and state, unless they name what they need of the answers. The pure functions of
-- libraries (JSON, quantities, label selectors, finalizers, quoting) are the fields of `Lib`.
--
-- Parts:
--   Prelude: shared names; maps (Dict) and Go's int32 as its bit pattern (Int32).
--   Objects: the API objects, with the fields that the code names, and `error` values.
--   VolumeResize: api/v1alpha1/volumeresize_types.go, internal/controller/constants.go.
--   Call, Prog, Prog/Safe: requests, programs, runs, and the rules for guards and postconditions.
--   Names: the derived names (getOriginalPVCName, getPodName and the like).
--   Pvc, Sts, Migrator, Validation: internal/controller/pvc.go, statefulset.go, migrator.go,
--     validation.go, function by function.
--   Status: updateVolumeStatus, updateVolumeStatusInList, getNextVolumeReplica and the loops over
--   the statuses, of internal/controller/volumeresize_controller.go.
--   Controller, Controller/Results, Controller/Syncing: Reconcile and the handlers of that file.
--   handleSyncing is cut into stages in the order of its text (prepare_volumes, detach_sts,
--   migrate, swap_claims, restore_sts, await_pod, advance).
--   Syncing, Validating, Deletion, Reconciling, Walk, Waiting, Backup, Templates, Bookkeeping:
--   proofs, by the handler or the part that they are about.
--   Plain: the parts of the handlers that ask for no change of a VolumeResize. Tracking: what the
--   handlers make of the stored VolumeResize. Moves is the abstract view of a migration; Stages,
--   Swapping, Syncing and Handlers go through the code; Refines runs it again and again; Entries,
--   Past, Good and Complete are about the moves, and Panics about where a pass may panic.
--   Manager: the operator's binary, cmd/main.go, with its proofs in Manager/Start.
--   Volmig: the command line tool, cmd/volmig. Client: cmd/root.go and main.go; Create, Delete,
--   Watch, Status, Describe, List: the commands of the files of that name in cmd/volmig/cmd, with
--   version.go in List; Text: constants.go and the texts that the commands share; Age: formatAge of
--   list.go, with the float64 arithmetic of time.Duration. Prints, Reports, Watching, WatchEnds,
--   Changes, Creating, Deleting, Showing, Rows, Listing, Describing: proofs.
--   Examples: a small cluster, a whole migration on it, and instances of the theorems.
--
-- An early return of a handler is `stop`; a nil dereference, an index out of range and a write to a
-- nil map are `panic`. A wait loop takes as fuel one round more than its timeout divided by its
-- sleep allows, and one for the last look at the clock, and ends in `out_of_fuel` if that is used
-- up, which Waiting excludes for a clock that does not run backwards and advances by what was
-- slept. The loop of volmig watch is endless in the code; its fuel is the number of its reads.
-- Phases are data with a constructor for any other text. Times are nanoseconds.
--
-- A command of volmig is a program whose `stop` is os.Exit. `Host` has what it takes from libraries
-- and the process: the configuration and the client, the parsing and printing of quantities, the
-- formats of times and durations, the tables of text/tabwriter, and what stands for a message that
-- was cut inside a character, whose bytes are not UTF-8 and so no String. A Duration is exact, so
-- times that lie more than 292 years apart, where Go's saturates, differ.
--
-- Not modelled: logging; SetupWithManager, which registers the reconciler; generated deep copies
-- and scheme registration; the parsing of the operator's flags, and the declaration of volmig's
-- commands and flags and their parsing by cobra. Deep copies and pointer aliasing have no
-- counterpart, since values are immutable.
pub mod Plain
pub mod Prelude
pub mod Objects
pub mod VolumeResize
pub mod Call
pub mod Prog
pub mod Names
pub mod Pvc
pub mod Sts
pub mod Migrator
pub mod Manager
pub mod Status
pub mod Validation
pub mod Controller
mod Examples
pub mod Syncing
pub mod Templates
pub mod Volmig
pub mod Tracking
pub mod Walk
pub mod Backup
pub mod Bookkeeping
pub mod Deletion
pub mod Reconciling
pub mod Validating
pub mod Waiting
