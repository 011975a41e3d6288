-- ===== src/StateFile.antt =====
-- src/outbound/state/file.go: the state in a JSON file that is replaced by renaming a temporary file
-- over it. The JSON library and the file system are parameters. One process at a time holds the
-- file, so that the mutex has nothing to order.
pub mod Port
mod Samples
use previewctl.Base.{
  ℕ, zero, suc, ◌+◌, ◌-◌, ◌*◌, ◌/◌, ◌%◌, ◌^◌, ◌≤◌, ◌<◌, Bool, true, false, ◌&&◌, ◌||◌, not, Option,
  none, some, List, [], ◌∷◌, ◌++◌, map, reverse, ◌≡◌, refl, sym, ap, ◌∙◌, subst, ◌≢◌, ◌↔◌, ◌⊎◌, inl,
  inr, arith, Text, bytes, ◌==◌, eq_iff, eq_refl, Map, lookup, insert, erase, keys, lookup-insert,
  lookup-erase, HasUniqueKeys, if◌then◌else◌, ltb, leb, eqb, is_some, get_or, Bool-cases,
  Option-cases, length, elem, count, All, Result, ok, err, ◌>>=◌,
}
use previewctl.Config.Load.{FileRead, contents, missing, unreadable}
use previewctl.Environment.{EnvironmentEntry}

-- `State` and `NewState` of src/domain/environment.go.
pub record State : Type 0 where
  pub version : ℕ
  pub environments : Map EnvironmentEntry

abbrev pub new_state : State
new_state = record { version = 1; environments = [] }

-- The file at the path, and the temporary file beside it.
pub record Disk : Type 0 where
  pub file : FileRead
  pub temp : Option Text

-- What the calls of `os` report, by the disk that they meet: the message of an error, if there is
-- one. A failed write of the temporary file leaves `partial` of the data.
pub record FileSystem : Type 0 where
  pub mkdir_error : Disk → Option Text
  pub write_error : Text → Disk → Option Text
  pub partial : Text → Disk → Option Text
  pub rename_error : Disk → Option Text

pub record Json : Type 0 where
  pub marshal : State → Result Text
  pub unmarshal : Text → Result State

module _ (json : Json) where
  -- `loadUnsafe`; `Load` is the same under the mutex.
  unfoldable pub load_unsafe : Disk → Result State
  load_unsafe disk = elim disk.file [
    | missing ↦ ok new_state
    | unreadable e ↦ err (bytes "reading state file: " ++ e)
    | contents text ↦ elim (json.unmarshal text) [
      | err e ↦ err (bytes "parsing state file: " ++ e)
      | ok state ↦ ok state
    ]
  ]

  unfoldable pub get_environment : Text → Disk → Result (Option EnvironmentEntry)
  unfolding load_unsafe
  get_environment name disk = load_unsafe disk >>= λ state. ok (lookup name state.environments)

  module _ (fs : FileSystem) where
    -- `os.Rename`, and `os.Remove` of the temporary file when it fails.
    unfoldable pub replace : Text → Disk → Disk × Result (Unit {0})
    replace text disk = elim (fs.rename_error disk) [
      | some e ↦ (record disk { temp = none }, err (bytes "renaming state file: " ++ e))
      | none ↦ (record { file = contents text; temp = none }, ok tt)
    ]

    unfoldable pub write_atomic : State → Disk → Disk × Result (Unit {0})
    unfolding replace
    write_atomic state disk = elim (fs.mkdir_error disk) [
      | some e ↦ (disk, err (bytes "creating state directory: " ++ e))
      | none ↦ elim (json.marshal state) [
        | err e ↦ (disk, err (bytes "marshaling state: " ++ e))
        | ok text ↦ elim (fs.write_error text disk) [
          | some e ↦ (
            record disk { temp = fs.partial text disk },
            err (bytes "writing temp state file: " ++ e),
          )
          | none ↦ replace text (record disk { temp = some text })
        ]
      ]
    ]

    -- A change of the state that was read.
    unfoldable pub set_environment : Text → EnvironmentEntry → Disk → Disk × Result (Unit {0})
    unfolding load_unsafe write_atomic
    set_environment name entry disk = elim (load_unsafe disk) [
      | err e ↦ (disk, err e)
      | ok state ↦
          write_atomic (record state { environments = insert name entry state.environments }) disk
    ]

    unfoldable pub remove_environment : Text → Disk → Disk × Result (Unit {0})
    unfolding load_unsafe write_atomic
    remove_environment name disk = elim (load_unsafe disk) [
      | err e ↦ (disk, err e)
      | ok state ↦ write_atomic (record state { environments = erase name state.environments }) disk
    ]
