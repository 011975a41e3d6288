-- ===== src/ComputeAccess.antt =====
-- The `ComputeAccess` of src/domain/compute_access.go, and the local one of src/domain/manager.go,
-- over the states `C` of the machine. Processes and files are the operating system's.
pub mod Ssh
pub mod Made
use previewctl.Base.{
  ℕ, zero, suc, ◌+◌, ◌-◌, ◌*◌, ◌/◌, ◌%◌, ◌^◌, ◌≤◌, ◌<◌, Bool, true, false, ◌&&◌, ◌||◌, not, Option,
  none, some, List, [], ◌∷◌, ◌++◌, map, reverse, ◌≡◌, refl, sym, ap, ◌∙◌, subst, ◌≢◌, ◌↔◌, ◌⊎◌, inl,
  inr, arith, Text, bytes, ◌==◌, eq_iff, eq_refl, Map, lookup, insert, erase, keys, lookup-insert,
  lookup-erase, HasUniqueKeys, if◌then◌else◌, ltb, leb, eqb, is_some, get_or, Bool-cases,
  Option-cases, length, elem, count, All, Result, ok, err,
}

pub record ComputeAccess (C : Type 0) : Type 0 where
  pub root : Text
  pub write_file : (path content : Text) → C → C × Result (Unit {0})
  pub read_file : Text → C → C × Result Text
  pub exec : (command : Text) → List Text → C → C × Result Text
  pub verbose_exec : (command : Text) → List Text → C → C × Result Text

-- What the steps rely on: a file that was written is read back, and reading leaves the machine as
-- it is.
pub record HasFiles {C : Type 0} (access : ComputeAccess C) : Type 0 where
  pub read-write :
      (path content : Text) (c : C)
      → (access.write_file path content c).1 ≡ ok tt
      → (access.read_file path (access.write_file path content c).0).1 ≡ ok content
  pub read_keeps : (path : Text) (c : C) → (access.read_file path c).0 ≡ c

-- The operating system's calls that `DomainLocalComputeAccess` makes. `shell` is `sh -c` in a
-- directory, with what is added to the environment; it gives the standard output.
pub record Os (C : Type 0) : Type 0 where
  pub join_path : Text → Text → Text
  pub dir_of : Text → Text
  pub mkdir_all : Text → C → C × Result (Unit {0})
  pub write_file : (path content : Text) → C → C × Result (Unit {0})
  pub remove : Text → C → C
  pub read_file : Text → C → Result Text
  pub shell : (directory command : Text) → List Text → C → C × Result Text

module _ {C : Type 0} where
  -- `WriteFile`; no content takes the file away.
  unfoldable pub local_write_file : Os C → Text → Text → Option Text → C → C × Result (Unit {0})
  local_write_file os root path content c =
      let made = os.mkdir_all (os.dir_of (os.join_path root path)) c in
      elim made.1 [
        | err e ↦ (made.0, err e)
        | ok _ ↦ elim content [
          | none ↦ (os.remove (os.join_path root path) made.0, ok tt)
          | some text ↦ os.write_file (os.join_path root path) text made.0
        ]
      ]

  unfoldable pub local_read_file : Os C → Text → Text → C → C × Result Text
  local_read_file os root path c = (c, os.read_file (os.join_path root path) c)

  -- `execInternal`. The verbose form differs in where the output is shown.
  unfoldable pub local_exec : Os C → Text → Text → List Text → C → C × Result Text
  local_exec os root command env c =
      let ran = os.shell root command env c in
      elim ran.1 [
        | err e ↦ (ran.0, err (bytes "exec in " ++ (root ++ (bytes ": " ++ e))))
        | ok stdout ↦ (ran.0, ok stdout)
      ]

  -- `NewDomainLocalComputeAccess`
  unfoldable pub local_access : Os C → Text → ComputeAccess C
  unfolding local_write_file local_read_file local_exec
  local_access os root = record {
    root = root;
    write_file = λ path content. local_write_file os root path (some content);
    read_file = local_read_file os root;
    exec = local_exec os root;
    verbose_exec = local_exec os root;
  }

  -- The local access has the laws of files when the operating system's files have them.
  pub local_access-HasFiles :
      (os : Os C) (root : Text)
      → ((path content : Text) (c : C)
          → (os.write_file path content c).1 ≡ ok tt
          → os.read_file path (os.write_file path content c).0 ≡ ok content)
      → HasFiles (local_access os root)
  unfolding local_access local_write_file local_read_file
  local_access-HasFiles os root law = record { read-write = written; read_keeps = λ path c. refl }
    where
      written :
          (path content : Text) (c : C)
          → (local_write_file os root path (some content) c).1 ≡ ok tt
          → os.read_file (os.join_path root path) (local_write_file os root path (some content) c).0
            ≡ ok content
      written path content c h = ground (
        arith,
        h,
        law (os.join_path root path) content
            (os.mkdir_all (os.dir_of (os.join_path root path)) c).0,
      )
