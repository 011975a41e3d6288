-- ===== src/StateFile/Port.antt =====
-- The file adapter of src/outbound/state/file.go as a `StatePort`.
use previewctl.Base.{
  none, some, ◌≡◌, inl, inr, arith, Text, ◌==◌, insert, erase, lookup-insert, lookup-erase,
  if◌then◌else◌, Option-cases, ok, err, Result-cases,
}
use previewctl.Environment.{EnvironmentEntry}
use previewctl.Engine.{StatePort}
use previewctl.StateFile.{
  State, Disk, FileSystem, Json, load_unsafe, get_environment, replace, write_atomic,
  set_environment, remove_environment,
}

module _ (json : Json) (fs : FileSystem)
    (decodes : (state : State) (text : Text)
      → json.marshal state ≡ ok text
      → json.unmarshal text ≡ ok state) where
  -- Whatever call fails on the way, `writeAtomic` leaves a whole state to read: after an error what is
  -- read is as before the call, and else it is the state that was written. The JSON library reads back
  -- what it wrote.
  pub load-write_atomic :
      (state : State) (disk : Disk)
      → let r = write_atomic json fs state disk in
        (r.1 ≡ ok tt → load_unsafe json r.0 ≡ ok state)
        × ((message : Text) → r.1 ≡ err message → load_unsafe json r.0 ≡ load_unsafe json disk)
  unfolding write_atomic replace load_unsafe
  load-write_atomic state disk = elim (Option-cases (fs.mkdir_error disk)) [
    | inr e ↦ (λ h. absurd (ground (arith, e.1, h)), λ m h. ground (arith, e.1))
    | inl e ↦ elim (Result-cases (json.marshal state)) [
      | inr j ↦ (λ h. absurd (ground (arith, e, j.1, h)), λ m h. ground (arith, e, j.1))
      | inl j ↦ elim (Option-cases (fs.write_error j.0 disk)) [
        | inr w ↦ (λ h. absurd (ground (arith, e, j.1, w.1, h)), λ m h. ground (arith, e, j.1, w.1))
        | inl w ↦ elim (Option-cases (fs.rename_error (record disk { temp = some j.0 }))) [
          | inr r ↦ (
            λ h. absurd (ground (arith, e, j.1, w, r.1, h)),
            λ m h. ground (arith, e, j.1, w, r.1),
          )
          | inl r ↦ (
            λ h. ground (arith, e, j.1, w, r, decodes state j.0 j.1),
            λ m h. absurd (ground (arith, e, j.1, w, r, h)),
          )
        ]
      ]
    ]
  ]

  pub get-set :
      (name other : Text) (e : EnvironmentEntry) (disk : Disk)
      → (set_environment json fs name e disk).1 ≡ ok tt
      → get_environment json other (set_environment json fs name e disk).0
        ≡ (if name == other then ok (some e) else get_environment json other disk)
  unfolding set_environment get_environment
  get-set name other e disk h = elim (Result-cases (load_unsafe json disk)) [
    | inr l ↦ absurd (ground (arith, l.1, h))
    | inl l ↦
        let state : State = record l.0 { environments = insert name e l.0.environments } in
        ground (
          arith,
          l.1,
          h,
          (load-write_atomic state disk).0,
          lookup-insert name other e l.0.environments,
        )
  ]

  pub get-remove :
      (name other : Text) (disk : Disk)
      → (remove_environment json fs name disk).1 ≡ ok tt
      → get_environment json other (remove_environment json fs name disk).0
        ≡ (if name == other then ok none else get_environment json other disk)
  unfolding remove_environment get_environment
  get-remove name other disk h = elim (Result-cases (load_unsafe json disk)) [
    | inr l ↦ absurd (ground (arith, l.1, h))
    | inl l ↦
        let state : State = record l.0 { environments = erase name l.0.environments } in
        ground (
          arith,
          l.1,
          h,
          (load-write_atomic state disk).0,
          lookup-erase name other l.0.environments,
        )
  ]

  pub get-failed_set :
      (name other message : Text) (e : EnvironmentEntry) (disk : Disk)
      → (set_environment json fs name e disk).1 ≡ err message
      → get_environment json other (set_environment json fs name e disk).0
        ≡ get_environment json other disk
  unfolding set_environment get_environment
  get-failed_set name other message e disk h = elim (Result-cases (load_unsafe json disk)) [
    | inr l ↦ ground (arith, l.1)
    | inl l ↦
        let state : State = record l.0 { environments = insert name e l.0.environments } in
        ground (arith, l.1, h, (load-write_atomic state disk).1 message)
  ]

  -- The adapter as a `StatePort`.
  abbrev pub file_port : StatePort Disk
  file_port = record {
    get_environment = get_environment json;
    set_environment = set_environment json fs;
    remove_environment = remove_environment json fs;
    get-set = get-set;
    get-remove = get-remove;
    get-failed_set = get-failed_set;
  }
