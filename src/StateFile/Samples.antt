-- ===== src/StateFile/Samples.antt =====
-- A library that can write a state with no environment, and the theorem at it.
use previewctl.Base.{
  none, some, List, [], ◌∷◌, ◌≡◌, refl, ◌⊎◌, inl, inr, arith, Text, bytes, Result, ok, err,
}
use previewctl.Config.Load.{missing}
use previewctl.StateFile.{State, new_state, Disk, FileSystem, Json, load_unsafe, write_atomic}
use previewctl.StateFile.Port.{load-write_atomic}

abbrev marshal : State → Result Text
marshal state = elim state.environments [
  | [] ↦ ok (state.version ∷ [])
  | _ ∷ _ ↦ err (bytes "too large")
]

abbrev unmarshal : Text → Result State
unmarshal [] = err (bytes "no number")
unmarshal (version ∷ _) = ok (record { version = version; environments = [] })

abbrev json : Json
json = record { marshal = marshal; unmarshal = unmarshal }

-- Renaming fails where the file is not there yet.
abbrev fs : FileSystem
fs = record {
  mkdir_error = λ disk. none;
  write_error = λ text disk. none;
  partial = λ text disk. none;
  rename_error =
      λ (disk : Disk). elim disk.file [ missing ↦ some (bytes "no such file") | _ ↦ none ];
}

decodes : (state : State) (text : Text) → marshal state ≡ ok text → unmarshal text ≡ ok state
decodes state text h = elim (is_nil state.environments) [
  | inl e ↦ ground (arith, e, h)
  | inr e ↦ ground (arith, e.2, h)
]
  where
    is_nil : {A : Type 0} (xs : List A) → (xs ≡ []) ⊎ ((x : A) × (r : List A) × (xs ≡ x ∷ r))
    is_nil [] = inl refl
    is_nil (x ∷ r) = inr (x, r, refl)

abbrev disk : Disk
disk = record { file = missing; temp = none }

load-write_atomic_example :
    let r = write_atomic json fs new_state disk in
    (r.1 ≡ ok tt → load_unsafe json r.0 ≡ ok new_state)
    × ((message : Text) → r.1 ≡ err message → load_unsafe json r.0 ≡ load_unsafe json disk)
load-write_atomic_example = load-write_atomic json fs decodes new_state disk
