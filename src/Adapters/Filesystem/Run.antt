-- ===== src/Adapters/Filesystem/Run.antt =====
-- Calls that change the world of the file system adapter: they answer or throw, and log each change
-- of the disk.
use prism_spectra.Common.{[], ◌∷◌, ◌++◌}
use prism_spectra.Adapters.Os.{Io, done, failed, Thrown, Attempt, ok, throw}
use prism_spectra.Adapters.Filesystem.Types.{Effect, World}

abbrev pub Run : Type 0 → Type 0 → Type 0
Run W A = W → Attempt A × W

abbrev pub go_on : {W A B : Type 0} → Attempt A × W → (A → Run W B) → Attempt B × W
go_on (ok a, w) next = next a w
go_on (throw e, w) next = (throw e, w)

infixl 5 ◌>>=◌
abbrev pub ◌>>=◌ : {W A B : Type 0} → Run W A → (A → Run W B) → Run W B
◌>>=◌ first next w = go_on (first w) next

abbrev pub returning : {W A : Type 0} → A → Run W A
returning a w = (ok a, w)

module _ {Disk Bytes : Type 0} where
  -- A call that only reads the disk.
  abbrev pub reading : {A : Type 0} → (Disk → Attempt A) → Run (World Disk Bytes) A
  reading read w = (read w.disk, w)

  -- A change of the disk that is logged if it is made.
  abbrev pub logged :
      Io Disk → Effect Disk Bytes → World Disk Bytes → Attempt Unit × World Disk Bytes
  logged (done disk) e w = (ok tt, record { disk = disk; log = w.log ++ e ∷ [] })
  logged (failed f) e w = (throw (Thrown.system_failure f), w)
