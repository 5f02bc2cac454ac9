-- ===== src/Adapters/Os.antt =====
-- `node:path`, `node:fs`, `Buffer` and `node:crypto` as adapters/ uses them, and values for what throws.
use prism_spectra.Common.{ℕ, Bool, true, false, List, Option, none, some, String}
use prism_spectra.Adapters.Types.{AdapterError}

-- An error of the operating system, with its `code`.
pub record SystemFailure : Type 0 where
  pub code : Option String
  pub message : String

pub data Io (A : Type 0) : Type 0 where
  done : A → Io A
  failed : SystemFailure → Io A

-- What `stat` tells of a path.
pub record Stats : Type 0 where
  pub is_file : Bool
  pub is_directory : Bool
  pub is_symbolic_link : Bool
  pub size : ℕ
  pub mtime_ms : ℕ
  pub ctime_ms : ℕ

pub record Dirent : Type 0 where
  pub name : String
  pub is_file : Bool
  pub is_directory : Bool
  pub is_symbolic_link : Bool

pub record Os (Disk : Type 0) (Bytes : Type 0) : Type 0 where
  -- node:path
  pub is_absolute : String → Bool
  pub resolve : String → String
  pub resolve_from : String → String → String
  pub relative : String → String → String
  pub dirname : String → String
  pub join : String → String → String
  -- node:fs
  pub realpath : Disk → String → Io String
  pub exists : Disk → String → Bool
  pub stat : Disk → String → Io Stats
  pub read_file : Disk → String → Io Bytes
  pub readdir : Disk → String → Io (List Dirent)
  -- with `recursive`, so that the next disk also has the folders above that were missing
  pub mkdir : Disk → String → Io Disk
  pub write_file : Disk → String → Bytes → Io Disk
  -- Buffer and node:crypto
  pub to_buffer : String → Bytes
  pub to_text : Bytes → String
  pub byte_length : Bytes → ℕ
  pub sha256 : Bytes → String

pub data Thrown : Type 0 where
  adapter_error : AdapterError → Thrown
  system_failure : SystemFailure → Thrown

pub data Attempt (A : Type 0) : Type 0 where
  ok : A → Attempt A
  throw : Thrown → Attempt A

infixl 5 ◌>>=◌
abbrev pub ◌>>=◌ : {A B : Type 0} → Attempt A → (A → Attempt B) → Attempt B
ok a >>= next = next a
throw e >>= next = throw e

-- A test that throws.
abbrev pub throw_if : Bool → Thrown → Attempt Unit
throw_if true e = throw e
throw_if false e = ok tt

abbrev pub awaited : {A : Type 0} → Io A → Attempt A
awaited (done a) = ok a
awaited (failed f) = throw (system_failure f)

abbrev pub some_or_throw : {A : Type 0} → Option A → Thrown → Attempt A
some_or_throw none e = throw e
some_or_throw (some a) e = ok a
