-- ===== src/Picod/Disk.antt =====
-- The operating system as pkg/picod uses it, over a world `W`, and the answers of the daemon. Texts of
-- errors are not modelled.
use agentcube.Prelude.{ℕ, String, Bool, List, [], ◌∷◌}
use agentcube.Errors.{Error, Result, Try}
use agentcube.Time.{Time}
use agentcube.Picod.Paths.{Names, Raw}
use agentcube.Picod.Jail.{Files}

pub record FileStat : Type 0 where
  pub size : ℕ
  pub modified : Time
  pub mode : String
  pub is_dir : Bool

pub record FileEntry : Type 0 where
  pub name : String
  pub stat : FileStat

pub record FileInfo : Type 0 where
  pub path : Names
  pub stat : FileStat

-- The files, with an entry of a directory whose `Info` fails given as an error.
pub record Disk (W : Type 0) : Type 0 where
  pub files : Files W
  -- `os.WriteFile`, and `os.OpenFile` with `io.Copy`: the content and the mode.
  pub write_file : Names → List ℕ → ℕ → Try W (Unit {0})
  pub stat : Names → W → Result FileStat
  pub read_dir : Names → W → Result (List (String × Result FileStat))
  -- `os.IsNotExist`
  pub is_not_exist : Error → Bool
  -- A path as `filepath` reads it, and the bytes of a text.
  pub raw : String → Raw
  pub bytes : String → List ℕ

pub data Body : Type 0 where
  failed : String → Body
  info : FileInfo → Body
  listing : List FileEntry → Body
  -- `c.File`: the content of a file.
  content : Names → Body

pub record Answer : Type 0 where
  pub code : ℕ
  pub body : Body

abbrev pub refuse : ℕ → String → Answer
refuse code text = record { code = code; body = failed text }

abbrev pub info_answer : FileInfo → Answer
info_answer i = record { code = 200; body = info i }

-- `filepath.Dir` of a clean absolute path.
abbrev pub dir : Names → Names
dir [] = []
dir (x ∷ []) = []
dir (x ∷ y ∷ names) = x ∷ dir (y ∷ names)
