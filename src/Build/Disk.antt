-- ===== src/Build/Disk.antt =====
-- What the build script uses of `std::env` and `std::fs`: steps over the files, each of which is done
-- or ends the script with a panic.
use rgpot.Prelude.{
  ◌&&◌, none, not, ◌==◌, if◌then◌else◌, Bool, Option, some, true, false, List, [], ◌∷◌,
}
use rgpot.Prelude.Text.{Text, codes}

-- A path: what was joined last comes first. Paths are compared as they are written.
abbrev pub FilePath : Type 0
FilePath = List Text

-- `PathBuf::from`
abbrev pub path_of : Text → FilePath
path_of s = s ∷ []

abbrev pub join : FilePath → Text → FilePath
join p s = s ∷ p

-- A file whose bytes are UTF-8, another file, or a directory.
pub data Node : Type 0 where
  text_file : Text → Node
  other_file directory : Node

-- `refused` are the paths at which the system lets nothing be made or changed.
pub record Disk : Type 0 where
  pub node : FilePath → Option Node
  pub refused : FilePath → Bool

pub data Outcome {ℓ} (A : Type ℓ) : Type ℓ where
  done : A → Disk → Outcome A
  failed : Text → Disk → Outcome A

abbrev pub Step {ℓ} : Type ℓ → Type ℓ
Step A = Disk → Outcome A

abbrev pub pure {ℓ} : {A : Type ℓ} → A → Step A
pure = done

abbrev pub fail {ℓ} : {A : Type ℓ} → Text → Step A
fail = failed

module _ {ℓ κ} {A : Type ℓ} {B : Type κ} where
  abbrev pub and_then : Outcome A → (A → Step B) → Outcome B
  and_then (done a d) k = k a d
  and_then (failed e d) k = failed e d

  infixl 5 ◌>>=◌ ◌>>◌
  abbrev pub ◌>>=◌ : Step A → (A → Step B) → Step B
  m >>= k = λ d. and_then (m d) k

  abbrev pub ◌>>◌ : Step A → Step B → Step B
  m >> n = m >>= λ _. n

-- The variables of the process, whose values are UTF-8.
abbrev pub Env : Type 0
Env = Text → Option Text

-- `env::var(name).unwrap()`
abbrev pub var : Env → Text → Step Text
var env name = elim (env name) [
  | some value ↦ pure value
  | none ↦ fail (codes "called `Result::unwrap()` on an `Err` value: NotPresent")
]

abbrev pub same_text : Text → Text → Bool
same_text [] [] = true
same_text (a ∷ s) (b ∷ t) = (a == b) && same_text s t
same_text _ _ = false

abbrev pub same_path : FilePath → FilePath → Bool
same_path [] [] = true
same_path (s ∷ p) (t ∷ q) = same_text s t && same_path p q
same_path _ _ = false

abbrev pub set_node : FilePath → Node → Disk → Disk
set_node p x d = record d { node = λ q. if same_path q p then some x else d.node q }

-- `Path::exists`
abbrev pub path_exists : FilePath → Step Bool
path_exists p d = elim (d.node p) [ some _ ↦ done true d | none ↦ done false d ]

-- A directory and all those that it is in; `p` is a file or refused: an error, on which `unwrap`
-- panics.
abbrev make_dirs : FilePath → Step (Unit {0})
make_dirs [] d = done tt d
make_dirs (s ∷ p) d =
    let made = and_then (make_dirs p d) λ _ d'.
      if d'.refused (s ∷ p)
      then failed (codes "create_dir_all") d'
      else done tt (set_node (s ∷ p) directory d') in
    elim (d.node (s ∷ p)) [
      | some directory ↦ done tt d
      | some _ ↦ failed (codes "create_dir_all") d
      | none ↦ made
    ]

unfoldable pub create_dir_all : FilePath → Step (Unit {0})
create_dir_all = make_dirs

-- `fs::read_to_string(p).unwrap()`
unfoldable pub read_to_string : FilePath → Step Text
read_to_string p d = elim (d.node p) [
  | some (text_file s) ↦ done s d
  | _ ↦ failed (codes "read_to_string") d
]

-- `fs::write(p, s).unwrap()`, into a directory that is there.
abbrev pub writable : FilePath → Disk → Bool
writable [] d = false
writable (s ∷ p) d = elim (d.node (s ∷ p)) [
  | some directory ↦ false
  | some _ ↦ not (d.refused (s ∷ p))
  | none ↦ elim (d.node p) [ some directory ↦ not (d.refused (s ∷ p)) | _ ↦ false ]
]

unfoldable pub write : FilePath → Text → Step (Unit {0})
write p s d =
    if writable p d then done tt (set_node p (text_file s) d) else failed (codes "write") d
