-- ===== src/Build.antt =====
-- rgpot-core/build.rs: the C header and the schema's code, over the files of the machine that builds.
pub mod Disk
pub mod Header
pub mod Schema
use rgpot.Build.Disk.{
  FilePath, Env, Step, join, path_of, pure, fail, ◌>>=◌, ◌>>◌, var, path_exists, create_dir_all,
  read_to_string, write,
}
use rgpot.Prelude.Text.{Text, codes, decimal}
use rgpot.Prelude.{
  length, none, ◌&&◌, ◌||◌, ◌==◌, some, leb, Option, get_elem?, if◌then◌else◌, Bool, ℕ, ◌+◌, true,
  false, List, [], ◌∷◌, arith, ◌++◌,
}

-- `crate_dir` is the path in CARGO_MANIFEST_DIR, and `include` and `rgpot.h` are joined to it.
abbrev pub output_dir : FilePath → FilePath
output_dir crate_dir = join crate_dir (codes "include")

abbrev pub header_path : FilePath → FilePath
header_path crate_dir = join (output_dir crate_dir) (codes "rgpot.h")

-- `s.split('.').collect()`, which has one part at least.
abbrev pub cons_head : ℕ → List Text → List Text
cons_head c [] = (c ∷ []) ∷ []
cons_head c (part ∷ parts) = (c ∷ part) ∷ parts

abbrev pub split_dot : Text → List Text
split_dot [] = [] ∷ []
split_dot (c ∷ s) = let parts = split_dot s in if c == b'.' then [] ∷ parts else cons_head c parts

-- `parts[i]`
abbrev pub index : List Text → ℕ → Step Text
index parts i = elim (get_elem? parts i) [
  | some part ↦ pure part
  | none ↦ fail (
      codes "index out of bounds: the len is "
      ++ decimal (length parts)
      ++ codes " but the index is "
      ++ decimal i)
]

abbrev pub newline : Text
newline = 10 ∷ []

abbrev quote : Text
quote = 34 ∷ []

abbrev pub version_block : (version major minor patch : Text) → Text
version_block version major minor patch =
    codes "#define RGPOT_VERSION "
    ++ quote
    ++ version
    ++ quote
    ++ newline
    ++ codes "#define RGPOT_VERSION_MAJOR "
    ++ major
    ++ newline
    ++ codes "#define RGPOT_VERSION_MINOR "
    ++ minor
    ++ newline
    ++ codes "#define RGPOT_VERSION_PATCH "
    ++ patch

-- The block behind what the configuration already includes.
abbrev pub with_version : Option Text → Text → Text
with_version (some existing) block = existing ++ newline ++ newline ++ block
with_version none block = block

-- `char::is_whitespace`: the code points with the property White_Space.
abbrev pub is_white : ℕ → Bool
is_white c =
    (leb 9 c && leb c 13)
    || (c == 32)
    || (c == 133)
    || (c == 160)
    || (c == 5760)
    || (leb 8192 c && leb c 8202)
    || (c == 8232)
    || (c == 8233)
    || (c == 8239)
    || (c == 8287)
    || (c == 12288)

abbrev pub cons_trimmed : ℕ → Text → Text
cons_trimmed c [] = if is_white c then [] else c ∷ []
cons_trimmed c (d ∷ s) = c ∷ d ∷ s

-- `str::trim_end`
abbrev pub trim_end : Text → Text
trim_end [] = []
trim_end (c ∷ s) = cons_trimmed c (trim_end s)

-- What the header function uses of cbindgen: a configuration with its field `after_includes`, the
-- bindings of a crate, and the file that they are written to.
pub record Cbindgen : Type 1 where
  pub Config : Type 0
  pub Bindings : Type 0
  pub from_file : Text → Step Config
  pub after_includes : Config → Option Text
  pub set_after_includes : Text → Config → Config
  pub generate : FilePath → Config → Step Bindings
  pub write_to_file : Bindings → FilePath → Step (Unit {0})

unfoldable pub generate_c_header : Cbindgen → Env → FilePath → Step (Unit {0})
generate_c_header cb env crate_dir = do
  create_dir_all (output_dir crate_dir)
  config ← cb.from_file (codes "cbindgen.toml")
  version ← var env (codes "CARGO_PKG_VERSION")
  let parts = split_dot version
  major ← index parts 0
  minor ← index parts 1
  patch ← index parts 2
  let block = version_block version major minor patch
  let config = cb.set_after_includes (with_version (cb.after_includes config) block) config
  bindings ← cb.generate crate_dir config
  cb.write_to_file bindings (header_path crate_dir)
  content ← read_to_string (header_path crate_dir)
  write (header_path crate_dir) (trim_end content ++ newline)

-- capnpc's `CompilerCommand` with a prefix and one schema file.
abbrev pub Capnpc : Type 0
Capnpc = (prefix schema : FilePath) → Step (Unit {0})

abbrev pub bundled_dir : FilePath → FilePath
bundled_dir crate_dir = join crate_dir (codes "schema")

abbrev pub monorepo_dir : FilePath → FilePath
monorepo_dir crate_dir =
    join (join (join (join crate_dir (codes "..")) (codes "CppCore")) (codes "rgpot")) (codes "rpc")

abbrev pub stub_text : Text
stub_text = codes "// Auto-generated stub: Potentials.capnp not found at build time." ++ newline

unfoldable pub compile_capnp_schema : Capnpc → Env → FilePath → Step (Unit {0})
compile_capnp_schema run env crate_dir = do
  let bundled = join (bundled_dir crate_dir) (codes "Potentials.capnp")
  let monorepo = join (monorepo_dir crate_dir) (codes "Potentials.capnp")
  is_bundled ← path_exists bundled
  if is_bundled then run (bundled_dir crate_dir) bundled else do
    is_monorepo ← path_exists monorepo
    if is_monorepo then run (monorepo_dir crate_dir) monorepo else do
      out_dir ← var env (codes "OUT_DIR")
      write (join (path_of out_dir) (codes "Potentials_capnp.rs")) stub_text

-- `main` with the features `gen-header` and `rpc` on or off.
unfoldable pub main : (gen_header rpc : Bool) → Cbindgen → Capnpc → Env → Step (Unit {0})
main gen_header rpc cb run env =
    if gen_header || rpc
    then (do
      crate_dir ← var env (codes "CARGO_MANIFEST_DIR")
      if gen_header then generate_c_header cb env (path_of crate_dir) else pure tt
      if rpc then compile_capnp_schema run env (path_of crate_dir) else pure tt)
    else pure tt
