-- ===== src/Tests/Build.antt =====
-- The build script on small disks.
use rgpot.Build.Schema.{
  code_path, schema_name, IsCapnpc, main-writes_code, Written, set_node-Written, from_bundled,
}
use rgpot.Build.Header.{write-writable, IsTrimmed, IsCbindgen, generate_c_header-IsTrimmed}
use rgpot.Prelude.{none, some, true, ◌∷◌, ◌≡◌, ◌++◌, false, [], Option, if◌then◌else◌, refl}
use rgpot.Prelude.Text.{decimal, codes, Text}
use rgpot.Build.Disk.{
  pure, done, same_path, same_text, directory, text_file, failed, Env, set_node, create_dir_all,
  FilePath, Disk, path_of, join, write,
}
use rgpot.Build.{
  monorepo_dir, stub_text, version_block, output_dir, compile_capnp_schema, bundled_dir, Cbindgen,
  Capnpc, main, generate_c_header, header_path, newline,
}

abbrev crate : FilePath
crate = path_of (codes "/rgpot-core")

-- A crate directory with nothing in it, and one with the schema.
abbrev bare : Disk
bare = record {
  node = λ q. if same_path q crate then some directory else none;
  refused = λ q. false;
}

abbrev schema_file : FilePath
schema_file = join (bundled_dir crate) (codes "Potentials.capnp")

abbrev with_schema : Disk
with_schema = set_node schema_file (text_file (codes "@0x1")) bare

-- A cbindgen whose bindings are the text of the includes, with too many newlines behind it.
abbrev cb : Cbindgen
cb = record {
  Config = Option Text;
  Bindings = Text;
  from_file = λ name. pure (some (codes "#pragma once"));
  after_includes = λ config. config;
  set_after_includes = λ text config. some text;
  generate = λ p config. pure (or_empty config ++ newline ++ newline ++ 32 ∷ []);
  write_to_file = λ b p. write p b;
}
  where
    or_empty : Option Text → Text
    or_empty none = []
    or_empty (some t) = t

abbrev cb-IsCbindgen : IsCbindgen cb
cb-IsCbindgen = record { text = λ b. b; writes = λ b p d h. write-writable p b d h }

abbrev env : Env
env name =
    if same_text name (codes "CARGO_PKG_VERSION")
    then some (codes "1.2.3-rc.1")
    else if same_text name (codes "CARGO_MANIFEST_DIR")
    then some (codes "/rgpot-core")
    else if same_text name (codes "OUT_DIR")
    then some (codes "/out")
    else none

abbrev old_env : Env
old_env name = if same_text name (codes "CARGO_PKG_VERSION") then some (codes "1.2") else none

abbrev with_include : Disk
with_include = set_node (output_dir crate) directory bare

abbrev block : Text
block = version_block (codes "1.2.3-rc.1") (codes "1") (codes "2") (codes "3-rc")

abbrev bindings : Text
bindings = (codes "#pragma once" ++ newline ++ newline ++ block) ++ newline ++ newline ++ 32 ∷ []

generate_c_header-IsTrimmed_example :
    (d' : Disk) × (t : Text) × (generate_c_header cb env crate bare ≡ done tt d')
    × IsTrimmed bindings t
    × (d'.node (header_path crate) ≡ some (text_file (t ++ 10 ∷ [])))
    × ((q : FilePath) → same_path q (header_path crate) ≡ false → d'.node q ≡ with_include.node q)
unfolding create_dir_all
generate_c_header-IsTrimmed_example =
    generate_c_header-IsTrimmed cb env crate bare with_include with_include with_include
      (some (codes "#pragma once")) (codes "1.2.3-rc.1") (codes "1") (codes "2") (codes "3-rc")
      (codes "1" ∷ []) bindings cb-IsCbindgen refl refl refl refl refl refl

-- A version of two parts has no patch.
two_parts_test :
    generate_c_header cb old_env crate bare
    ≡ failed (codes "index out of bounds: the len is 2 but the index is 2") with_include
unfolding generate_c_header create_dir_all decimal
two_parts_test = refl

-- The compiler is called with the bundled schema where it is there, and else a stub is written.
abbrev compiler : Capnpc
compiler prefix schema d = failed (codes "compiled") d

abbrev out_dir : Disk
out_dir = set_node (path_of (codes "/out")) directory bare

schema_test :
    compile_capnp_schema compiler env crate with_schema ≡ failed (codes "compiled") with_schema
unfolding compile_capnp_schema
schema_test = refl

stub_test :
    main false true cb compiler env out_dir
    ≡ done tt (
        set_node
          (join (path_of (codes "/out")) (codes "Potentials_capnp.rs"))
          (text_file stub_text)
          out_dir)
unfolding main compile_capnp_schema write
stub_test = refl

-- A compiler that refuses an empty schema and puts a line in front of any other.
abbrev translate : Text → Option Text
translate [] = none
translate (c ∷ s) = some (codes "// code" ++ newline ++ c ∷ s)

abbrev translated : Option Text → Capnpc
translated none prefix schema d = failed (codes "no code") d
translated (some t) prefix schema d = write (code_path (codes "/out")) t d

abbrev translating : Capnpc
translating prefix schema d = elim (d.node schema) [
  | some (text_file s) ↦ translated (translate s) prefix schema d
  | _ ↦ failed (codes "no schema") d
]

translating-IsCapnpc : IsCapnpc translating translate (codes "/out")
translating-IsCapnpc = record {
  compiles = λ prefix s t d there is free. (
    set_node (code_path (codes "/out")) (text_file t) d,
    rw (translating, there, is, write-writable (code_path (codes "/out")) t d free) refl,
    set_node-Written (codes "/out") t d,
  );
}

-- There are different schemas in the crate and in the monorepo.
abbrev checkout : Disk
checkout =
    set_node (join (monorepo_dir crate) schema_name) (text_file (codes "@0x2"))
      (set_node (join (bundled_dir crate) schema_name) (text_file (codes "@0x1")) out_dir)

main-writes_code_example :
    (d' : Disk) × (main false true cb translating env checkout ≡ done tt d')
    × Written (codes "/out") (codes "// code" ++ newline ++ codes "@0x1") checkout d'
main-writes_code_example =
    main-writes_code cb translating translate env (codes "/rgpot-core") (codes "/out")
      (codes "// code" ++ newline ++ codes "@0x1") checkout translating-IsCapnpc refl refl refl
      (from_bundled (codes "@0x1") refl refl)
