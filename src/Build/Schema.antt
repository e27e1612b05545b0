-- ===== src/Build/Schema.antt =====
-- With the feature `rpc` the file for the crate's `include!` holds the code of the schema: the
-- bundled one, else the monorepo's, else the stub.
use rgpot.Prelude.{◌≡◌, refl}
use rgpot.Build.Disk.{done, text_file, Disk, Node, FilePath, same_path, set_node, writable}
use rgpot.Build.{
  stub_text, false, path_exists, true, some, none, path_of, join, Cbindgen, codes,
  compile_capnp_schema, Text, main, Env, Option, Capnpc, bundled_dir, monorepo_dir,
}
use rgpot.Build.Header.{write-writable, var-some, set_node_self}

abbrev pub schema_name : Text
schema_name = codes "Potentials.capnp"

-- The file that lib.rs includes.
abbrev pub code_path : Text → FilePath
code_path out_dir = join (path_of out_dir) (codes "Potentials_capnp.rs")

-- `d'` is `d` but for the code `t` in OUT_DIR.
pub record Written (out_dir t : Text) (d d' : Disk) : Type 0 where
  pub code : d'.node (code_path out_dir) ≡ some (text_file t)
  pub others : (q : FilePath) → same_path q (code_path out_dir) ≡ false → d'.node q ≡ d.node q

-- The capnp compiler, called on this crate's schema in the directory that is its prefix: a schema
-- that `translate` accepts gets its translation into OUT_DIR, if a file can be written there, and
-- the compiler touches nothing else.
pub record IsCapnpc (run : Capnpc) (translate : Text → Option Text) (out_dir : Text) : Type 0 where
  pub compiles :
      (prefix : FilePath) (s t : Text) (d : Disk)
      → d.node (join prefix schema_name) ≡ some (text_file s)
      → translate s ≡ some t
      → writable (code_path out_dir) d ≡ true
      → (d' : Disk) × (run prefix (join prefix schema_name) d ≡ done tt d') × Written out_dir t d d'

-- The code for what stands at the bundled schema's path and at the monorepo's.
pub data CodeFor (translate : Text → Option Text) (bundled monorepo : Option Node) (t : Text)
    : Type 0 where
  from_bundled :
      (s : Text)
      → bundled ≡ some (text_file s)
      → translate s ≡ some t
      → CodeFor translate bundled monorepo t
  from_monorepo :
      (s : Text)
      → bundled ≡ none
      → monorepo ≡ some (text_file s)
      → translate s ≡ some t
      → CodeFor translate bundled monorepo t
  stub : bundled ≡ none → monorepo ≡ none → t ≡ stub_text → CodeFor translate bundled monorepo t

path_exists-some :
    (p : FilePath) (x : Node) (d : Disk) → d.node p ≡ some x → path_exists p d ≡ done true d
path_exists-some p x d h = rw (path_exists, h) refl

path_exists-none : (p : FilePath) (d : Disk) → d.node p ≡ none → path_exists p d ≡ done false d
path_exists-none p d h = rw (path_exists, h) refl

pub set_node-Written :
    (out_dir t : Text) (d : Disk)
    → Written out_dir t d (set_node (code_path out_dir) (text_file t) d)
set_node-Written out_dir t d = record {
  code = set_node_self (code_path out_dir) (text_file t) d;
  others = λ q ne. rw ne refl;
}

module _ (run : Capnpc) (env : Env) (crate_dir : FilePath) (d : Disk) where
  compile-bundled :
      (s : Text) (d' : Disk)
      → d.node (join (bundled_dir crate_dir) schema_name) ≡ some (text_file s)
      → run (bundled_dir crate_dir) (join (bundled_dir crate_dir) schema_name) d ≡ done tt d'
      → compile_capnp_schema run env crate_dir d ≡ done tt d'
  unfolding compile_capnp_schema
  compile-bundled s d' there ran = rw (path_exists-some _ _ d there, ran) refl

  compile-monorepo :
      (s : Text) (d' : Disk)
      → d.node (join (bundled_dir crate_dir) schema_name) ≡ none
      → d.node (join (monorepo_dir crate_dir) schema_name) ≡ some (text_file s)
      → run (monorepo_dir crate_dir) (join (monorepo_dir crate_dir) schema_name) d ≡ done tt d'
      → compile_capnp_schema run env crate_dir d ≡ done tt d'
  unfolding compile_capnp_schema
  compile-monorepo s d' no_bundled there ran =
      rw (path_exists-none _ d no_bundled, path_exists-some _ _ d there, ran) refl

  compile-stub :
      (out_dir : Text)
      → d.node (join (bundled_dir crate_dir) schema_name) ≡ none
      → d.node (join (monorepo_dir crate_dir) schema_name) ≡ none
      → env (codes "OUT_DIR") ≡ some out_dir
      → writable (code_path out_dir) d ≡ true
      → compile_capnp_schema run env crate_dir d
        ≡ done tt (set_node (code_path out_dir) (text_file stub_text) d)
  unfolding compile_capnp_schema
  compile-stub out_dir no_bundled no_monorepo out free =
      rw
        (
          path_exists-none _ d no_bundled,
          path_exists-none _ d no_monorepo,
          var-some env _ out_dir d out,
          write-writable _ _ d free,
        )
        refl

  compile-writes :
      (translate : Text → Option Text) (out_dir t : Text)
      → IsCapnpc run translate out_dir
      → env (codes "OUT_DIR") ≡ some out_dir
      → writable (code_path out_dir) d ≡ true
      → CodeFor translate
          (d.node (join (bundled_dir crate_dir) schema_name))
          (d.node (join (monorepo_dir crate_dir) schema_name))
          t
      → (d' : Disk) × (compile_capnp_schema run env crate_dir d ≡ done tt d')
        × Written out_dir t d d'
  compile-writes translate out_dir t law out free (from_bundled s there is) =
      let (d', ran, written) = law.compiles (bundled_dir crate_dir) s t d there is free in
      (d', compile-bundled s d' there ran, written)
  compile-writes translate out_dir t law out free (from_monorepo s no_bundled there is) =
      let (d', ran, written) = law.compiles (monorepo_dir crate_dir) s t d there is free in
      (d', compile-monorepo s d' no_bundled there ran, written)
  compile-writes translate out_dir t law out free (stub no_bundled no_monorepo is) = (
    set_node (code_path out_dir) (text_file t) d,
    rw is (compile-stub out_dir no_bundled no_monorepo out free),
    set_node-Written out_dir t d,
  )

-- A build with the feature `rpc` and without `gen-header`, where the path that lib.rs includes can be
-- written: the script ends without a panic, with exactly the code `t` at that path and every other
-- file as it was. `t` is the translation of the schema that is bundled with the crate; where none
-- is there, that of the monorepo's schema; where there is neither, the stub. The schema that counts
-- is one that the compiler accepts.
pub main-writes_code :
    (cb : Cbindgen) (run : Capnpc) (translate : Text → Option Text) (env : Env)
    (manifest_dir out_dir t : Text) (d : Disk)
    → IsCapnpc run translate out_dir
    → env (codes "CARGO_MANIFEST_DIR") ≡ some manifest_dir
    → env (codes "OUT_DIR") ≡ some out_dir
    → writable (code_path out_dir) d ≡ true
    → CodeFor translate
        (d.node (join (bundled_dir (path_of manifest_dir)) schema_name))
        (d.node (join (monorepo_dir (path_of manifest_dir)) schema_name))
        t
    → (d' : Disk) × (main false true cb run env d ≡ done tt d') × Written out_dir t d d'
unfolding main
main-writes_code cb run translate env manifest_dir out_dir t d law manifest out free code =
    let (d', ran, written) =
      compile-writes run env (path_of manifest_dir) d translate out_dir t law out free code in
    (d', rw (var-some env _ manifest_dir d manifest, ran) refl, written)
