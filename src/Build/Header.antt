-- ===== src/Build/Header.antt =====
-- The header that `generate_c_header` leaves ends with exactly one newline.
use rgpot.Prelude.{inr, ap, inl, Bool-cases, [], ◌∷◌, ◌≡◌, refl, ◌++◌, ◌&&◌}
use rgpot.Build.Disk.{
  done, text_file, Disk, Node, FilePath, same_path, same_text, set_node, writable, write,
  read_to_string,
}
use rgpot.Build.{
  var, version_block, with_version, split_dot, codes, output_dir, create_dir_all, some, false,
  arith, is_white, cons_trimmed, List, trim_end, Bool, true, ℕ, Env, Text, Cbindgen,
  generate_c_header, header_path, newline,
}

abbrev pub all_white : Text → Bool
all_white [] = true
all_white (c ∷ s) = is_white c && all_white s

-- Whether the last character is white space.
abbrev pub ends_white : Text → Bool
ends_white [] = false
ends_white (c ∷ []) = is_white c
ends_white (c ∷ d ∷ s) = ends_white (d ∷ s)

-- `t` is `s` without the white space at its end.
pub record IsTrimmed (s t : Text) : Type 0 where
  pub cut : Text
  pub whole : s ≡ t ++ cut
  pub white : all_white cut ≡ true
  pub ends : ends_white t ≡ false

cons_trimmed-IsTrimmed : (c : ℕ) (s t : Text) → IsTrimmed s t → IsTrimmed (c ∷ s) (cons_trimmed c t)
cons_trimmed-IsTrimmed c s [] r = elim (Bool-cases (is_white c)) [
  | inl white ↦ rw white (record {
    cut = c ∷ r.cut;
    whole = ap (λ x. c ∷ x) r.whole;
    white = rw (white, r.white) refl;
    ends = refl;
  })
  | inr black ↦
      rw black
        (record { cut = r.cut; whole = ap (λ x. c ∷ x) r.whole; white = r.white; ends = black })
]
cons_trimmed-IsTrimmed c s (d ∷ t) r = record {
  cut = r.cut;
  whole = ap (λ x. c ∷ x) r.whole;
  white = r.white;
  ends = r.ends;
}

trim_end-IsTrimmed : (s : Text) → IsTrimmed s (trim_end s)
trim_end-IsTrimmed [] = record { cut = []; whole = refl; white = refl; ends = refl }
trim_end-IsTrimmed (c ∷ s) = cons_trimmed-IsTrimmed c s (trim_end s) (trim_end-IsTrimmed s)

same_text_self : (s : Text) → same_text s s ≡ true
same_text_self [] = refl
same_text_self (c ∷ s) = ground (arith, same_text_self s)

same_path_self : (p : FilePath) → same_path p p ≡ true
same_path_self [] = refl
same_path_self (s ∷ p) = rw (same_text_self s, same_path_self p) refl

pub set_node_self : (p : FilePath) (x : Node) (d : Disk) → (set_node p x d).node p ≡ some x
set_node_self p x d = rw (same_path_self p) refl

writable-refused :
    (s : Text) (p : FilePath) (d : Disk) → writable (s ∷ p) d ≡ true → d.refused (s ∷ p) ≡ false
writable-refused s p d h = ground arith

-- A file that was written can be written again.
writable-set_node :
    (s : Text) (p : FilePath) (t : Text) (d : Disk)
    → writable (s ∷ p) d ≡ true
    → writable (s ∷ p) (set_node (s ∷ p) (text_file t) d) ≡ true
writable-set_node s p t d h =
    rw (writable, set_node, same_text_self s, same_path_self p, writable-refused s p d h) refl

pub write-writable :
    (p : FilePath) (t : Text) (d : Disk)
    → writable p d ≡ true
    → write p t d ≡ done tt (set_node p (text_file t) d)
unfolding write
write-writable p t d h = rw h refl

read-set_node :
    (p : FilePath) (t : Text) (d : Disk)
    → read_to_string p (set_node p (text_file t) d) ≡ done t (set_node p (text_file t) d)
unfolding read_to_string
read-set_node p t d = rw (read_to_string, same_path_self p) refl

pub var-some :
    (env : Env) (name value : Text) (d : Disk)
    → env name ≡ some value
    → var env name d ≡ done value d
var-some env name value d h = rw (var, h) refl

-- cbindgen writes the text of the bindings to the file.
pub record IsCbindgen (cb : Cbindgen) : Type 0 where
  pub text : cb.Bindings → Text
  pub writes :
      (b : cb.Bindings) (p : FilePath) (d : Disk)
      → writable p d ≡ true
      → cb.write_to_file b p d ≡ done tt (set_node p (text_file (text b)) d)

-- With a version of three parts or more, a configuration and bindings that cbindgen makes from it
-- and the version block behind what it includes already, the header function leaves the bindings'
-- text in `include/rgpot.h`, without the white space at its end and with one newline in its place.
-- It changes no other file beyond what cbindgen does before it writes.
pub generate_c_header-IsTrimmed :
    (cb : Cbindgen) (env : Env) (crate_dir : FilePath) (d d₁ d₂ d₃ : Disk) (config : cb.Config)
    (version major minor patch : Text) (more : List Text) (bindings : cb.Bindings)
    (law : IsCbindgen cb)
    → create_dir_all (output_dir crate_dir) d ≡ done tt d₁
    → cb.from_file (codes "cbindgen.toml") d₁ ≡ done config d₂
    → env (codes "CARGO_PKG_VERSION") ≡ some version
    → split_dot version ≡ (major ∷ minor ∷ patch ∷ more)
    → cb.generate crate_dir
        (cb.set_after_includes
          (with_version (cb.after_includes config) (version_block version major minor patch))
          config)
        d₂
      ≡ done bindings d₃
    → writable (header_path crate_dir) d₃ ≡ true
    → (d' : Disk) × (t : Text) × (generate_c_header cb env crate_dir d ≡ done tt d')
      × IsTrimmed (law.text bindings) t
      × (d'.node (header_path crate_dir) ≡ some (text_file (t ++ 10 ∷ [])))
      × ((q : FilePath) → same_path q (header_path crate_dir) ≡ false → d'.node q ≡ d₃.node q)
unfolding generate_c_header
generate_c_header-IsTrimmed cb env crate_dir d d₁ d₂ d₃ config version major minor patch more
      bindings law made read released parts generated free =
    let p : FilePath = header_path crate_dir in
    let t : Text = law.text bindings in
    let written : Disk = set_node p (text_file t) d₃ in
    let again =
      write-writable p (trim_end t ++ newline) written (writable-set_node _ _ t d₃ free) in
    (
      set_node p (text_file (trim_end t ++ newline)) written,
      trim_end t,
      rw
          (
            made,
            read,
            var-some env _ version d₂ released,
            parts,
            generated,
            law.writes bindings p d₃ free,
            read-set_node p t d₃,
            again,
          )
          refl,
      trim_end-IsTrimmed t,
      set_node_self p _ written,
      λ q h. rw h refl,
    )
