-- ===== src/Ggml/Build/Outcomes.antt =====
-- src/backends/ggml/build.rs: every outcome of the build script.
use mathlib.Core.List.{foldl}
use mathlib.Core.Option
use spanker.Common.{
  ◌<◌, ◌≡◌, refl, ap, ap₂, ◌∙◌, ◌⊎◌, inl, inr, String, written, Bool, true, false, Bool-cases,
  Option, none, some, Option-cases, List, [], ◌∷◌, ◌++◌, append_assoc, length, ok, err, arith,
}
use spanker.Ggml.Build.{
  PathBuf, display, printed, Action, init, parent_of, parent, join, workspace_root, uapi_dir_of,
  wrapper_of, Bindgen, wrote, reruns, builder_for, write_bindings, generate_bindings, build_in,
  main,
}

abbrev last : String → List String → String
last c [] = c
last c (d ∷ rest) = last d rest

init-append-last : (c : String) (rest : List String) → c ∷ rest ≡ init c rest ++ last c rest ∷ []
init-append-last c [] = refl
init-append-last c (d ∷ rest) = ap (λ r. c ∷ r) (init-append-last d rest)

abbrev path : Bool → List String → PathBuf
path absolute components = record { is_absolute = absolute; components = components }

parent_of-cases :
    (absolute : Bool) (components : List String)
    → ((components ≡ []) × (parent_of absolute components ≡ none))
      ⊎ ((up : List String) × (c : String) × (components ≡ up ++ c ∷ [])
          × (parent_of absolute components ≡ some (path absolute up)))
parent_of-cases absolute [] = inl (refl, refl)
parent_of-cases absolute (c ∷ rest) = inr (init c rest, last c rest, init-append-last c rest, refl)

-- Three levels up there is a directory exactly where the path has three components.
workspace_root-cases :
    (absolute : Bool) (components : List String)
    → ((length components < 3) × (workspace_root (path absolute components) ≡ none))
      ⊎ ((up : List String) × (x : String) × (y : String) × (z : String) × (components
            ≡ up ++ x ∷ y ∷ z ∷ [])
          × (workspace_root (path absolute components) ≡ some (path absolute up)))
unfolding workspace_root parent Option.bind
workspace_root-cases absolute components = elim (parent_of-cases absolute components) [
  | inl (empty, none_up) ↦ inl (rw empty (omega arith), rw none_up refl)
  | inr (one, z, e, up_one) ↦ elim (parent_of-cases absolute one) [
    | inl (empty, none_up) ↦ inl (rw (e, empty) (omega arith), rw (up_one, none_up) refl)
    | inr (two, y, f, up_two) ↦ elim (parent_of-cases absolute two) [
      | inl (empty, none_up) ↦
          inl (rw (e, f, empty) (omega arith), rw (up_one, up_two, none_up) refl)
      | inr (up, x, g, up_three) ↦ inr (
        up,
        x,
        y,
        z,
        e
            ∙ rw (f, g)
                (append_assoc (up ++ x ∷ []) (y ∷ []) (z ∷ [])
                  ∙ append_assoc up (x ∷ []) (y ∷ z ∷ [])),
        rw (up_one, up_two, up_three) refl,
      )
    ]
  ]
]

module _ (b : Bindgen) (env : String → Option PathBuf) where
  open b use {Builder, Bindings}

  -- The lines printed for cargo: the wrapper in the crate's directory, and the header of the driver.
  abbrev pub lines_of : (manifest_dir root : PathBuf) → List (Action Bindings)
  lines_of manifest_dir root =
      printed
        (written ("cargo:rerun-if-changed=" ∷ display (join manifest_dir ("wrapper.h" ∷ [])) ∷ []))
      ∷ printed (
          written (
            "cargo:rerun-if-changed="
            ∷ display (join root ("src" ∷ "driver" ∷ "include" ∷ "uapi" ∷ "spanker_ioctl.h" ∷ []))
            ∷ []))
      ∷ []

  -- The options of the bindings, in the order in which they are set.
  abbrev pub options_of : (manifest_dir root : PathBuf) → List (Builder → Builder)
  options_of manifest_dir root =
      b.header (display (join manifest_dir ("wrapper.h" ∷ [])))
      ∷ b.clang_arg
          (written ("-I" ∷ display (join root ("src" ∷ "driver" ∷ "include" ∷ "uapi" ∷ [])) ∷ []))
      ∷ b.allowlist_type "spanker_.*"
      ∷ b.allowlist_var "SPANKER_.*"
      ∷ b.derive_default true
      ∷ b.derive_debug true
      ∷ b.derive_copy true
      ∷ b.layout_tests false
      ∷ []

  abbrev pub configured : (manifest_dir root : PathBuf) → Builder
  configured manifest_dir root =
      foldl (λ builder set. set builder) b.default (options_of manifest_dir root)

  reruns-lines_of :
      (manifest_dir root : PathBuf)
      → reruns b env (wrapper_of manifest_dir) (uapi_dir_of root) ≡ lines_of manifest_dir root
  reruns-lines_of manifest_dir root =
      rw
        (append_assoc root.components ("src" ∷ "driver" ∷ "include" ∷ "uapi" ∷ [])
          ("spanker_ioctl.h" ∷ []))
        refl

  builder_for-configured :
      (manifest_dir root : PathBuf)
      → builder_for b env (wrapper_of manifest_dir) (uapi_dir_of root)
        ≡ configured manifest_dir root
  unfolding builder_for
  builder_for-configured manifest_dir root = refl

  -- What happens once the crate's and the workspace's directories are known: the two lines for cargo
  -- are printed, and then generating fails, or `OUT_DIR` is not set, or writing fails, or the
  -- bindings are the one file written, as bindings.rs in that directory.
  abbrev pub Generated : (manifest_dir root : PathBuf) → Type 0
  Generated manifest_dir root =
      let lines = lines_of manifest_dir root in
      let generated = b.generate (configured manifest_dir root) in
      ((generated ≡ none)
        × (main b env ≡ (err "bindgen failed to generate spanker UAPI bindings", lines)))
      ⊎ ((bindings : Bindings) × (generated ≡ some bindings)
          × (((env "OUT_DIR" ≡ none) × (main b env ≡ (err "OUT_DIR", lines)))
              ⊎ ((out_dir : PathBuf) × (env "OUT_DIR" ≡ some out_dir)
                  × (((b.write_to_file bindings (join out_dir ("bindings.rs" ∷ [])) ≡ false)
                        × (main b env ≡ (err "failed to write bindings.rs", lines)))
                      ⊎ ((b.write_to_file bindings (join out_dir ("bindings.rs" ∷ [])) ≡ true)
                          × (main b env ≡ (
                            ok tt,
                            lines ++ wrote bindings (join out_dir ("bindings.rs" ∷ [])) ∷ [],
                          )))))))

  abbrev pub BuildOutcome : Type 0
  BuildOutcome =
      ((env "CARGO_MANIFEST_DIR" ≡ none) × (main b env ≡ (err "CARGO_MANIFEST_DIR", [])))
      ⊎ ((manifest_dir : PathBuf) × (env "CARGO_MANIFEST_DIR" ≡ some manifest_dir)
          × (((length manifest_dir.components < 3)
                × (main b env ≡ (
                  err "ggml-spanker is expected to live at <workspace>/src/backends/ggml",
                  [],
                )))
              ⊎ ((root : PathBuf) × (x : String) × (y : String) × (z : String) × (manifest_dir
                    ≡ join root (x ∷ y ∷ z ∷ []))
                  × Generated manifest_dir root)))

  main-generate_bindings :
      (manifest_dir root : PathBuf)
      → env "CARGO_MANIFEST_DIR" ≡ some manifest_dir
      → workspace_root manifest_dir ≡ some root
      → main b env
        ≡ generate_bindings b env
            (lines_of manifest_dir root)
            (b.generate (configured manifest_dir root))
  unfolding main build_in
  main-generate_bindings manifest_dir root known up =
      rw (known, up, build_in)
        (ap₂ (λ lines builder. generate_bindings b env lines (b.generate builder))
          (reruns-lines_of manifest_dir root) (builder_for-configured manifest_dir root))

  generates :
      (manifest_dir root : PathBuf)
      → env "CARGO_MANIFEST_DIR" ≡ some manifest_dir
      → workspace_root manifest_dir ≡ some root
      → Generated manifest_dir root
  unfolding generate_bindings write_bindings
  generates manifest_dir root known up =
      let start = main-generate_bindings manifest_dir root known up in
      elim (Option-cases (b.generate (configured manifest_dir root))) [
        | inl failed ↦ inl (failed, rw failed at start)
        | inr (bindings, generated) ↦ elim (Option-cases (env "OUT_DIR")) [
          | inl unset ↦ inr (bindings, generated, inl (unset, rw (generated, unset) at start))
          | inr (out_dir, set) ↦
              let file = join out_dir ("bindings.rs" ∷ []) in
              let opened = rw (generated, set) at start in
              elim (Bool-cases (b.write_to_file bindings file)) [
                | inl fine ↦
                    inr (bindings, generated, inr (out_dir, set, inr (fine, rw fine at opened)))
                | inr failed ↦
                    inr (bindings, generated, inr (out_dir, set, inl (failed, rw failed at opened)))
              ]
        ]
      ]

  -- The script has one of six outcomes, each exactly under its condition, and panics in all but the
  -- last. The crate's directory is not set, or is less than three levels deep: nothing is printed.
  -- Otherwise the workspace is three levels up, cargo is told to watch wrapper.h in the crate's
  -- directory and src/driver/include/uapi/spanker_ioctl.h in the workspace, and bindgen is set up
  -- with that wrapper, the header's directory to include, the types `spanker_.*` and the constants
  -- `SPANKER_.*` only, `Default`, `Debug` and `Copy`, and no layout tests. It fails, or `OUT_DIR` is
  -- not set, or the file cannot be written, or what bindgen generated is written to bindings.rs in
  -- that directory, the only file.
  pub main-BuildOutcome : BuildOutcome
  unfolding main build_in
  main-BuildOutcome = elim (Option-cases (env "CARGO_MANIFEST_DIR")) [
    | inl unset ↦ inl (unset, rw unset refl)
    | inr (m, known) ↦ elim (workspace_root-cases m.is_absolute m.components) [
      | inl (shallow, none_up) ↦ inr (m, known, inl (shallow, rw (known, none_up, build_in) refl))
      | inr (up, x, y, z, e, some_up) ↦
          let root = path m.is_absolute up in
          inr (
            m,
            known,
            inr (root, x, y, z, ap (path m.is_absolute) e, generates m root known some_up),
          )
    ]
  ]
