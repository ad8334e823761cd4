-- ===== src/Config/RoundTrip.antt =====
-- src/config/mod.rs: a configuration that was saved is read back by the format it was
-- printed in.
use polyglotmesh.Prelude.{
  Bool, true, false, Option, none, some, codes, text_eq, ◌++◌, if◌then◌else◌, ◌≡◌, ◌⊎◌, refl, Text,
  inl, inr, arith,
}
use polyglotmesh.Config.{Config}
use polyglotmesh.Error.{RouterResult, ok, err, io, json, internal}
use polyglotmesh.Config.Files.{
  FileSystem, Formats, Answer, fine, failed, is_json_path, parse_config, print_config,
  load_from_path, save_to_path, write_raw,
}

module _ (fs : FileSystem) {F : Type 0} (formats : Formats F) where
  open fs use {Files, exists, read, write, create_parent, extension}
  open formats use {from_json, to_json, from_toml, to_toml}

  -- What the file system promises: a text that was written is there to be read.
  abbrev pub KeepsTexts : Type 0
  KeepsTexts =
      (path raw : Text) (files files' : Files)
      → write path raw files ≡ (fine tt, files')
      → (exists path files' ≡ true) × (read path files' ≡ fine raw)

  -- Whether the path ends in `.json`.
  abbrev pub in_json : Text → Bool
  in_json path = elim (extension path) [ none ↦ false | some e ↦ text_eq e (codes "json") ]

  -- The text of a configuration in the format of a path, and what a text in that format says.
  abbrev pub text_at : Text → Config F → Answer Text
  text_at path cfg = if in_json path then to_json cfg else to_toml cfg

  abbrev pub config_at : Text → Text → RouterResult (Config F)
  config_at path raw =
      if in_json path
      then (elim (from_json raw) [ fine cfg ↦ ok cfg | failed e ↦ err (json e) ])
      else (elim (from_toml raw) [
        | fine cfg ↦ ok cfg
        | failed e ↦ err (internal (codes "toml parse: " ++ e))
      ])

  json_lem : (path : Text) → is_json_path (extension path) ≡ in_json path
  json_lem path = same (extension path)
    where
      same :
          (o : Option Text)
          → is_json_path o ≡ (elim o [ none ↦ false | some e ↦ text_eq e (codes "json") ])
      same none = refl
      same (some e) = refl

  parse_lem : (path raw : Text) → parse_config fs formats path raw ≡ config_at path raw
  unfolding parse_config
  parse_lem path raw = ground (arith, json_lem path)

  print_lem :
      (path raw : Text) (cfg : Config F)
      → text_at path cfg ≡ fine raw
      → print_config fs formats path cfg ≡ ok raw
  unfolding print_config
  print_lem path raw cfg e = ground (arith, e, json_lem path)

  answered :
      (w : Answer (Unit {0}) × Files)
      → (w ≡ (fine tt, w.1)) ⊎ (text : Text) × (w ≡ (failed text, w.1))
  answered (fine u, files) = inl refl
  answered (failed text, files) = inr (text, refl)

  load-write :
      (path raw : Text) (files files' : Files)
      → KeepsTexts
      → write path raw files ≡ (fine tt, files')
      → load_from_path fs formats path files' ≡ config_at path raw
  unfolding load_from_path
  load-write path raw files files' keeps w =
      let (there, back) = keeps path raw files files' w in
      rw (there, back, load_from_path) (parse_lem path raw)

  unsaved : (text : Text) → ◌≡◌ {A = RouterResult (Unit {0})} (err (io text)) (ok tt) → ⊥
  unsaved text e = cc

  load-write_raw :
      (path raw : Text) (files : Files)
      → KeepsTexts
      → (write_raw fs formats path (ok raw) files).0 ≡ ok tt
      → load_from_path fs formats path (write_raw fs formats path (ok raw) files).1
        ≡ config_at path raw
  load-write_raw path raw files keeps good = elim (answered (write path raw files)) [
    | inl w ↦ load-write path raw files (write path raw files).1 keeps w
    | inr (text, w) ↦ cc
  ]

  -- Where the file system keeps the texts that are written, and a configuration is printed as a text
  -- in the format of a path, JSON if the path ends in `.json` and TOML otherwise: once it is saved at
  -- the path, loading the path gives what the text says in the same format, or the error of reading
  -- it as the code wraps it.
  pub load_from_path-save_to_path :
      (path raw : Text) (cfg : Config F) (files : Files)
      → KeepsTexts
      → text_at path cfg ≡ fine raw
      → (save_to_path fs formats path cfg files).0 ≡ ok tt
      → load_from_path fs formats path (save_to_path fs formats path cfg files).1
        ≡ config_at path raw
  unfolding save_to_path
  load_from_path-save_to_path path raw cfg files keeps printed e =
      let print = print_lem path raw cfg printed in
      elim (answered (create_parent path files)) [
        | inl made ↦
            rw (made, print, save_to_path)
              (load-write_raw path raw (create_parent path files).1 keeps
                (rw (made, print, save_to_path) at e))
        | inr (text, lost) ↦ absurd (unsaved text (rw (lost, save_to_path) at e))
      ]
