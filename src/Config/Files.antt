-- ===== src/Config/Files.antt =====
-- src/config/mod.rs: where the configuration file is, and how it is read and written. Files and
-- their errors are those of the operating system, and the JSON and TOML texts those of serde: both
-- are parameters. A path is its text, and so is an error of theirs.
use polyglotmesh.Prelude.{
  Bool, false, Option, none, some, Text, codes, ◌++◌, text_eq, if◌then◌else◌,
}
use polyglotmesh.Config.{Config, default_config}
use polyglotmesh.Error.{RouterError, RouterResult, ok, err, internal, io, json}

-- What a call of a library answers.
pub data Answer (A : Type 0) : Type 0 where
  fine : A → Answer A
  failed : Text → Answer A

-- `std::path` and `std::fs`. A call that changes the files may do so also where it fails.
pub record FileSystem : Type 1 where
  pub Files : Type 0
  -- `Path::exists`
  pub exists : Text → Files → Bool
  -- `read_to_string`
  pub read : Text → Files → Answer Text
  -- `fs::write` of a text
  pub write : Text → Text → Files → Answer (Unit {0}) × Files
  -- `fs::copy` and `fs::rename`, from and to
  pub copy : Text → Text → Files → Answer (Unit {0}) × Files
  pub rename : Text → Text → Files → Answer (Unit {0}) × Files
  -- `create_dir_all` of the path's parent, if it has one
  pub create_parent : Text → Files → Answer (Unit {0}) × Files
  -- `Path::extension`, `Path::join` and `Path::with_extension`
  pub extension : Text → Option Text
  pub join : Text → Text → Text
  pub with_extension : Text → Text → Text

-- serde_json and toml on a `Config`.
pub record Formats (F : Type 0) : Type 0 where
  pub from_json : Text → Answer (Config F)
  pub to_json : Config F → Answer Text
  pub from_toml : Text → Answer (Config F)
  pub to_toml : Config F → Answer Text

-- `?` and `map_err`: the error as one of the router.
abbrev pub or_error : {A : Type 0} → (Text → RouterError) → Answer A → RouterResult A
or_error wrap (fine a) = ok a
or_error wrap (failed text) = err (wrap text)

infixl 5 ◌>>=◌
abbrev pub ◌>>=◌ : {A B : Type 0} → RouterResult A → (A → RouterResult B) → RouterResult B
ok a >>= f = f a
err e >>= f = err e

abbrev pub is_json_path : Option Text → Bool
is_json_path none = false
is_json_path (some e) = text_eq e (codes "json")

-- `RouterPaths`
pub record RouterPaths : Type 0 where
  pub config_dir : Text
  pub config_file : Text
  pub state_file : Text

module _ (fs : FileSystem) where
  open fs use {join}

  abbrev pub paths_in : Text → RouterPaths
  paths_in base = record {
    config_dir = base;
    config_file = join base (codes "config.toml");
    state_file = join base (codes "state.json");
  }

  -- `RouterPaths::discover`, with the variables `POLYGLOTMESH_HOME` and `HOME` of the environment.
  unfoldable pub discover : Option Text → Option Text → RouterPaths
  discover (some base) home = paths_in base
  discover none (some home) = paths_in (join home (codes ".polyglotmesh"))
  discover none none = paths_in (join (codes ".") (codes ".polyglotmesh"))

module _ (fs : FileSystem) {F : Type 0} (formats : Formats F) where
  open fs use {Files, exists, read, write, create_parent, extension}
  open formats use {from_json, to_json, from_toml, to_toml}

  -- A configuration read by the format of its path.
  unfoldable pub parse_config : Text → Text → RouterResult (Config F)
  parse_config path raw =
      if is_json_path (extension path)
      then or_error json (from_json raw)
      else or_error (λ e. internal (codes "toml parse: " ++ e)) (from_toml raw)

  unfoldable pub print_config : Text → Config F → RouterResult Text
  print_config path cfg =
      if is_json_path (extension path)
      then or_error json (to_json cfg)
      else or_error (λ e. internal (codes "toml serialize: " ++ e)) (to_toml cfg)

  -- `load_from_path`
  unfoldable pub load_from_path : Text → Files → RouterResult (Config F)
  unfolding default_config parse_config
  load_from_path path files =
      if exists path files
      then or_error io (read path files) >>= parse_config path
      else ok default_config

  abbrev pub write_raw : Text → RouterResult Text → Files → RouterResult (Unit {0}) × Files
  write_raw path (err e) files = (err e, files)
  write_raw path (ok raw) files = let (a, files') = write path raw files in (or_error io a, files')

  abbrev pub after_parent :
      Text → Config F → Answer (Unit {0}) × Files → RouterResult (Unit {0}) × Files
  after_parent path cfg (failed e, files) = (err (io e), files)
  after_parent path cfg (fine _, files) = write_raw path (print_config path cfg) files

  -- `save_to_path`
  unfoldable pub save_to_path : Text → Config F → Files → RouterResult (Unit {0}) × Files
  unfolding print_config
  save_to_path path cfg files = after_parent path cfg (create_parent path files)
