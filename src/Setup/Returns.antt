-- ===== src/Setup/Returns.antt =====
-- `main` of src/daemon/main.c up to its loop, with a tag file whose lines fit: no fault on the way.
use nav.Base.{◌≡◌, refl, ◌++◌, Bool, true, false, Option, none, some, Bytes, codes, length, leb}
use nav.Run.{ok, Exit}
use nav.Run.Ensures.{Returns, Returns-bind, Returns-if, Returns-Ensures}
use nav.CString.{snprintf}
use nav.ItemList.Maps.{empty-IsMap}
use nav.Tag.Keys.{tag_key}
use nav.TagFile.{read_tag_file}
use nav.TagFile.Keeps.{IsTagList}
use nav.TagFile.Returns.{LinesFit, read-Returns}
use nav.World.{State}
use nav.Lifecycle.{null, initial_state, init_state, get_state}
use nav.Setup.{
  FileSystem, Answers, cache_size, config_size, path_size, default_cache, default_config,
  get_username, parse_args, setup_directory, setup_paths, setup_cache, setup_config, setup_user,
  setup_initial_state, with_singleton, with_options, main,
}
use nav.Setup.Laws.{Starts, main-IsStarted}

-- the lines of the file `tags` in the configuration directory fit, once both directories are there
abbrev pub TagFileFits : (fs : FileSystem) (a : Answers) → fs.Files → Type 0
TagFileFits fs a files =
    (user config cache : Bytes) (files' files'' : fs.Files)
    → get_username a.passwd ≡ some user
    → setup_directory fs files config_size a.config_env (default_config user)
      ≡ (some config, files')
    → setup_directory fs files' cache_size a.cache_env (default_cache user) ≡ (some cache, files'')
    → LinesFit (fs.content files'' (snprintf path_size (config ++ codes "/tags")))

module _ (fs : FileSystem) (a : Answers) where
  open fs use {Files, fstatat, content}

  setup_paths-Returns :
      (files : Files) (s : State) (user config cache : Bytes)
      → LinesFit (content files (snprintf path_size (config ++ codes "/tags")))
      → IsTagList s.tags
      → Returns (λ _. Unit) (setup_paths fs a files s user config cache)
  unfolding setup_paths
  setup_paths-Returns files s user config cache fits v =
      Returns-if (λ _. Unit) (leb 108 (length (cache ++ codes "/nav.sock"))) (ok (none, files)) _ tt
        (Returns-bind (λ r. IsTagList r.1) (λ _. Unit)
          (read_tag_file (fstatat files) a.memory a.behind s.tags _) _
          (read-Returns (fstatat files) a.memory a.behind s.tags _ fits v) λ r _. tt)

  setup_initial_state-Returns :
      (files : Files) (s : State)
      → TagFileFits fs a files
      → IsTagList s.tags
      → Returns (λ _. Unit) (setup_initial_state fs a files s)
  unfolding setup_initial_state setup_user setup_config setup_cache
  setup_initial_state-Returns files s fits v = by_user (get_username a.passwd) refl
    where
      by_cache :
          (user config : Bytes) (files' : Files) (r : Option Bytes × Files)
          → ((cache : Bytes) (files'' : Files)
              → r ≡ (some cache, files'')
              → LinesFit (content files'' (snprintf path_size (config ++ codes "/tags"))))
          → Returns (λ _. Unit) (setup_cache fs a s user config r)
      by_cache user config files' (none, files'') fit = tt
      by_cache user config files' (some cache, files'') fit =
          setup_paths-Returns files'' s user config cache (fit cache files'' refl) v

      by_config :
          (user : Bytes) (r : Option Bytes × Files)
          → get_username a.passwd ≡ some user
          → setup_directory fs files config_size a.config_env (default_config user) ≡ r
          → Returns (λ _. Unit) (setup_config fs a s user r)
      by_config user (none, files') named made = tt
      by_config user (some config, files') named made =
          by_cache user config files'
            (setup_directory fs files' cache_size a.cache_env (default_cache user))
            λ cache files''. fits user config cache files' files'' named made

      by_user :
          (o : Option Bytes)
          → get_username a.passwd ≡ o
          → Returns (λ _. Unit) (setup_user fs a files s o)
      by_user none named = tt
      by_user (some user) named =
          by_config user (setup_directory fs files config_size a.config_env (default_config user))
            named refl

  -- If every line of the tag file ends with a newline and has at most 255 bytes with it, then with any
  -- options, environment, directories and answers of the system, `main` without its call of
  -- `register_signal_handlers` exits or comes to its loop, with no access outside the line buffer of
  -- `read_tag_file`, whatever lies behind it, and no other fault; the state at the loop is well-formed,
  -- with no shells, nothing sent, a cache directory of at most 94 bytes, and the paths of the socket and
  -- the tag file in the two directories.
  pub main-Returns : (files : Files) → TagFileFits fs a files → Returns Starts (main fs a files)
  unfolding main with_options with_singleton parse_args init_state get_state
  main-Returns files fits =
      Returns-Ensures Starts (main fs a files) (by_options (parse_args a.options))
        (main-IsStarted fs a files)
    where
      by_malloc : (b : Bool) → Returns (λ _. Unit) (with_singleton fs a files (init_state b null))
      by_malloc true =
          Returns-bind (λ _. Unit) (λ _. Unit) (setup_initial_state fs a files initial_state) _
            (setup_initial_state-Returns files initial_state fits (empty-IsMap tag_key, tt))
            λ r _. tt
      by_malloc false = tt

      by_options : (o : Option Exit) → Returns (λ _. Unit) (with_options fs a files o)
      by_options none = by_malloc a.malloc
      by_options (some status) = tt
