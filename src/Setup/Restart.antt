-- ===== src/Setup/Restart.antt =====
-- A start of the daemon of src/daemon/main.c that finds its directories and a tag file that
-- `write_tag_file` wrote before.
use nav.Base.{
  ℕ, ◌≡◌, refl, ◌<◌, true, false, Option, some, [], ◌++◌, All, Bytes, codes, pos, length,
  length-append, take_all, leb, arith,
}
use nav.Run.{ok}
use nav.CString.{snprintf}
use nav.Utils.{found}
use nav.ItemList.{ItemList}
use nav.ItemList.Maps.{IsMap}
use nav.Tag.{Tag, write_tag_file}
use nav.Tag.Keys.{tag_key}
use nav.TagFile.RoundTrip.{IsWritable, read-write}
use nav.World.{State, World}
use nav.Lifecycle.{initial_state, init_state, get_state}
use nav.Setup.{
  FileSystem, Answers, running, path_size, config_size, cache_size, default_config, default_cache,
  get_username, parse_args, choose_path, make_directory, directory_at, setup_directory, setup_paths,
  setup_cache, setup_config, setup_user, setup_initial_state, bound, setup_socket, with_state,
  with_singleton, with_options, main,
}
use nav.Setup.Laws.{choose_path-lt}

module _ (fs : FileSystem) (a : Answers) (files : fs.Files) where
  open fs use {Files, fstatat, unlink, content}

  -- the calls before the loop succeed, with the directories `config` and `cache`
  pub record Ready (user config cache : Bytes) (fd : ℕ) : Type 0 where
    pub no_options : a.options ≡ []
    pub allocated : a.malloc ≡ true
    pub reads : (n : ℕ) → a.memory n ≡ true
    pub named : a.passwd ≡ some user
    pub config_given : choose_path config_size a.config_env (default_config user) ≡ some config
    pub config_there : fstatat files config ≡ found
    pub cache_given : choose_path cache_size a.cache_env (default_cache user) ≡ some cache
    pub cache_there : fstatat files cache ≡ found
    pub socket : a.socket ≡ some fd
    pub bound : a.bind ≡ true

  setup_directory-found :
      (size : ℕ) (env : Option Bytes) (default dest : Bytes)
      → choose_path size env default ≡ some dest
      → fstatat files dest ≡ found
      → setup_directory fs files size env default ≡ (some dest, files)
  unfolding setup_directory directory_at make_directory
  setup_directory-found size env default dest given there = rw (given, directory_at, there) refl

  whole_path :
      (config : Bytes)
      → length config < 4091
      → snprintf path_size (config ++ codes "/tags") ≡ config ++ codes "/tags"
  unfolding snprintf
  whole_path config short = take_all 4095 _ (omega (arith, length-append config (codes "/tags")))

  -- the state behind both directories and the tag file
  abbrev restarted : Bytes → Bytes → Bytes → ItemList Tag → State
  restarted user config cache tags = record initial_state {
    uname = some user;
    config_dir = config;
    cache_dir = cache;
    nav_socket_path = cache ++ codes "/nav.sock";
    tagfile_path = config ++ codes "/tags";
    tags = tags;
  }

  -- the world at the loop
  abbrev pub restarted_world : Bytes → Bytes → Bytes → ℕ → ItemList Tag → World
  restarted_world user config cache fd tags = record {
    state = record (restarted user config cache tags) { sfd = pos fd };
    sent = [];
    tagfile = content (unlink files (cache ++ codes "/nav.sock")) (config ++ codes "/tags");
  }

  module _ (tags : ItemList Tag) (old : Option Bytes) (v : IsMap tag_key tags) where
    setup_paths-reads :
        (user config cache : Bytes)
        → length config < 4091
        → length cache < 95
        → ((n : ℕ) → a.memory n ≡ true)
        → All (IsWritable (fstatat files)) tags.items
        → content files (config ++ codes "/tags") ≡ (write_tag_file true tags old).1
        → setup_paths fs a files initial_state user config cache
          ≡ ok (some (restarted user config cache tags), files)
    unfolding setup_paths
    setup_paths-reads user config cache short fits memory h kept =
        let small : leb 108 (length (cache ++ codes "/nav.sock")) ≡ false =
          ground (arith, length-append cache (codes "/nav.sock")) in
        rw
          (
            whole_path config short,
            small,
            kept,
            read-write (fstatat files) a.memory memory a.behind tags old v h,
          )
          refl

    -- If the calls before the loop succeed, and the tag file in the configuration directory is what
    -- `write_tag_file` wrote of tags that the file can hold, the loop begins with these tags.
    pub main_restarts :
        {user config cache : Bytes} {fd : ℕ}
        → Ready user config cache fd
        → All (IsWritable (fstatat files)) tags.items
        → content files (config ++ codes "/tags") ≡ (write_tag_file true tags old).1
        → main fs a files
          ≡ ok (
            running (restarted_world user config cache fd tags),
            unlink files (cache ++ codes "/nav.sock"),
          )
    unfolding main with_options with_singleton parse_args init_state get_state setup_initial_state
        setup_user setup_config setup_cache setup_socket with_state bound
    main_restarts {user} {config} {cache} {fd} r h kept =
        let config_made =
          setup_directory-found config_size a.config_env (default_config user) config r.config_given
            r.config_there in
        let cache_made =
          setup_directory-found cache_size a.cache_env (default_cache user) cache r.cache_given
            r.cache_there in
        let paths =
          setup_paths-reads user config cache
            (choose_path-lt config_size a.config_env (default_config user) config r.config_given)
            (choose_path-lt cache_size a.cache_env (default_cache user) cache r.cache_given) r.reads
            h kept in
        rw
          (
            r.no_options, parse_args, with_options, r.allocated, init_state, with_singleton,
            get_state, setup_initial_state, r.named, get_username, setup_user, config_made,
            setup_config, cache_made, setup_cache, paths, with_state, r.socket, setup_socket,
            r.bound,
          )
          refl
