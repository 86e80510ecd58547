-- ===== src/Setup/Laws.antt =====
-- What `main` of src/daemon/main.c has set up when its loop begins.
use nav.Base.{
  ℕ, ◌≡◌, refl, sym, ap, ◌∙◌, ◌≤◌, ◌<◌, Bool, true, false, Option, none, some, [], ◌++◌, Bytes,
  codes, length, length-append, take_all, leb, arith,
}
use nav.Run.{ok, Exit}
use nav.Run.Ensures.{Ensures, Ensures-bind, Ensures-if}
use nav.CString.{snprintf}
use nav.Utils.{Stat, found, enoent, other_error}
use nav.ItemList.{empty}
use nav.ItemList.Maps.{empty-IsMap}
use nav.Tag.Keys.{tag_key}
use nav.TagFile.{read_tag_file}
use nav.TagFile.Keeps.{IsTagList, read-IsTagList}
use nav.Shell.Stack.{shell_key}
use nav.World.{State, World}
use nav.Commands.Invariant.{IsWellFormed}
use nav.Lifecycle.{null, initial_state, init_state, get_state}
use nav.Setup.{
  config_size, cache_size, default_config, default_cache, get_username, FileSystem, Answers,
  Started, running, parse_args, dest_path, choose_path, made, make_directory, directory_at,
  setup_directory, setup_paths, setup_cache, setup_config, setup_user, setup_initial_state, bound,
  setup_socket, with_state, with_singleton, with_options, main,
}

dest_path-lt :
    (size : ℕ) (path dest : Bytes)
    → dest_path size path ≡ some dest
    → (dest ≡ path) × (length dest < size)
unfolding dest_path
dest_path-lt size path dest h = ground arith

pub choose_path-lt :
    (size : ℕ) (env : Option Bytes) (default dest : Bytes)
    → choose_path size env default ≡ some dest
    → length dest < size
unfolding choose_path
choose_path-lt size (some e) default dest h = (dest_path-lt size e dest h).1
choose_path-lt size none default dest h = (dest_path-lt size default dest h).1

-- what the loop begins with
pub record IsStarted (w : World) : Type 0 where
  pub well_formed : IsWellFormed w
  pub no_shells : w.shells ≡ empty
  pub none_sent : w.sent ≡ []
  pub cache_short : length w.cache_dir ≤ 94
  pub socket : w.nav_socket_path ≡ w.cache_dir ++ codes "/nav.sock"
  pub tags_path : w.tagfile_path ≡ w.config_dir ++ codes "/tags"

-- the state before the socket is set up
record IsSetUp (s : State) : Type 0 where
  tags : IsTagList s.tags
  no_shells : s.shells ≡ empty
  cache_short : length s.cache_dir ≤ 94
  socket : s.nav_socket_path ≡ s.cache_dir ++ codes "/nav.sock"
  tags_path : s.tagfile_path ≡ s.config_dir ++ codes "/tags"

abbrev SetUp : {F : Type 0} → Option State × F → Type 0
SetUp (none, files) = Unit
SetUp (some s, files) = IsSetUp s

abbrev pub Starts : {F : Type 0} → Started × F → Type 0
Starts (running w, files) = IsStarted w
Starts (_, files) = Unit

module _ (fs : FileSystem) where
  open fs use {Files, fstatat, mkdir, mkdir_found}

  -- what `setup_directory` gives
  abbrev pub IsDirectory : ℕ → Option Bytes → Bytes → Option Bytes × Files → Type 0
  IsDirectory size env default (none, files) = Unit
  IsDirectory size env default (some dest, files) =
      (choose_path size env default ≡ some dest)
      × (length dest < size)
      × (fstatat files dest ≡ found)

  -- `setup_directory` gives the path from the environment, or the default without one, only if it is
  -- shorter than the buffer, and only if it is there afterwards.
  pub setup_directory_lem :
      (files : Files) (size : ℕ) (env : Option Bytes) (default : Bytes)
      → IsDirectory size env default (setup_directory fs files size env default)
  unfolding setup_directory directory_at make_directory
  setup_directory_lem files size env default = by_choice (choose_path size env default) refl
    where
      by_made :
          (dest : Bytes)
          → choose_path size env default ≡ some dest
          → (r : Bool × Files) → r ≡ mkdir files dest
          → IsDirectory size env default (made fs dest r)
      by_made dest e (true, files') m = (
        e,
        choose_path-lt size env default dest e,
        ap (λ r. fstatat r.1 dest) m ∙ mkdir_found files dest (sym (ap (λ r. r.0) m)),
      )
      by_made dest e (false, files') m = tt

      by_stat :
          (dest : Bytes)
          → choose_path size env default ≡ some dest
          → (o : Stat) → fstatat files dest ≡ o
          → IsDirectory size env default (make_directory fs files dest o)
      by_stat dest e found at = (e, choose_path-lt size env default dest e, at)
      by_stat dest e enoent at = by_made dest e (mkdir files dest) refl
      by_stat dest e other_error at = tt

      by_choice :
          (o : Option Bytes)
          → choose_path size env default ≡ o
          → IsDirectory size env default (directory_at fs files o)
      by_choice none e = tt
      by_choice (some dest) e = by_stat dest e (fstatat files dest) refl

  module _ (a : Answers) where
    setup_paths-SetUp :
        (files : Files) (s : State) (user config cache : Bytes)
        → length config < 4091
        → length cache < 95
        → IsTagList s.tags
        → s.shells ≡ empty
        → Ensures SetUp (setup_paths fs a files s user config cache)
    unfolding setup_paths snprintf
    setup_paths-SetUp files s user config cache short fits v none_yet =
        Ensures-if SetUp (leb 108 (length (cache ++ codes "/nav.sock"))) (ok (none, files)) _ tt (
          Ensures-bind (λ r. IsTagList r.1) SetUp
            (read_tag_file (fstatat files) a.memory a.behind s.tags _) _
            (read-IsTagList (fstatat files) a.memory a.behind s.tags _ v)
            λ r v'. record {
              tags = v';
              no_shells = none_yet;
              cache_short = omega arith;
              socket = refl;
              tags_path = take_all 4095 _ (omega (arith, length-append config (codes "/tags")));
            })

    setup_initial_state-SetUp :
        (files : Files) (s : State)
        → IsTagList s.tags
        → s.shells ≡ empty
        → Ensures SetUp (setup_initial_state fs a files s)
    unfolding setup_initial_state setup_user setup_config setup_cache
    setup_initial_state-SetUp files s v none_yet = by_user (get_username a.passwd)
      where
        by_cache :
            (user config : Bytes)
            → length config < 4091
            → (r : Option Bytes × Files) → IsDirectory cache_size a.cache_env (default_cache user) r
            → Ensures SetUp (setup_cache fs a s user config r)
        by_cache user config short (none, files') d = tt
        by_cache user config short (some cache, files') d =
            setup_paths-SetUp files' s user config cache short d.1 v none_yet

        by_config :
            (user : Bytes) (r : Option Bytes × Files)
            → IsDirectory config_size a.config_env (default_config user) r
            → Ensures SetUp (setup_config fs a s user r)
        by_config user (none, files') d = tt
        by_config user (some config, files') d =
            by_cache user config d.1 _
              (setup_directory_lem files' cache_size a.cache_env (default_cache user))

        by_user : (o : Option Bytes) → Ensures SetUp (setup_user fs a files s o)
        by_user none = tt
        by_user (some user) =
            by_config user _
              (setup_directory_lem files config_size a.config_env (default_config user))

    with_state-Starts : (r : Option State × Files) → SetUp r → Starts (with_state fs a r)
    unfolding with_state setup_socket bound
    with_state-Starts (none, files) h = tt
    with_state-Starts (some s, files) h = by_socket a.socket
      where
        by_bind : (b : Bool) (files' : Files) (fd : ℕ) → Starts (bound fs b files' s fd)
        by_bind false files' fd = tt
        by_bind true files' fd = record {
          well_formed = record {
            shells = rw h.no_shells (empty-IsMap shell_key);
            members = rw h.no_shells tt;
            tags = h.tags.0;
            entries = h.tags.1;
          };
          no_shells = h.no_shells;
          none_sent = refl;
          cache_short = h.cache_short;
          socket = h.socket;
          tags_path = h.tags_path;
        }

        by_socket : (o : Option ℕ) → Starts (setup_socket fs a files s o)
        by_socket none = tt
        by_socket (some fd) = by_bind a.bind _ fd

    -- Whatever the options, the environment, the tag file and the calls of the system give, the loop of the
    -- daemon begins in such a world if it begins.
    pub main-IsStarted : (files : Files) → Ensures Starts (main fs a files)
    unfolding main with_options with_singleton parse_args init_state get_state
    main-IsStarted files = by_options (parse_args a.options)
      where
        by_singleton : (b : Bool) → Ensures Starts (with_singleton fs a files (init_state b null))
        by_singleton true =
            Ensures-bind SetUp Starts (setup_initial_state fs a files initial_state) _
              (setup_initial_state-SetUp files initial_state (empty-IsMap tag_key, tt) refl)
              (with_state-Starts)
        by_singleton false = tt

        by_options : (o : Option Exit) → Ensures Starts (with_options fs a files o)
        by_options none = by_singleton a.malloc
        by_options (some status) = tt
