-- ===== src/Env.antt =====
-- The libraries that the sources call, libyang, sysrepo and libcli, as one interface over a state
-- `World` of their own: data trees, datastores, sessions, and the command line. A pointer to a data
-- node or a session is a number, and NULL is `none`.
use onm_cli.Base.{ℕ, Bool, Option, List, Str}
use onm_cli.Cli.{CliCode}
use onm_cli.Schema.{Info}

-- The results of libyang that the code tells apart.
pub data LyErr : Type 0 where
  success incomplete : LyErr
  failed : ℕ → LyErr

-- The results of sysrepo that the code tells apart.
pub data SrErr : Type 0 where
  sr_ok sr_not_found : SrErr
  sr_failed : ℕ → SrErr

pub data Datastore : Type 0 where
  running startup operational : Datastore

pub record Env : Type 1 where
  pub World : Type 0
  -- `live w n`: the data node `n` is allocated.
  pub live : World → ℕ → Bool
  pub schema : World → ℕ → Info
  -- The ancestors of a data node and of its schema node, nearest first: the chains of `parent`.
  pub ancestors : World → ℕ → List ℕ
  pub schema_up : World → ℕ → List Info
  -- `lyd_child` and the `next` links behind it, and those behind `lyd_first_sibling`.
  pub children : World → ℕ → List ℕ
  pub siblings : World → ℕ → List ℕ
  -- A data node and the `next` ones, and `lyd_get_value`.
  pub nexts : World → ℕ → List ℕ
  pub lyd_get_value : World → ℕ → Str
  pub lyd_path : World → ℕ → Str
  pub lyd_find_path : World → ℕ → Str → LyErr × Option ℕ
  pub lyd_new_path : World → Option ℕ → Str → Option Str → (LyErr × Option ℕ) × World
  pub lyd_new_path2 : World → Option ℕ → Str → (LyErr × Option ℕ) × World
  pub lyd_insert_before : World → ℕ → ℕ → LyErr × World
  pub lyd_change_term : World → ℕ → Option Str → World
  pub lyd_free_tree : World → Option ℕ → World
  pub lyd_free_all : World → Option ℕ → World
  pub lyd_diff_tree : World → Option ℕ → Option ℕ → Option ℕ × World
  pub sr_connect : World → (SrErr × Option ℕ) × World
  pub sr_disconnect : World → Option ℕ → SrErr × World
  pub sr_session_start : World → Option ℕ → Datastore → (SrErr × Option ℕ) × World
  pub sr_acquire_context : World → Bool × World
  pub sr_release_context : World → World
  pub sr_get_subtree : World → Option ℕ → Str → (SrErr × Option ℕ) × World
  pub sr_release_data : World → ℕ → World
  pub sr_edit_batch : World → Option ℕ → ℕ → SrErr × World
  pub sr_apply_changes : World → Option ℕ → SrErr × World
  pub sr_discard_changes : World → Option ℕ → SrErr × World
  pub sr_install_module : World → Str → Str → SrErr × World
  pub sr_remove_module : World → Str → ℕ → SrErr × World
  -- libcli: `cli->mode`, `cli_exit`, `cli_set_configmode` and `cli_push_configmode`
  pub mode : World → ℕ
  pub cli_exit : World → CliCode × World
  pub cli_set_configmode : World → ℕ → World
  pub cli_push_configmode : World → ℕ → Str → World
