-- ===== src/Sample.antt =====
-- A small model of libyang, sysrepo and libcli, which shows that what is assumed of them can hold:
-- each data tree is one top-level node with a path and a number for its contents.
pub mod Laws
pub mod Start
pub mod Rooted
pub mod RootedEdits
use onm_cli.Base.{
  ℕ, ◌+◌, Bool, true, false, not, ◌&&◌, Option, none, some, [], ◌∷◌, Str, codes, str_eq, ltb, ◌==◌,
  if◌then◌else◌,
}
use onm_cli.Cli.{cli_ok}
use onm_cli.Env.{Env, LyErr, success, failed, SrErr, sr_ok, sr_not_found}
use onm_cli.Schema.{container, Info}

pub record World : Type 0 where
  pub next : ℕ
  pub freed : ℕ → Bool
  pub value : ℕ → ℕ
  pub path : ℕ → Str
  pub datastore : Str → Option ℕ
  pub pending : Option (Str × ℕ)
  pub mode : ℕ

abbrev pub update {ℓ} : {A : Type ℓ} → (ℕ → A) → ℕ → A → ℕ → A
update f p v q = if q == p then v else f q

abbrev pub update_path : (Str → Option ℕ) → Str → ℕ → Str → Option ℕ
update_path f p v q = if str_eq q p then some v else f q

abbrev pub live : World → ℕ → Bool
live w n = ltb n w.next && not (w.freed n)

-- A new node.
abbrev pub grow : World → Str → ℕ → World
grow w path v = record w {
  next = w.next + 1;
  freed = update w.freed w.next false;
  value = update w.value w.next v;
  path = update w.path w.next path;
}

abbrev pub get : World → Str → Option ℕ → (SrErr × Option ℕ) × World
get w path none = ((sr_not_found, none), w)
get w path (some v) = ((sr_ok, some w.next), grow w path v)

abbrev pub diff : World → Option ℕ → Option ℕ → Option ℕ
diff w (some a) (some b) = if w.value a == w.value b then none else some 0
diff w a b = some 0

abbrev pub apply : World → Option (Str × ℕ) → World
apply w none = w
apply w (some (path, v)) = record w { datastore = update_path w.datastore path v; pending = none }

abbrev pub release : World → Option ℕ → World
release w none = w
release w (some n) = record w { freed = update w.freed n true }

-- The schema node of every tree.
abbrev pub top : Info
top = record {
  addr = 1;
  name = codes "interfaces";
  module_name = codes "ietf-interfaces";
  nodetype = container;
  config_r = false;
  is_key = false;
  user_ordered = false;
  dsc = none;
  ytype = none;
}

abbrev pub find : World → Str → ℕ → LyErr × Option ℕ
find w path n = if str_eq (w.path n) path then (success, some n) else (failed 5, none)

abbrev pub sample : Env
sample = record {
  World = World;
  live = live;
  schema = λ w n. top;
  ancestors = λ w n. [];
  schema_up = λ w n. [];
  children = λ w n. [];
  siblings = λ w n. n ∷ [];
  nexts = λ w n. n ∷ [];
  lyd_get_value = λ w n. [];
  lyd_path = λ w n. w.path n;
  lyd_find_path = λ w n path. find w path n;
  lyd_new_path = λ w n path v. ((success, some w.next), grow w path 0);
  lyd_new_path2 = λ w n path. ((success, some w.next), grow w path 0);
  lyd_insert_before = λ w next n. (failed 3, w);
  lyd_change_term = λ w n v. w;
  lyd_free_tree = release;
  lyd_free_all = release;
  lyd_diff_tree = λ w a b. (diff w a b, w);
  sr_connect = λ w. ((sr_ok, some 1), w);
  sr_disconnect = λ w c. (sr_ok, w);
  sr_session_start = λ w c ds. ((sr_ok, some 1), w);
  sr_acquire_context = λ w. (true, w);
  sr_release_context = λ w. w;
  sr_get_subtree = λ w session path. get w path (w.datastore path);
  sr_release_data = λ w n. release w (some n);
  sr_edit_batch = λ w session n. (sr_ok, record w { pending = some (w.path n, w.value n) });
  sr_apply_changes = λ w session. (sr_ok, apply w w.pending);
  sr_discard_changes = λ w session. (sr_ok, record w { pending = none });
  sr_install_module = λ w path dir. (sr_ok, w);
  sr_remove_module = λ w m force. (sr_ok, w);
  mode = λ w. w.mode;
  cli_exit = λ w. (cli_ok, record w { mode = 0 });
  cli_set_configmode = λ w mode. record w { mode = mode };
  cli_push_configmode = λ w mode desc. record w { mode = mode };
}

abbrev pub stored : World → Str → Option ℕ
stored w path = w.datastore path
