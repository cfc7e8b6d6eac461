-- ===== src/State.antt =====
-- The global variables of src/onm_sysrepo.c and src/commands/yang_core/data_factory.c, and the
-- monad in which their functions run.
use onm_cli.Validators
use onm_cli.Base.{ℕ, Option, none, some, List}

-- A `struct data_tree`: the address of the cell, and its data node. The cells of the list are linked
-- by `prev`, and stand in the order of the links.
pub record DataTree : Type 0 where
  pub cell : ℕ
  pub node : Option ℕ

-- What the commands print, of which the texts are told apart.
pub data Line : Type 0 where
  no_modification changes_applied commit_failed : Line
  no_config_changes discard_failed changes_discarded uncommitted_changes : Line
  no_new_config incomplete_command not_implemented : Line
  ly_error set_module_path : Line
  session_error : Line
  carriage_return delete_option unknown_arguments invalid_command missing_value : Line
  creation_failed deletion_failed invalid_index : Line
  no_data no_diff diff_of_candidate_only : Line
  validation : Validators.Line → Line
  -- An entry of a list, with its index.
  ordered_entry : List ℕ → ℕ → Line
  module_listed commands_generated : List ℕ → Line
  -- A whole data tree, as XML or as JSON.
  xml_tree json_tree : Option ℕ → Line

pub record State (W : Type 0) : Type 0 where
  pub world : W
  pub connection : Option ℕ
  pub session : Option ℕ
  pub startup_session : Option ℕ
  pub operational_session : Option ℕ
  -- All bytes of the allocation.
  pub module_path : Option (List ℕ)
  pub config_root_tree : List DataTree
  pub curr_root : Option ℕ
  pub parent_data : Option ℕ
  -- The address of the next cell that `malloc` returns.
  pub next_cell : ℕ
  -- How often the context has been acquired and released.
  pub acquired : ℕ
  pub released : ℕ
  pub output : List Line

-- `none` is a fault: NULL or a freed node is read, or an uninitialised variable.
abbrev pub M : Type 0 → Type 0 → Type 0
M W A = State W → Option (A × State W)

module _ {W : Type 0} where
  abbrev pub pure : {A : Type 0} → A → M W A
  pure a s = some (a, s)

  abbrev pub fault : {A : Type 0} → M W A
  fault s = none

  infixl 5 ◌>>=◌ ◌>>◌
  abbrev pub ◌>>=◌ : {A B : Type 0} → M W A → (A → M W B) → M W B
  ◌>>=◌ m f s = elim (m s) [ none ↦ none | some (a, s') ↦ f a s' ]

  abbrev pub ◌>>◌ : {B : Type 0} → M W (Unit {0}) → M W B → M W B
  m >> k = m >>= λ _. k

  abbrev pub gets : {A : Type 0} → (State W → A) → M W A
  gets f s = some (f s, s)

  abbrev pub modify : (State W → State W) → M W (Unit {0})
  modify f s = some (tt, f s)
