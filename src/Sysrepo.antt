-- ===== src/Sysrepo.antt =====
-- src/onm_sysrepo.c: the connection and the sessions of sysrepo, the candidate's list of data trees,
-- and the operations on the datastores. `signal`, and the byte that `malloc` leaves behind a copied
-- text, are arguments.
mod Tests
pub mod ModulePath
pub mod Commit
use onm_cli.Base.{
  ℕ, ◌+◌, Bool, true, false, Option, none, some, List, [], ◌∷◌, ◌++◌, Str, codes, ◌==◌,
  if◌then◌else◌,
}
use onm_cli.Env.{
  Env, SrErr, sr_ok, sr_not_found, sr_failed, Datastore, running, startup, operational,
}
use onm_cli.State.{
  DataTree, State, M, pure, fault, ◌>>=◌, ◌>>◌, gets, modify, session_error,
  set_module_path as no_module_path,
}

abbrev pub exit_success : ℕ
exit_success = 0

abbrev pub exit_failure : ℕ
exit_failure = 1

-- A C string in a buffer: the bytes before the first NUL. Without a NUL the read leaves the buffer.
unfoldable pub read_string : List ℕ → Option Str
read_string [] = none
read_string (c ∷ buffer) =
    let rest = read_string buffer in
    elim (c == 0) [ true ↦ some [] | false ↦ elim rest [ none ↦ none | some s ↦ some (c ∷ s) ] ]

abbrev pub is_ok : SrErr → Bool
is_ok sr_ok = true
is_ok _ = false

module _ (env : Env) where
  open env use {World}

  -- A call that may change the libraries' state.
  abbrev pub call : {A : Type 0} → (World → A × World) → M World A
  call f s = let (a, w) = f s.world in some (a, record s { world = w })

  abbrev pub status : SrErr → ℕ
  status err = if is_ok err then exit_success else exit_failure

  -- `lyd_free_all` on each tree; a tree that is freed already is a fault.
  unfoldable pub free_roots : List DataTree → World → Option World
  free_roots [] w = some w
  free_roots (tree ∷ prev) w = elim tree.node [
    | none ↦ free_roots prev (env.lyd_free_all w none)
    | some n ↦ elim (env.live w n) [
      | false ↦ none
      | true ↦ free_roots prev (env.lyd_free_all w (some n))
    ]
  ]

  unfoldable pub free_data_tree_all : M World (Unit {0})
  unfolding free_roots
  free_data_tree_all s = elim (free_roots s.config_root_tree s.world) [
    | none ↦ none
    | some w ↦ some (tt, record s { world = w; config_root_tree = [] })
  ]

  -- `malloc(strlen(path) + 1)` and `memcpy` of `strlen(path)` bytes: `last` is what the allocation
  -- holds in its last byte.
  unfoldable pub sysrepo_set_module_path : ℕ → Str → M World (Unit {0})
  sysrepo_set_module_path last path =
      modify (λ s. record s { module_path = some (path ++ last ∷ []) })

  abbrev pub install : Str → Option Str → M World ℕ
  install m none = fault
  install m (some path) = do
    ret ← call (λ w. env.sr_install_module w ((path ++ codes "/") ++ m) path)
    pure (status ret)

  abbrev pub insmod_from : Str → Option (List ℕ) → M World ℕ
  insmod_from m none = do
    modify (λ s. record s { output = s.output ++ no_module_path ∷ [] })
    pure exit_failure
  insmod_from m (some buffer) = install m (read_string buffer)

  unfoldable pub sysrepo_insmod : Str → M World ℕ
  unfolding read_string
  sysrepo_insmod m s = insmod_from m s.module_path s

  unfoldable pub sysrepo_rmmod : Str → ℕ → M World ℕ
  sysrepo_rmmod m force = do ret ← call (λ w. env.sr_remove_module w m force); pure (status ret)

  abbrev pub set_connection : SrErr × Option ℕ → M World ℕ
  set_connection (sr_ok, connection) = do
    modify (λ s. record s { connection = connection })
    pure exit_success
  set_connection (_, connection) = pure exit_failure

  unfoldable pub sysrepo_connect : M World ℕ
  sysrepo_connect = do answer ← call env.sr_connect; set_connection answer

  unfoldable pub sysrepo_disconnect : M World ℕ
  sysrepo_disconnect = do
    connection ← gets (λ s. s.connection)
    ret ← call (λ w. env.sr_disconnect w connection)
    pure (status ret)

  abbrev pub set_session : Datastore → Option ℕ → State World → State World
  set_session running session s = record s { session = session }
  set_session startup session s = record s { startup_session = session }
  set_session operational session s = record s { operational_session = session }

  abbrev pub started : Datastore → SrErr × Option ℕ → M World ℕ
  started ds (sr_ok, session) = do modify (set_session ds session); pure exit_success
  started ds (_, session) = pure exit_failure

  -- `sysrepo_start_session`, `..._startup` and `..._operational`, by the datastore.
  unfoldable pub sysrepo_start_session : Datastore → M World ℕ
  sysrepo_start_session ds = do
    connection ← gets (λ s. s.connection)
    answer ← call (λ w. env.sr_session_start w connection ds)
    started ds answer

  abbrev pub sysrepo_get_session : M World (Option ℕ)
  sysrepo_get_session = gets (λ s. s.session)

  -- A session that is started when it is first asked for.
  abbrev pub ensure_session : Datastore → Option ℕ → M World (Unit {0})
  ensure_session ds (some session) = pure tt
  ensure_session ds none = do
    ret ← sysrepo_start_session ds
    if ret == exit_success
        then pure tt
        else modify (λ s. record s { output = s.output ++ session_error ∷ [] })

  unfoldable pub sysrepo_get_session_startup : M World (Option ℕ)
  unfolding sysrepo_start_session
  sysrepo_get_session_startup = do
    session ← gets (λ s. s.startup_session)
    ensure_session startup session
    gets (λ s. s.startup_session)

  unfoldable pub sysrepo_get_session_operational : M World (Option ℕ)
  unfolding sysrepo_start_session
  sysrepo_get_session_operational = do
    session ← gets (λ s. s.operational_session)
    ensure_session operational session
    gets (λ s. s.operational_session)

  unfoldable pub sysrepo_get_ctx : M World Bool
  sysrepo_get_ctx = do
    modify (λ s. record s { acquired = s.acquired + 1 })
    call env.sr_acquire_context

  unfoldable pub sysrepo_release_ctx : M World (Unit {0})
  sysrepo_release_ctx =
      modify (λ s. record s { world = env.sr_release_context s.world; released = s.released + 1 })

  unfoldable pub sysrepo_discard_changes : M World SrErr
  sysrepo_discard_changes = do
    session ← sysrepo_get_session
    call (λ w. env.sr_discard_changes w session)

  abbrev pub check_live : ℕ → M World (Unit {0})
  check_live n s = elim (env.live s.world n) [ false ↦ none | true ↦ some (tt, s) ]

  -- `lyd_path`, which writes nothing for NULL, on a node that must be allocated.
  abbrev pub path_of : Option ℕ → M World Str
  path_of none s = some ([], s)
  path_of (some n) s = elim (env.live s.world n) [
    | false ↦ none
    | true ↦ some (env.lyd_path s.world n, s)
  ]

  abbrev pub has_diff : Option ℕ → ℕ
  has_diff none = 0
  has_diff (some _) = 1

  -- The comparison with what sysrepo returned; 1 if there is a difference.
  abbrev pub compare_subtree : Option ℕ → Option ℕ → M World ℕ
  compare_subtree data_node none = fault
  compare_subtree data_node (some tree) = do
    diff ← call (λ w. env.lyd_diff_tree w data_node (some tree))
    modify (λ s. record s { world = env.sr_release_data s.world tree })
    pure (has_diff diff)

  abbrev pub uncommited_from : Option ℕ → SrErr × Option ℕ → M World ℕ
  uncommited_from data_node (sr_ok, subtree) = compare_subtree data_node subtree
  uncommited_from data_node (sr_not_found, subtree) = pure 1
  uncommited_from data_node (sr_failed _, subtree) = pure 0

  unfoldable pub sysrepo_has_uncommited_changes : Option ℕ → M World ℕ
  sysrepo_has_uncommited_changes data_node = do
    xpath ← path_of data_node
    session ← sysrepo_get_session
    answer ← call (λ w. env.sr_get_subtree w session xpath)
    uncommited_from data_node answer

  abbrev pub applied : Option ℕ → SrErr → M World ℕ
  applied session sr_ok = pure exit_success
  applied session _ = do ret ← call (λ w. env.sr_discard_changes w session); pure exit_failure

  abbrev pub batched : Option ℕ → SrErr → M World ℕ
  batched session sr_ok = do ret ← call (λ w. env.sr_apply_changes w session); applied session ret
  batched session _ = pure exit_failure

  -- A tree that is not allocated any more is a fault.
  unfoldable pub sysrepo_commit : Option ℕ → M World ℕ
  sysrepo_commit none = pure exit_success
  sysrepo_commit (some tree) = do
    check_live tree
    session ← sysrepo_get_session
    ret ← call (λ w. env.sr_edit_batch w session tree)
    batched session ret

  unfoldable pub onm_sysrepo_done : M World ℕ
  unfolding free_data_tree_all sysrepo_disconnect
  onm_sysrepo_done = do free_data_tree_all; ret ← sysrepo_disconnect; pure exit_success

  -- For SIGINT and SIGTERM; the result is the status that the program exits with.
  unfoldable pub cleanup_handler : M World ℕ
  unfolding sysrepo_disconnect
  cleanup_handler = do ret ← sysrepo_disconnect; pure exit_success

  -- `if (step != EXIT_SUCCESS) return EXIT_FAILURE;` and the rest
  abbrev pub and_then : M World ℕ → M World ℕ → M World ℕ
  and_then step rest = do ret ← step; if ret == exit_success then rest else pure exit_failure

  unfoldable pub onm_sysrepo_init : (sigint sigterm : Bool) → M World ℕ
  unfolding sysrepo_connect sysrepo_start_session
  onm_sysrepo_init sigint sigterm =
      if sigint
      then (if sigterm
          then and_then sysrepo_connect (
              and_then (sysrepo_start_session running) (
                and_then (sysrepo_start_session startup)
                  (and_then (sysrepo_start_session operational) (pure exit_success))))
          else pure exit_failure)
      else pure exit_failure
