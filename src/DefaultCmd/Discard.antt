-- ===== src/DefaultCmd/Discard.antt =====
-- src/commands/default_cmd.c: what `discard-changes` frees, and what it forgets to reset.
use onm_cli.Base.{
  ℕ, ◌≡◌, refl, ◌⊎◌, inl, inr, Bool, true, false, ◌||◌, Option, none, some, List, [], ◌∷◌, arith,
  Bool-cases, ◌==◌,
}
use onm_cli.Cli.{CliCode}
use onm_cli.Env.{Env, SrErr, sr_ok, sr_not_found, sr_failed}
use onm_cli.State.{DataTree, State}
use onm_cli.YUtils.Mode.{config_mode}
use onm_cli.Sysrepo.{free_roots}
use onm_cli.DefaultCmd.{cmd_discard_changes, discarded}

abbrev pub member : ℕ → List ℕ → Bool
member n [] = false
member n (m ∷ ms) = n == m || member n ms

module _ (env : Env) where
  open env use {World}

  -- The node `m` is in the tree of `n`.
  abbrev pub IsIn : World → ℕ → ℕ → Type 0
  IsIn w n m = (n == m || member n (env.ancestors w m)) ≡ true

  -- The node `m` is in a tree of the list.
  abbrev pub IsInSome : World → ℕ → List DataTree → Type 0
  IsInSome w m [] = ⊥
  IsInSome w m (t ∷ ts) = ((n : ℕ) × (t.node ≡ some n) × IsIn w n m) ⊎ IsInSome w m ts

-- What is documented of freeing: it frees all of a tree, never makes a node out of nothing, and
-- leaves the ancestors of a node that is left alone. Discarding changes makes no node, either.
pub record IsFreeingAll (env : Env) : Type 0 where
  pub frees :
      (w : Env.World env) (n m : ℕ)
      → IsIn env w n m
      → env.live (env.lyd_free_all w (some n)) m ≡ false
  pub dead_free :
      (w : Env.World env) (o : Option ℕ) (m : ℕ)
      → env.live w m ≡ false
      → env.live (env.lyd_free_all w o) m ≡ false
  pub up_free :
      (w : Env.World env) (o : Option ℕ) (m : ℕ)
      → env.live (env.lyd_free_all w o) m ≡ true
      → env.ancestors (env.lyd_free_all w o) m ≡ env.ancestors w m
  pub dead_discard :
      (w : Env.World env) (session : Option ℕ) (m : ℕ)
      → env.live w m ≡ false
      → env.live (env.sr_discard_changes w session).1 m ≡ false
  pub dead_mode :
      (w : Env.World env) (mode : ℕ) (m : ℕ)
      → env.live w m ≡ false
      → env.live (env.cli_set_configmode w mode) m ≡ false

module _ (env : Env) (law : IsFreeingAll env) where
  open env use {World}

  free_roots-cons :
      (t : DataTree) (ts : List DataTree) (w w' : World)
      → free_roots env (t ∷ ts) w ≡ some w'
      → free_roots env ts (env.lyd_free_all w t.node) ≡ some w'
  unfolding free_roots
  free_roots-cons t ts w w' e = ground arith

  dead_stays :
      (ts : List DataTree) (w w' : World) (m : ℕ)
      → free_roots env ts w ≡ some w'
      → env.live w m ≡ false
      → env.live w' m ≡ false
  unfolding free_roots
  dead_stays [] w w' m e d = ground arith
  dead_stays (t ∷ ts) w w' m e d =
      dead_stays ts (env.lyd_free_all w t.node) w' m (free_roots-cons t ts w w' e)
        (law.dead_free w t.node m d)

  free_roots-dead :
      (ts : List DataTree) (w w' : World) (m : ℕ)
      → free_roots env ts w ≡ some w'
      → IsInSome env w m ts
      → env.live w' m ≡ false
  free_roots-dead [] w w' m e i = absurd i
  free_roots-dead (t ∷ ts) w w' m e (inl (n, is, inside)) =
      dead_stays ts (env.lyd_free_all w t.node) w' m (free_roots-cons t ts w w' e)
        (rw is (law.frees w n m inside))
  free_roots-dead (t ∷ ts) w w' m e (inr i) =
      elim (Bool-cases (env.live (env.lyd_free_all w t.node) m)) [
        | inr d ↦ dead_stays ts (env.lyd_free_all w t.node) w' m (free_roots-cons t ts w w' e) d
        | inl l ↦
            free_roots-dead ts (env.lyd_free_all w t.node) w' m (free_roots-cons t ts w w' e)
              (moved ts (law.up_free w t.node m l) i)
      ]
    where
      moved :
          (us : List DataTree)
          → env.ancestors (env.lyd_free_all w t.node) m ≡ env.ancestors w m
          → IsInSome env w m us
          → IsInSome env (env.lyd_free_all w t.node) m us
      moved [] same i = i
      moved (u ∷ us) same (inl (n, is, inside)) = inl (n, is, rw same inside)
      moved (u ∷ us) same (inr i) = inr (moved us same i)

  -- What `sysrepo_discard_changes` answers behind the freeing of the trees.
  abbrev answer : State World → World → SrErr × World
  answer s w = env.sr_discard_changes w s.session

  discard-runs :
      (s : State World) (t : DataTree) (ts : List DataTree) (w : World)
      → s.config_root_tree ≡ t ∷ ts
      → free_roots env s.config_root_tree s.world ≡ some w
      → cmd_discard_changes env s
        ≡ discarded env (answer s w).0 (record s { world = (answer s w).1; config_root_tree = [] })
  unfolding cmd_discard_changes
  discard-runs s t ts w e f = ground arith

  abbrev pub Dangling : ℕ → Option (CliCode × State World) → Type 0
  Dangling m none = ⊥
  Dangling m (some (code, s')) =
      (s'.config_root_tree ≡ []) × (s'.parent_data ≡ some m) × (env.live s'.world m ≡ false)

  discarded-Dangling :
      (ret : SrErr) (s : State World) (m : ℕ)
      → s.config_root_tree ≡ []
      → s.parent_data ≡ some m
      → env.live s.world m ≡ false
      → Dangling m (discarded env ret s)
  discarded-Dangling sr_ok s m r p d = (r, p, law.dead_mode s.world config_mode m d)
  discarded-Dangling sr_not_found s m r p d = (r, p, d)
  discarded-Dangling (sr_failed n) s m r p d = (r, p, d)

  -- `discard-changes` frees the trees of the candidate and empties its list, whether sysrepo
  -- discards its changes or not, but it keeps `parent_data`: if that pointed into a tree of the
  -- candidate, it points to a freed node in the state behind the command.
  pub cmd_discard_changes-Dangling :
      (s : State World) (t : DataTree) (ts : List DataTree) (w : World) (m : ℕ)
      → s.config_root_tree ≡ t ∷ ts
      → free_roots env s.config_root_tree s.world ≡ some w
      → s.parent_data ≡ some m
      → IsInSome env s.world m s.config_root_tree
      → Dangling m (cmd_discard_changes env s)
  cmd_discard_changes-Dangling s t ts w m e f p i = rw (discard-runs s t ts w e f) (
      discarded-Dangling (answer s w).0 (record s { world = (answer s w).1; config_root_tree = [] })
        m refl p
        (law.dead_discard w s.session m (free_roots-dead s.config_root_tree s.world w m f i)))
