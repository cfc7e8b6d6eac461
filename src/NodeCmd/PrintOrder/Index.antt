-- ===== src/NodeCmd/PrintOrder/Index.antt =====
-- cmd_list.c and data_factory.c: the indices that `print-order` prints, and where an entry that is added
-- with one of them is put.
use onm_cli.Base.{ℕ, ◌+◌, ◌<◌, List, [], ◌∷◌, ◌++◌, Str, length}
use onm_cli.Env.{Env}
use onm_cli.Schema.{Info}
use onm_cli.State.{State, Line, ordered_entry}
use onm_cli.NodeCmd.PrintOrder.{entry_text}

module _ (env : Env) (lysc_path : List Info → Str) where
  open env use {World}

  -- The lines for the entries, from an index on in steps of ten.
  abbrev pub ordered : World → ℕ → List ℕ → List Line
  ordered w index [] = []
  ordered w index (entry ∷ next) =
      ordered_entry (entry_text env lysc_path w entry) index ∷ ordered w (index + 10) next

  abbrev pub IsShort : World → ℕ → Type 0
  IsShort w entry = length (entry_text env lysc_path w entry) < 265

  -- The siblings around a new entry: the entries of the list, the new one, which libyang puts
  -- behind them, and the nodes in front of the list and behind it.
  abbrev pub around : List ℕ → List ℕ → ℕ → List ℕ → List ℕ
  around before entries new after = before ++ (entries ++ new ∷ after)
