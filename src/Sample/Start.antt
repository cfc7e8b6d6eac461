-- ===== src/Sample/Start.antt =====
-- The small model, and the program, as they start.
use onm_cli.Base.{false, none, []}
use onm_cli.State.{State}
use onm_cli.Sample.{World}

abbrev pub fresh : World
fresh = record {
  next = 0;
  freed = λ n. false;
  value = λ n. 0;
  path = λ n. [];
  datastore = λ path. none;
  pending = none;
  mode = 0;
}

abbrev pub started : State World
started = record {
  world = fresh;
  connection = none;
  session = none;
  startup_session = none;
  operational_session = none;
  module_path = none;
  config_root_tree = [];
  curr_root = none;
  parent_data = none;
  next_cell = 1;
  acquired = 0;
  released = 0;
  output = [];
}
