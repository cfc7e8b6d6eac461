-- ===== src/Lib.antt =====
-- onm-cli is a command line for network devices that are configured by YANG modules. It compiles the
-- modules with libyang, makes a command for each node of their schema, keeps what the user enters
-- as a candidate configuration, and commits the candidate to the datastores of sysrepo. This
-- library models its core and states what the core does.
--
-- The parts and their files. Paths are those of the repository.
--
-- - src/utils.c: Utils. `to_lower`, `str2int_hash`, `str2fun_name`, `count_optargs`. The hash names
--   the mode of the command line in which the children of a node are entered.
-- - src/onm_logger.c, with src/config.h: Logger. The filter of messages by their level. The messages
--   that the other parts log are left out of their models.
-- - src/onm_sysrepo.c: Sysrepo. The connection, the sessions, the module path, and the comparison
--   and the commit of one data tree. The global variables of this file and of
--   src/commands/yang_core/data_factory.c are the record State.State, and its functions run in the
--   monad State.M, where `none` is a fault: NULL or a freed node is read.
-- - src/commands/default_cmd.c: DefaultCmd. `commit`, `discard-changes`, `exit`, `show` and `no`.
--   They use Sysrepo, and the list of data trees that the state holds.
-- - src/commands/yang_core/y_utils.c: YUtils, by subject. Identity is the help text of an identityref
--   leaf, with the completions of src/commands/yang_core/data_cmd_compl.c; Predicate the predicate of
--   a list entry; RelativePath the path of a node from the nearest list above it; Mode the mode of a
--   node; CmdName the command of a root node; Search and Search/Parents the search for the command
--   that another one is registered under.
-- - src/commands/yang_core/data_factory.c: DataFactory. The edits of the candidate, for containers,
--   leaves and leaf-lists, and the lookup of a node in it; DataFactory.ListEdit has those for the
--   entries of lists. A result of libyang stands for the `int` that the edits return.
-- - src/commands/yang_core/data_validators.c: Validators. The checks of a value.
-- - src/commands/yang_core/cmd_leaf.c, cmd_container.c, cmd_list.c and cmd_choice.c: NodeCmd.Leaf,
--   NodeCmd.Container, NodeCmd.List and NodeCmd.Choice. The handlers of the commands that are made for
--   single nodes: they check their arguments and edit the candidate through DataFactory.
--   NodeCmd.PrintOrder prints the entries of a list with their indices.
-- - src/commands/yang_core/data_cmd_compl.c: DataCompl. The values that are offered for an argument.
-- - src/commands/yang_core/y_cmd_generator.c, with the registering functions of the files above: Register.
--   Register.Leaf, Register.Container, Register.Lists and Register.Generator have the functions that
--   register the commands of a node, Register.Place what they share, and Register.Start the commands
--   that src/onm_cli.c has registered at the start. They run in the monad Register.R over libcli, the
--   interface Register.Libcli; the calls that they make are kept as a list,
--   each with what it returned.
-- - src/commands/sysrepo_cmd.c: SysrepoCmd. The module path, and installing and removing a module.
--   SysrepoCmd.Modules lists the modules, and registers the commands of all of them.
-- - A user's commands one after the other are the step relation DataFactory.Session.
--
-- What the parts stand on. Base holds the shared names and C strings, as lists of bytes without their
-- NUL; Libc the `strtol` and `atoi` of the C library; Cli the results of a command; Schema the
-- compiled schema, in the fields that are read. libyang, sysrepo and libcli are not modelled:
-- Env.Env is an interface of their operations over a state of their own, and what is assumed of them
-- stands as named records of laws (Sysrepo.Commit.Documented, Sysrepo.Commit.IsReadable,
-- DefaultCmd.Leave.IsFreeing, DefaultCmd.Discard.IsFreeingAll, DataFactory.Roots.IsMaking,
-- YUtils.RelativePath.Laws.IsPath, Register.IsAnswering).
-- Sample and Sample.Rooted, with their laws, are small models of the libraries in which these laws
-- hold, for the witnesses; Register.Table is one of libcli.
--
-- Bounds. An `unsigned int` has 32 bits, an `unsigned long` 64, and a `char` is signed; their
-- arithmetic is written out with `%`. No definition needs fuel: loops run over lists, and the walks
-- upwards over the list of the ancestors of a node. The depth-first walk over a schema is structural
-- recursion on the tree of its nodes. The buffers of fixed size that lysc_path and
-- lyd_path write into are theirs: what they write is an operation of the interface.
--
-- Not modelled: what is only printed; the messages that the parts other than Logger log; the walk of
-- `unregister_commands_schema`, whose macro is given two different nodes, and which is a parameter; the
-- freeing of temporary texts; the terminal modes and the order of `main` in src/onm_main.c; and
-- lib/libcli, a copy of another project's library.
pub mod Base
pub mod Utils
pub mod Logger
pub mod Libc
pub mod Cli
pub mod Schema
pub mod Env
pub mod State
pub mod Sysrepo
pub mod Validators
pub mod YUtils
pub mod DataFactory
pub mod NodeCmd
pub mod DataCompl
pub mod Register
pub mod SysrepoCmd
pub mod DefaultCmd
pub mod Sample
