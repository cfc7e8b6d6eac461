-- ===== src/Schema.antt =====
-- The compiled schema of libyang, in the fields that src/commands/yang_core reads.
use onm_cli.Base.{ℕ, Bool, Option, List, Str}

-- `nodetype`: the kinds that the sources name, and the rest.
pub data NodeType : Type 0 where
  container choice leaf leaf_list list case other : NodeType

-- `type->basetype`
pub data BaseType : Type 0 where
  uint8 uint16 uint32 uint64 int8 int16 int32 int64 : BaseType
  identityref enumeration boolean string leafref unsupported : BaseType

-- One part of a `lysc_range`: the bounds as 64-bit patterns.
pub record Part : Type 0 where
  pub min_u64 : ℕ
  pub max_u64 : ℕ

-- `range->parts`, which holds one part at least.
pub record Range : Type 0 where
  pub first : Part
  pub more : List Part

-- An array of `lysc_ident *`, each with its own `derived` array: first child and next entry.
pub data Idents : Type 0 where
  nil : Idents
  ident : (module_name name : Str) (derived next : Idents) → Idents

pub record LeafType : Type 0 where
  pub basetype : BaseType
  pub range : Option Range
  pub bases : Idents
  pub enums : List Str

-- A `lysc_node`. The address tells nodes apart; a node that is no leaf or leaf-list has no type.
pub record Info : Type 0 where
  pub addr : ℕ
  pub name : Str
  pub module_name : Str
  pub nodetype : NodeType
  pub config_r : Bool
  pub is_key : Bool
  pub user_ordered : Bool
  pub dsc : Option Str
  pub ytype : Option LeafType

-- A node with the list of its children, as `lysc_node_child` gives it.
pub record Parent : Type 0 where
  pub info : Info
  pub children : List Info

-- A list of nodes linked by `next`: the first with its children, as `lysc_node_child` gives them,
-- and the `next` ones. The children of a choice are its cases.
pub data Nodes : Type 0 where
  end : Nodes
  node : (info : Info) (children next : Nodes) → Nodes
