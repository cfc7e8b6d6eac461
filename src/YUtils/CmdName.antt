-- ===== src/YUtils/CmdName.antt =====
-- y_utils.c: `get_model_org_prefix` and `get_root_ynode_cmd_name`, the command of a root node.
use onm_cli.Base.{
  ◌+◌, ◌≤◌, ◌≡◌, ◌≢◌, refl, Option, none, some, [], ◌∷◌, ◌++◌, arith, Str, All, codes, contains,
  length, length-append, ◌==◌, if◌then◌else◌,
}

-- `strtok(s, "-")` on a fresh text: behind the dashes at the front, up to the next dash.
unfoldable pub skip_dashes : Str → Str
skip_dashes [] = []
skip_dashes (c ∷ s) = let rest = skip_dashes s in if c == b'-' then rest else c ∷ s

unfoldable pub until_dash : Str → Str
until_dash [] = []
until_dash (c ∷ s) = let rest = until_dash s in if c == b'-' then [] else c ∷ rest

abbrev pub token_of : Str → Option Str
token_of [] = none
token_of (c ∷ s) = some (c ∷ s)

unfoldable pub get_model_org_prefix : Str → Option Str
unfolding skip_dashes until_dash
get_model_org_prefix module_name = token_of (until_dash (skip_dashes module_name))

abbrev pub with_prefix : Str → Option Str → Str
with_prefix name none = name
with_prefix name (some prefix) = (name ++ codes "-") ++ prefix

-- The text that is put together in `cmd_str[100]`.
unfoldable pub get_root_ynode_cmd_name : Str → Str → Str
unfolding get_model_org_prefix
get_root_ynode_cmd_name name module_name =
    if contains name (codes "lib")
    then (name ++ codes "-") ++ module_name
    else with_prefix name (get_model_org_prefix module_name)

skip_dashes-le : (s : Str) → length (skip_dashes s) ≤ length s
unfolding skip_dashes
skip_dashes-le [] = omega arith
skip_dashes-le (c ∷ s) = ground (arith, skip_dashes-le s)

until_dash-le : (s : Str) → length (until_dash s) ≤ length s
unfolding until_dash
until_dash-le [] = omega arith
until_dash-le (c ∷ s) = ground (arith, until_dash-le s)

length-joined : (name m : Str) → length ((name ++ codes "-") ++ m) ≡ length name + length m + 1
length-joined name m =
    omega (arith, length-append (name ++ codes "-") m, length-append name (codes "-"))

length-with_prefix :
    (name s : Str) → length (with_prefix name (token_of s)) ≤ length name + length s + 1
length-with_prefix name [] = omega arith
length-with_prefix name (c ∷ s) = omega (arith, length-joined name (c ∷ s))

-- The buffer of 100 bytes holds the command of a root node and its NUL, if the names of the node
-- and its module have 98 bytes together at most.
pub cmd_name-fits :
    (name module_name : Str)
    → length name + length module_name ≤ 98
    → length (get_root_ynode_cmd_name name module_name) + 1 ≤ 100
unfolding get_root_ynode_cmd_name
cmd_name-fits name module_name h = ground (
  arith,
  length-joined name module_name,
  length-with_prefix name (until_dash (skip_dashes module_name)),
  until_dash-le (skip_dashes module_name),
  skip_dashes-le module_name,
)

skip_dashes-token :
    (org rest : Str) → org ≢ [] → All (λ c. c ≢ b'-') org → skip_dashes (org ++ rest) ≡ org ++ rest
unfolding skip_dashes
skip_dashes-token [] rest ne h = absurd (ne refl)
skip_dashes-token (c ∷ org) rest ne (p, h) = ground arith

until_dash-token :
    (org rest : Str) → All (λ c. c ≢ b'-') org → until_dash (org ++ (b'-' ∷ rest)) ≡ org
unfolding until_dash
until_dash-token [] rest h = refl
until_dash-token (c ∷ org) rest (p, h) = ground (arith, until_dash-token org rest h)

token-eq : (org : Str) → org ≢ [] → token_of org ≡ some org
token-eq [] ne = absurd (ne refl)
token-eq (c ∷ org) ne = refl

-- For a module named after its organisation, `org-rest`, the command of a root node is its name
-- with the organisation behind it, and with the whole name of the module if `lib` stands in the
-- name of the node.
cmd_name-org :
    (name org rest : Str)
    → org ≢ []
    → All (λ c. c ≢ b'-') org
    → get_root_ynode_cmd_name name (org ++ (b'-' ∷ rest))
      ≡ (name ++ codes "-") ++ (if contains name (codes "lib") then org ++ (b'-' ∷ rest) else org)
unfolding get_root_ynode_cmd_name
cmd_name-org name org rest ne h =
    rw (skip_dashes-token org (b'-' ∷ rest) ne h, until_dash-token org rest h, token-eq org ne)
      (ground arith)
