-- ===== src/Audit/Readable.antt =====
-- The text of a review's nodes and who reviews now: `ReviewInfo` of sql/utils/workflow_audit.py and
-- `get_current_reviewers` of sql/utils/resource_group.py.
use dbshield.Common.{
  ℕ, String, Bool, true, false, not, ◌&&◌, Option, none, some, List, [], ◌∷◌, ◌==◌, string_eq,
  nat_eq, ◌⧺◌, join, if◌then◌else◌, any, contains,
}
use dbshield.Models.{Group, Users}
use dbshield.Audit.State.{World}
use dbshield.Audit.Nodes.{ReviewNode, group_type, auto_pass}

unfoldable pub is_auto_pass : ReviewNode → Bool
is_auto_pass n = elim n.node_type [ group_type ↦ false | auto_pass ↦ true ]

abbrev step_name : Bool → Bool → Option Group → String
step_name current passed none = "系统自动通过"
step_name true passed (some g) = g.name ⧺ "(current)"
step_name false true (some g) = g.name ⧺ "(passed)"
step_name false false (some g) = g.name

unfoldable pub steps : List ReviewNode → List String
steps [] = []
steps (n ∷ ns) = step_name n.is_current_node n.is_passed_node n.group ∷ steps ns

abbrev joined : List String → String
joined [] = "系统自动通过"
joined (x ∷ xs) = join " -> " (x ∷ xs)

unfoldable pub readable_info : List ReviewNode → String
readable_info nodes = joined (steps nodes)

-- `current_node`, before `readable_info` has kept an index
unfoldable pub current_node : List ReviewNode → Option ReviewNode
current_node [] = none
current_node (n ∷ ns) = let rest = current_node ns in if n.is_current_node then some n else rest

abbrev id_of_current : Bool → Option Group → List ℕ → List ℕ
id_of_current true (some g) ids = g.id ∷ ids
id_of_current _ _ ids = ids

unfoldable pub current_ids : List ReviewNode → List ℕ
current_ids [] = []
current_ids (n ∷ ns) = id_of_current n.is_current_node n.group (current_ids ns)

-- a group of the user that is not deleted and has the name
abbrev in_resource_group : Users → String → World → Bool
in_resource_group u name s =
    any (λ g. contains u.resource_group g.group_id && (not g.is_deleted && g.group_name == name))
      s.db.resource_groups

abbrev display_or_username : Users → String
display_or_username u = if u.display == "" then u.username else u.display

unfoldable pub reviewers : List ℕ → String → World → List Users → List (String × String)
reviewers ids name s [] = []
reviewers ids name s (u ∷ us) =
    let rest = reviewers ids name s us in
    if (u.is_active && any (λ g. contains ids g.id) u.groups) && in_resource_group u name s
    then (u.username, display_or_username u) ∷ rest
    else rest

unfoldable pub get_current_reviewers : List ReviewNode → String → World → List (String × String)
get_current_reviewers nodes name s = reviewers (current_ids nodes) name s s.db.users
