-- ===== src/Audit/Nodes.antt =====
-- `get_review_info` of `AuditV2` in sql/utils/workflow_audit.py: how far a review is, node by node.
use dbshield.Common.{
  ℕ, String, Bool, true, false, not, ◌&&◌, ◌||◌, ◌≡◌, refl, ap, ◌∙◌, Option, none, some, List, [],
  ◌∷◌, ◌++◌, map, ◌==◌, nat_eq, split_comma, same_refl, int, ℤ, pos, negsuc, if◌then◌else◌, Exec,
  Result, ok, err, lift, reads, ◌>>=◌, attribute_error, value_error,
}
use dbshield.Common.Checks.{or_raise}
use dbshield.Const.{WorkflowStatus, waiting, status_eq}
use dbshield.Audit.Chain.{AtNode}
use dbshield.Audit.Progress.{Waits}
use dbshield.Models.{Group, WorkflowAudit}
use dbshield.Audit.State.{World, get_audit_info, group_at}

pub data ReviewNodeType : Type 0 where
  group_type auto_pass : ReviewNodeType

pub record ReviewNode : Type 0 where
  pub group : Option Group
  pub node_type : ReviewNodeType
  pub is_current_node : Bool
  pub is_passed_node : Bool

abbrev pub auto_node : ReviewNode
auto_node = record {
  group = none;
  node_type = auto_pass;
  is_current_node = false;
  is_passed_node = true;
}

abbrev pub group_node : Bool → Bool → Group → ReviewNode
group_node current passed g = record {
  group = some g;
  node_type = group_type;
  is_current_node = current;
  is_passed_node = passed;
}

abbrev same_int : ℤ → ℤ → Bool
same_int (pos m) (pos n) = m == n
same_int (negsuc m) (negsuc n) = m == n
same_int _ _ = false

-- the tests of the loop on a group that is there; `met`: the current node came before
abbrev mark : WorkflowStatus → Bool → Bool → Group → ReviewNode
mark status is_current met g =
    if not (status == waiting)
    then group_node false false g
    else if is_current
    then group_node true false g
    else if met
    then group_node false false g
    else group_node false true g

abbrev marked : WorkflowStatus → Bool → Bool → Result Group → Result ReviewNode
marked status is_current met (ok g) = ok (mark status is_current met g)
marked status is_current met (err c) = err c

-- an empty or dirty text stands for an automatic approval
unfoldable pub node_of : WorkflowStatus → ℤ → Bool → Option ℤ → World → Result ReviewNode
node_of status current met none s = ok auto_node
node_of status current met (some id) s =
    marked status (same_int current id) met (group_at s.db.groups id)

abbrev reaches : WorkflowStatus → ℤ → Option ℤ → Bool
reaches status current none = false
reaches status current (some id) = status == waiting && same_int current id

abbrev followed : Result ReviewNode → Result (List ReviewNode) → Result (List ReviewNode)
followed (ok n) (ok ns) = ok (n ∷ ns)
followed (ok n) (err c) = err c
followed (err c) _ = err c

unfoldable pub nodes_from :
    WorkflowStatus → ℤ → Bool → List String → World → Result (List ReviewNode)
nodes_from status current met [] s = ok []
nodes_from status current met (g ∷ gs) s =
    let later = nodes_from status current (met || reaches status current (int g)) gs s in
    followed (node_of status current met (int g) s) later

abbrev nodes_at : Option ℤ → WorkflowStatus → List String → World → Result (List ReviewNode)
nodes_at none status groups s = err value_error
nodes_at (some current) status groups s = nodes_from status current false groups s

abbrev nodes_of : WorkflowAudit → World → Result (List ReviewNode)
nodes_of a s = nodes_at (int a.current_audit) a.current_status (split_comma a.audit_auth_groups) s

unfoldable pub get_review_info : Exec World (List ReviewNode)
get_review_info = do
  found ← get_audit_info
  audit ← lift (or_raise found attribute_error)
  reads (nodes_of audit)

-- The texts are the ids of these groups.
abbrev pub Names : World → List String → List Group → Type 0
Names s [] [] = Unit
Names s (t ∷ ts) (g ∷ gs) =
    ((int t ≡ some (pos g.id)) × (group_at s.db.groups (pos g.id) ≡ ok g)) × Names s ts gs
Names s _ _ = ⊥

abbrev pub Others : ℕ → List Group → Type 0
Others n [] = Unit
Others n (g ∷ gs) = ((n == g.id) ≡ false) × Others n gs

step_to :
    (status : WorkflowStatus) (current : ℤ) (met later : Bool) (x : String) (xs : List String)
    (s : World) (o : Option ℤ) (n : ReviewNode) (ns : List ReviewNode)
    → int x ≡ o
    → node_of status current met o s ≡ ok n
    → (met || reaches status current o) ≡ later
    → nodes_from status current later xs s ≡ ok ns
    → nodes_from status current met (x ∷ xs) s ≡ ok (n ∷ ns)
unfolding nodes_from
step_to status current met later x xs s o n ns e f g h =
    ap
      (λ v.
        followed (node_of status current met v s)
          (nodes_from status current (met || reaches status current v) xs s))
      e
    ∙ ap (λ r. followed r (nodes_from status current (met || reaches status current o) xs s)) f
    ∙ ap (λ b. followed (ok n) (nodes_from status current b xs s)) g
    ∙ ap (followed (ok n)) h

by_met :
    (met : Bool) (g : Group) → ok (mark waiting false met g) ≡ ok (group_node false (not met) g)
by_met true g = refl
by_met false g = refl

node_other :
    (c : ℕ) (met : Bool) (g : Group) (s : World)
    → group_at s.db.groups (pos g.id) ≡ ok g
    → (c == g.id) ≡ false
    → node_of waiting (pos c) met (some (pos g.id)) s ≡ ok (group_node false (not met) g)
unfolding node_of
node_other c met g s f q =
    ap (marked waiting (c == g.id) met) f ∙ ap (λ b. ok (mark waiting b met g)) q ∙ by_met met g

after_current :
    (c : ℕ) (ts : List String) (gs : List Group) (s : World)
    → Names s ts gs
    → Others c gs
    → nodes_from waiting (pos c) true ts s ≡ ok (map (group_node false false) gs)
unfolding nodes_from
after_current c [] [] s h o = refl
after_current c [] (g ∷ gs) s h o = absurd h
after_current c (t ∷ ts) [] s h o = absurd h
after_current c (t ∷ ts) (g ∷ gs) s ((e, f), h) (q, o) =
    step_to waiting (pos c) true true t ts s (some (pos g.id)) _ _ e (node_other c true g s f q)
      refl (after_current c ts gs s h o)

node_current :
    (c : Group) (s : World)
    → group_at s.db.groups (pos c.id) ≡ ok c
    → node_of waiting (pos c.id) false (some (pos c.id)) s ≡ ok (group_node true false c)
unfolding node_of
node_current c s f =
    ap (marked waiting (c.id == c.id) false) f
    ∙ ap (λ b. ok (mark waiting b false c)) (same_refl c.id)

-- the nodes of a review that waits at the group c
nodes_from_waiting :
    (prior : List String) (t : String) (rest : List String) (ps : List Group) (c : Group)
    (rs : List Group) (s : World)
    → Names s prior ps
    → Names s (t ∷ []) (c ∷ [])
    → Names s rest rs
    → Others c.id ps
    → Others c.id rs
    → nodes_from waiting (pos c.id) false (prior ++ t ∷ rest) s
      ≡ ok (
          map (group_node false true) ps
          ++ group_node true false c ∷ map (group_node false false) rs)
nodes_from_waiting [] t rest [] c rs s h ((e, f), _) k o p =
    step_to waiting (pos c.id) false true t rest s (some (pos c.id)) _ _ e (node_current c s f)
      (same_refl c.id) (after_current c.id rest rs s k p)
nodes_from_waiting [] t rest (g ∷ ps) c rs s h i k o p = absurd h
nodes_from_waiting (x ∷ prior) t rest [] c rs s h i k o p = absurd h
nodes_from_waiting (x ∷ prior) t rest (g ∷ ps) c rs s ((e, f), h) i k (q, o) p =
    step_to waiting (pos c.id) false false x (prior ++ t ∷ rest) s (some (pos g.id)) _ _ e
      (node_other c.id false g s f q) q (nodes_from_waiting prior t rest ps c rs s h i k o p)

held_info :
    (a : WorkflowAudit) (s : World) → s.self.audit ≡ some a → get_review_info s ≡ (nodes_of a s, s)
unfolding get_review_info get_audit_info
held_info a s e = rw e refl

nodes_of_waiting :
    (prior : List String) (t : String) (rest : List String) (a : WorkflowAudit) (n : ℕ) (s : World)
    → AtNode prior t rest a
    → int t ≡ some (pos n)
    → nodes_of a s ≡ nodes_from waiting (pos n) false (prior ++ t ∷ rest) s
nodes_of_waiting prior t rest a n s at e =
    ap (λ o. nodes_at o a.current_status (split_comma a.audit_auth_groups) s)
      (ap int at.current ∙ e)
    ∙ ap (λ st. nodes_at (some (pos n)) st (split_comma a.audit_auth_groups) s) at.is_waiting
    ∙ ap (λ gs. nodes_at (some (pos n)) waiting gs s) at.nodes

-- A saved review waits at the node of the group c; the groups ps of the nodes before it and rs of those
-- after it are there, and c is not among them: the nodes of ps are shown as passed, that of c as the
-- current one, those of rs as neither, and nothing changes.
pub get_review_info_waiting :
    (prior : List String) (t : String) (rest : List String) (ps : List Group) (c : Group)
    (rs : List Group) (s : World)
    → Waits prior t rest s
    → Names s prior ps
    → Names s (t ∷ []) (c ∷ [])
    → Names s rest rs
    → Others c.id ps
    → Others c.id rs
    → get_review_info s ≡ (
      ok (
          map (group_node false true) ps
          ++ group_node true false c ∷ map (group_node false false) rs),
      s,
    )
get_review_info_waiting prior t rest ps c rs s w h i k o p =
    held_info w.row s w.held
    ∙ ap (λ r. (r, s))
        (nodes_of_waiting prior t rest w.row c.id s w.at i.0.0
          ∙ nodes_from_waiting prior t rest ps c rs s h i k o p)
