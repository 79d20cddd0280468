-- ===== src/Audit/Chain.antt =====
-- The chain of nodes of `operate_pass` in sql/utils/workflow_audit.py.
use mathlib.Core.List.{append_assoc}
use mathlib.Core.Path.{subst}
use dbshield.Common.{
  ℕ, suc, String, true, false, ◌≡◌, ◌≢◌, refl, sym, ap, ◌∙◌, some, List, [], ◌∷◌, ◌++◌, arith, ◌==◌,
  string_eq, eq_iff, same_refl, contains, index, or_false, length-append, length, get_elem?,
  split_comma, ok,
}
use native.Mathlib.Numerals.{add-one}
use dbshield.Const.{waiting, passed}
use dbshield.Models.{WorkflowAudit}
use dbshield.Audit.State.{World, save_audit, save_as, replace}
use dbshield.Audit.Lookup.{no_one}
use dbshield.Audit.Create.{second}
use dbshield.Audit.Operate.{next_of, advance}

-- The groups of the nodes are different from each other and from "-1".
abbrev pub Distinct : List String → Type 0
Distinct [] = Unit
Distinct (g ∷ gs) = (contains gs g ≡ false) × (g ≢ no_one) × Distinct gs

-- The audit waits at the node of the group `g`: `prior` are behind it and `rest` are to come.
pub record AtNode (prior : List String) (g : String) (rest : List String) (a : WorkflowAudit)
    : Type 0 where
  pub nodes : split_comma a.audit_auth_groups ≡ prior ++ g ∷ rest
  pub is_waiting : a.current_status ≡ waiting
  pub current : a.current_audit ≡ g
  pub next : a.next_audit ≡ second rest

beq_sym_false : (x y : String) → (x == y) ≡ false → (y == x) ≡ false
beq_sym_false x y h = ground (arith, eq_iff x y, eq_iff y x)

-- the position of a group that no earlier node has
index-append :
    (xs : List String) (h : String) (ys : List String)
    → contains xs h ≡ false
    → index (xs ++ h ∷ ys) h ≡ some (length xs)
index-append [] h ys e = rw (same_refl h)
index-append (x ∷ xs) h ys e =
    let (here, later) = or_false (x == h) (contains xs h) e in
    rw (here, index-append xs h ys later) refl

get_elem?-append :
    (xs : List String) (h : String) (ys : List String)
    → get_elem? (xs ++ h ∷ ys) (suc (length xs)) ≡ get_elem? ys 0
get_elem?-append [] h ys = refl
get_elem?-append (x ∷ xs) h ys = get_elem?-append xs h ys

next_of-append :
    (xs : List String) (h : String) (ys : List String)
    → next_of (xs ++ h ∷ ys) (some (length xs)) ≡ some (second ys)
unfolding next_of
next_of-append xs h [] = ground (arith, length-append xs (h ∷ []))
next_of-append xs h (y ∷ ys) =
    rw (add-one (length xs), get_elem?-append xs h (y ∷ ys))
      (ground (arith, length-append xs (h ∷ y ∷ ys)))

contains-append :
    (xs ys : List String) (h : String)
    → contains (xs ++ ys) h ≡ false
    → (contains xs h ≡ false) × (contains ys h ≡ false)
contains-append [] ys h e = (refl, e)
contains-append (x ∷ xs) ys h e =
    let (here, later) = or_false (x == h) (contains (xs ++ ys) h) e in
    let (p, q) = contains-append xs ys h later in (rw (here, p) refl, q)

-- in a list of distinct groups, no group stands before itself
Distinct-append :
    (xs : List String) (h : String) (ys : List String)
    → Distinct (xs ++ h ∷ ys)
    → (contains xs h ≡ false) × (h ≢ no_one)
Distinct-append [] h ys d = (refl, d.1)
Distinct-append (x ∷ xs) h ys d =
    let (p, q) = Distinct-append xs h ys d.2 in
    let (_, r) = contains-append xs (h ∷ ys) x d.0 in
    (rw (beq_sym_false h x (or_false (h == x) (contains ys x) r).0, p) refl, q)

-- the state after a save of a row that has its key
abbrev pub stored : WorkflowAudit → World → World
stored a s = record {
  db = record s.db { audits = replace a s.db.audits };
  self = record s.self { audit = some a };
}

pub save_audit-stored :
    (a : WorkflowAudit) (n : ℕ) (s : World)
    → a.audit_id ≡ some n
    → save_audit a s ≡ (ok tt, stored a s)
unfolding save_audit
save_audit-stored a n s e = ap (λ o. save_as o a s) e

abbrev pub ended : WorkflowAudit → WorkflowAudit
ended a = record a { current_audit = no_one; current_status = passed }

abbrev pub moved_to : String → List String → WorkflowAudit → WorkflowAudit
moved_to h rest a = record a {
  current_status = waiting;
  current_audit = h;
  next_audit = second rest;
}

-- at the last node the review ends
pub advance_last :
    (prior : List String) (g : String) (a : WorkflowAudit) (n : ℕ) (s : World)
    → AtNode prior g [] a
    → a.audit_id ≡ some n
    → advance a s ≡ (ok tt, stored (ended a) s)
unfolding advance
advance_last prior g a n s at e =
    let last : (a.next_audit == no_one) ≡ true = (eq_iff a.next_audit no_one).1 at.next in
    rw last (save_audit-stored (ended a) n s e)

pub regroup :
    (prior : List String) (g h : String) (rest : List String)
    → Distinct (prior ++ g ∷ h ∷ rest)
    → Distinct ((prior ++ g ∷ []) ++ h ∷ rest)
regroup prior g h rest d = subst Distinct (sym (append_assoc prior (g ∷ []) (h ∷ rest))) d

following :
    (xs : List String) (h : String) (ys gs : List String) (x : String)
    → gs ≡ xs ++ h ∷ ys
    → Distinct (xs ++ h ∷ ys)
    → x ≡ h
    → next_of gs (index gs x) ≡ some (second ys)
following xs h ys gs x p d q =
    rw (p, q, index-append xs h ys (Distinct-append xs h ys d).0) (next_of-append xs h ys)

not_last : (x h : String) → x ≡ h → h ≢ no_one → (x == no_one) ≡ false
not_last x h p q = ground (arith, eq_iff x no_one)

abbrev pub put : WorkflowAudit → World → World
put a s = record s { self = record s.self { audit = some a } }

-- at any other node it moves on to the next
pub advance_next :
    (prior : List String) (g h : String) (rest : List String) (a : WorkflowAudit) (n : ℕ)
    (s : World)
    → AtNode prior g (h ∷ rest) a
    → Distinct (prior ++ g ∷ h ∷ rest)
    → a.audit_id ≡ some n
    → advance a s ≡ (ok tt, stored (moved_to h rest a) s)
unfolding advance
advance_next prior g h rest a n s at d e =
    let more : (a.next_audit == no_one) ≡ false =
      not_last a.next_audit h at.next (Distinct-append _ h rest (regroup prior g h rest d)).1 in
    let key : next_of (split_comma a.audit_auth_groups)
          (index (split_comma a.audit_auth_groups) a.next_audit)
        ≡ some (second rest) =
      following (prior ++ g ∷ []) h rest (split_comma a.audit_auth_groups) a.next_audit
        (at.nodes ∙ sym (append_assoc prior (g ∷ []) (h ∷ rest))) (regroup prior g h rest d)
        at.next in
    rw (more, key)
      (save_audit-stored (moved_to a.next_audit rest a) n
        (put (record a { current_status = waiting; current_audit = a.next_audit }) s) e)
    ∙ ap (λ x. (ok tt, stored (moved_to x rest a) s)) at.next
