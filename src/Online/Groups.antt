-- ===== src/Online/Groups.antt =====
-- `user_groups` of sql/utils/resource_group.py: the resource groups that count for a user.
use mathlib.Core.Path.{◌≡◌, refl, sym, ap, ◌∙◌}
use mathlib.Core.Logic.{◌⊎◌, ◌↔◌, inl, inr}
use dbshield.Common.{
  ℕ, Bool, true, false, not, ◌&&◌, ◌||◌, if◌then◌else◌, List, [], ◌∷◌, ◌==◌, nat_eq, arith,
  contains, keep, map, Bool-cases,
}
use dbshield.Common.Among.{Among, Among-keep, keep-Among}
use dbshield.Models.{Users, ResourceGroup}
use dbshield.Online.State.{Site, user_groups, group_ids}

-- `BelongsTo n u s`: the resource group with the number `n` is there and not deleted, and the user is
-- in it or is a superuser.
pub record BelongsTo (n : ℕ) (u : Users) (s : Site) : Type 0 where
  pub group : ResourceGroup
  pub there : Among group s.resource_groups
  pub number : group.group_id ≡ n
  pub in_use : group.is_deleted ≡ false
  pub for_user : (u.is_superuser ≡ true) ⊎ (contains u.resource_group group.group_id ≡ true)

true_last : (b : Bool) → (b || true) ≡ true
true_last true = refl
true_last false = refl

not-true : (b : Bool) → (not b ≡ true) ↔ (b ≡ false)
not-true b = ground arith

both_parts : (b c : Bool) → ((b && not c) ≡ true) ↔ ((b ≡ true) × (c ≡ false))
both_parts b c = ground arith

contains-map :
    (n : ℕ) (gs : List ResourceGroup)
    → contains (map (λ g. g.group_id) gs) n ≡ true
    → (g : ResourceGroup) × Among g gs × (g.group_id ≡ n)
contains-map n [] h = cc h
contains-map n (g ∷ gs) h = elim (Bool-cases (g.group_id == n)) [
  | inl e ↦ (g, inl refl, (nat_eq.same_iff g.group_id n).0 e)
  | inr e ↦
      let (x, m, k) =
        contains-map n gs (ap (λ b. b || contains (map (λ y. y.group_id) gs) n) (sym e) ∙ h) in
      (x, inr m, k)
]

map-contains :
    (n : ℕ) (g : ResourceGroup) (gs : List ResourceGroup)
    → Among g gs
    → g.group_id ≡ n
    → contains (map (λ y. y.group_id) gs) n ≡ true
map-contains n g [] m e = absurd m
map-contains n g (x ∷ gs) (inl same) e =
    let k =
      (nat_eq.same_iff x.group_id n).1 (ap (λ (y : ResourceGroup). y.group_id) (sym same) ∙ e) in
    ap (λ b. b || contains (map (λ y. y.group_id) gs) n) k
map-contains n g (x ∷ gs) (inr m) e =
    ap (λ b. (x.group_id == n) || b) (map-contains n g gs m e) ∙ true_last (x.group_id == n)

picked :
    (super : Bool) (u : Users) (g : ResourceGroup) (gs : List ResourceGroup)
    → Among g (
        if super
        then keep (λ x. not x.is_deleted) gs
        else keep (λ x. contains u.resource_group x.group_id && not x.is_deleted) gs)
    → Among g gs
      × (g.is_deleted ≡ false)
      × ((super ≡ true) ⊎ (contains u.resource_group g.group_id ≡ true))
picked true u g gs m =
    let (x, e) = Among-keep (λ x. not x.is_deleted) g gs m in
    (x, (not-true g.is_deleted).0 e, inl refl)
picked false u g gs m =
    let (x, e) =
      Among-keep (λ x. contains u.resource_group x.group_id && not x.is_deleted) g gs m in
    let (b, c) = (both_parts (contains u.resource_group g.group_id) g.is_deleted).0 e in
    (x, c, inr b)

counted :
    (super : Bool) (u : Users) (g : ResourceGroup) (gs : List ResourceGroup)
    → Among g gs
    → g.is_deleted ≡ false
    → (super ≡ true) ⊎ (contains u.resource_group g.group_id ≡ true)
    → Among g (
        if super
        then keep (λ x. not x.is_deleted) gs
        else keep (λ x. contains u.resource_group x.group_id && not x.is_deleted) gs)
counted true u g gs m d h = keep-Among (λ x. not x.is_deleted) g gs m ((not-true g.is_deleted).1 d)
counted false u g gs m d (inl e) = cc e
counted false u g gs m d (inr b) =
    keep-Among (λ x. contains u.resource_group x.group_id && not x.is_deleted) g gs m
      ((both_parts (contains u.resource_group g.group_id) g.is_deleted).1 (b, d))

-- the numbers of `user_groups` are those of the groups that count
pub group_ids-BelongsTo :
    (n : ℕ) (u : Users) (s : Site) → (contains (group_ids u s) n ≡ true) ↔ BelongsTo n u s
unfolding group_ids user_groups
group_ids-BelongsTo n u s = (
  (λ h.
      let (g, m, e) = contains-map n (user_groups u s) h in
      let (x, d, f) = picked u.is_superuser u g s.resource_groups m in
      record { group = g; there = x; number = e; in_use = d; for_user = f }),
  (λ b.
      map-contains n b.group (user_groups u s)
        (counted u.is_superuser u b.group s.resource_groups b.there b.in_use b.for_user) b.number),
)
