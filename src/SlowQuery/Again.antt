-- ===== src/SlowQuery/Again.antt =====
-- `collect_detail` of sql/collectors/redis_collector.py: one slow log that is collected again.
use mathlib.Core.Path.{◌≡◌, refl, sym, ap, ◌∙◌, subst}
use mathlib.Core.Logic.{inl, inr}
use dbshield.Common.{
  ℕ, ◌≤◌, ◌<◌, arith, String, Bool, true, false, Bool-cases, Option, none, some, List, [], ◌∷◌,
  ◌++◌, ltb, Result, ok, err,
}
use dbshield.Common.Among.{Among, All, All-map}
use dbshield.SlowQuery.Collector.{
  Entry, RedisSlowQueryDetail, Store, Tried, CursorManager, get_cursor, create_cursor_manager,
  is_new_data, greater, update_max_cursor, store_cursor, commit_at, commit,
  update_or_create_with_retry, redis_detail, visit_entries, insert_rows, collect_detail,
}

-- every entry is from a time or before it
abbrev AllUntil : ℕ → List Entry → Type 0
AllUntil t es = All (λ e. e.start_time ≤ t) es

-- the highest time that counts
abbrev or_cursor : Option ℕ → ℕ → ℕ
or_cursor none cursor = cursor
or_cursor (some t) cursor = t

abbrev top : CursorManager → ℕ
top m = or_cursor m.max_cursor m.cursor

-- a maximum that is there is above the cursor, and says that there is new data
abbrev IsSound : ℕ → Bool → Option ℕ → Type 0
IsSound cursor fresh none = fresh ≡ false
IsSound cursor fresh (some t) = (fresh ≡ true) × (cursor < t)

abbrev Sound : CursorManager → Type 0
Sound m = IsSound m.cursor m.has_new_data m.max_cursor

update_max_cursor-Sound :
    (t : ℕ) (m : CursorManager) → Sound m → is_new_data t m ≡ true → Sound (update_max_cursor t m)
update_max_cursor-Sound t m h new = (refl, above m.cursor t m.max_cursor new)
  where
    above : (cursor t : ℕ) (max : Option ℕ) → ltb cursor t ≡ true → cursor < greater t max
    above cursor t none new = ground arith
    above cursor t (some u) new = ground arith

top-update_max_cursor :
    (t : ℕ) (m : CursorManager)
    → Sound m
    → is_new_data t m ≡ true
    → (t ≤ top (update_max_cursor t m)) × (top m ≤ top (update_max_cursor t m))
top-update_max_cursor t m h new = raised m.cursor t m.max_cursor new
  where
    raised :
        (cursor t : ℕ) (max : Option ℕ)
        → ltb cursor t ≡ true
        → (t ≤ greater t max) × (or_cursor max cursor ≤ greater t max)
    raised cursor t none new = ground arith
    raised cursor t (some u) new = ground arith

cursor-top : (m : CursorManager) → Sound m → m.cursor ≤ top m
cursor-top m h = below m.cursor m.has_new_data m.max_cursor h
  where
    below :
        (cursor : ℕ) (fresh : Bool) (max : Option ℕ)
        → IsSound cursor fresh max
        → cursor ≤ or_cursor max cursor
    below cursor fresh none h = ground arith
    below cursor fresh (some u) h = ground (arith, h)

-- the time of the row after a commit that is stored is the highest that counted
commit-cursor :
    (tries : ℕ → Tried) (m : CursorManager) (s : Store) (later : ℕ)
    → Sound m
    → m.cursor ≤ get_cursor s.last_cursor later
    → update_or_create_with_retry tries ≡ ok tt
    → top m ≤ get_cursor (commit tries m s).last_cursor later
unfolding commit
commit-cursor tries m s later h low done = go m.has_new_data m.max_cursor h
  where
    go :
        (fresh : Bool) (max : Option ℕ)
        → IsSound m.cursor fresh max
        → or_cursor max m.cursor ≤ get_cursor (commit_at tries fresh max s).last_cursor later
    go true none h = cc h
    go false none h = low
    go false (some u) (h, _) = cc h
    go true (some u) h = rw done (ground arith)

-- without new data nothing is stored
commit_nothing :
    (tries : ℕ → Tried) (m : CursorManager) (s : Store)
    → m.has_new_data ≡ false
    → commit tries m s ≡ s
unfolding commit
commit_nothing tries m s h = ap (λ fresh. commit_at tries fresh m.max_cursor s) h

-- a commit writes no details
commit-details :
    (tries : ℕ → Tried) (m : CursorManager) (s : Store) → (commit tries m s).details ≡ s.details
unfolding commit
commit-details tries m s = go m.has_new_data m.max_cursor
  where
    kept : (x : Result (Unit {0})) (t : ℕ) → (store_cursor x t s).details ≡ s.details
    kept (ok u) t = refl
    kept (err c) t = refl

    go : (fresh : Bool) (max : Option ℕ) → (commit_at tries fresh max s).details ≡ s.details
    go true none = refl
    go false max = refl
    go true (some t) = kept (update_or_create_with_retry tries) t

Among-append_right : {A : Type 0} (x : A) (xs ys : List A) → Among x ys → Among x (xs ++ ys)
Among-append_right x [] ys m = m
Among-append_right x (y ∷ xs) ys m = inr (Among-append_right x xs ys m)

-- a later hour does not set the default of a cursor back
get_cursor-le :
    (last : Option ℕ) (now later : ℕ) → now ≤ later → get_cursor last now ≤ get_cursor last later
get_cursor-le none now later h = omega (arith, h)
get_cursor-le (some t) now later h = ground arith

insert_rows-cursor :
    (tries : ℕ → Tried) (rows : List RedisSlowQueryDetail) (m : CursorManager) (s : Store)
    (later : ℕ)
    → Sound m
    → m.cursor ≤ get_cursor s.last_cursor later
    → update_or_create_with_retry tries ≡ ok tt
    → top m ≤ get_cursor (insert_rows (ok tt) tries (rows, m) s).last_cursor later
insert_rows-cursor tries [] m s later h low done = commit-cursor tries m s later h low done
insert_rows-cursor tries (row ∷ rows) m s later h low done =
    commit-cursor tries m (record s { details = s.details ++ row ∷ rows }) later h low done

module _ (md5 : String → String) (address : String) where
  -- entries that are not later than the cursor are passed over
  visit_old :
      (es : List Entry) (m : CursorManager)
      → AllUntil m.cursor es
      → visit_entries md5 address es m ≡ ([], m)
  unfolding visit_entries
  visit_old [] m a = refl
  visit_old (e ∷ es) m (h, a) =
      let old : is_new_data e.start_time m ≡ false = ground (arith, h) in rw old (visit_old es m a)

  -- what the loop leaves: all that it saw counts as old afterwards
  record Passed (es : List Entry) (m later : CursorManager) : Type 0 where
    cursor_same : later.cursor ≡ m.cursor
    is_sound : Sound later
    higher : top m ≤ top later
    old : AllUntil (top later) es

  visit_entries-Passed :
      (es : List Entry) (m : CursorManager)
      → Sound m
      → Passed es m (visit_entries md5 address es m).1
  unfolding visit_entries
  visit_entries-Passed [] m h = record {
    cursor_same = refl;
    is_sound = h;
    higher = ground arith;
    old = tt;
  }
  visit_entries-Passed (e ∷ es) m h =
      elim (Bool-cases (is_new_data e.start_time m))
        as (λ _. Passed (e ∷ es) m (visit_entries md5 address (e ∷ es) m).1) [
          | inl new ↦ rw new (
              let later = update_max_cursor e.start_time m in
              let q =
                visit_entries-Passed es later (update_max_cursor-Sound e.start_time m h new) in
              let (x, y) = top-update_max_cursor e.start_time m h new in
              record {
                cursor_same = q.cursor_same;
                is_sound = q.is_sound;
                higher = omega (arith, y, q.higher);
                old = (omega (arith, x, q.higher), q.old);
              })
          | inr seen ↦ rw seen (
              let q = visit_entries-Passed es m h in
              let x = cursor-top m h in
              record {
                cursor_same = q.cursor_same;
                is_sound = q.is_sound;
                higher = q.higher;
                old = (ground (arith, x, q.higher, seen), q.old);
              })
        ]

  -- an entry that is later than the cursor becomes a row
  visit_entries-Among :
      (x : Entry) (es : List Entry) (m : CursorManager)
      → Among x es
      → m.cursor < x.start_time
      → Among (redis_detail md5 address x) (visit_entries md5 address es m).0
  unfolding visit_entries
  visit_entries-Among x [] m among late = absurd among
  visit_entries-Among x (e ∷ es) m among late =
      elim (Bool-cases (is_new_data e.start_time m))
        as (λ _. Among (redis_detail md5 address x) (visit_entries md5 address (e ∷ es) m).0) [
          | inl new ↦ rw new (elim among [
            | inl same ↦ inl (ap (redis_detail md5 address) same)
            | inr more ↦ inr (visit_entries-Among x es (update_max_cursor e.start_time m) more late)
          ])
          | inr seen ↦ rw seen (elim among [
            | inl same ↦ absurd (ground (arith, ap (λ (y : Entry). y.start_time) same, late, seen))
            | inr more ↦ visit_entries-Among x es m more late
          ])
        ]

  -- what is inserted is in the rows
  insert_rows-Among :
      (tries : ℕ → Tried) (x : RedisSlowQueryDetail) (rows : List RedisSlowQueryDetail)
      (m : CursorManager) (s : Store)
      → Among x rows
      → Among x (insert_rows (ok tt) tries (rows, m) s).details
  insert_rows-Among tries x [] m s among = absurd among
  insert_rows-Among tries x (row ∷ rows) m s among =
      subst (Among x) (sym (commit-details tries m _))
        (Among-append_right x s.details (row ∷ rows) among)

  -- Where the rows of a slow log are inserted: every entry that is later than the cursor is among the details.
  collect_detail-Among :
      (log : List Entry) (tries : ℕ → Tried) (s : Store) (x : Entry)
      → Among x log
      → get_cursor s.last_cursor s.now < x.start_time
      → Among
          (redis_detail md5 address x)
          (collect_detail md5 address (ok log) (ok tt) tries s).details
  unfolding collect_detail
  collect_detail-Among [] tries s x among late = absurd among
  collect_detail-Among (e ∷ es) tries s x among late =
      let m = create_cursor_manager s in
      insert_rows-Among tries (redis_detail md5 address x) (visit_entries md5 address (e ∷ es) m).0
        (visit_entries md5 address (e ∷ es) m).1 s (visit_entries-Among x (e ∷ es) m among late)

  -- A slow log that was collected, with its rows inserted and its cursor stored, adds no row and leaves
  -- the cursor as it is when it is collected again at a later time, whatever the insert and the
  -- upsert would come to then.
  collect_detail_again :
      (log : List Entry) (tries tries_again : ℕ → Tried) (inserts : Result (Unit {0})) (s : Store)
      (later : ℕ)
      → update_or_create_with_retry tries ≡ ok tt
      → s.now ≤ later
      → (let t = record (collect_detail md5 address (ok log) (ok tt) tries s) { now = later } in
          collect_detail md5 address (ok log) inserts tries_again t ≡ t)
  unfolding collect_detail
  collect_detail_again [] tries tries_again inserts s later done h = refl
  collect_detail_again (e ∷ es) tries tries_again inserts s later done h =
      let log = e ∷ es in
      let m = create_cursor_manager s in
      let q = visit_entries-Passed log m refl in
      let first = collect_detail md5 address (ok log) (ok tt) tries s in
      let t = record first { now = later } in
      let reached =
        insert_rows-cursor tries (visit_entries md5 address log m).0
          (visit_entries md5 address log m).1 s later q.is_sound
          (subst (λ c. c ≤ get_cursor s.last_cursor later) (sym q.cursor_same)
            (get_cursor-le s.last_cursor s.now later h))
          done in
      let past : AllUntil (get_cursor t.last_cursor later) log =
        All-map (λ x b. omega (arith, b, reached)) log q.old in
      ap (λ x. insert_rows inserts tries_again x t) (visit_old log (create_cursor_manager t) past)
      ∙ commit_nothing tries_again (create_cursor_manager t) t refl

  -- Where a slow log is collected, its rows are inserted and its cursor is stored: every entry that is later
  -- than the cursor was is among the details, and when the same log is collected again at a later
  -- time, no row is added and the cursor stays, whatever the insert and the upsert would come to then.
  pub collect_detail_once :
      (log : List Entry) (tries tries_again : ℕ → Tried) (inserts : Result (Unit {0})) (s : Store)
      (later : ℕ)
      → update_or_create_with_retry tries ≡ ok tt
      → s.now ≤ later
      → (let t = record (collect_detail md5 address (ok log) (ok tt) tries s) { now = later } in
          ((x : Entry)
            → Among x log
            → get_cursor s.last_cursor s.now < x.start_time
            → Among (redis_detail md5 address x) t.details)
          × (collect_detail md5 address (ok log) inserts tries_again t ≡ t))
  collect_detail_once log tries tries_again inserts s later done h = (
    collect_detail-Among log tries s,
    collect_detail_again log tries tries_again inserts s later done h,
  )
