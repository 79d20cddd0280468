-- ===== src/SlowQuery/Collector.antt =====
-- `CursorManager` and `update_or_create_with_retry` of sql/collectors/base.py, and `collect_detail` of
-- sql/collectors/redis_collector.py.
use dbshield.Common.{
  ℕ, ◌+◌, ◌*◌, ◌-◌, String, Bool, true, false, Option, none, some, List, [], ◌∷◌, ◌++◌, ◌==◌,
  nat_eq, string_eq, ltb, zero, suc, if◌then◌else◌, join, Result, ok, err, Exc,
}
use dbshield.Common.Strings.{upper}

-- an entry of the slow log, its texts decoded; `client` is empty where no address is given, and a command
-- that comes as one text is left
pub record Entry : Type 0 where
  pub start_time : ℕ
  pub duration : ℕ
  pub command : List String
  pub client : String

pub record RedisSlowQueryDetail : Type 0 where
  pub sql_hash : String
  pub execution_start_time : ℕ
  pub host_address : String
  pub command_text : String
  pub duration : ℕ

-- The rows of one instance: its details, and its `SlowQueryCursor`, where `none` is a row that is missing
-- or that has no time. Times are in seconds.
pub record Store : Type 0 where
  pub details : List RedisSlowQueryDetail
  pub last_cursor : Option ℕ
  pub now : ℕ

-- what an `update_or_create` comes to: an `IntegrityError` or `OperationalError` is tried again
pub data Tried : Type 0 where
  stored : Tried
  conflict : Exc → Tried
  failed : Exc → Tried

-- the attempts from one on, three in all, by their outcomes
unfoldable pub attempts : ℕ → ℕ → (ℕ → Tried) → Result (Unit {0})
attempts zero attempt tries = ok tt
attempts (suc left) attempt tries =
    let rest = attempts left (attempt + 1) tries in
    elim (tries attempt) [
      | stored ↦ ok tt
      | conflict c ↦ if left == 0 then err c else rest
      | failed c ↦ err c
    ]

unfoldable pub update_or_create_with_retry : (ℕ → Tried) → Result (Unit {0})
update_or_create_with_retry tries = attempts 3 1 tries

pub record CursorManager : Type 0 where
  pub cursor : ℕ
  pub max_cursor : Option ℕ
  pub has_new_data : Bool

-- `get_cursor`
abbrev pub get_cursor : Option ℕ → ℕ → ℕ
get_cursor none now = now - 7 * 86400
get_cursor (some t) now = t

abbrev pub create_cursor_manager : Store → CursorManager
create_cursor_manager s = record {
  cursor = get_cursor s.last_cursor s.now;
  max_cursor = none;
  has_new_data = false;
}

abbrev pub is_new_data : ℕ → CursorManager → Bool
is_new_data t m = ltb m.cursor t

abbrev pub greater : ℕ → Option ℕ → ℕ
greater t none = t
greater t (some u) = if ltb u t then t else u

abbrev pub update_max_cursor : ℕ → CursorManager → CursorManager
update_max_cursor t m = record m { max_cursor = some (greater t m.max_cursor); has_new_data = true }

-- `commit`, where the row is written by an upsert that is tried again
abbrev pub store_cursor : Result (Unit {0}) → ℕ → Store → Store
store_cursor (ok u) t s = record s { last_cursor = some t }
store_cursor (err c) t s = s

abbrev pub commit_at : (ℕ → Tried) → Bool → Option ℕ → Store → Store
commit_at tries true (some t) s = store_cursor (update_or_create_with_retry tries) t s
commit_at tries true none s = s
commit_at tries false t s = s

unfoldable pub commit : (ℕ → Tried) → CursorManager → Store → Store
commit tries m s = commit_at tries m.has_new_data m.max_cursor s

-- `_normalize_command`
abbrev pub normalize_command : List String → String
normalize_command [] = ""
normalize_command (cmd ∷ []) = upper cmd
normalize_command (cmd ∷ key ∷ []) = join " " (upper cmd ∷ key ∷ [])
normalize_command (cmd ∷ key ∷ value ∷ parts) = join " " (upper cmd ∷ key ∷ "*" ∷ [])

-- `generate_hash`, with the digest of hashlib's MD5
abbrev pub generate_hash : (String → String) → String → String
generate_hash md5 text = if text == "" then "" else md5 text

-- the insert, which is not called without rows, and what follows it; `inserts` says whether it raises
abbrev pub insert_rows :
    Result (Unit {0}) → (ℕ → Tried) → List RedisSlowQueryDetail × CursorManager → Store → Store
insert_rows inserts tries ([], m) s = commit tries m s
insert_rows (ok u) tries (row ∷ rows, m) s =
    commit tries m (record s { details = s.details ++ row ∷ rows })
insert_rows (err c) tries (row ∷ rows, m) s = s

-- `address` is the address of the instance
module _ (md5 : String → String) (address : String) where
  abbrev pub redis_detail : Entry → RedisSlowQueryDetail
  redis_detail e = record {
    sql_hash = generate_hash md5 (normalize_command e.command);
    execution_start_time = e.start_time;
    host_address = if e.client == "" then address else e.client;
    command_text = join " " e.command;
    duration = e.duration;
  }

  -- the loop over the entries: the rows to insert, and the cursor that they leave
  unfoldable pub visit_entries :
      List Entry → CursorManager → List RedisSlowQueryDetail × CursorManager
  visit_entries [] m = ([], m)
  visit_entries (e ∷ es) m =
      let (rows, later) =
        visit_entries es
          (if is_new_data e.start_time m then update_max_cursor e.start_time m else m) in
      (if is_new_data e.start_time m then redis_detail e ∷ rows else rows, later)

  -- `collect_detail`: an exception is logged, and ends it
  unfoldable pub collect_detail :
      Result (List Entry) → Result (Unit {0}) → (ℕ → Tried) → Store → Store
  collect_detail (err c) inserts tries s = s
  collect_detail (ok []) inserts tries s = s
  collect_detail (ok (e ∷ es)) inserts tries s =
      insert_rows inserts tries (visit_entries (e ∷ es) (create_cursor_manager s)) s
