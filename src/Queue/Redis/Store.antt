-- ===== src/Queue/Redis/Store.antt =====
-- The keys of the Redis driver, and the commands that its scripts send.
use py_app_runner.Prelude.{
  ℕ, ◌+◌, String, Bool, not, ◌&&◌, ◌||◌, Option, none, some, List, [], ◌∷◌, ◌++◌, map, str_eq, ltb,
  ◌==◌, if◌then◌else◌, filter, any,
}
use py_app_runner.Prelude.Int.{ℤ, ltb_ℤ, eq_ℤ}

-- The hash {prefix}j:{id}. A text that stands for "none" is the empty one, as in the source.
pub record JobHash : Type 0 where
  pub queue : String
  pub name : String
  pub payload : String
  pub attempts : ℕ
  pub max_attempts : ℕ
  pub priority : ℤ
  pub unique_key : String
  pub available_at : ℕ
  pub reserved_until : ℕ
  pub reserved_by : String
  pub last_error : String
  pub error : String
  pub failed_at : String
  pub created_at : String
  pub entry : String

-- A member of {prefix}q:{queue}:delayed.
pub record Due : Type 0 where
  pub queue : String
  pub id : ℕ
  pub score : ℕ

-- An entry of the stream {prefix}q:{queue}:s:{level}, the `number`-th that was ever added. It is
-- pending for the group from the millisecond at which it was last delivered.
pub record Entry : Type 0 where
  pub number : ℕ
  pub queue : String
  pub level : ℤ
  pub job : ℕ
  pub delivered : Option ℕ

-- A member of {prefix}failed.
pub record Failed : Type 0 where
  pub id : ℕ
  pub score : ℕ

-- The hashes and the holders of the unique keys are functions of their keys. `entries` holds every
-- stream, each in the order of its entries, and `added` counts the entries ever added.
pub record Store : Type 0 where
  pub seq : ℕ
  pub jobs : ℕ → Option JobHash
  pub unique : String → Option ℕ
  pub delayed : List Due
  pub entries : List Entry
  pub added : ℕ
  pub levels : String → List ℤ
  pub queues : List String
  pub failed : List Failed

-- What the server decides: the text of an entry's id, the pending entry that XAUTOCLAIM hands over for
-- a least idle time at a millisecond, and the order of the members of a sorted set with one score.
pub record Redis : Type 0 where
  pub entry_id : ℕ → String
  pub autoclaim : ℕ → ℕ → List Entry → Option Entry
  pub member_before : ℕ → ℕ → Bool

-- HSET, DEL
unfoldable pub hset : ℕ → Option JobHash → Store → Store
hset id hash s = record s { jobs = λ k. if k == id then hash else s.jobs k }

-- SET, DEL
unfoldable pub set_unique : String → Option ℕ → Store → Store
set_unique key holder s = record s { unique = λ k. if str_eq k key then holder else s.unique k }

unfoldable pub is_due_for : String → ℕ → Due → Bool
is_due_for queue id d = str_eq d.queue queue && d.id == id

unfoldable pub due_before : Redis → Due → Due → Bool
due_before r d e = ltb d.score e.score || d.score == e.score && r.member_before d.id e.id

unfoldable pub insert_due : Redis → Due → List Due → List Due
insert_due r d [] = d ∷ []
insert_due r d (e ∷ es) =
    let rest = insert_due r d es in if due_before r d e then d ∷ e ∷ es else e ∷ rest

unfoldable pub zrem_delayed : String → ℕ → Store → Store
zrem_delayed queue id s = record s { delayed = filter (λ d. not (is_due_for queue id d)) s.delayed }

-- ZADD, which moves a member that is there
unfoldable pub zadd_delayed : Redis → String → ℕ → ℕ → Store → Store
unfolding zrem_delayed
zadd_delayed r queue score id s = record s {
  delayed =
      insert_due r (record { queue = queue; id = id; score = score })
        (zrem_delayed queue id s).delayed;
}

-- ZADD on the levels, which stand in the order of ZREVRANGE
unfoldable pub insert_level : ℤ → List ℤ → List ℤ
insert_level level [] = level ∷ []
insert_level level (other ∷ others) =
    let rest = insert_level level others in
    if eq_ℤ level other
    then other ∷ others
    else if ltb_ℤ other level
    then level ∷ other ∷ others
    else other ∷ rest

unfoldable pub zadd_level : String → ℤ → Store → Store
zadd_level queue level s = record s {
  levels = λ q. if str_eq q queue then insert_level level (s.levels q) else s.levels q;
}

unfoldable pub sadd_queue : String → Store → Store
sadd_queue queue s =
    if any (str_eq queue) s.queues then s else record s { queues = s.queues ++ queue ∷ [] }

unfoldable pub xadd : String → ℤ → ℕ → Store → Store
xadd queue level id s = record s {
  entries =
      s.entries
      ++ record { number = s.added; queue = queue; level = level; job = id; delivered = none } ∷ [];
  added = s.added + 1;
}

unfoldable pub in_stream : String → ℤ → Entry → Bool
in_stream queue level e = str_eq e.queue queue && eq_ℤ e.level level

-- XACK and XDEL, which every script sends together
unfoldable pub drop_entry : Redis → String → ℤ → String → Store → Store
unfolding in_stream
drop_entry r queue level entry s = record s {
  entries =
      filter (λ e. not (in_stream queue level e && str_eq (r.entry_id e.number) entry)) s.entries;
}

-- the entry delivered at a millisecond
unfoldable pub deliver : ℕ → ℕ → Store → Store
deliver ms number s = record s {
  entries = map (λ e. if e.number == number then record e { delivered = some ms } else e) s.entries;
}

unfoldable pub zrem_failed : ℕ → Store → Store
zrem_failed id s = record s { failed = filter (λ f. not (f.id == id)) s.failed }

unfoldable pub failed_before : Redis → Failed → Failed → Bool
failed_before r f g = ltb f.score g.score || f.score == g.score && r.member_before f.id g.id

unfoldable pub insert_failed : Redis → Failed → List Failed → List Failed
insert_failed r f [] = f ∷ []
insert_failed r f (g ∷ gs) =
    let rest = insert_failed r f gs in if failed_before r f g then f ∷ g ∷ gs else g ∷ rest

unfoldable pub zadd_failed : Redis → ℕ → ℕ → Store → Store
unfolding zrem_failed
zadd_failed r score id s = record s {
  failed = insert_failed r (record { id = id; score = score }) (zrem_failed id s).failed;
}

-- XADD of a ready job, with its entry in the hash and its level in the levels
unfoldable pub add_ready : Redis → String → ℕ → JobHash → Store → Store
unfolding xadd hset zadd_level
add_ready r queue id hash s =
    zadd_level queue hash.priority
      (hset id (some (record hash { entry = r.entry_id s.added })) (xadd queue hash.priority id s))
