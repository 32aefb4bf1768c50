-- ===== src/Queue/Pg/Tables.antt =====
-- The two tables, and the statements that the driver sends, each as a function on the rows.
use py_app_runner.Prelude.{
  ℕ, String, Bool, true, false, not, ◌&&◌, ◌||◌, Option, none, some, List, [], ◌∷◌, str_eq, ltb,
  leb, ◌==◌, if◌then◌else◌,
}
use py_app_runner.Prelude.Int.{ℤ, ltb_ℤ}

pub record Row : Type 0 where
  pub id : ℕ
  pub queue : String
  pub name : String
  pub payload : String
  pub attempts : ℕ
  pub max_attempts : ℕ
  pub priority : ℤ
  pub unique_key : Option String
  pub available_at : ℕ
  pub reserved_until : Option ℕ
  pub reserved_by : Option String
  pub last_error : String
  pub created_at : ℕ

pub record FailedRow : Type 0 where
  pub id : ℕ
  pub queue : String
  pub name : String
  pub payload : String
  pub attempts : ℕ
  pub error : String
  pub failed_at : ℕ

-- The next values of the two bigserial sequences stand beside the tables.
pub record Db : Type 0 where
  pub jobs : List Row
  pub failed : List FailedRow
  pub next_id : ℕ
  pub next_failed_id : ℕ

-- reserved_until IS NULL OR reserved_until <= moment
unfoldable pub claimable : ℕ → Row → Bool
claimable moment r = elim r.reserved_until [ none ↦ true | some until ↦ leb until moment ]

-- _OWNED: a NULL reserved_by equals nothing
unfoldable pub owned : String → ℕ → Row → Bool
owned worker attempts r = elim r.reserved_by [
  | none ↦ false
  | some by ↦ str_eq by worker && r.attempts == attempts
]

-- _EXHAUSTED
unfoldable pub exhausted : ℕ → Row → Bool
unfolding claimable
exhausted moment r = leb r.max_attempts r.attempts && claimable moment r

unfoldable pub has_key : String → Row → Bool
has_key key r = elim r.unique_key [ none ↦ false | some k ↦ str_eq k key ]

-- UPDATE … SET … WHERE
unfoldable pub update_where {ℓ} : {A : Type ℓ} → (A → Bool) → (A → A) → List A → List A
update_where p f [] = []
update_where p f (x ∷ xs) = (if p x then f x else x) ∷ update_where p f xs

-- The row that ORDER BY with LIMIT 1 keeps, for the order `before`.
unfoldable pub better {ℓ} : {A : Type ℓ} → (A → A → Bool) → A → Option A → Option A
better before x none = some x
better before x (some y) = if before y x then some y else some x

unfoldable pub first_by {ℓ} : {A : Type ℓ} → (A → A → Bool) → List A → Option A
unfolding better
first_by before [] = none
first_by before (x ∷ xs) = better before x (first_by before xs)

-- ORDER BY priority DESC, available_at, id
unfoldable pub precedes : Row → Row → Bool
precedes r s =
    ltb_ℤ s.priority r.priority
    || not (ltb_ℤ r.priority s.priority)
      && (ltb r.available_at s.available_at || r.available_at == s.available_at && ltb r.id s.id)
