-- ===== src/Crypto/Values.antt =====
-- What the modules of crypto work on: bytes and texts as lists of numbers, and their errors.
use py_app_runner.Prelude.{
  ℕ, zero, suc, ◌+◌, ◌≤◌, ◌≡◌, refl, ap, ◌↔◌, Bool, true, false, ◌&&◌, Option, none, some, List, [],
  ◌∷◌, ◌++◌, arith, ◌==◌, ==_iff, &&_true, length, take, drop,
}

abbrev pub Bytes : Type 0
Bytes = List ℕ

-- the code points
abbrev pub Text : Type 0
Text = List ℕ

-- CryptoError, by where it is raised; and UnicodeDecodeError, which is none.
pub data CryptoError : Type 0 where
  envelope_short : CryptoError
  magic_length : CryptoError
  magic_differs : CryptoError
  version_differs : CryptoError
  nonce_length : CryptoError
  version_range : CryptoError
  key_length : CryptoError
  wrong_key : CryptoError
  no_current_key : CryptoError
  unusable_key_id : CryptoError
  key_not_listed : CryptoError
  variable_unset : CryptoError
  material_not_base64 : CryptoError
  material_length : CryptoError
  no_index_key : CryptoError
  foreign_format : CryptoError
  payload_not_base64 : CryptoError
  payload_truncated : CryptoError
  malformed : CryptoError
  not_utf8 : CryptoError

pub data Result {ℓ} (A : Type ℓ) : Type ℓ where
  ok : A → Result A
  raised : CryptoError → Result A

-- the rest of a body, where nothing was raised
abbrev pub and_then {ℓ κ} : {A : Type ℓ} {B : Type κ} → Result A → (A → Result B) → Result B
and_then (ok a) next = next a
and_then (raised e) next = raised e

abbrev pub or_raise {ℓ} : {A : Type ℓ} → CryptoError → Option A → Result A
or_raise error none = raised error
or_raise error (some a) = ok a

-- if not ...: raise
abbrev pub check {ℓ} : {A : Type ℓ} → Bool → CryptoError → Result A → Result A
check true error next = next
check false error next = raised error

abbrev pub eq_list : List ℕ → List ℕ → Bool
eq_list [] [] = true
eq_list [] (y ∷ ys) = false
eq_list (x ∷ xs) [] = false
eq_list (x ∷ xs) (y ∷ ys) = x == y && eq_list xs ys

abbrev pub starts_with : List ℕ → List ℕ → Bool
starts_with [] ys = true
starts_with (x ∷ xs) [] = false
starts_with (x ∷ xs) (y ∷ ys) = x == y && starts_with xs ys

pub ok-inj {ℓ} : {A : Type ℓ} {a b : A} → ok a ≡ ok b → a ≡ b
ok-inj h = cc

-- What an answer says of the steps before it.
pub check-ok {ℓ} :
    {A : Type ℓ} (b : Bool) (error : CryptoError) (next : Result A) (a : A)
    → check b error next ≡ ok a
    → (b ≡ true) × (next ≡ ok a)
check-ok true error next a h = (refl, h)
check-ok false error next a h = absurd (cc h)

pub or_raise-ok {ℓ} :
    {A : Type ℓ} (error : CryptoError) (o : Option A) (a : A) → or_raise error o ≡ ok a → o ≡ some a
or_raise-ok error none a h = absurd (cc h)
or_raise-ok error (some b) a h = let same : b ≡ a = cc in ap some same

pub and_then-ok {ℓ κ} :
    {A : Type ℓ} {B : Type κ} (m : Result A) (next : A → Result B) (b : B)
    → and_then m next ≡ ok b
    → (a : A) × (m ≡ ok a) × (next a ≡ ok b)
and_then-ok (ok a) next b h = (a, refl, h)
and_then-ok (raised e) next b h = absurd (cc h)

pub eq_list_iff : (xs ys : List ℕ) → (eq_list xs ys ≡ true) ↔ (xs ≡ ys)
eq_list_iff [] [] = ((λ e. refl), (λ e. refl))
eq_list_iff [] (y ∷ ys) = ((λ e. absurd (cc e)), (λ e. absurd (cc e)))
eq_list_iff (x ∷ xs) [] = ((λ e. absurd (cc e)), (λ e. absurd (cc e)))
eq_list_iff (x ∷ xs) (y ∷ ys) = (
  (λ e.
      let (h, t) = &&_true (x == y) (eq_list xs ys) e in
      let same : x ≡ y = (==_iff x y).0 h in
      let rest : xs ≡ ys = (eq_list_iff xs ys).0 t in rw (same, rest) refl),
  (λ e.
      let same : x ≡ y = cc in
      let rest : xs ≡ ys = cc in rw ((==_iff x y).1 same, (eq_list_iff xs ys).1 rest) refl),
)

pub starts_with-append : (xs ys : List ℕ) → starts_with xs (xs ++ ys) ≡ true
starts_with-append [] ys = refl
starts_with-append (x ∷ xs) ys = rw ((==_iff x x).1 refl, starts_with-append xs ys) refl

pub starts_with-drop : (xs ys : List ℕ) → starts_with xs ys ≡ true → xs ++ drop (length xs) ys ≡ ys
starts_with-drop [] ys h = refl
starts_with-drop (x ∷ xs) [] h = absurd (cc h)
starts_with-drop (x ∷ xs) (y ∷ ys) h =
    let (e, t) = &&_true (x == y) (starts_with xs ys) h in
    let same : x ≡ y = (==_iff x y).0 e in rw (same, starts_with-drop xs ys t) refl

module _ {A : Type 0} where
  pub take-append : (xs ys : List A) → take (length xs) (xs ++ ys) ≡ xs
  take-append [] ys = refl
  take-append (x ∷ xs) ys = rw (take-append xs ys) refl

  pub drop-append : (xs ys : List A) → drop (length xs) (xs ++ ys) ≡ ys
  drop-append [] ys = refl
  drop-append (x ∷ xs) ys = drop-append xs ys

  pub take-drop : (n : ℕ) (xs : List A) → take n xs ++ drop n xs ≡ xs
  take-drop zero xs = refl
  take-drop (suc n) [] = refl
  take-drop (suc n) (x ∷ xs) = rw (take-drop n xs) refl

  pub length-take : (n : ℕ) (xs : List A) → n ≤ length xs → length (take n xs) ≡ n
  length-take zero xs h = refl
  length-take (suc n) [] h = absurd (omega (arith, h))
  length-take (suc n) (x ∷ xs) h = ap suc (length-take n xs (omega (arith, h)))

  pub length-drop : (n : ℕ) (xs : List A) → n ≤ length xs → n + length (drop n xs) ≡ length xs
  length-drop zero xs h = omega arith
  length-drop (suc n) [] h = absurd (omega (arith, h))
  length-drop (suc n) (x ∷ xs) h = omega (arith, length-drop n xs (omega (arith, h)))
