-- ===== src/Crypto/KeyCache.antt =====
-- The cache of `_key` and `_index_key` against reading the key anew.
use py_app_runner.Prelude.{
  ◌≡◌, refl, sym, ap, ◌∙◌, subst, inl, inr, true, false, Option, none, some, Bool-cases,
}
use py_app_runner.Crypto.Values.{
  Bytes, Text, unusable_key_id, Result, ok, raised, check, eq_list, eq_list_iff,
}
use py_app_runner.Crypto.Fields.{
  Primitives, FieldCrypto, index_cache_id, is_key_id, is_key_char, before_newline, material,
  read_key, cached_as, or_read, key, read_index_key, index_key,
}

-- What the cache holds is what a fresh read gives.
pub record IsFresh (p : Primitives) (f : FieldCrypto) : Type 0 where
  pub of_keys :
      (id : Text) (k : Bytes) → is_key_id id ≡ true → f.cache id ≡ some k → read_key p f id ≡ ok k
  pub of_index : (k : Bytes) → f.cache index_cache_id ≡ some k → read_index_key p f ≡ ok k

index_is_no_key_id : is_key_id index_cache_id ≡ false
unfolding is_key_id is_key_char before_newline
index_is_no_key_id = refl

-- The same answer as a fresh read, and a cache that is still right.
abbrev IsRead : Primitives → Result Bytes → Result Bytes × FieldCrypto → Type 0
IsRead p fresh (answer, f') = (answer ≡ fresh) × IsFresh p f'

cached_as-IsRead :
    (p : Primitives) (id : Text) (fresh : Result Bytes) (f : FieldCrypto)
    → is_key_id id ≡ true
    → read_key p f id ≡ fresh
    → IsFresh p f
    → IsRead p fresh (cached_as id fresh f)
unfolding cached_as read_key read_index_key material
cached_as-IsRead p id (raised e) f valid read h = (refl, h)
cached_as-IsRead p id (ok k) f valid read h = (
  refl,
  record {
    of_keys = λ j k' valid' cached. elim (Bool-cases (eq_list j id)) [
      | inl q ↦
          let here : some k ≡ some k' = rw q at cached in
          let same : k ≡ k' = cc in
          subst (λ t. read_key p f t ≡ ok k') (sym ((eq_list_iff j id).0 q)) (read ∙ ap ok same)
      | inr q ↦ h.of_keys j k' valid' (rw q at cached)
    ];
    of_index = λ k' cached. elim (Bool-cases (eq_list index_cache_id id)) [
      | inl q ↦
          let same = (eq_list_iff index_cache_id id).0 q in
          absurd (cc (subst (λ t. is_key_id t ≡ true) (sym same) valid, index_is_no_key_id))
      | inr q ↦ h.of_index k' (rw q at cached)
    ];
  },
)

index-IsRead :
    (p : Primitives) (fresh : Result Bytes) (f : FieldCrypto)
    → read_index_key p f ≡ fresh
    → IsFresh p f
    → IsRead p fresh (cached_as index_cache_id fresh f)
unfolding cached_as read_key read_index_key material
index-IsRead p (raised e) f read h = (refl, h)
index-IsRead p (ok k) f read h = (
  refl,
  record {
    of_keys = λ j k' valid cached. elim (Bool-cases (eq_list j index_cache_id)) [
      | inl q ↦
          let same = (eq_list_iff j index_cache_id).0 q in
          absurd (cc (subst (λ t. is_key_id t ≡ true) same valid, index_is_no_key_id))
      | inr q ↦ h.of_keys j k' valid (rw q at cached)
    ];
    of_index = λ k' cached. let same : k ≡ k' = cc in read ∙ ap ok same;
  },
)

or_read-IsRead :
    (p : Primitives) (id : Text) (o : Option Bytes) (fresh : Result Bytes) (f : FieldCrypto)
    → ((k : Bytes) → o ≡ some k → fresh ≡ ok k)
    → IsFresh p f
    → IsRead p fresh (cached_as id fresh f)
    → IsRead p fresh (or_read id o fresh f)
unfolding or_read
or_read-IsRead p id none fresh f right h r = r
or_read-IsRead p id (some k) fresh f right h r = (sym (right k refl), h)

-- Where the cache holds only what a fresh read gives, _key answers what it would without the cache, for
-- every id, the errors included, _index_key does too, and the cache is still right afterwards.
pub key-IsFresh :
    (p : Primitives) (id : Text) (f : FieldCrypto)
    → IsFresh p f
    → ((key p id f).0 ≡ check (is_key_id id) unusable_key_id (read_key p f id))
      × IsFresh p (key p id f).1
      × ((index_key p f).0 ≡ read_index_key p f)
      × IsFresh p (index_key p f).1
unfolding key index_key
key-IsFresh p id f h =
    let (i, h') =
      or_read-IsRead p index_cache_id (f.cache index_cache_id) (read_index_key p f) f
        (λ k cached. h.of_index k cached) h (index-IsRead p (read_index_key p f) f refl h) in
    elim (Bool-cases (is_key_id id)) [
      | inl q ↦
          let (k, h'') =
            or_read-IsRead p id (f.cache id) (read_key p f id) f
              (λ k cached. h.of_keys id k q cached) h
              (cached_as-IsRead p id (read_key p f id) f q refl h) in
          rw q (k, h'', i, h')
      | inr q ↦ rw q (refl, h, i, h')
    ]
