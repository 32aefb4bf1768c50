-- ===== src/Crypto/Opened.antt =====
-- What `encrypt` writes and `decrypt` opens.
use py_app_runner.Prelude.{
  ℕ, ◌≤◌, ◌≡◌, refl, ap, ◌∙◌, subst, inl, inr, true, false, ◌&&◌, Option, none, some, [], ◌∷◌, ◌++◌,
  arith, leb, ◌==◌, Bool-cases, &&_true, length, take, drop, length-append,
}
use py_app_runner.Crypto.Values.{
  unusable_key_id, ok-inj, Bytes, Text, Result, ok, raised, or_raise, eq_list_iff, or_raise-ok,
  and_then-ok, take-append, drop-append, not_utf8,
}
use py_app_runner.Crypto.Framing.{IsCipher}
use py_app_runner.Crypto.Fields.{
  Primitives, FieldCrypto, colon, is_key_id, is_key_char, all_key_chars, before_newline, read_key,
  cached_as, or_read, key, aad, stored_value, sealed, under_key, chosen, encrypt, cut, on_cut,
  split, is_encrypted, open_body, raw_payload, open_raw, on_parts, decrypt, is_empty,
}

-- What is asked of the libraries: each reads back what it wrote, and base64 writes something for bytes.
pub record IsPrimitives (p : Primitives) : Type 0 where
  pub cipher : IsCipher p.cipher
  pub base64 : (raw : Bytes) → p.decode_base64 (p.encode_base64 raw) ≡ some raw
  pub base64_filled : (raw : Bytes) → 1 ≤ length raw → is_empty (p.encode_base64 raw) ≡ false
  pub utf8 : (t : Text) (raw : Bytes) → p.encode_utf8 t ≡ some raw → p.decode_utf8 raw ≡ some t

no_colon : (c : ℕ) → is_key_char c ≡ true → (c == colon) ≡ false
unfolding is_key_char
no_colon c h = ground (arith, h)

cut_past :
    (c : ℕ) (cs id payload : Text)
    → (c == colon) ≡ false
    → cut cs ≡ some (id, payload)
    → cut (c ∷ cs) ≡ some (c ∷ id, payload)
unfolding cut
cut_past c cs id payload e h = rw (e, h) refl

-- A key id has no colon.
cut-key_id :
    (id payload : Text)
    → all_key_chars (before_newline id) ≡ true
    → cut (id ++ colon ∷ payload) ≡ some (id, payload)
unfolding before_newline
cut-key_id [] payload h = unfold cut in refl
cut-key_id (c ∷ []) payload h =
    let apart : (c == colon) ≡ false = elim (Bool-cases (c == 10)) [
      | inl q ↦ ground (arith, q)
      | inr q ↦
          let good : (is_key_char c && true) ≡ true = rw q at h in
          no_colon c (&&_true (is_key_char c) true good).0
    ] in
    cut_past c (colon ∷ payload) [] payload apart (unfold cut in refl)
cut-key_id (c ∷ d ∷ ds) payload h =
    let (good, rest) = &&_true (is_key_char c) (all_key_chars (before_newline (d ∷ ds))) h in
    cut_past c ((d ∷ ds) ++ colon ∷ payload) (d ∷ ds) payload (no_colon c good)
      (cut-key_id (d ∷ ds) payload rest)

split-stored_value :
    (id payload : Text)
    → is_key_id id ≡ true
    → is_empty payload ≡ false
    → split (stored_value id payload) ≡ ok (some (id, payload))
unfolding split stored_value on_cut
split-stored_value id payload valid filled =
    let chars : all_key_chars (before_newline id) ≡ true =
      unfold is_key_id in
      (&&_true (all_key_chars (before_newline id)) (leb 1 (length (before_newline id)))
        (&&_true (all_key_chars (before_newline id) && leb 1 (length (before_newline id)))
          (leb (length (before_newline id)) 16) valid).0).0 in
    rw (cut-key_id id payload chars, filled, valid) refl

cached_after :
    (id : Text) (o : Option Bytes) (fresh : Result Bytes) (f f' : FieldCrypto) (k : Bytes)
    → f.cache id ≡ o
    → or_read id o fresh f ≡ (ok k, f')
    → f'.cache id ≡ some k
unfolding or_read cached_as
cached_after id (some k0) fresh f f' k c h =
    let same : k0 ≡ k = cc in
    let still : f ≡ f' = ap (λ x. x.1) h in
    subst (λ (g : FieldCrypto). g.cache id ≡ some k) still (c ∙ ap some same)
cached_after id none (raised e) f f' k c h = absurd (cc h)
cached_after id none (ok k0) f f' k c h =
    let same : k0 ≡ k = cc in
    subst (λ (g : FieldCrypto). g.cache id ≡ some k) (ap (λ x. x.1) h)
      (rw ((eq_list_iff id id).1 refl) (ap some same))

-- The key that was answered is answered again.
key_again :
    (p : Primitives) (id : Text) (f f' : FieldCrypto) (k : Bytes)
    → key p id f ≡ (ok k, f')
    → (is_key_id id ≡ true) × (key p id f' ≡ (ok k, f'))
unfolding key
key_again p id f f' k h = elim (Bool-cases (is_key_id id)) [
  | inl q ↦
      let kept = cached_after id (f.cache id) (read_key p f id) f f' k refl (rw q at h) in
      (q, rw (q, kept) (unfold or_read in refl))
  | inr q ↦ let wrong : (raised unusable_key_id, f) ≡ (ok k, f') = rw q at h in absurd (cc wrong)
]

-- What encrypt answers ok for.
pub record IsSealed (p : Primitives) (nonce : Bytes) (plaintext value : Text) (f f' : FieldCrypto)
    : Type 0 where
  pub id : Text
  pub key_of_id : Bytes
  pub raw : Bytes
  pub found : key p id f ≡ (ok key_of_id, f')
  pub encoded : p.encode_utf8 plaintext ≡ some raw
  pub whole :
      stored_value id (p.encode_base64 (nonce ++ p.cipher.seal key_of_id nonce raw (aad id)))
      ≡ value

pub pair : {A : Type 0} {B : Type 0} (x : A × B) {a : A} {b : B} → x.0 ≡ a → x.1 ≡ b → x ≡ (a, b)
pair (u, v) p q = rw (p, q) refl

encrypt-IsSealed :
    (p : Primitives) (nonce : Bytes) (plaintext : Text) (key_id : Option Text) (value : Text)
    (f f' : FieldCrypto)
    → encrypt p nonce plaintext key_id f ≡ (ok value, f')
    → IsSealed p nonce plaintext value f f'
unfolding encrypt under_key sealed
encrypt-IsSealed p nonce plaintext key_id value f f' h = of_choice (chosen key_id f) h
  where
    of_choice :
        (c : Result Text)
        → under_key p nonce plaintext c f ≡ (ok value, f')
        → IsSealed p nonce plaintext value f f'
    of_choice (raised e) h = absurd (cc (ap (λ x. x.0) h))
    of_choice (ok id) h =
        let answer = ap (λ x. x.0) h in
        let (k, found, rest) =
          and_then-ok (key p id f).0 (sealed p nonce plaintext id) value answer in
        let (raw, encoded, whole) =
          and_then-ok (or_raise not_utf8 (p.encode_utf8 plaintext)) _ value rest in
        let after : (key p id f).1 ≡ f' = ap (λ x. x.1) h in
        record {
          id = id;
          key_of_id = k;
          raw = raw;
          found = pair (key p id f) found after;
          encoded = or_raise-ok not_utf8 (p.encode_utf8 plaintext) raw encoded;
          whole = ok-inj whole;
        }

-- The payload of a value that encrypt wrote, under its key.
opened_again :
    (p : Primitives) (nonce raw k : Bytes) (id plaintext : Text) (f' : FieldCrypto)
    → IsPrimitives p
    → length nonce ≡ 12
    → p.encode_utf8 plaintext ≡ some raw
    → key p id f' ≡ (ok k, f')
    → open_raw p id
        (raw_payload p (p.encode_base64 (nonce ++ p.cipher.seal k nonce raw (aad id))))
        f'
      ≡ (ok (some plaintext), f')
unfolding raw_payload open_raw open_body
opened_again p nonce raw k id plaintext f' law size encoded again =
    let body = p.cipher.seal k nonce raw (aad id) in
    let long : leb 28 (length (nonce ++ body)) ≡ true =
      ground (arith, size, length-append nonce body, law.cipher.tagged k nonce raw (aad id)) in
    let front : take 12 (nonce ++ body) ≡ nonce =
      subst (λ n. take n (nonce ++ body) ≡ nonce) size (take-append nonce body) in
    let back : drop 12 (nonce ++ body) ≡ body =
      subst (λ n. drop n (nonce ++ body) ≡ body) size (drop-append nonce body) in
    rw
      (
        law.base64 (nonce ++ body),
        long,
        again,
        front,
        back,
        law.cipher.opens k nonce raw (aad id),
        law.utf8 plaintext raw encoded,
      )
      refl

decrypt_parts :
    (p : Primitives) (value id payload : Text) (f : FieldCrypto)
    → is_empty value ≡ false
    → split value ≡ ok (some (id, payload))
    → decrypt p (some value) f ≡ open_raw p id (raw_payload p payload) f
unfolding decrypt on_parts
decrypt_parts p value id payload f filled parts = rw (filled, parts) refl

-- Where the libraries read back what they wrote and the nonce has its twelve bytes: what encrypt
-- answers, under the current key or a named one, carries the format, and decrypt opens it to the
-- plaintext with the keys as encrypt left them.
pub decrypt-encrypt_field :
    (p : Primitives) (nonce : Bytes) (plaintext : Text) (key_id : Option Text) (value : Text)
    (f f' : FieldCrypto)
    → IsPrimitives p
    → length nonce ≡ 12
    → encrypt p nonce plaintext key_id f ≡ (ok value, f')
    → (is_encrypted (some value) ≡ true) × (decrypt p (some value) f' ≡ (ok (some plaintext), f'))
decrypt-encrypt_field p nonce plaintext key_id value f f' law size h =
    let e = encrypt-IsSealed p nonce plaintext key_id value f f' h in
    let body = p.cipher.seal e.key_of_id nonce e.raw (aad e.id) in
    let payload = p.encode_base64 (nonce ++ body) in
    let (valid, again) = key_again p e.id f f' e.key_of_id e.found in
    let filled =
      law.base64_filled (nonce ++ body) (omega (arith, size, length-append nonce body)) in
    subst
      (λ v. (is_encrypted (some v) ≡ true) × (decrypt p (some v) f' ≡ (ok (some plaintext), f')))
      e.whole
      (
        marked e.id payload,
        decrypt_parts p (stored_value e.id payload) e.id payload f' (not_empty e.id payload)
              (split-stored_value e.id payload valid filled)
            ∙ opened_again p nonce e.raw e.key_of_id e.id plaintext f' law size e.encoded again,
      )
  where
    marked : (id payload : Text) → is_encrypted (some (stored_value id payload)) ≡ true
    marked id payload = unfold is_encrypted stored_value in refl

    not_empty : (id payload : Text) → is_empty (stored_value id payload) ≡ false
    not_empty id payload = unfold stored_value in refl
