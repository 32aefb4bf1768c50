-- ===== src/Crypto/Authentic.antt =====
-- What `decrypt` hands on without an error.
use py_app_runner.Prelude.{
  ◌+◌, ◌≡◌, refl, sym, ap, ◌∙◌, ◌⊎◌, inl, inr, true, false, not, ◌&&◌, Option, none, some, [], ◌∷◌,
  leb, Bool-cases, length, take, drop,
}
use py_app_runner.Crypto.Values.{
  foreign_format, Bytes, Text, Result, ok, raised, or_raise, starts_with, check-ok, or_raise-ok,
  and_then-ok, ok-inj, wrong_key, not_utf8, payload_not_base64, payload_truncated, malformed,
}
use py_app_runner.Crypto.Envelope.{nonce_bytes, tag_bytes}
use py_app_runner.Crypto.Fields.{
  Primitives, FieldCrypto, version_mark, foreign_mark, key, aad, cut, on_cut, split, is_encrypted,
  open_body, raw_payload, open_raw, on_parts, decrypt, is_empty, is_key_id,
}
use py_app_runner.Crypto.Opened.{pair}

-- The text was opened under the key that the value names.
pub record IsOpened (p : Primitives) (value text : Text) (f f' : FieldCrypto) : Type 0 where
  pub id : Text
  pub payload : Text
  pub raw : Bytes
  pub key_of_id : Bytes
  pub plain : Bytes
  pub parts : split value ≡ ok (some (id, payload))
  pub decoded : p.decode_base64 payload ≡ some raw
  pub found : key p id f ≡ (ok key_of_id, f')
  pub opened :
      p.cipher.open_sealed key_of_id (take nonce_bytes raw) (drop nonce_bytes raw) (aad id)
      ≡ some plain
  pub read : p.decode_utf8 plain ≡ some text

-- What decrypt may answer for a value.
abbrev pub IsAnswer : Primitives → Text → FieldCrypto → Option Text → FieldCrypto → Type 0
IsAnswer p value f r f' =
    ((r ≡ some value) × (is_encrypted (some value) ≡ false))
    ⊎ ((text : Text) × (r ≡ some text) × IsOpened p value text f f')

open_raw-IsAnswer :
    (p : Primitives) (value id payload : Text) (f f' : FieldCrypto) (r : Option Text)
    → split value ≡ ok (some (id, payload))
    → open_raw p id (raw_payload p payload) f ≡ (ok r, f')
    → IsAnswer p value f r f'
unfolding open_raw open_body raw_payload
open_raw-IsAnswer p value id payload f f' r parts h = of_raw (raw_payload p payload) refl h
  where
    of_raw :
        (x : Result Bytes)
        → raw_payload p payload ≡ x
        → open_raw p id x f ≡ (ok r, f')
        → IsAnswer p value f r f'
    of_raw (raised e) q h = absurd (cc (ap (λ y. y.0) h))
    of_raw (ok raw) q h =
        let (k, found, rest) =
          and_then-ok (key p id f).0 (open_body p id raw) r (ap (λ y. y.0) h) in
        let (plain, opened, rest') =
          and_then-ok
            (or_raise wrong_key
              (p.cipher.open_sealed k (take nonce_bytes raw) (drop nonce_bytes raw) (aad id)))
            _ r rest in
        let (text, read, last) = and_then-ok (or_raise not_utf8 (p.decode_utf8 plain)) _ r rest' in
        let (raw', decoded, checked) =
          and_then-ok (or_raise payload_not_base64 (p.decode_base64 payload)) _ raw q in
        let (_, same) =
          check-ok (leb (nonce_bytes + tag_bytes) (length raw')) payload_truncated (ok raw') raw
            checked in
        inr (
          text,
          sym (ok-inj last),
          record {
            id = id;
            payload = payload;
            raw = raw;
            key_of_id = k;
            plain = plain;
            parts = parts;
            decoded =
                or_raise-ok payload_not_base64 (p.decode_base64 payload) raw' decoded
                ∙ ap some (ok-inj same);
            found = pair (key p id f) found (ap (λ y. y.1) h);
            opened = or_raise-ok wrong_key _ plain opened;
            read = or_raise-ok not_utf8 (p.decode_utf8 plain) text read;
          },
        )

on_cut-some : (c : Option (Text × Text)) → on_cut c ≡ ok none → ⊥
unfolding on_cut
on_cut-some none h = cc h
on_cut-some (some (id, payload)) h =
    let (_, wrong) =
      check-ok (not (is_empty payload) && is_key_id id) malformed (ok (some (id, payload))) none
        h in
    cc (ok-inj wrong)

split-plain : (value : Text) → split value ≡ ok none → is_encrypted (some value) ≡ false
unfolding split is_encrypted
split-plain value h = elim (Bool-cases (starts_with version_mark value)) [
  | inl q ↦ absurd (on_cut-some (cut (drop 4 value)) (rw q at h))
  | inr q ↦ q
]

-- Where decrypt answers without an error for a value: either it handed the value on as it is, and then
-- the value does not carry the format; or the value splits into a key id and base64 of a nonce and a
-- body that the cipher opened under that key and that key id, and the answer is the text that was
-- sealed in it.
pub decrypt-IsAnswer :
    (p : Primitives) (value : Text) (f f' : FieldCrypto) (r : Option Text)
    → decrypt p (some value) f ≡ (ok r, f')
    → IsAnswer p value f r f'
unfolding decrypt on_parts
decrypt-IsAnswer p value f f' r h = elim (Bool-cases (is_empty value)) [
  | inl q ↦
      let handed : (ok (some value), f) ≡ (ok r, f') = rw q at h in
      inl (sym (ok-inj (ap (λ y. y.0) handed)), empty_plain value q)
  | inr q ↦ of_parts (split value) refl (rw q at h)
]
  where
    empty_plain : (v : Text) → is_empty v ≡ true → is_encrypted (some v) ≡ false
    empty_plain [] q = unfold is_encrypted in refl
    empty_plain (c ∷ cs) q = absurd (cc q)

    of_parts :
        (x : Result (Option (Text × Text)))
        → split value ≡ x
        → on_parts p value x f ≡ (ok r, f')
        → IsAnswer p value f r f'
    of_parts (raised e) parts h = absurd (cc (ap (λ y. y.0) h))
    of_parts (ok none) parts h = elim (Bool-cases (starts_with foreign_mark value)) [
      | inl q ↦
          let refused : (raised foreign_format, f) ≡ (ok r, f') = rw q at h in
          absurd (cc (ap (λ y. y.0) refused))
      | inr q ↦
          let handed : (ok (some value), f) ≡ (ok r, f') = rw q at h in
          inl (sym (ok-inj (ap (λ y. y.0) handed)), split-plain value parts)
    ]
    of_parts (ok (some (id, payload))) parts h = open_raw-IsAnswer p value id payload f f' r parts h
