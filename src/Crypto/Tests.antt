-- ===== src/Crypto/Tests.antt =====
-- Envelopes and fields under a toy cipher, and the theorems at them.
use py_app_runner.Prelude.{
  ◌-◌, ◌≤◌, ◌≡◌, refl, sym, ap, subst, ◌↔◌, true, false, none, some, [], ◌∷◌, ◌++◌, arith, length,
  take, length-append,
}
use py_app_runner.Prelude.Int.{pos}
use py_app_runner.Crypto.Values.{
  Bytes, Text, ok, raised, version_differs, check, unusable_key_id, take-append,
}
use py_app_runner.Crypto.Envelope.{
  Cipher, parse, sliced, version_byte, pack, byte_of, encrypt, decrypt,
}
use py_app_runner.Crypto.Framing.{IsCipher, parse_iff_pack, decrypt-encrypt}
use py_app_runner.Crypto.Fields.{
  Primitives, FieldCrypto, is_empty, is_key_id, is_key_char, before_newline, filled, material,
  read_key, or_read, cached_as, key, index_key, read_index_key, assert_key_id, current_key_id,
  chosen, sealed, under_key, aad, stored_value, encrypt as encrypt_field, decrypt as decrypt_field,
  cut, on_cut, split, is_encrypted, open_body, raw_payload, open_raw, on_parts,
}
use py_app_runner.Crypto.KeyCache.{IsFresh, key-IsFresh}
use py_app_runner.Crypto.Opened.{IsPrimitives, decrypt-encrypt_field}
use py_app_runner.Crypto.Authentic.{IsAnswer, decrypt-IsAnswer}

abbrev tag : Bytes
tag = 0 ∷ 0 ∷ 0 ∷ 0 ∷ 0 ∷ 0 ∷ 0 ∷ 0 ∷ 0 ∷ 0 ∷ 0 ∷ 0 ∷ 0 ∷ 0 ∷ 0 ∷ 0 ∷ []

-- a tag that is no tag
abbrev toy : Cipher
toy = record {
  seal = λ key nonce plaintext aad. plaintext ++ tag;
  open_sealed = λ key nonce body aad. some (take (length body - 16) body);
}

toy-IsCipher : IsCipher toy
toy-IsCipher = record {
  opens = λ key nonce plaintext aad. ap some (
      subst (λ n. take n (plaintext ++ tag) ≡ plaintext) (sym (untagged plaintext))
        (take-append plaintext tag));
  tagged = λ key nonce plaintext aad. length-append plaintext tag;
}
  where
    untagged : (plaintext : Bytes) → length (plaintext ++ tag) - 16 ≡ length plaintext
    untagged plaintext = omega (arith, length-append plaintext tag)

abbrev zeros : Bytes
zeros = 0 ∷ 0 ∷ 0 ∷ 0 ∷ 0 ∷ 0 ∷ 0 ∷ 0 ∷ 0 ∷ 0 ∷ 0 ∷ 0 ∷ []

abbrev cpe : Bytes
cpe = 67 ∷ 80 ∷ 69 ∷ []

abbrev long_key : Bytes
long_key = tag ++ tag

abbrev blob : Bytes
blob = cpe ++ 1 ∷ zeros ++ 7 ∷ tag

-- Everything that the tests run.
program : Unit {0}
unfolding parse sliced version_byte pack byte_of encrypt decrypt is_key_id is_key_char
    before_newline filled material read_key or_read cached_as key index_key read_index_key
    assert_key_id current_key_id chosen sealed under_key aad stored_value encrypt_field
    decrypt_field cut on_cut split is_encrypted open_body raw_payload open_raw on_parts
program = tt

pack-blob : pack zeros (7 ∷ tag) cpe (pos 1) ≡ ok blob
unfolding program
pack-blob = refl

parse_newer : parse blob cpe (pos 2) ≡ raised version_differs
unfolding program
parse_newer = refl

parse_iff_pack_example :
    (parse blob cpe (pos 1)
      ≡ ok (record { magic = cpe; version = 1; nonce = zeros; body = 7 ∷ tag }))
    ↔ ((pack zeros (7 ∷ tag) cpe (pos 1) ≡ ok blob) × (pos 1 ≡ pos 1) × (16 ≤ length (7 ∷ tag)))
parse_iff_pack_example = parse_iff_pack blob cpe (pos 1) 1 zeros (7 ∷ tag) (omega arith)

decrypt-encrypt_example : decrypt toy long_key blob cpe (pos 1) ≡ ok (7 ∷ [])
decrypt-encrypt_example =
    decrypt-encrypt toy zeros long_key (7 ∷ []) cpe (pos 1) blob toy-IsCipher
      (unfold program in refl)

-- Texts and bytes that are their own encoding.
abbrev plain_codecs : Primitives
plain_codecs = record {
  cipher = toy;
  encode_base64 = λ raw. raw;
  decode_base64 = λ text. some text;
  encode_utf8 = λ text. some text;
  decode_utf8 = λ raw. some raw;
  hmac = λ key raw. raw;
}

plain_codecs-IsPrimitives : IsPrimitives plain_codecs
plain_codecs-IsPrimitives = record {
  cipher = toy-IsCipher;
  base64 = λ raw. refl;
  base64_filled = filled_in;
  utf8 = λ t raw e. sym e;
}
  where
    filled_in : (raw : Bytes) → 1 ≤ length raw → is_empty raw ≡ false
    filled_in [] h = absurd (omega (arith, h))
    filled_in (x ∷ xs) h = refl

-- "k1", in the variable "K"
abbrev key_name : Text
key_name = 107 ∷ 49 ∷ []

abbrev fields : FieldCrypto
fields = record {
  key_id = key_name;
  keys = λ id. some (75 ∷ []);
  index_key_var = 75 ∷ [];
  resolver = λ variable. some long_key;
  cache = λ id. none;
}

-- "pa1:k1:" and the sealed text "hi"
abbrev stored_hi : Text
stored_hi = 112 ∷ 97 ∷ 49 ∷ 58 ∷ 107 ∷ 49 ∷ 58 ∷ zeros ++ 104 ∷ 105 ∷ tag

abbrev after_hi : FieldCrypto
unfolding program
after_hi = (encrypt_field plain_codecs zeros (104 ∷ 105 ∷ []) none fields).1

encrypt_hi :
    encrypt_field plain_codecs zeros (104 ∷ 105 ∷ []) none fields ≡ (ok stored_hi, after_hi)
unfolding program after_hi
encrypt_hi = refl

-- A newline at the end of a key id passes the pattern.
is_key_id-newline : is_key_id (107 ∷ 49 ∷ 10 ∷ []) ≡ true
unfolding program
is_key_id-newline = refl

fields-IsFresh : IsFresh plain_codecs fields
fields-IsFresh = record {
  of_keys = λ id k valid cached. absurd (cc cached);
  of_index = λ k cached. absurd (cc cached);
}

key-IsFresh_example :
    ((key plain_codecs key_name fields).0
      ≡ check (is_key_id key_name) unusable_key_id (read_key plain_codecs fields key_name))
    × IsFresh plain_codecs (key plain_codecs key_name fields).1
    × ((index_key plain_codecs fields).0 ≡ read_index_key plain_codecs fields)
    × IsFresh plain_codecs (index_key plain_codecs fields).1
key-IsFresh_example = key-IsFresh plain_codecs key_name fields fields-IsFresh

decrypt-encrypt_field_example :
    (is_encrypted (some stored_hi) ≡ true)
    × (decrypt_field plain_codecs (some stored_hi) after_hi
        ≡ (ok (some (104 ∷ 105 ∷ [])), after_hi))
decrypt-encrypt_field_example =
    decrypt-encrypt_field plain_codecs zeros (104 ∷ 105 ∷ []) none stored_hi fields after_hi
      plain_codecs-IsPrimitives refl encrypt_hi

decrypt_hi :
    decrypt_field plain_codecs (some stored_hi) fields ≡ (ok (some (104 ∷ 105 ∷ [])), after_hi)
unfolding program after_hi
decrypt_hi = refl

decrypt-IsAnswer_example : IsAnswer plain_codecs stored_hi fields (some (104 ∷ 105 ∷ [])) after_hi
decrypt-IsAnswer_example =
    decrypt-IsAnswer plain_codecs stored_hi fields after_hi (some (104 ∷ 105 ∷ [])) decrypt_hi
