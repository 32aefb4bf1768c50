-- ===== src/Crypto/Envelope.antt =====
-- crypto/envelope.py: magic(3) | version(1) | nonce(12) | ciphertext(n) | tag(16).
use py_app_runner.Prelude.{
  ℕ, Option, none, some, [], ◌∷◌, ◌++◌, leb, ◌==◌, if◌then◌else◌, length, get_elem?, take, drop,
}
use py_app_runner.Prelude.Int.{ℤ, pos, negsuc, eq_ℤ}
use py_app_runner.Crypto.Values.{
  Bytes, envelope_short, magic_length, magic_differs, version_differs, nonce_length, version_range,
  key_length, wrong_key, Result, ok, and_then, or_raise, check, eq_list,
}

-- AES-GCM: a key, a nonce, a plaintext or body, and associated data.
pub record Cipher : Type 0 where
  pub seal : Bytes → Bytes → Bytes → Bytes → Bytes
  pub open_sealed : Bytes → Bytes → Bytes → Bytes → Option Bytes

abbrev pub magic_bytes : ℕ
magic_bytes = 3

abbrev pub nonce_bytes : ℕ
nonce_bytes = 12

abbrev pub tag_bytes : ℕ
tag_bytes = 16

abbrev pub min_envelope_bytes : ℕ
min_envelope_bytes = 32

pub record Envelope : Type 0 where
  pub magic : Bytes
  pub version : ℕ
  pub nonce : Bytes
  pub body : Bytes

-- blob[MAGIC_BYTES], which is there once the length is checked
unfoldable pub version_byte : Bytes → ℕ
version_byte blob = elim (get_elem? blob magic_bytes) [ none ↦ 0 | some b ↦ b ]

unfoldable pub sliced : Bytes → Envelope
unfolding version_byte
sliced blob = record {
  magic = take magic_bytes blob;
  version = version_byte blob;
  nonce = take nonce_bytes (drop 4 blob);
  body = drop 16 blob;
}

unfoldable pub parse : Bytes → Bytes → ℤ → Result Envelope
unfolding version_byte sliced
parse blob magic version = check (leb min_envelope_bytes (length blob)) envelope_short (
    check (length magic == magic_bytes) magic_length (
      check (eq_list (take magic_bytes blob) magic) magic_differs
        (check (eq_ℤ (pos (version_byte blob)) version) version_differs (ok (sliced blob)))))

unfoldable pub validate : Bytes → Bytes → ℤ → Result (Unit {0})
unfolding parse
validate blob magic version = and_then (parse blob magic version) (λ parsed. ok tt)

-- 0 <= version <= 255
unfoldable pub byte_of : ℤ → Option ℕ
byte_of (pos n) = if leb n 255 then some n else none
byte_of (negsuc n) = none

unfoldable pub pack : Bytes → Bytes → Bytes → ℤ → Result Bytes
unfolding byte_of
pack nonce body magic version = check (length nonce == nonce_bytes) nonce_length (
    check (length magic == magic_bytes) magic_length (
      and_then (or_raise version_range (byte_of version))
        (λ byte. ok (magic ++ byte ∷ nonce ++ body))))

-- `nonce` is what os.urandom gives.
unfoldable pub encrypt : Cipher → Bytes → Bytes → Bytes → Bytes → ℤ → Result Bytes
unfolding pack
encrypt c nonce key plaintext magic version =
    check (length key == 32) key_length (pack nonce (c.seal key nonce plaintext []) magic version)

unfoldable pub decrypt : Cipher → Bytes → Bytes → Bytes → ℤ → Result Bytes
unfolding parse
decrypt c key blob magic version = check (length key == 32) key_length (
    and_then (parse blob magic version)
      (λ parsed. or_raise wrong_key (c.open_sealed key parsed.nonce parsed.body [])))
