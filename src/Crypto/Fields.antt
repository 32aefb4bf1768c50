-- ===== src/Crypto/Fields.antt =====
-- crypto/fields.py: FieldCrypto, and the format `pa1:<key_id>:<base64>` of its values.
use py_app_runner.Prelude.{
  ℕ, ◌+◌, Bool, true, false, not, ◌&&◌, ◌||◌, Option, none, some, [], ◌∷◌, ◌++◌, leb, ◌==◌,
  if◌then◌else◌, length, take, drop,
}
use py_app_runner.Crypto.Values.{
  Bytes, Text, CryptoError, wrong_key, no_current_key, unusable_key_id, key_not_listed,
  variable_unset, material_not_base64, material_length, no_index_key, foreign_format,
  payload_not_base64, payload_truncated, malformed, not_utf8, Result, ok, raised, and_then,
  or_raise, check, eq_list, starts_with,
}
use py_app_runner.Crypto.Envelope.{Cipher, nonce_bytes, tag_bytes}

-- base64, UTF-8, AES-GCM and HMAC-SHA256 in hexadecimal.
pub record Primitives : Type 0 where
  pub cipher : Cipher
  pub encode_base64 : Bytes → Text
  pub decode_base64 : Text → Option Bytes
  pub encode_utf8 : Text → Option Bytes
  pub decode_utf8 : Bytes → Option Text
  pub hmac : Bytes → Bytes → Text

-- `keys` names the environment variable of a key id, and `resolver` reads a variable.
pub record FieldCrypto : Type 0 where
  pub key_id : Text
  pub keys : Text → Option Text
  pub index_key_var : Text
  pub resolver : Text → Option Text
  pub cache : Text → Option Bytes

abbrev pub key_bytes : ℕ
key_bytes = 32

abbrev pub colon : ℕ
colon = 58

-- "pa1:" and "sp1:"
abbrev pub version_mark : Text
version_mark = 112 ∷ 97 ∷ 49 ∷ colon ∷ []

abbrev pub foreign_mark : Text
foreign_mark = 115 ∷ 112 ∷ 49 ∷ colon ∷ []

-- "@index"
abbrev pub index_cache_id : Text
index_cache_id = 64 ∷ 105 ∷ 110 ∷ 100 ∷ 101 ∷ 120 ∷ []

-- [a-z0-9_]
unfoldable pub is_key_char : ℕ → Bool
is_key_char c = leb 97 c && leb c 122 || leb 48 c && leb c 57 || c == 95

abbrev pub all_key_chars : Text → Bool
all_key_chars [] = true
all_key_chars (c ∷ cs) = is_key_char c && all_key_chars cs

-- `$` stands before a newline at the very end too.
unfoldable pub before_newline : Text → Text
before_newline [] = []
before_newline (c ∷ []) = if c == 10 then [] else c ∷ []
before_newline (c ∷ d ∷ ds) = c ∷ before_newline (d ∷ ds)

-- ^[a-z0-9_]{1,16}$
unfoldable pub is_key_id : Text → Bool
unfolding is_key_char before_newline
is_key_id id =
    let body = before_newline id in
    all_key_chars body && leb 1 (length body) && leb (length body) 16

-- `if not text`
abbrev pub is_empty : Text → Bool
is_empty [] = true
is_empty (c ∷ cs) = false

unfoldable pub assert_key_id : Text → Result Text
unfolding is_key_id
assert_key_id id = check (is_key_id id) unusable_key_id (ok id)

unfoldable pub current_key_id : FieldCrypto → Result Text
unfolding assert_key_id
current_key_id f = check (not (is_empty f.key_id)) no_current_key (assert_key_id f.key_id)

-- a value that is there and not empty
unfoldable pub filled : CryptoError → Option Text → Result Text
filled error none = raised error
filled error (some text) = check (not (is_empty text)) error (ok text)

unfoldable pub material : Primitives → FieldCrypto → Text → Result Bytes
unfolding filled
material p f variable = and_then (filled variable_unset (f.resolver variable)) (λ value.
    and_then (or_raise material_not_base64 (p.decode_base64 value))
      (λ raw. check (length raw == key_bytes) material_length (ok raw)))

-- What `_key` reads where the cache has nothing.
unfoldable pub read_key : Primitives → FieldCrypto → Text → Result Bytes
unfolding filled material
read_key p f id = and_then (filled key_not_listed (f.keys id)) (λ variable. material p f variable)

unfoldable pub cached_as : Text → Result Bytes → FieldCrypto → Result Bytes × FieldCrypto
cached_as id (raised e) f = (raised e, f)
cached_as id (ok key) f =
    (ok key, record f { cache = λ k. if eq_list k id then some key else f.cache k })

unfoldable pub or_read :
    Text → Option Bytes → Result Bytes → FieldCrypto → Result Bytes × FieldCrypto
unfolding cached_as
or_read id (some key) fresh f = (ok key, f)
or_read id none fresh f = cached_as id fresh f

-- `_key`
unfoldable pub key : Primitives → Text → FieldCrypto → Result Bytes × FieldCrypto
unfolding is_key_id or_read read_key
key p id f =
    if is_key_id id
    then or_read id (f.cache id) (read_key p f id) f
    else (raised unusable_key_id, f)

unfoldable pub read_index_key : Primitives → FieldCrypto → Result Bytes
unfolding material
read_index_key p f =
    check (not (is_empty f.index_key_var)) no_index_key (material p f f.index_key_var)

-- `_index_key`
unfoldable pub index_key : Primitives → FieldCrypto → Result Bytes × FieldCrypto
unfolding or_read read_index_key
index_key p f = or_read index_cache_id (f.cache index_cache_id) (read_index_key p f) f

-- `_aad`
unfoldable pub aad : Text → Bytes
aad id = version_mark ++ id

unfoldable pub stored_value : Text → Text → Text
stored_value id payload = version_mark ++ id ++ colon ∷ payload

unfoldable pub sealed : Primitives → Bytes → Text → Text → Bytes → Result Text
unfolding aad stored_value
sealed p nonce plaintext id key =
    and_then (or_raise not_utf8 (p.encode_utf8 plaintext)) (λ raw.
      ok (stored_value id (p.encode_base64 (nonce ++ p.cipher.seal key nonce raw (aad id)))))

-- key_id if key_id else current_key_id()
unfoldable pub chosen : Option Text → FieldCrypto → Result Text
unfolding current_key_id
chosen none f = current_key_id f
chosen (some id) f = if is_empty id then current_key_id f else ok id

unfoldable pub under_key :
    Primitives → Bytes → Text → Result Text → FieldCrypto → Result Text × FieldCrypto
unfolding key sealed
under_key p nonce plaintext (raised e) f = (raised e, f)
under_key p nonce plaintext (ok id) f =
    let (found, f') = key p id f in (and_then found (sealed p nonce plaintext id), f')

-- `nonce` is what os.urandom gives.
unfoldable pub encrypt :
    Primitives → Bytes → Text → Option Text → FieldCrypto → Result Text × FieldCrypto
unfolding under_key chosen
encrypt p nonce plaintext key_id f = under_key p nonce plaintext (chosen key_id f) f

-- before and after the first colon
unfoldable pub cut : Text → Option (Text × Text)
cut [] = none
cut (c ∷ cs) =
    let rest = cut cs in
    if c == colon
    then some ([], cs)
    else elim rest [ none ↦ none | some (id, payload) ↦ some (c ∷ id, payload) ]

unfoldable pub on_cut : Option (Text × Text) → Result (Option (Text × Text))
unfolding is_key_id
on_cut none = raised malformed
on_cut (some (id, payload)) =
    check (not (is_empty payload) && is_key_id id) malformed (ok (some (id, payload)))

unfoldable pub split : Text → Result (Option (Text × Text))
unfolding cut on_cut
split value = if starts_with version_mark value then on_cut (cut (drop 4 value)) else ok none

unfoldable pub is_encrypted : Option Text → Bool
is_encrypted none = false
is_encrypted (some value) = starts_with version_mark value

unfoldable pub key_id_of : Option Text → Result (Option Text)
unfolding split
key_id_of none = ok none
key_id_of (some value) =
    if is_empty value
    then ok none
    else and_then (split value) (λ parts. ok (elim parts [ none ↦ none | some (id, _) ↦ some id ]))

unfoldable pub open_body : Primitives → Text → Bytes → Bytes → Result (Option Text)
unfolding aad
open_body p id raw key =
    and_then
      (or_raise wrong_key
        (p.cipher.open_sealed key (take nonce_bytes raw) (drop nonce_bytes raw) (aad id)))
      (λ plain. and_then (or_raise not_utf8 (p.decode_utf8 plain)) (λ text. ok (some text)))

unfoldable pub raw_payload : Primitives → Text → Result Bytes
raw_payload p payload =
    and_then (or_raise payload_not_base64 (p.decode_base64 payload))
      (λ raw. check (leb (nonce_bytes + tag_bytes) (length raw)) payload_truncated (ok raw))

unfoldable pub open_raw :
    Primitives → Text → Result Bytes → FieldCrypto → Result (Option Text) × FieldCrypto
unfolding key open_body
open_raw p id (raised e) f = (raised e, f)
open_raw p id (ok raw) f = let (found, f') = key p id f in (and_then found (open_body p id raw), f')

unfoldable pub on_parts :
    Primitives
    → Text
    → Result (Option (Text × Text))
    → FieldCrypto
    → Result (Option Text) × FieldCrypto
unfolding raw_payload open_raw
on_parts p value (raised e) f = (raised e, f)
on_parts p value (ok none) f =
    if starts_with foreign_mark value then (raised foreign_format, f) else (ok (some value), f)
on_parts p value (ok (some (id, payload))) f = open_raw p id (raw_payload p payload) f

unfoldable pub decrypt : Primitives → Option Text → FieldCrypto → Result (Option Text) × FieldCrypto
unfolding split on_parts
decrypt p none f = (ok none, f)
decrypt p (some value) f =
    if is_empty value then (ok (some value), f) else on_parts p value (split value) f

unfoldable pub blind_index : Primitives → Text → FieldCrypto → Result Text × FieldCrypto
unfolding index_key
blind_index p value f =
    let (found, f') = index_key p f in
    (
      and_then found
          (λ key. and_then (or_raise not_utf8 (p.encode_utf8 value)) (λ raw. ok (p.hmac key raw))),
      f',
    )
