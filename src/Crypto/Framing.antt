-- ===== src/Crypto/Framing.antt =====
-- The frame of an envelope: `parse` and `pack` are inverse to each other.
use py_app_runner.Prelude.{
  ℕ, ◌+◌, ◌≤◌, ◌≡◌, refl, sym, ap, ◌∙◌, subst, ◌↔◌, inl, inr, true, none, some, [], ◌∷◌, ◌++◌,
  arith, leb, ◌==◌, leb→le, ==_iff, Bool-cases, length, take, drop, All, length-append,
}
use py_app_runner.Prelude.Int.{ℤ, pos, negsuc, eq_ℤ, pos_part}
use py_app_runner.Crypto.Values.{
  Bytes, Result, ok, raised, or_raise, eq_list, eq_list_iff, check-ok, or_raise-ok, and_then-ok,
  take-append, drop-append, take-drop, length-take, length-drop, envelope_short, magic_length,
  magic_differs, version_differs, nonce_length, version_range, key_length,
}
use py_app_runner.Crypto.Envelope.{
  Cipher, Envelope, tag_bytes, parse, pack, sliced, version_byte, byte_of, encrypt, decrypt,
}

three : (m : Bytes) → length m ≡ 3 → (a : ℕ) × (b : ℕ) × (c : ℕ) × (m ≡ a ∷ b ∷ c ∷ [])
three [] h = absurd (omega (arith, h))
three (a ∷ []) h = absurd (omega (arith, h))
three (a ∷ b ∷ []) h = absurd (omega (arith, h))
three (a ∷ b ∷ c ∷ []) h = (a, b, c, refl)
three (a ∷ b ∷ c ∷ d ∷ m) h = absurd (omega (arith, h))

byte_of-pos : (version : ℤ) (n : ℕ) → byte_of version ≡ some n → version ≡ pos n
unfolding byte_of
byte_of-pos (pos k) n h = elim (Bool-cases (leb k 255)) [
  | inl q ↦ let e : some k ≡ some n = rw q at h in let same : k ≡ n = cc in ap pos same
  | inr q ↦ let e : none ≡ some n = rw q at h in absurd (cc e)
]
byte_of-pos (negsuc k) n h = absurd (cc h)

eq_ℤ-same : (a b : ℤ) → eq_ℤ a b ≡ true → a ≡ b
eq_ℤ-same (pos a) (pos b) h = ap pos (ground (arith, h))
eq_ℤ-same (pos a) (negsuc b) h = absurd (ground (arith, h))
eq_ℤ-same (negsuc a) (pos b) h = absurd (ground (arith, h))
eq_ℤ-same (negsuc a) (negsuc b) h = ap negsuc (ground (arith, h))

-- What the frame holds.
abbrev framed : Bytes → ℕ → Bytes → Bytes → Envelope
framed magic version nonce body = record {
  magic = magic;
  version = version;
  nonce = nonce;
  body = body;
}

parse-framed :
    (a b c n : ℕ) (nonce body : Bytes)
    → length nonce ≡ 12
    → 16 ≤ length body
    → parse (a ∷ b ∷ c ∷ n ∷ nonce ++ body) (a ∷ b ∷ c ∷ []) (pos n)
      ≡ ok (framed (a ∷ b ∷ c ∷ []) n nonce body)
unfolding parse sliced version_byte
parse-framed a b c n nonce body h long =
    let enough : leb 32 (length (a ∷ b ∷ c ∷ n ∷ nonce ++ body)) ≡ true =
      ground (arith, length-append nonce body) in
    let magic : eq_list (a ∷ b ∷ c ∷ []) (a ∷ b ∷ c ∷ []) ≡ true =
      (eq_list_iff (a ∷ b ∷ c ∷ []) (a ∷ b ∷ c ∷ [])).1 refl in
    let version : eq_ℤ (pos n) (pos n) ≡ true = ground arith in
    let front : take 12 (nonce ++ body) ≡ nonce =
      subst (λ k. take k (nonce ++ body) ≡ nonce) h (take-append nonce body) in
    let back : drop 12 (nonce ++ body) ≡ body =
      subst (λ k. drop k (nonce ++ body) ≡ body) h (drop-append nonce body) in
    rw (enough, magic, version, front, back) refl

-- What pack answers ok for, and the blob.
pack-ok :
    (nonce body magic : Bytes) (version : ℤ) (blob : Bytes)
    → pack nonce body magic version ≡ ok blob
    → (length nonce ≡ 12)
      × (length magic ≡ 3)
      × ((n : ℕ) × (byte_of version ≡ some n) × (magic ++ n ∷ nonce ++ body ≡ blob))
unfolding pack
pack-ok nonce body magic version blob h =
    let (a, h1) = check-ok (length nonce == 12) nonce_length _ blob h in
    let (b, h2) = check-ok (length magic == 3) magic_length _ blob h1 in
    let (n, h3, h4) = and_then-ok (or_raise version_range (byte_of version)) _ blob h2 in
    let same : magic ++ n ∷ nonce ++ body ≡ blob = cc in
    (
      (==_iff (length nonce) 12).0 a,
      (==_iff (length magic) 3).0 b,
      (n, or_raise-ok version_range (byte_of version) n h3, same),
    )

pub parse-pack :
    (nonce body magic : Bytes) (version : ℤ) (blob : Bytes)
    → pack nonce body magic version ≡ ok blob
    → 16 ≤ length body
    → (n : ℕ) × (version ≡ pos n) × (parse blob magic version ≡ ok (framed magic n nonce body))
parse-pack nonce body magic version blob h long =
    let (ln, lm, (n, e, whole)) = pack-ok nonce body magic version blob h in
    let same = byte_of-pos version n e in
    let (a, b, c, three_of) = three magic lm in
    (n, same, rw (sym whole, same, three_of) (parse-framed a b c n nonce body ln long))

four :
    (blob : Bytes)
    → 4 ≤ length blob
    → (a : ℕ) × (b : ℕ) × (c : ℕ) × (n : ℕ) × (rest : Bytes) × (blob ≡ a ∷ b ∷ c ∷ n ∷ rest)
four [] h = absurd (omega (arith, h))
four (a ∷ []) h = absurd (omega (arith, h))
four (a ∷ b ∷ []) h = absurd (omega (arith, h))
four (a ∷ b ∷ c ∷ []) h = absurd (omega (arith, h))
four (a ∷ b ∷ c ∷ n ∷ rest) h = (a, b, c, n, rest, refl)

pack-sliced :
    (a b c n : ℕ) (rest : Bytes)
    → n ≤ 255
    → 28 ≤ length rest
    → (pack (take 12 rest) (drop 12 rest) (a ∷ b ∷ c ∷ []) (pos n) ≡ ok (a ∷ b ∷ c ∷ n ∷ rest))
      × (16 ≤ length (drop 12 rest))
unfolding pack byte_of
pack-sliced a b c n rest byte long =
    let nonce : length (take 12 rest) ≡ 12 = length-take 12 rest (omega (arith, long)) in
    let small : leb n 255 ≡ true = ground (arith, byte) in
    (
      rw (nonce, small, take-drop 12 rest) refl,
      omega (arith, long, length-drop 12 rest (omega (arith, long))),
    )

pack_cut :
    (blob magic : Bytes) (version : ℤ) (e : Envelope) (a b c n : ℕ) (rest : Bytes)
    → blob ≡ a ∷ b ∷ c ∷ n ∷ rest
    → a ∷ b ∷ c ∷ [] ≡ magic
    → pos n ≡ version
    → framed (a ∷ b ∷ c ∷ []) n (take 12 rest) (drop 12 rest) ≡ e
    → n ≤ 255
    → 28 ≤ length rest
    → (pack e.nonce e.body magic version ≡ ok blob) × (16 ≤ length e.body)
pack_cut blob magic version e a b c n rest whole named numbered parts small long =
    rw (sym parts, sym named, sym numbered, whole) (pack-sliced a b c n rest small long)

pub pack-parse :
    (blob magic : Bytes) (version : ℤ) (e : Envelope)
    → All (λ b. b ≤ 255) blob
    → parse blob magic version ≡ ok e
    → (pack e.nonce e.body magic version ≡ ok blob) × (16 ≤ length e.body)
unfolding parse
pack-parse blob magic version e bytes h =
    let (h1, r1) = check-ok (leb 32 (length blob)) envelope_short _ e h in
    let (h2, r2) = check-ok (length magic == 3) magic_length _ e r1 in
    let (h3, r3) = check-ok (eq_list (take 3 blob) magic) magic_differs _ e r2 in
    let (h4, r4) = check-ok (eq_ℤ (pos (version_byte blob)) version) version_differs _ e r3 in
    let cut : sliced blob ≡ e = cc in
    let long = leb→le 32 (length blob) h1 in
    let start = (eq_list_iff (take 3 blob) magic).0 h3 in
    let kind = eq_ℤ-same (pos (version_byte blob)) version h4 in
    let (a, b, c, n, rest, whole) = four blob (omega (arith, long)) in
    let size : length blob ≡ 4 + length rest = ap length whole ∙ omega arith in
    let named : a ∷ b ∷ c ∷ [] ≡ magic = subst (λ x. take 3 x ≡ magic) whole start in
    let numbered : pos n ≡ version =
      unfold version_byte in subst (λ x. pos (version_byte x) ≡ version) whole kind in
    let parts : framed (a ∷ b ∷ c ∷ []) n (take 12 rest) (drop 12 rest) ≡ e =
      unfold sliced version_byte in subst (λ x. sliced x ≡ e) whole cut in
    let small : n ≤ 255 = (subst (All (λ b. b ≤ 255)) whole bytes).1.1.1.0 in
    pack_cut blob magic version e a b c n rest whole named numbered parts small
      (omega (arith, long, size))

-- Where the blob is made of bytes, parse answers an envelope with the magic and the version exactly for
-- the blobs that pack makes of its nonce and its body, for a body that has room for the tag.
pub parse_iff_pack :
    (blob magic : Bytes) (version : ℤ) (n : ℕ) (nonce body : Bytes)
    → All (λ b. b ≤ 255) blob
    → (parse blob magic version ≡ ok (framed magic n nonce body))
      ↔ ((pack nonce body magic version ≡ ok blob) × (version ≡ pos n) × (16 ≤ length body))
parse_iff_pack blob magic version n nonce body bytes = (
  (λ h.
      let (packed, long) = pack-parse blob magic version (framed magic n nonce body) bytes h in
      let (k, same, again) = parse-pack nonce body magic version blob packed long in
      let numbers : k ≡ n = ap version_of (sym again ∙ h) in (packed, same ∙ ap pos numbers, long)),
  (λ (packed, same, long).
      let (k, same', h) = parse-pack nonce body magic version blob packed long in
      let numbers : k ≡ n = ap pos_part (sym same' ∙ same) in
      subst (λ m. parse blob magic version ≡ ok (framed magic m nonce body)) numbers h),
)
  where
    version_of : Result Envelope → ℕ
    version_of (ok e) = e.version
    version_of (raised error) = 0

-- A cipher that opens what it sealed, and adds a tag.
pub record IsCipher (c : Cipher) : Type 0 where
  pub opens :
      (key nonce plaintext aad : Bytes)
      → c.open_sealed key nonce (c.seal key nonce plaintext aad) aad ≡ some plaintext
  pub tagged :
      (key nonce plaintext aad : Bytes)
      → length (c.seal key nonce plaintext aad) ≡ length plaintext + tag_bytes

-- What encrypt answers, decrypt under the same key, magic and version opens to the plaintext, where the
-- cipher opens what it sealed and adds the sixteen bytes of its tag.
pub decrypt-encrypt :
    (c : Cipher) (nonce key plaintext magic : Bytes) (version : ℤ) (blob : Bytes)
    → IsCipher c
    → encrypt c nonce key plaintext magic version ≡ ok blob
    → decrypt c key blob magic version ≡ ok plaintext
unfolding encrypt decrypt
decrypt-encrypt c nonce key plaintext magic version blob law h =
    let body = c.seal key nonce plaintext [] in
    let (size, packed) =
      check-ok (length key == 32) key_length (pack nonce body magic version) blob h in
    let (n, same, parsed) =
      parse-pack nonce body magic version blob packed
        (omega (arith, law.tagged key nonce plaintext [])) in
    rw (size, parsed, law.opens key nonce plaintext []) refl
