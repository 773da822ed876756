-- ===== src/Provision/Lifecycle.antt =====
-- From tools/provision_atecc.py to tools/verify_attestation.py: the key files that `generate-key`
-- leaves, and that an attestation of `sign-test` verifies under them.
use noethrion.Base.{
  ℕ, ◌^◌, ◌<◌, ◌≡◌, ◌≢◌, refl, ap, subst, Bool, true, false, not, ◌&&◌, ◌⊎◌, inl, inr, Option, none,
  some, arith, if◌then◌else◌, length, length-append, Bool-cases,
}
use noethrion.Base.Int.{ℤ}
use noethrion.Python.Result.{Result, ok}
use noethrion.Python.Bytes.{Bytes, bytes_eq, bytes_eq→eq, bytes_eq_refl}
use noethrion.Python.Text.{Text, codes}
use noethrion.Python.Print.{
  Ascii, append-Ascii, text_of_int, text_of_int-IsAscii, json_chars, json_chars-IsAscii,
}
use noethrion.Crypto.{Crypto}
use noethrion.Tool.Signature.{load_pubkey}
use noethrion.Provision.{
  Signer, Disk, read_bytes, exists, write_bytes, chmod, pub_path, load_private_key,
  write_public_key, write_pair, cmd_generate_key, canonical_payload,
}

-- What `cryptography` promises: PEM is read back, a generated key is a P-256 key, and a signature is
-- good under the public key of the key that made it.
pub record IsEcdsa (C : Crypto) (S : Signer C) : Type 0 where
  pub private_read : (k : S.PrivateKey) → S.load_pem_private_key (S.private_pem k) ≡ ok k
  pub public_read :
      (k : S.PrivateKey)
      → C.load_pem_public_key (S.public_pem (S.public_key k)) ≡ ok (S.public_key k)
  pub generated :
      (seed : ℕ)
      → (S.is_ec (S.generate_private_key seed) ≡ true)
        × (S.is_p256 (S.generate_private_key seed) ≡ true)
  pub public_kind :
      (k : S.PrivateKey)
      → S.is_ec k ≡ true
      → S.is_p256 k ≡ true
      → (C.is_ec (S.public_key k) ≡ true) × (C.is_p256 (S.public_key k) ≡ true)
  pub r_of : ℕ → S.PrivateKey → Bytes → ℕ
  pub s_of : ℕ → S.PrivateKey → Bytes → ℕ
  pub decodes :
      (seed : ℕ) (k : S.PrivateKey) (payload : Bytes)
      → S.decode_dss_signature (S.sign seed k payload)
        ≡ ok (r_of seed k payload, s_of seed k payload)
  pub r_fits :
      (seed : ℕ) (k : S.PrivateKey) (payload : Bytes)
      → S.is_p256 k ≡ true
      → r_of seed k payload < 2 ^ 256
  pub s_fits :
      (seed : ℕ) (k : S.PrivateKey) (payload : Bytes)
      → S.is_p256 k ≡ true
      → s_of seed k payload < 2 ^ 256
  pub verifies :
      (seed : ℕ) (k : S.PrivateKey) (payload : Bytes)
      → C.verify
          (S.public_key k)
          (C.encode_dss_signature (r_of seed k payload) (s_of seed k payload))
          payload
        ≡ ok tt

pub canonical_payload-Ascii :
    (device_id : Text) (timestamp wh : ℤ) → Ascii (canonical_payload device_id timestamp wh)
unfolding canonical_payload
canonical_payload-Ascii device_id timestamp wh =
    let front : Ascii (codes "{\"device_id\":\"") = record { chars = omega arith } in
    let second : Ascii (codes "\",\"timestamp\":") = record { chars = omega arith } in
    let third : Ascii (codes ",\"wh\":") = record { chars = omega arith } in
    let back : Ascii (codes "}") = record { chars = omega arith } in
    let id : Ascii (json_chars device_id) = record { chars = json_chars-IsAscii device_id } in
    let stamp : Ascii (text_of_int timestamp) = record { chars = text_of_int-IsAscii timestamp } in
    let energy : Ascii (text_of_int wh) = record { chars = text_of_int-IsAscii wh } in
    append-Ascii
      (append-Ascii
        (append-Ascii (append-Ascii (append-Ascii (append-Ascii front id) second) stamp) third)
        energy)
      back

not_pub_path : (out : Text) → bytes_eq out (pub_path out) ≡ false
not_pub_path out = elim (Bool-cases (bytes_eq out (pub_path out))) [
  | inl e ↦ absurd (
      omega (
        arith,
        ap (λ (s : Text). length s) (bytes_eq→eq out (pub_path out) e),
        length-append out (codes ".pub"),
      ))
  | inr e ↦ e
]

pub bytes_eq-false : (p q : Bytes) → p ≢ q → bytes_eq p q ≡ false
bytes_eq-false p q h = elim (Bool-cases (bytes_eq p q)) [
  | inl e ↦ absurd (h (bytes_eq→eq p q e))
  | inr e ↦ e
]

pub free_path :
    (out : Text) (force : Bool) (disk : Disk)
    → (exists out disk && not force) ≡ false
    → (disk.content out ≡ none) ⊎ (force ≡ true)
unfolding exists
free_path out true disk h = inr refl
free_path out false disk h = go (disk.content out) refl h
  where
    go :
        (o : Option Bytes)
        → disk.content out ≡ o
        → ((elim o [ none ↦ false | some b ↦ true ]) && true) ≡ false
        → (disk.content out ≡ none) ⊎ (false ≡ true)
    go none e h = inl e
    go (some b) e h = cc h

module _ (C : Crypto) (S : Signer C) (laws : IsEcdsa C S) where
  -- The two files hold the two halves of one key, the private one for its owner alone; nothing else
  -- has changed, and the private key's path was free unless it was to be overwritten.
  pub record IsPair (out : Text) (force : Bool) (before after : Disk) : Type 0 where
    pub key : S.PrivateKey
    pub private_file : load_private_key C S (read_bytes out after) ≡ ok key
    pub public_file : load_pubkey C (read_bytes (pub_path out) after) ≡ ok (S.public_key key)
    pub kind : S.is_p256 key ≡ true
    pub closed : after.mode out ≡ 0o600
    pub others : (p : Text) → p ≢ out → p ≢ pub_path out → after.content p ≡ before.content p
    pub free : (before.content out ≡ none) ⊎ (force ≡ true)

  -- The files after both writes.
  written : Text → S.PrivateKey → Disk → Disk
  written out k disk = record disk {
    content = λ p.
        if bytes_eq p (pub_path out)
        then some (S.public_pem (S.public_key k))
        else if bytes_eq p out
        then some (S.private_pem k)
        else disk.content p;
    mode = λ p. if bytes_eq p out then 0o600 else disk.mode p;
  }

  write_pair-written :
      (out : Text) (k : S.PrivateKey) (disk : Disk) {after : Disk}
      → write_pair C S out k disk ≡ (ok 0, after)
      → written out k disk ≡ after
  unfolding write_pair write_public_key write_bytes chmod written
  write_pair-written out k disk h = elim (Bool-cases (disk.writable out)) [
    | inl e ↦ elim (Bool-cases (disk.writable (pub_path out))) [
      | inl f ↦ ap (λ (t : Result ℕ × Disk). t.1) (rw (write_pair, write_bytes, e, f) at h)
      | inr f ↦ cc (ap (λ (t : Result ℕ × Disk). t.0) (rw (write_pair, write_bytes, e, f) at h))
    ]
    | inr e ↦ cc (ap (λ (t : Result ℕ × Disk). t.0) (rw (write_pair, write_bytes, e) at h))
  ]

  read-private :
      (out : Text) (k : S.PrivateKey) (disk : Disk)
      → read_bytes out (written out k disk) ≡ ok (S.private_pem k)
  unfolding written read_bytes
  read-private out k disk = rw (read_bytes, not_pub_path out, bytes_eq_refl out)

  read-public :
      (out : Text) (k : S.PrivateKey) (disk : Disk)
      → read_bytes (pub_path out) (written out k disk) ≡ ok (S.public_pem (S.public_key k))
  unfolding written read_bytes
  read-public out k disk = rw (read_bytes, bytes_eq_refl (pub_path out))

  written-IsPair :
      (out : Text) (force : Bool) (seed : ℕ) (disk : Disk)
      → (disk.content out ≡ none) ⊎ (force ≡ true)
      → IsPair out force disk (written out (S.generate_private_key seed) disk)
  unfolding written load_private_key load_pubkey
  written-IsPair out force seed disk free =
      let k = S.generate_private_key seed in
      let (ec, p256) = laws.generated seed in
      let (pub_ec, pub_p256) = laws.public_kind k ec p256 in
      record {
        key = k;
        private_file = rw (read-private out k disk, laws.private_read k, ec, p256);
        public_file = rw (read-public out k disk, laws.public_read k, pub_ec, pub_p256);
        kind = p256;
        closed = rw (bytes_eq_refl out);
        others = λ p n m. rw (bytes_eq-false p (pub_path out) m, bytes_eq-false p out n);
        free = free;
      }

  -- With `cryptography` as in IsEcdsa: where `generate-key` returns 0, the two files that it names
  -- hold the two halves of one key, which the tools load, the private one has mode 600, no other
  -- file has changed, and there was no file at the private key's path unless --force was given.
  pub cmd_generate_key-IsPair :
      (out : Text) (force : Bool) (seed : ℕ) (disk : Disk) {after : Disk}
      → cmd_generate_key C S out force seed disk ≡ (ok 0, after)
      → IsPair out force disk after
  unfolding cmd_generate_key
  cmd_generate_key-IsPair out force seed disk {after} h =
      elim (Bool-cases (exists out disk && not force)) [
        | inl e ↦ cc (ap (λ (t : Result ℕ × Disk). t.0) (rw e at h))
        | inr e ↦
            subst (IsPair out force disk)
              (write_pair-written out (S.generate_private_key seed) disk (rw e at h))
              (written-IsPair out force seed disk (free_path out force disk e))
      ]
