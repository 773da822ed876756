-- ===== src/Provision/Show.antt =====
-- `show-pubkey` and `export-onchain` (tools/provision_atecc.py) on the two files of a generated pair.
use noethrion.Base.{
  ℕ, ◌-◌, ◌^◌, ◌<◌, ◌≡◌, refl, sym, ap, ap₂, subst, ◌∙◌, Bool, true, false, ◌∷◌, ◌++◌, arith, ◌==◌,
  length, length-append, drop, drop-append,
}
use noethrion.Python.Result.{
  Result, ok, system_exit, guard, value_error_exits, >>=-ok, >>=-eq-ok, ok_injective, guard-eq-ok,
  value_error_exits-eq-ok,
}
use noethrion.Python.Bytes.{Bytes, bytes_eq, bytes_eq_refl, big_endian, length-big_endian}
use noethrion.Python.Hex.{hex}
use noethrion.Python.Hex.Width.{hex_064, hex-append, hex_064-big_endian}
use noethrion.Python.Text.{Text, codes, add_0x}
use noethrion.Python.Split.{ends_with}
use noethrion.Crypto.{Crypto}
use noethrion.Tool.Signature.{load_pubkey}
use noethrion.Provision.{
  Signer, Disk, Shown, read_bytes, pub_path, load_private_key, uncompressed_xy_hex,
  cmd_generate_key, key_argument, cmd_export_onchain, cmd_show_pubkey,
}
use noethrion.Provision.Lifecycle.{IsEcdsa, cmd_generate_key-IsPair}

-- What `cryptography` promises of a key on P-256: the uncompressed point is 0x04, then x and y of 32
-- bytes each.
pub record IsPoint (C : Crypto) (S : Signer C) : Type 0 where
  pub point :
      (k : C.Key)
      → C.is_p256 k ≡ true
      → S.uncompressed_point k
        ≡ 4 ∷ (big_endian 32 (S.public_numbers k).0 ++ big_endian 32 (S.public_numbers k).1)
  pub x_fits : (k : C.Key) → C.is_p256 k ≡ true → (S.public_numbers k).0 < 2 ^ 256
  pub y_fits : (k : C.Key) → C.is_p256 k ≡ true → (S.public_numbers k).1 < 2 ^ 256

ends_with-append : (t s : Text) → ends_with t (s ++ t) ≡ true
unfolding ends_with
ends_with-append t s =
    let start : length (s ++ t) - length t ≡ length s = omega (arith, length-append s t) in
    ap (λ n. bytes_eq (drop n (s ++ t)) t) start
    ∙ ap (λ u. bytes_eq u t) (drop-append s t)
    ∙ bytes_eq_refl t

module _ (C : Crypto) (S : Signer C) (laws : IsEcdsa C S) (points : IsPoint C S) where
  uncompressed_xy_hex-ok :
      (k : C.Key)
      → C.is_p256 k ≡ true
      → uncompressed_xy_hex C S k
        ≡ ok (hex_064 (S.public_numbers k).0 ++ hex_064 (S.public_numbers k).1)
  unfolding uncompressed_xy_hex
  uncompressed_xy_hex-ok k h =
      let (x, y) = S.public_numbers k in
      let size : (length (4 ∷ (big_endian 32 x ++ big_endian 32 y)) == 65) ≡ true = ground (
        arith,
        length-append (big_endian 32 x) (big_endian 32 y),
        length-big_endian 32 x,
        length-big_endian 32 y,
      ) in
      rw (points.point k h, size, uncompressed_xy_hex)
        (ap ok (
          hex-append (big_endian 32 x) (big_endian 32 y)
          ∙ ap₂ (λ (s t : Text). s ++ t) (sym (hex_064-big_endian x (points.x_fits k h)))
              (sym (hex_064-big_endian y (points.y_fits k h)))))

  -- One key in all forms: `export-onchain` prints the raw text of `show-pubkey`, whose halves are x
  -- and y.
  pub record Forms (key : Text) (disk : Disk) (shown : Shown) : Type 0 where
    pub shows : cmd_show_pubkey C S key disk ≡ ok shown
    pub exports : cmd_export_onchain C S key disk ≡ ok (add_0x shown.raw_xy)
    pub halves : shown.raw_xy ≡ shown.x ++ shown.y

  abbrev shown_of : C.Key → Shown
  shown_of k = record {
    x = hex_064 (S.public_numbers k).0;
    y = hex_064 (S.public_numbers k).1;
    raw_xy = hex_064 (S.public_numbers k).0 ++ hex_064 (S.public_numbers k).1;
    der = hex (S.public_der k);
  }

  key_argument-Forms :
      (key : Text) (disk : Disk) (k : C.Key)
      → C.is_p256 k ≡ true
      → key_argument C S key disk ≡ ok k
      → Forms key disk (shown_of k)
  unfolding cmd_show_pubkey cmd_export_onchain
  key_argument-Forms key disk k h e = record {
    shows = >>=-ok _ e ∙ >>=-ok _ (uncompressed_xy_hex-ok k h);
    exports = >>=-ok _ e ∙ >>=-ok _ (uncompressed_xy_hex-ok k h);
    halves = refl;
  }

  private_argument :
      (out : Text) (disk : Disk) (k : S.PrivateKey)
      → ends_with (codes ".pub") out ≡ false
      → load_private_key C S (read_bytes out disk) ≡ ok k
      → C.is_ec (S.public_key k) ≡ true
      → key_argument C S out disk ≡ ok (S.public_key k)
  unfolding key_argument
  private_argument out disk k n e ec = rw (n, e, ec)

  load_pubkey-parts :
      (file : Result Bytes) {k : C.Key}
      → load_pubkey C file ≡ ok k
      → (pem : Bytes) × (file ≡ ok pem)
        × (C.load_pem_public_key pem ≡ ok k)
        × (C.is_ec k ≡ true)
        × (C.is_p256 k ≡ true)
  unfolding load_pubkey
  load_pubkey-parts file {k} h =
      let (pem, read, h₁) = >>=-eq-ok file _ h in
      let (key, loaded, h₂) = >>=-eq-ok (value_error_exits (C.load_pem_public_key pem)) _ h₁ in
      let (_, ec, h₃) = >>=-eq-ok (guard (C.is_ec key) system_exit) _ h₂ in
      let (_, p256, h₄) = >>=-eq-ok (guard (C.is_p256 key) system_exit) _ h₃ in
      let same : key ≡ k = ok_injective h₄ in
      (
        pem,
        read,
        value_error_exits-eq-ok (C.load_pem_public_key pem) loaded ∙ h₄,
        subst (λ q. C.is_ec q ≡ true) same (guard-eq-ok (C.is_ec key) system_exit ec),
        subst (λ q. C.is_p256 q ≡ true) same (guard-eq-ok (C.is_p256 key) system_exit p256),
      )

  public_argument :
      (out : Text) (disk : Disk) {k : C.Key}
      → load_pubkey C (read_bytes (pub_path out) disk) ≡ ok k
      → key_argument C S (pub_path out) disk ≡ ok k
  unfolding key_argument
  public_argument out disk h =
      let (pem, read, loaded, ec, _) = load_pubkey-parts (read_bytes (pub_path out) disk) h in
      rw (ends_with-append (codes ".pub") out, read, loaded, ec)

  -- With `cryptography` as in IsEcdsa and IsPoint: behind a `generate-key` that returned 0, on a path
  -- that does not end in `.pub`, `show-pubkey` and `export-onchain` give one and the same answer for
  -- the private and for the public file, and the raw text is x and y, of 64 digits each, put together.
  pub cmd_generate_key-Forms :
      (out : Text) (force : Bool) (seed : ℕ) (disk : Disk) {after : Disk}
      → ends_with (codes ".pub") out ≡ false
      → cmd_generate_key C S out force seed disk ≡ (ok 0, after)
      → (shown : Shown) × Forms out after shown × Forms (pub_path out) after shown
  cmd_generate_key-Forms out force seed disk {after} n h =
      let pair = cmd_generate_key-IsPair C S laws out force seed disk h in
      let k = S.public_key pair.key in
      let (_, _, _, ec, p256) =
        load_pubkey-parts (read_bytes (pub_path out) after) pair.public_file in
      (
        shown_of k,
        key_argument-Forms out after k p256
            (private_argument out after pair.key n pair.private_file ec),
        key_argument-Forms (pub_path out) after k p256 (public_argument out after pair.public_file),
      )
