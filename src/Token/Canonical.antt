-- ===== src/Token/Canonical.antt =====
-- The canonical form of callback data.
use secretmediabot.Base.{
  ◌≡◌, refl, sym, ap, ◌∙◌, ◌↔◌, true, Option, none, some, [], ◌∷◌, ◌++◌, Bytes, nat_eq, list_eq,
  beq_refl, arith, length,
}
use secretmediabot.Token.{
  Codec, accepted, callback_prefix, CallbackToken, strip, all_token_chars, check_decoded, check_raw,
  parse_callback_data, generate, parse_and_hash,
}

strip-append : (p s : Bytes) → strip p (p ++ s) ≡ some s
unfolding strip
strip-append [] s = refl
strip-append (c ∷ p) s = ground (arith, beq_refl c, strip-append p s)

strip-some : (p s r : Bytes) → strip p s ≡ some r → s ≡ p ++ r
unfolding strip
strip-some [] s r h = ground (arith, h)
strip-some (c ∷ p) [] r h = cc
strip-some (c ∷ p) (d ∷ s) r h = ground (arith, nat_eq.beq_iff c d, strip-some p s r)

module _ (codec : Codec) where
  -- The bytes of a token: 32 bytes that the strict decoder reads back from their encoding, which has
  -- 43 characters of the URL alphabet.
  pub record Encodes (b raw : Bytes) : Type 0 where
    pub size : length b ≡ 32
    pub encoded : codec.encode b ≡ raw
    pub decoded : codec.decode raw ≡ some b
    pub encoded_size : length raw ≡ 43
    pub alphabet : all_token_chars raw ≡ true

  check_decoded-accepted :
      (raw : Bytes) (o : Option Bytes) (r : Bytes)
      → check_decoded codec raw o ≡ accepted r
      → (r ≡ raw) × ((b : Bytes) × (o ≡ some b) × (length b ≡ 32) × (codec.encode b ≡ raw))
  unfolding check_decoded
  check_decoded-accepted raw none r h = cc
  check_decoded-accepted raw (some b) r h = (
    ground (arith, h),
    (b, refl, ground (arith, h), (list_eq.beq_iff (codec.encode b) raw).0 (ground (arith, h))),
  )

  check_raw-accepted :
      (o : Option Bytes) (r : Bytes)
      → check_raw codec o ≡ accepted r
      → (o ≡ some r) × ((b : Bytes) × Encodes b r)
  unfolding check_raw
  check_raw-accepted none r h = cc
  check_raw-accepted (some raw) r h =
      let q = check_decoded-accepted raw (codec.decode raw) r (ground (arith, h)) in
      (
        ap some (sym q.0),
        (
          q.1.0,
          rw q.0 (record {
            size = q.1.2;
            encoded = q.1.3;
            decoded = q.1.1;
            encoded_size = ground (arith, h, nat_eq.beq_iff (length raw) 43);
            alphabet = ground (arith, h);
          }),
        ),
      )

  check_raw-Encodes : (b raw : Bytes) → Encodes b raw → check_raw codec (some raw) ≡ accepted raw
  unfolding check_raw check_decoded
  check_raw-Encodes b raw e =
      rw (e.encoded_size, e.alphabet, e.decoded, e.size, e.encoded, beq_refl raw) refl

  -- The parser accepts callback data with a raw token exactly when the data is "w:" and the raw
  -- token, and the token is the canonical encoding of 32 bytes.
  pub parse_callback_data_iff :
      (s raw : Bytes)
      → (parse_callback_data codec s ≡ accepted raw)
        ↔ ((s ≡ callback_prefix ++ raw) × ((b : Bytes) × Encodes b raw))
  unfolding parse_callback_data
  parse_callback_data_iff s raw = (
    λ h.
        let q = check_raw-accepted (strip callback_prefix s) raw (ground (arith, h)) in
        (strip-some callback_prefix s raw q.0, q.1),
    λ h.
        let size : length s ≡ 45 = omega (arith, ap length h.0, h.1.1.encoded_size) in
        let rest = ap (strip callback_prefix) h.0 ∙ strip-append callback_prefix raw in
        rw (size, rest) (check_raw-Encodes h.1.0 raw h.1.1),
  )

  -- A token that is generated from random bytes which its encoding stands for is read back from its
  -- callback data, as the raw token and as the hash that is stored.
  pub parse-generate :
      (random : Bytes) (t : CallbackToken)
      → Encodes random (codec.encode random)
      → generate codec (some random) ≡ accepted t
      → (parse_callback_data codec t.data_value ≡ accepted t.raw)
        × (parse_and_hash codec t.data_value ≡ accepted t.hash)
  unfolding generate parse_and_hash
  parse-generate random t e h =
      let read =
        (parse_callback_data_iff (callback_prefix ++ codec.encode random) (codec.encode random)).1
          (refl, (random, e)) in
      ground (arith, h, read)
