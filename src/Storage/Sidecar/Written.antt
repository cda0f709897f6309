-- ===== src/Storage/Sidecar/Written.antt =====
-- One written line of the sidecar, alone and behind the bytes of an interrupted write.
use splitforge.Prelude.{
  ℕ, suc, ◌+◌, ◌/◌, ◌%◌, ◌<◌, ◌≡◌, refl, ap, ◌∙◌, Bool, true, false, List, [], ◌∷◌, ◌++◌, some,
  if◌then◌else◌, ok, err, length, arith, Bool-cases, inl, inr, All, All-append_intro, take-append,
}
use splitforge.Prelude.Text.Trim.{=ₜ_refl}
use splitforge.Storage.Record.{
  LineError, SidecarRead, SidecarApi, SidecarRecord, into_read, hex_lower,
}
use splitforge.Storage.Sidecar.{
  after_torn_write, after_damage, line_start, strip_prefix, starts_with, is_torn_write, parse_json,
  parse_line, find_line, read_line, found_in,
}
use splitforge.Storage.Sidecar.Lines.{found_of}
use splitforge.Storage.Sidecar.Split.{IsOther10, split_at_byte-hex, hex_char-ascii, hex_lower-All}

module _ (Api : SidecarApi) where
  is_utf8-hex :
      (bytes text : List ℕ)
      → All (λ b. b < 256) bytes
      → Api.is_utf8 (hex_lower bytes ++ text) ≡ Api.is_utf8 text
  unfolding hex_lower
  is_utf8-hex [] text h = refl
  is_utf8-hex (b ∷ bytes) text (h, k) =
      Api.is_utf8_ascii _ _ (hex_char-ascii (b / 16) (omega arith))
      ∙ Api.is_utf8_ascii _ _ (hex_char-ascii (b % 16) (omega arith))
      ∙ is_utf8-hex bytes text k

  -- The line of a record, without its line feed
  abbrev pub line_of : SidecarRecord → List ℕ
  line_of r = line_start ++ hex_lower (Api.sha256 (Api.to_json r)) ++ 32 ∷ Api.to_json r

  is_utf8-line_of : (r : SidecarRecord) → Api.is_utf8 (line_of r) ≡ true
  is_utf8-line_of r =
      Api.is_utf8_ascii _ _ refl
      ∙ Api.is_utf8_ascii _ _ refl
      ∙ Api.is_utf8_ascii _ _ refl
      ∙ Api.is_utf8_ascii _ _ refl
      ∙ Api.is_utf8_ascii _ _ refl
      ∙ is_utf8-hex (Api.sha256 (Api.to_json r)) (32 ∷ Api.to_json r)
          (Api.sha256_bytes (Api.to_json r))
      ∙ Api.is_utf8_ascii _ _ refl
      ∙ Api.is_utf8_json r

  parse_json-to_json :
      (r : SidecarRecord)
      → parse_json Api (hex_lower (Api.sha256 (Api.to_json r))) (Api.to_json r) ≡ into_read Api r
  unfolding parse_json
  parse_json-to_json r = rw (=ₜ_refl (hex_lower (Api.sha256 (Api.to_json r))), Api.from_to_json r)

  parse_line-line_of : (r : SidecarRecord) → parse_line Api (line_of r) ≡ into_read Api r
  unfolding parse_line strip_prefix
  parse_line-line_of r =
      rw (is_utf8-line_of r, split_at_byte-hex (Api.sha256 (Api.to_json r)) (Api.to_json r))
        (parse_json-to_json r)

  pub line_of-All : (r : SidecarRecord) → All IsOther10 (line_of r)
  line_of-All r =
      All-append_intro IsOther10 line_start _ (refl, (refl, (refl, (refl, (refl, tt)))))
        (All-append_intro IsOther10 _ _ (hex_lower-All (Api.sha256 (Api.to_json r)))
          (refl, Api.one_line_json r))

  -- What is in front of a line hides it if it verifies with the line behind it, from any of its
  -- bytes on. This is that it does not.
  abbrev pub Reveals : List ℕ → List ℕ → Type 0
  Reveals [] line = Unit
  Reveals (c ∷ tail) line =
      ((e : LineError) × (parse_line Api ((c ∷ tail) ++ line) ≡ err e)) × Reveals tail line

  starts_with-line_of : (r : SidecarRecord) → starts_with line_start (line_of r) ≡ true
  unfolding starts_with
  starts_with-line_of r = refl

  find_line-append :
      (tail : List ℕ) (r : SidecarRecord) (found : SidecarRead Api.Instant) (at : ℕ)
      → Reveals tail (line_of r)
      → into_read Api r ≡ ok found
      → find_line Api at (tail ++ line_of r) ≡ some (at + length tail, found)
  unfolding find_line
  find_line-append [] r found at h q =
      rw (starts_with-line_of r, parse_line-line_of r, q)
        (ap (λ (n : ℕ). some (n, found)) (omega arith))
  find_line-append (c ∷ tail) r found at ((e, p), h) q =
      let later : find_line Api (suc at) (tail ++ line_of r)
          ≡ some (at + suc (length tail), found) =
        find_line-append tail r found (suc at) h q
        ∙ ap (λ (n : ℕ). some (n, found)) (omega arith) in
      elim (Bool-cases (starts_with line_start ((c ∷ tail) ++ line_of r))) [
        | inl s ↦ rw (s, p) later
        | inr s ↦ rw s later
      ]

  pub read_line-append :
      (c : ℕ) (tail : List ℕ) (r : SidecarRecord) (found : SidecarRead Api.Instant)
      → Reveals (c ∷ tail) (line_of r)
      → into_read Api r ≡ ok found
      → read_line Api ((c ∷ tail) ++ line_of r) ≡ (
          if is_torn_write (c ∷ tail) line_start
          then after_torn_write found (suc (length tail))
          else after_damage found (suc (length tail)))
  unfolding read_line
  read_line-append c tail r found ((e, p), h) q =
      let there : find_line Api 1 (tail ++ line_of r) ≡ some (suc (length tail), found) =
        find_line-append tail r found 1 h q ∙ ap (λ (n : ℕ). some (n, found)) (omega arith) in
      rw (read_line, p, there, take-append tail (line_of r))

  pub found_of-append :
      (tail : List ℕ) (r : SidecarRecord) (found : SidecarRead Api.Instant)
      → Reveals tail (line_of r)
      → into_read Api r ≡ ok found
      → found_of Api (tail ++ line_of r) ≡ found ∷ []
  unfolding read_line
  found_of-append [] r found h q = rw (read_line, parse_line-line_of r, q)
  found_of-append (c ∷ tail) r found h q =
      rw (read_line-append c tail r found h q) (either (is_torn_write (c ∷ tail) line_start))
    where
      either :
          (b : Bool)
          → found_in Api (
              if b
              then after_torn_write found (suc (length tail))
              else after_damage found (suc (length tail)))
            ≡ found ∷ []
      either true = refl
      either false = refl
