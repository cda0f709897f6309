-- ===== src/Storage/Sidecar/Torn.antt =====
-- A line behind a write that was interrupted before its tag was whole.
use splitforge.Prelude.{
  ℕ, zero, suc, ◌+◌, ◌<◌, ◌≡◌, refl, ap, true, List, [], ◌∷◌, ◌++◌, none, ok, err, length, take,
  arith, Bool-cases, inl, inr, and_then,
}
use splitforge.Domain.Event.{RawRead}
use splitforge.Storage.Record.{
  LineError, not_utf8, not_tagged, SidecarApi, SidecarRecord, into_read,
}
use splitforge.Storage.Sidecar.{
  after_torn_write, line_tag, line_start, strip_prefix, starts_with, skip_zeros, is_torn_write,
  parse_line, read_line, encode_line,
}
use splitforge.Storage.Sidecar.Append.{IsWritable, kept, encode_line-line_of}
use splitforge.Storage.Sidecar.Written.{line_of, Reveals, read_line-append}

abbrev pub zeros : ℕ → List ℕ
zeros zero = []
zeros (suc n) = 0 ∷ zeros n

-- What an interrupted write of a line may leave: bytes never filled, then a part of the line's tag
abbrev pub fragment : ℕ → ℕ → List ℕ
fragment n k = zeros n ++ take k line_start

module _ (Api : SidecarApi) where
  parse_line_untagged :
      (line : List ℕ)
      → and_then (strip_prefix line_tag line) (strip_prefix (32 ∷ [])) ≡ none
      → (e : LineError) × (parse_line Api line ≡ err e)
  unfolding parse_line
  parse_line_untagged line h = elim (Bool-cases (Api.is_utf8 line)) [
    | inl u ↦ (not_tagged, rw (parse_line, u, h))
    | inr u ↦ (not_utf8, rw (parse_line, u))
  ]

  Reveals-tag :
      (k : ℕ) (r : SidecarRecord) → k < 5 → Reveals Api (take k line_start) (line_of Api r)
  unfolding strip_prefix
  Reveals-tag zero r h = tt
  Reveals-tag (suc zero) r h = (parse_line_untagged _ refl, tt)
  Reveals-tag (suc (suc zero)) r h = (parse_line_untagged _ refl, (parse_line_untagged _ refl, tt))
  Reveals-tag (suc (suc (suc zero))) r h =
      (parse_line_untagged _ refl, (parse_line_untagged _ refl, (parse_line_untagged _ refl, tt)))
  Reveals-tag (suc (suc (suc (suc zero)))) r h = (
    parse_line_untagged _ refl,
    (parse_line_untagged _ refl, (parse_line_untagged _ refl, (parse_line_untagged _ refl, tt))),
  )
  Reveals-tag (suc (suc (suc (suc (suc k))))) r h = absurd (omega arith)

  Reveals-fragment :
      (n k : ℕ) (r : SidecarRecord) → k < 5 → Reveals Api (fragment n k) (line_of Api r)
  unfolding strip_prefix
  Reveals-fragment zero k r h = Reveals-tag k r h
  Reveals-fragment (suc n) k r h = (parse_line_untagged _ refl, Reveals-fragment n k r h)

  skip_zeros-fragment : (n k : ℕ) → k < 5 → is_torn_write (fragment n k) line_start ≡ true
  unfolding is_torn_write skip_zeros starts_with
  skip_zeros-fragment zero zero h = refl
  skip_zeros-fragment zero (suc zero) h = refl
  skip_zeros-fragment zero (suc (suc zero)) h = refl
  skip_zeros-fragment zero (suc (suc (suc zero))) h = refl
  skip_zeros-fragment zero (suc (suc (suc (suc zero)))) h = refl
  skip_zeros-fragment zero (suc (suc (suc (suc (suc k))))) h = absurd (omega arith)
  skip_zeros-fragment (suc n) k h = skip_zeros-fragment n k h

  length-fragment : (n k : ℕ) → k < 5 → length (fragment n k) ≡ n + k
  length-fragment zero zero h = refl
  length-fragment zero (suc zero) h = refl
  length-fragment zero (suc (suc zero)) h = refl
  length-fragment zero (suc (suc (suc zero))) h = refl
  length-fragment zero (suc (suc (suc (suc zero)))) h = refl
  length-fragment zero (suc (suc (suc (suc (suc k))))) h = absurd (omega arith)
  length-fragment (suc n) k h = omega (arith, length-fragment n k h)

  -- A read that the sidecar can write has a line, and the line is recovered, as one behind a torn
  -- write, when an interrupted write in front of it left bytes that were never filled, a part of the
  -- tag but not all of it, or both. Nothing is asked of the digests.
  pub read_line-fragment :
      (n k : ℕ) (x : RawRead Api.Instant × Api.Instant)
      → k < 5
      → 0 < n + k
      → IsWritable Api x
      → (line : List ℕ) × (digest : List ℕ) × (encode_line Api x ≡ ok (line, digest))
        × (read_line Api (fragment n k ++ line) ≡ after_torn_write (kept Api x) (n + k))
  read_line-fragment n k x h p w =
      let (r, digest, q, back) = encode_line-line_of Api x w in
      (
        line_of Api r,
        digest,
        q,
        behind (fragment n k) r (length-fragment n k h) (Reveals-fragment n k r h)
            (skip_zeros-fragment n k h) back,
      )
    where
      behind :
          (front : List ℕ) (r : SidecarRecord)
          → length front ≡ n + k
          → Reveals Api front (line_of Api r)
          → is_torn_write front line_start ≡ true
          → into_read Api r ≡ ok (kept Api x)
          → read_line Api (front ++ line_of Api r) ≡ after_torn_write (kept Api x) (n + k)
      behind [] r l v t back = absurd (omega arith)
      behind (c ∷ front) r l v t back =
          rw (read_line-append Api c front r (kept Api x) v back, t)
            (ap (after_torn_write (kept Api x)) l)
