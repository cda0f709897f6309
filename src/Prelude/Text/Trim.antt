-- ===== src/Prelude/Text/Trim.antt =====
-- Trimming, and comparing texts.
use splitforge.Prelude.{ℕ, true, false, List, [], ◌∷◌, ◌++◌, ◌≡◌, refl, ap, ◌∙◌, arith, All}
use splitforge.Prelude.Text.{is_whitespace, trim_start, trim_end, trim, ◌=ₜ◌}

abbrev pub IsBlank : ℕ → Type 0
IsBlank c = is_whitespace c ≡ true

abbrev pub IsSolid : ℕ → Type 0
IsSolid c = is_whitespace c ≡ false

pub =ₜ_refl : (s : List ℕ) → (s =ₜ s) ≡ true
unfolding ◌=ₜ◌
=ₜ_refl [] = refl
=ₜ_refl (c ∷ s) = let ih = =ₜ_refl s in ground arith

pub =ₜ_eq : (s t : List ℕ) → (s =ₜ t) ≡ true → s ≡ t
unfolding ◌=ₜ◌
=ₜ_eq [] [] h = refl
=ₜ_eq [] (d ∷ t) h = absurd cc
=ₜ_eq (c ∷ s) [] h = absurd cc
=ₜ_eq (c ∷ s) (d ∷ t) h = ground (arith, =ₜ_eq s t)

trim_start-append :
    (pre text : List ℕ) → All IsBlank pre → trim_start (pre ++ text) ≡ trim_start text
unfolding trim_start
trim_start-append [] text h = refl
trim_start-append (c ∷ pre) text (h, k) = rw h (trim_start-append pre text k)

trim_start-cons : (c : ℕ) (text : List ℕ) → IsSolid c → trim_start (c ∷ text) ≡ c ∷ text
unfolding trim_start
trim_start-cons c text h = rw h

trim_end-blank : (post : List ℕ) → All IsBlank post → trim_end post ≡ []
unfolding trim_end
trim_end-blank [] h = refl
trim_end-blank (c ∷ post) (h, k) = rw (trim_end-blank post k, trim_end, h)

pub trim_end-append :
    (text post : List ℕ) → All IsSolid text → All IsBlank post → trim_end (text ++ post) ≡ text
unfolding trim_end
trim_end-append [] post h k = trim_end-blank post k
trim_end-append (c ∷ []) post (h, l) k = rw (trim_end-blank post k, trim_end, h)
trim_end-append (c ∷ d ∷ text) post (h, l) k = rw (trim_end-append (d ∷ text) post l k, trim_end)

pub trim_start-blank : (post : List ℕ) → All IsBlank post → trim_start post ≡ []
unfolding trim_start
trim_start-blank [] h = refl
trim_start-blank (c ∷ post) (h, k) = rw h (trim_start-blank post k)

-- Blanks on both sides of a text without any are dropped.
pub trim-append :
    (pre text post : List ℕ)
    → All IsBlank pre
    → All IsSolid text
    → All IsBlank post
    → trim (pre ++ (text ++ post)) ≡ text
unfolding trim
trim-append pre text post h k l = ap trim_end (trim_start-append pre (text ++ post) h) ∙ rest text k
  where
    rest : (text : List ℕ) → All IsSolid text → trim_end (trim_start (text ++ post)) ≡ text
    rest [] k = ap trim_end (trim_start-blank post l) ∙ trim_end-blank [] tt
    rest (c ∷ text) k =
        ap trim_end (trim_start-cons c (text ++ post) k.0) ∙ trim_end-append (c ∷ text) post k l

trim_end-solid : (text : List ℕ) (c : ℕ) → IsSolid c → trim_end (text ++ c ∷ []) ≡ text ++ c ∷ []
unfolding trim_end
trim_end-solid [] c h = rw h
trim_end-solid (d ∷ []) c h = rw (trim_end-solid [] c h, trim_end)
trim_end-solid (d ∷ e ∷ text) c h = rw (trim_end-solid (e ∷ text) c h, trim_end)

-- A text with no white space at its ends is left as it is.
pub trim-solid :
    (b : ℕ) (text : List ℕ) (c : ℕ)
    → IsSolid b
    → IsSolid c
    → trim (b ∷ text ++ c ∷ []) ≡ b ∷ text ++ c ∷ []
unfolding trim
trim-solid b text c h k =
    ap trim_end (trim_start-cons b (text ++ c ∷ []) h) ∙ trim_end-solid (b ∷ text) c k
