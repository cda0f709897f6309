-- ===== src/Domain/Gap/Tokens.antt =====
-- The tokens of crates/splitforge-domain/src/gap.rs.
use splitforge.Prelude.{
  ℕ, List, some, none, ◌≡◌, ◌↔◌, refl, subst, ap, sym, ◌∙◌, if◌then◌else◌, Bool-cases, inl, inr,
  ◌⊎◌,
}
use splitforge.Prelude.Text.{codes, ◌=ₜ◌}
use splitforge.Prelude.Text.Trim.{=ₜ_eq}
use splitforge.Domain.Gap.{
  GapDetection, confirmed, suspected, detection_token, parse_detection, GapEdge, opened_edge,
  closed_edge, edge_token, parse_edge,
}

some_inj : {A : Type 0} {a b : A} → some a ≡ some b → a ≡ b
some_inj h = cc

-- A choice between two tokens finds the one that a token equals.
two_tokens :
    {A : Type 0} (token one other : List ℕ) (a b c : A)
    → (if token =ₜ one then some a else if token =ₜ other then some b else none) ≡ some c
    → ((token ≡ one) × (a ≡ c)) ⊎ ((token ≡ other) × (b ≡ c))
two_tokens token one other a b c h = elim (Bool-cases (token =ₜ one)) [
  | inl e ↦ inl (=ₜ_eq token one e, some_inj (rw e at h))
  | inr n ↦ elim (Bool-cases (token =ₜ other)) [
    | inl e ↦ inr (=ₜ_eq token other e, some_inj (rw (n, e) at h))
    | inr m ↦ absurd (none_some c (rw (n, m) at h))
  ]
]
  where
    none_some : {A : Type 0} (c : A) → none ≡ some c → ⊥
    none_some c h = cc

-- A token is read as a kind of gap, or an edge of one, exactly if it is what is stored for it.
pub parse_iff :
    (token : List ℕ)
    → ((d : GapDetection) → (parse_detection token ≡ some d) ↔ (detection_token d ≡ token))
      × ((e : GapEdge) → (parse_edge token ≡ some e) ↔ (edge_token e ≡ token))
unfolding parse_detection detection_token parse_edge edge_token ◌=ₜ◌
parse_iff token = (
  λ d. (
    λ h. elim (two_tokens token (codes "confirmed") (codes "suspected") confirmed suspected d h) [
      | inl (t, q) ↦ ap detection_token (sym q) ∙ sym t
      | inr (t, q) ↦ ap detection_token (sym q) ∙ sym t
    ],
    λ h. subst (λ (t : List ℕ). parse_detection t ≡ some d) h (detection_parsed d),
  ),
  λ e. (
    λ h. elim (two_tokens token (codes "opened") (codes "closed") opened_edge closed_edge e h) [
      | inl (t, q) ↦ ap edge_token (sym q) ∙ sym t
      | inr (t, q) ↦ ap edge_token (sym q) ∙ sym t
    ],
    λ h. subst (λ (t : List ℕ). parse_edge t ≡ some e) h (edge_parsed e),
  ),
)
  where
    detection_parsed : (d : GapDetection) → parse_detection (detection_token d) ≡ some d
    detection_parsed confirmed = refl
    detection_parsed suspected = refl

    edge_parsed : (e : GapEdge) → parse_edge (edge_token e) ≡ some e
    edge_parsed opened_edge = refl
    edge_parsed closed_edge = refl
