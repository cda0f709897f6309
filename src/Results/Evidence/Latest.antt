-- ===== src/Results/Evidence/Latest.antt =====
-- `latest_declarations` of crates/splitforge-results/src/lib.rs: the highest sequence is in force.
use splitforge.Prelude.{
  ℕ, ◌≤◌, true, false, List, [], ◌∷◌, ◌++◌, Option, none, some, ltb, ◌≡◌, ◌≢◌, refl, ap, ◌∙◌, sym,
  subst, arith, ◌==◌, if◌then◌else◌, Bool-cases, inl, inr, ◌⊎◌,
}
use splitforge.Prelude.Map.{get, update}
use splitforge.Domain.Outcome.{StatusDeclaration}
use splitforge.Results.Evidence.{newer, latest_declarations}

pub get-update_same :
    {V : Type 0} (k : ℕ) (f : Option V → V) (m : List (ℕ × V))
    → get ltb k (update ltb k f m) ≡ some (f (get ltb k m))
unfolding get update
get-update_same k f [] = ground arith
get-update_same k f ((j, v) ∷ m) = let ih = get-update_same k f m in ground arith

pub get-update_other :
    {V : Type 0} (k j : ℕ) (f : Option V → V) (m : List (ℕ × V))
    → k ≢ j
    → get ltb k (update ltb j f m) ≡ get ltb k m
unfolding get update
get-update_other k j f [] h = ground arith
get-update_other k j f ((i, v) ∷ m) h = let ih = get-update_other k j f m h in ground arith

none-some : {A : Type 0} {a : A} → none ≡ some a → ⊥
none-some h = cc

same : (a b : ℕ) → (a == b) ≡ true → a ≡ b
same a b h = ground arith

differ : (a b : ℕ) → (a == b) ≡ false → b ≢ a
differ a b h = ground arith

equal : (a b : ℕ) → a ≡ b → (a == b) ≡ true
equal a b h = ground arith

module _ {I : Type 0} where
  newer_of :
      (d : StatusDeclaration I) (held : Option (StatusDeclaration I)) (last : StatusDeclaration I)
      → some (newer d held) ≡ some last
      → (d ≡ last) ⊎ (held ≡ some last)
  unfolding newer
  newer_of d none last h = inl cc
  newer_of d (some held) last h = elim (Bool-cases (ltb held.seq d.seq)) [
    | inl e ↦ let q : some d ≡ some last = rw e at h in inl cc
    | inr e ↦ inr (rw e at h)
  ]

  -- The newest of one participant's declarations.
  abbrev newest :
      ℕ → List (StatusDeclaration I) → Option (StatusDeclaration I) → Option (StatusDeclaration I)
  newest p [] held = held
  newest p (d ∷ ds) held = newest p ds (if d.participant == p then some (newer d held) else held)

  latest-newest :
      (p : ℕ) (ds : List (StatusDeclaration I)) (m : List (ℕ × StatusDeclaration I))
      → get ltb p (latest_declarations ds m) ≡ newest p ds (get ltb p m)
  unfolding latest_declarations
  latest-newest p [] m = refl
  latest-newest p (d ∷ ds) m = elim (Bool-cases (d.participant == p)) [
    | inl h ↦ rw h (
        latest-newest p ds (update ltb d.participant (newer d) m)
        ∙ ap (newest p ds) (
            subst (λ (q : ℕ). get ltb p (update ltb q (newer d) m) ≡ some (newer d (get ltb p m)))
              (sym (same d.participant p h)) (get-update_same p (newer d) m)))
    | inr h ↦ rw h (
        latest-newest p ds (update ltb d.participant (newer d) m)
        ∙ ap (newest p ds)
            (get-update_other p d.participant (newer d) m (differ d.participant p h)))
  ]

  newer_le :
      (d : StatusDeclaration I) (held : Option (StatusDeclaration I)) → d.seq ≤ (newer d held).seq
  unfolding newer
  newer_le d none = omega arith
  newer_le d (some held) = ground arith

  newer_held_le : (d held : StatusDeclaration I) → held.seq ≤ (newer d (some held)).seq
  unfolding newer
  newer_held_le d held = ground arith

  -- What is held stays, or something newer takes its place.
  newest_le :
      (p : ℕ) (ds : List (StatusDeclaration I)) (held : StatusDeclaration I)
      → (last : StatusDeclaration I) × (newest p ds (some held) ≡ some last) × (held.seq ≤ last.seq)
  newest_le p [] held = (held, refl, omega arith)
  newest_le p (d ∷ ds) held = elim (Bool-cases (d.participant == p)) [
    | inl h ↦
        let (last, e, l) = newest_le p ds (newer d (some held)) in
        (last, rw h e, omega (arith, newer_held_le d held))
    | inr h ↦ let (last, e, l) = newest_le p ds held in (last, rw h e, l)
  ]

  newest-append_le :
      (p : ℕ) (before : List (StatusDeclaration I)) (d : StatusDeclaration I)
      (after : List (StatusDeclaration I)) (held : Option (StatusDeclaration I))
      → d.participant ≡ p
      → (last : StatusDeclaration I) × (newest p (before ++ d ∷ after) held ≡ some last)
        × (d.seq ≤ last.seq)
  newest-append_le p [] d after held h =
      let (last, e, l) = newest_le p after (newer d held) in
      (last, rw (equal d.participant p h, newest) e, omega (arith, newer_le d held))
  newest-append_le p (b ∷ before) d after held h =
      newest-append_le p before d after (if b.participant == p then some (newer b held) else held) h

  newest_of :
      (p : ℕ) (ds : List (StatusDeclaration I)) (held : Option (StatusDeclaration I))
      (last : StatusDeclaration I)
      → newest p ds held ≡ some last
      → (held ≡ some last)
        ⊎ ((before after : List (StatusDeclaration I)) × (ds ≡ before ++ last ∷ after)
            × (last.participant ≡ p))
  newest_of p [] held last h = inl h
  newest_of p (d ∷ ds) held last h = elim (Bool-cases (d.participant == p)) [
    | inl e ↦ elim (newest_of p ds (some (newer d held)) last (rw e at h)) [
      | inl q ↦ elim (newer_of d held last q) [
        | inl same_one ↦ inr (
          [],
          ds,
          ap (λ (x : StatusDeclaration I). x ∷ ds) same_one,
          subst (λ (x : StatusDeclaration I). x.participant ≡ p) same_one (same d.participant p e),
        )
        | inr old ↦ inl old
      ]
      | inr (before, after, q, o) ↦ inr (d ∷ before, after, ap (◌∷◌ d) q, o)
    ]
    | inr e ↦ elim (newest_of p ds held last (rw e at h)) [
      | inl q ↦ inl q
      | inr (before, after, q, o) ↦ inr (d ∷ before, after, ap (◌∷◌ d) q, o)
    ]
  ]

  -- Of a participant who has a declaration, the one in force is theirs, is among those made, and none of theirs
  -- has a higher sequence.
  pub latest_declarations-highest :
      (before after : List (StatusDeclaration I)) (d : StatusDeclaration I)
      → (last : StatusDeclaration I) × (get ltb d.participant
            (latest_declarations (before ++ d ∷ after) [])
          ≡ some last)
        × (d.seq ≤ last.seq)
        × ((earlier later : List (StatusDeclaration I)) × (before ++ d ∷ after
              ≡ earlier ++ last ∷ later)
            × (last.participant ≡ d.participant))
  unfolding get
  latest_declarations-highest before after d =
      let (last, e, l) = newest-append_le d.participant before d after none refl in
      (
        last,
        latest-newest d.participant (before ++ d ∷ after) [] ∙ e,
        l,
        (elim (newest_of d.participant (before ++ d ∷ after) none last e) [
          | inl q ↦ absurd (none-some q)
          | inr found ↦ found
        ]),
      )
