-- ===== src/Engine/Bursts/Cuts.antt =====
-- Where `split_into_bursts` of crates/splitforge-engine/src/lib.rs cuts.
use splitforge.Prelude.{
  ℕ, true, false, List, [], ◌∷◌, ◌++◌, append_assoc, some, ◌≡◌, refl, ap, ◌∙◌, Bool-cases, inl, inr,
}
use splitforge.Domain.Time.{TimeApi}
use splitforge.Domain.Event.{StoredRawRead}
use splitforge.Engine.Bursts.{at_of, push_burst, split_loop, split_into_bursts}

module _ (T : TimeApi) (window : ℕ) where
  open T use {Instant, longer_than}

  -- The reads behind one read, cut into what belongs to its burst and the bursts that follow: two
  -- neighbours are in one burst exactly when they are no further apart than the window.
  pub data Cut
      : StoredRawRead Instant
        → List (StoredRawRead Instant)
        → List (StoredRawRead Instant)
        → List (List (StoredRawRead Instant))
        → Type 0 where
    ends : {x : StoredRawRead Instant} → Cut x [] [] []
    joins :
        {x y : StoredRawRead Instant} {reads burst : List (StoredRawRead Instant)}
        {bursts : List (List (StoredRawRead Instant))}
        → longer_than (at_of x) (at_of y) window ≡ false
        → Cut y reads burst bursts
        → Cut x (y ∷ reads) (y ∷ burst) bursts
    parts :
        {x y : StoredRawRead Instant} {reads burst : List (StoredRawRead Instant)}
        {bursts : List (List (StoredRawRead Instant))}
        → longer_than (at_of x) (at_of y) window ≡ true
        → Cut y reads burst bursts
        → Cut x (y ∷ reads) [] ((y ∷ burst) ∷ bursts)

  push_burst-last :
      (bursts : List (List (StoredRawRead Instant))) (current : List (StoredRawRead Instant))
      (x : StoredRawRead Instant)
      → push_burst T bursts (current ++ x ∷ []) ≡ bursts ++ (current ++ x ∷ []) ∷ []
  push_burst-last bursts [] x = refl
  push_burst-last bursts (y ∷ current) x = refl

  split_loop-Cut :
      {x : StoredRawRead Instant} {reads burst : List (StoredRawRead Instant)}
      {bursts : List (List (StoredRawRead Instant))}
      → Cut x reads burst bursts
      → (pushed : List (List (StoredRawRead Instant))) (current : List (StoredRawRead Instant))
      → split_loop T reads window pushed (current ++ x ∷ []) (some (at_of x))
        ≡ pushed ++ (current ++ x ∷ burst) ∷ bursts
  unfolding split_loop
  split_loop-Cut {x} ends pushed current = push_burst-last pushed current x
  split_loop-Cut {x} (joins {y} {reads} {burst} {bursts} h c) pushed current = rw h (
      split_loop-Cut c pushed (current ++ x ∷ [])
      ∙ ap (λ (b : List (StoredRawRead Instant)). pushed ++ b ∷ bursts)
          (append_assoc current (x ∷ []) (y ∷ burst)))
  split_loop-Cut {x} (parts {y} {reads} {burst} {bursts} h c) pushed current =
      rw (h, push_burst-last pushed current x)
        (split_loop-Cut c (pushed ++ (current ++ x ∷ []) ∷ []) []
          ∙ append_assoc pushed ((current ++ x ∷ []) ∷ []) ((y ∷ burst) ∷ bursts))

  Cut-total :
      (x : StoredRawRead Instant) (reads : List (StoredRawRead Instant))
      → (burst : List (StoredRawRead Instant)) × (rest : List (List (StoredRawRead Instant))) × Cut
          x reads burst rest
  Cut-total x [] = ([], [], ends)
  Cut-total x (y ∷ reads) =
      let (burst, rest, c) = Cut-total y reads in
      elim (Bool-cases (longer_than (at_of x) (at_of y) window)) [
        | inl h ↦ ([], (y ∷ burst) ∷ rest, parts h c)
        | inr h ↦ (y ∷ burst, rest, joins h c)
      ]

  -- The bursts of one read and more, in the order they are in, are the reads cut where two neighbours
  -- are further apart than the window, and nowhere else.
  pub split_into_bursts-Cut :
      (x : StoredRawRead Instant) (reads : List (StoredRawRead Instant))
      → (burst : List (StoredRawRead Instant)) × (rest : List (List (StoredRawRead Instant))) × Cut
          x reads burst rest
        × (split_into_bursts T (x ∷ reads) window ≡ (x ∷ burst) ∷ rest)
  unfolding split_into_bursts split_loop
  split_into_bursts-Cut x reads =
      let (burst, rest, c) = Cut-total x reads in (burst, rest, c, split_loop-Cut c [] [])
