-- ===== src/Thingmagic/Start/Order.antt =====
-- What a start sequence of crates/splitforge-thingmagic/src/start.rs sends, and what its answers were.
use splitforge.Prelude.{
  ℕ, zero, suc, ◌+◌, ◌≤◌, ◌<◌, true, false, not, ◌&&◌, List, [], ◌∷◌, ◌++◌, map, Option, none, some,
  length, get_elem?, take, take-append, drop, ◌≡◌, refl, ap, sym, subst, ◌∙◌, arith, Run, done,
  ◌>>=◌, Result, ok, err, All, inl, inr, ◌⊎◌,
}
use splitforge.Thingmagic.Frame.{Response, EncodeError, is_ok, max_frame_len}
use splitforge.Thingmagic.Frame.Encode.{length-command_frame}
use splitforge.Thingmagic.Command.{Command, body_of, encode, fill}
use splitforge.Thingmagic.Command.Codes.{to_byte}
use splitforge.Thingmagic.Command.Frames.{frame_of, encode-frame_of}
use splitforge.Thingmagic.Start.{
  Step, Starting, Progress, waiting, started, refused, IoError, not_written, answer_timeout,
  send_step, transmit,
}

some_inj : {A : Type 0} {a b : A} → some a ≡ some b → a ≡ b
some_inj h = cc

abbrev pub Fits : Step → Type 0
Fits step = length (body_of step.command) ≤ 16

abbrev pub frames : List Step → List (List ℕ)
frames steps = map (λ (step : Step). frame_of step.command) steps

-- What lets a step be passed: an answer to its command that is a success if it has to be, or no answer if none is needed.
abbrev pub Vouch : Step → Option Response → Type 0
Vouch step none = step.must_succeed ≡ false
Vouch step (some r) =
    (r.opcode ≡ to_byte step.command.opcode) × ((step.must_succeed && not (is_ok r)) ≡ false)

abbrev pub Vouched : List Step → List (Option Response) → Type 0
Vouched [] [] = Unit
Vouched [] (o ∷ passed) = ⊥
Vouched (step ∷ steps) [] = ⊥
Vouched (step ∷ steps) (o ∷ passed) = Vouch step o × Vouched steps passed

-- Waiting for the answer to the command that was sent last.
pub record IsUnderway (all : List Step) (s : Starting) (sent : List (List ℕ))
    (passed : List (Option Response)) : Type 0 where
  pub steps_kept : s.steps ≡ all
  pub in_order : sent ≡ take (suc s.next) (frames all)
  pub vouched : Vouched (take s.next all) passed
  pub within : s.next < length all
  pub is_awaited : (t : ℕ) × (s.deadline ≡ some t)

-- What was sent of the first commands: of each its frame, or nothing if it was not written.
pub data Skips (all : List Step) : ℕ → List (List ℕ) → Type 0 where
  nothing : Skips all 0 []
  framed :
      {k : ℕ} {sent : List (List ℕ)} (step : Step)
      → get_elem? all k ≡ some step
      → Skips all k sent
      → Skips all (suc k) (sent ++ frame_of step.command ∷ [])
  skipped : {k : ℕ} {sent : List (List ℕ)} → Skips all k sent → Skips all (suc k) sent

-- Behind a write that failed
pub record IsSkipping (all : List Step) (s : Starting) (sent : List (List ℕ))
    (passed : List (Option Response)) : Type 0 where
  pub steps_kept : s.steps ≡ all
  pub vouched : Vouched (take s.next all) passed
  pub within : s.next ≤ length all
  pub reached : ℕ
  pub in_sequence : reached ≤ length all
  pub skips : Skips all reached sent
  pub here : (reached ≡ suc s.next) ⊎ (s.deadline ≡ none)

-- What there is to say of each progress, if each write succeeded and if one did not.
abbrev pub Holds :
    List Step
    → Result Unit IoError
    → Progress
    → Starting
    → List (List ℕ)
    → List (Option Response)
    → Type 0
Holds all (ok u) waiting s sent passed = IsUnderway all s sent passed
Holds all (ok u) (refused why) s sent passed = IsUnderway all s sent passed
Holds all (ok u) started s sent passed =
    (sent ≡ frames all) × Vouched all passed × (s.deadline ≡ none)
Holds all (err e) progress s sent passed = IsSkipping all s sent passed

pub get_elem?-cases :
    {A : Type 0} (xs : List A) (k : ℕ)
    → k ≤ length xs
    → ((k ≡ length xs) × (get_elem? xs k ≡ none))
      ⊎ ((x : A) × (get_elem? xs k ≡ some x)
          × (k < length xs)
          × (take (suc k) xs ≡ take k xs ++ x ∷ []))
get_elem?-cases [] k h = inl (omega arith, refl)
get_elem?-cases (x ∷ xs) zero h = inr (x, refl, omega arith, refl)
get_elem?-cases (x ∷ xs) (suc k) h = elim (get_elem?-cases xs k (omega arith)) [
  | inl (e, q) ↦ inl (omega arith, q)
  | inr (y, q, l, t) ↦ inr (y, q, omega arith, ap (◌∷◌ x) t)
]

pub take-length : {A : Type 0} (xs : List A) (k : ℕ) → k ≡ length xs → take k xs ≡ xs
take-length [] zero h = refl
take-length [] (suc k) h = refl
take-length (x ∷ xs) zero h = absurd (omega arith)
take-length (x ∷ xs) (suc k) h = ap (◌∷◌ x) (take-length xs k (omega arith))

take-map : {A B : Type 0} (f : A → B) (k : ℕ) (xs : List A) → take k (map f xs) ≡ map f (take k xs)
take-map f zero xs = refl
take-map f (suc k) [] = refl
take-map f (suc k) (x ∷ xs) = ap (◌∷◌ (f x)) (take-map f k xs)

map-snoc :
    {A B : Type 0} (f : A → B) (xs : List A) (x : A) → map f (xs ++ x ∷ []) ≡ map f xs ++ f x ∷ []
map-snoc f [] x = refl
map-snoc f (y ∷ xs) x = ap (◌∷◌ (f y)) (map-snoc f xs x)

pub length-map_frames : (all : List Step) → length (frames all) ≡ length all
length-map_frames [] = refl
length-map_frames (step ∷ all) = ap (λ (n : ℕ). suc n) (length-map_frames all)

-- One more frame of the sequence.
pub frames-take-suc :
    (all : List Step) (k : ℕ) (step : Step)
    → take (suc k) all ≡ take k all ++ step ∷ []
    → take (suc k) (frames all) ≡ take k (frames all) ++ frame_of step.command ∷ []
frames-take-suc all k step e =
    take-map (λ (s : Step). frame_of s.command) (suc k) all
    ∙ ap frames e
    ∙ map-snoc (λ (s : Step). frame_of s.command) (take k all) step
    ∙ ap (λ (t : List (List ℕ)). t ++ frame_of step.command ∷ [])
        (sym (take-map (λ (s : Step). frame_of s.command) k all))

pub All-get_elem? :
    {A : Type 0} (P : A → Type 0) (xs : List A) (k : ℕ) (x : A)
    → All P xs
    → get_elem? xs k ≡ some x
    → P x
All-get_elem? P [] k x h e = absurd cc
All-get_elem? P (y ∷ xs) zero x (h, l) e = subst P (some_inj e) h
All-get_elem? P (y ∷ xs) (suc k) x (h, l) e = All-get_elem? P xs k x l e

pub Vouched-snoc :
    (steps : List Step) (passed : List (Option Response)) (step : Step) (o : Option Response)
    → Vouched steps passed
    → Vouch step o
    → Vouched (steps ++ step ∷ []) (passed ++ o ∷ [])
Vouched-snoc [] [] step o h v = (v, tt)
Vouched-snoc [] (p ∷ passed) step o h v = absurd h
Vouched-snoc (s ∷ steps) [] step o h v = absurd h
Vouched-snoc (s ∷ steps) (p ∷ passed) step o (h, l) v = (h, Vouched-snoc steps passed step o l v)

length-fill : (n : ℕ) → length (fill n []) ≡ n
unfolding fill
length-fill zero = refl
length-fill (suc n) = ap (λ (k : ℕ). suc k) (length-fill n)

encode_zeros :
    (step : Step)
    → Fits step
    → encode step.command (fill max_frame_len [])
      ≡ done (
          ok (
            frame_of step.command
                ++ drop (3 + length (body_of step.command) + 2) (fill max_frame_len []),
            3 + length (body_of step.command) + 2,
          ))
encode_zeros step h =
    encode-frame_of step.command (fill max_frame_len []) h
      (omega (arith, length-fill max_frame_len))

take_frame :
    (c : Command) (rest : List ℕ)
    → take (3 + length (body_of c) + 2) (frame_of c ++ rest) ≡ frame_of c
take_frame c rest =
    ap (λ (n : ℕ). take n (frame_of c ++ rest))
      (sym (length-command_frame (to_byte c.opcode) (body_of c)))
    ∙ take-append (frame_of c) rest

pub send_step-frame_of :
    (step : Step) (s : Starting) (now : ℕ)
    → Fits step
    → send_step (some step) s true now
      ≡ done (record {
        after = record s { deadline = some (now + answer_timeout) };
        sent = frame_of step.command ∷ [];
        outcome = ok waiting;
      })
unfolding send_step transmit
send_step-frame_of step s now h =
    ap
      (λ (m : Run (Result (List ℕ × ℕ) EncodeError)).
        m >>= λ encoded. done (transmit encoded s true now))
      (encode_zeros step h)
    ∙ ap
        (λ (f : List ℕ). done (record {
          after = record s { deadline = some (now + answer_timeout) };
          sent = f ∷ [];
          outcome = ok waiting;
        }))
        (take_frame step.command _)

pub send_step-not_written :
    (step : Step) (s : Starting) (now : ℕ)
    → Fits step
    → send_step (some step) s false now
      ≡ done (record { after = s; sent = []; outcome = err not_written })
unfolding send_step transmit
send_step-not_written step s now h =
    ap
      (λ (m : Run (Result (List ℕ × ℕ) EncodeError)).
        m >>= λ encoded. done (transmit encoded s false now))
      (encode_zeros step h)
