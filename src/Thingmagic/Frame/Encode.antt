-- ===== src/Thingmagic/Frame/Encode.antt =====
-- `encode_command` of crates/splitforge-thingmagic/src/frame.rs writes the command it is given.
use splitforge.Prelude.{
  ℕ, zero, suc, ◌+◌, ◌-◌, ◌/◌, ◌%◌, ◌≤◌, List, [], ◌∷◌, ◌++◌, append_assoc, ◌≡◌, refl, ap, sym,
  subst, ◌∙◌, arith, length, length-append, drop, drop-append, drop-drop, done, slice-append, ltb,
  inl, inr, Bool-cases, if◌then◌else◌, leb, true,
}
use splitforge.Prelude.Bits.Masks.{mask_byte}
use splitforge.Thingmagic.Crc.{crc16}
use splitforge.Prelude.{Result, ok, err}
use splitforge.Thingmagic.Frame.{
  EncodeError, command_too_long, buffer_too_small, soh, max_command_data_len, store,
  copy_from_slice, write_command, encode_command,
}
use splitforge.Thingmagic.Frame.Decode.{split_pair}

store-append :
    (pre : List ℕ) (x : ℕ) (post : List ℕ) (i byte : ℕ)
    → i ≡ length pre
    → store (pre ++ x ∷ post) i byte ≡ done (pre ++ byte ∷ post)
unfolding store
store-append [] x post zero byte h = refl
store-append [] x post (suc i) byte h = absurd (omega arith)
store-append (y ∷ pre) x post zero byte h = absurd (omega arith)
store-append (y ∷ pre) x post (suc i) byte h = rw (store-append pre x post i byte (omega arith))

store-append_suc :
    (pre : List ℕ) (x y : ℕ) (post : List ℕ) (i byte : ℕ)
    → i ≡ suc (length pre)
    → store (pre ++ x ∷ y ∷ post) i byte ≡ done (pre ++ x ∷ byte ∷ post)
unfolding store
store-append_suc [] x y post zero byte h = absurd (omega arith)
store-append_suc [] x y post (suc i) byte h = rw (store-append [] y post i byte (omega arith))
store-append_suc (z ∷ pre) x y post zero byte h = absurd (omega arith)
store-append_suc (z ∷ pre) x y post (suc i) byte h =
    rw (store-append_suc pre x y post i byte (omega arith))

copy_from_slice-append :
    (pre mid post bytes : List ℕ) (i : ℕ)
    → i ≡ length pre
    → length mid ≡ length bytes
    → copy_from_slice (pre ++ (mid ++ post)) i bytes ≡ done (pre ++ (bytes ++ post))
unfolding copy_from_slice
copy_from_slice-append pre [] post [] i h k = rw fits
  where
    fits : leb i (length (pre ++ post)) ≡ true
    fits = ground (arith, length-append pre post)
copy_from_slice-append pre [] post (b ∷ bytes) i h k = absurd (omega arith)
copy_from_slice-append pre (m ∷ mid) post [] i h k = absurd (omega arith)
copy_from_slice-append pre (m ∷ mid) post (b ∷ bytes) i h k =
    rw (store-append pre m (mid ++ post) i b h, ← append_assoc pre (b ∷ []) (mid ++ post))
      (copy_from_slice-append (pre ++ b ∷ []) mid post bytes (i + 1)
          (omega (arith, length-append pre (b ∷ []))) (omega arith)
        ∙ ap done (append_assoc pre (b ∷ []) (bytes ++ post)))

-- A command as the layout at the head of frame.rs draws it.
abbrev pub command_body : ℕ → List ℕ → List ℕ
command_body opcode payload = length payload ∷ opcode ∷ payload

abbrev pub command_frame : ℕ → List ℕ → List ℕ
command_frame opcode payload =
    soh ∷ command_body opcode payload
    ++ crc16 (command_body opcode payload) / 256 ∷ crc16 (command_body opcode payload) % 256 ∷ []

write_command_parts :
    (opcode : ℕ) (payload : List ℕ) (a b c : ℕ) (mid : List ℕ) (p q : ℕ) (post : List ℕ)
    → length mid ≡ length payload
    → length payload ≤ max_command_data_len
    → write_command opcode payload (a ∷ b ∷ c ∷ mid ++ p ∷ q ∷ post) (3 + length payload + 2)
      ≡ done (command_frame opcode payload ++ post)
unfolding write_command
write_command_parts opcode payload a b c mid p q post h k =
    rw
      (
        store-append [] a (b ∷ c ∷ mid ++ p ∷ q ∷ post) 0 soh refl,
        store-append (soh ∷ []) b (c ∷ mid ++ p ∷ q ∷ post) 1 (length payload % 256) refl,
        store-append (soh ∷ length payload % 256 ∷ []) c (mid ++ p ∷ q ∷ post) 2 opcode refl,
        copy_from_slice-append (soh ∷ length payload % 256 ∷ opcode ∷ []) mid (p ∷ q ∷ post) payload
            3 refl h,
        slice-append (soh ∷ []) (length payload % 256 ∷ opcode ∷ payload) (p ∷ q ∷ post) 1
            (3 + length payload + 2 - 2) refl (omega arith),
        store-append (soh ∷ length payload % 256 ∷ opcode ∷ payload) p (q ∷ post)
            (3 + length payload + 2 - 2) _ (omega arith),
        store-append_suc (soh ∷ length payload % 256 ∷ opcode ∷ payload) _ q post
            (3 + length payload + 2 - 1) _ (omega arith),
        small,
        mask_byte,
      )
      (ap done (
        sym (
          append_assoc (soh ∷ command_body opcode payload)
            (crc16 (command_body opcode payload) / 256
              ∷ crc16 (command_body opcode payload) % 256
              ∷ [])
            post)))
  where
    small : length payload % 256 ≡ length payload
    small = omega arith

write_command_lem :
    (opcode : ℕ) (payload out : List ℕ)
    → length payload ≤ max_command_data_len
    → 3 + length payload + 2 ≤ length out
    → write_command opcode payload out (3 + length payload + 2)
      ≡ done (command_frame opcode payload ++ drop (3 + length payload + 2) out)
write_command_lem opcode payload [] h k = absurd (omega arith)
write_command_lem opcode payload (a ∷ []) h k = absurd (omega arith)
write_command_lem opcode payload (a ∷ b ∷ []) h k = absurd (omega arith)
write_command_lem opcode payload (a ∷ b ∷ c ∷ tail) h k =
    let (mid, p, q, post, e, n) = split_pair (length payload) tail (omega arith) in
    rw e (
      write_command_parts opcode payload a b c mid p q post (sym n) h
      ∙ ap (λ (t : List ℕ). done (command_frame opcode payload ++ t))
          (sym (drop_prefix (a ∷ b ∷ c ∷ mid) p q post (3 + length payload + 2) (omega arith))))
  where
    drop_prefix :
        (pre : List ℕ) (p q : ℕ) (post : List ℕ) (n : ℕ)
        → n ≡ length pre + 2
        → drop n (pre ++ p ∷ q ∷ post) ≡ post
    drop_prefix pre p q post n h =
        sym (drop-drop 2 (length pre) n _ h) ∙ ap (drop 2) (drop-append pre (p ∷ q ∷ post))

-- What there is to say of a command whose frame has `n` bytes.
abbrev pub command_result : ℕ → List ℕ → List ℕ → ℕ → Result (List ℕ × ℕ) EncodeError
command_result opcode payload out n =
    if ltb max_command_data_len (length payload)
    then err (command_too_long (length payload))
    else if ltb (length out) n
    then err (buffer_too_small n (length out))
    else ok (command_frame opcode payload ++ drop n out, n)

pub length-command_frame :
    (opcode : ℕ) (payload : List ℕ) → length (command_frame opcode payload) ≡ 3 + length payload + 2
length-command_frame opcode payload = omega (
  arith,
  length-append payload
      (crc16 (command_body opcode payload) / 256 ∷ crc16 (command_body opcode payload) % 256 ∷ []),
)

encode_command_sized :
    (opcode : ℕ) (payload out : List ℕ)
    → encode_command opcode payload out
      ≡ done (command_result opcode payload out (3 + length payload + 2))
unfolding encode_command
encode_command_sized opcode payload out =
    elim (Bool-cases (ltb max_command_data_len (length payload))) [
      | inl long ↦ rw long
      | inr fits ↦ rw fits (elim (Bool-cases (ltb (length out) (3 + length payload + 2))) [
        | inl few ↦ rw few
        | inr room ↦
            rw room (rw (write_command_lem opcode payload out (ground arith) (ground arith)))
      ])
    ]

-- `encode_command` never panics. It refuses data that is too long and a buffer that is too short,
-- each with the two sizes, and otherwise it writes exactly the command's frame at the front of the
-- buffer, leaves the bytes behind it as they were, and returns the frame's length.
pub encode_command-command_frame :
    (opcode : ℕ) (payload out : List ℕ)
    → encode_command opcode payload out
      ≡ done (command_result opcode payload out (length (command_frame opcode payload)))
encode_command-command_frame opcode payload out =
    subst
      (λ (n : ℕ). encode_command opcode payload out ≡ done (command_result opcode payload out n))
      (sym (length-command_frame opcode payload)) (encode_command_sized opcode payload out)
