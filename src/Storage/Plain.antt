-- ===== src/Storage/Plain.antt =====
-- A stand-in for the crates that crates/splitforge-storage/src/sidecar.rs uses, for the examples: a
-- text of numbers for JSON, and a sum for the digest. It satisfies the laws that are asked of them.
use splitforge.Prelude.{
  ℕ, zero, suc, ◌+◌, ◌-◌, ◌%◌, ◌≡◌, refl, ap, ◌∙◌, true, false, List, [], ◌∷◌, Option, none, some,
  ◌==◌, if◌then◌else◌, length, All, arith, and_then,
}
use splitforge.Prelude.Int.{ℤ, pos, negsuc}
use splitforge.Storage.Record.{SidecarRecord, SidecarApi, floor_micros, micros_nanos}

abbrev pub IsOther : ℕ → Type 0
IsOther c = (c == 10) ≡ false

pub record Coder (A : Type 0) : Type 0 where
  pub print : A → List ℕ → List ℕ
  pub parse : List ℕ → Option (A × List ℕ)
  pub parses : (a : A) (rest : List ℕ) → parse (print a rest) ≡ some (a, rest)
  pub plain : (a : A) (rest : List ℕ) → All IsOther rest → All IsOther (print a rest)

pub other_number : (n : ℕ) → IsOther (n + 11)
other_number n = ground arith

abbrev parse_number : List ℕ → Option (ℕ × List ℕ)
parse_number [] = none
parse_number (c ∷ text) = some (c - 11, text)

abbrev number : Coder ℕ
number = record {
  print = λ n rest. (n + 11) ∷ rest;
  parse = parse_number;
  parses = λ n rest. ap (λ (m : ℕ). some (m, rest)) (omega arith);
  plain = λ n rest h. (other_number n, h);
}

abbrev pub print_items : List ℕ → List ℕ → List ℕ
print_items [] rest = rest
print_items (n ∷ items) rest = (n + 11) ∷ print_items items rest

abbrev pub parse_items : ℕ → List ℕ → Option (List ℕ × List ℕ)
parse_items zero text = some ([], text)
parse_items (suc n) [] = none
parse_items (suc n) (c ∷ text) = and_then (parse_items n text) λ x. some (((c - 11) ∷ x.0, x.1))

pub parse_items-print :
    (items rest : List ℕ) → parse_items (length items) (print_items items rest) ≡ some (items, rest)
parse_items-print [] rest = refl
parse_items-print (n ∷ items) rest =
    rw (parse_items-print items rest) (ap (λ (m : ℕ). some (m ∷ items, rest)) (omega arith))

pub print_items-All :
    (items rest : List ℕ) → All IsOther rest → All IsOther (print_items items rest)
print_items-All [] rest h = h
print_items-All (n ∷ items) rest h = (ground arith, print_items-All items rest h)

abbrev parse_counted : List ℕ → Option (List ℕ × List ℕ)
parse_counted [] = none
parse_counted (c ∷ text) = parse_items (c - 11) text

abbrev text : Coder (List ℕ)
text = record {
  print = λ items rest. (length items + 11) ∷ print_items items rest;
  parse = parse_counted;
  parses = λ items rest.
      ap (λ (n : ℕ). parse_items n (print_items items rest)) (omega arith)
      ∙ parse_items-print items rest;
  plain = λ items rest h. (other_number (length items), print_items-All items rest h);
}

abbrev pub print_integer : ℤ → List ℕ → List ℕ
print_integer (pos n) rest = 11 ∷ (n + 11) ∷ rest
print_integer (negsuc n) rest = 12 ∷ (n + 11) ∷ rest

abbrev pub parse_integer : List ℕ → Option (ℤ × List ℕ)
parse_integer (s ∷ c ∷ text) = some (if s == 11 then pos (c - 11) else negsuc (c - 11), text)
parse_integer (s ∷ []) = none
parse_integer [] = none

pub integer_parses : (n : ℤ) (rest : List ℕ) → parse_integer (print_integer n rest) ≡ some (n, rest)
integer_parses (pos n) rest = ap (λ (m : ℕ). some (pos m, rest)) (omega arith)
integer_parses (negsuc n) rest = ap (λ (m : ℕ). some (negsuc m, rest)) (omega arith)

pub integer_plain : (n : ℤ) (rest : List ℕ) → All IsOther rest → All IsOther (print_integer n rest)
integer_plain (pos n) rest h = (refl, (ground arith, h))
integer_plain (negsuc n) rest h = (refl, (ground arith, h))

abbrev integer : Coder ℤ
integer = record {
  print = print_integer;
  parse = parse_integer;
  parses = integer_parses;
  plain = integer_plain;
}

module _ {A : Type 0} (c : Coder A) where
  abbrev pub print_option : Option A → List ℕ → List ℕ
  print_option none rest = 11 ∷ rest
  print_option (some a) rest = 12 ∷ c.print a rest

  abbrev pub parse_option : List ℕ → Option (Option A × List ℕ)
  parse_option [] = none
  parse_option (s ∷ text) =
      if s == 11 then some (none, text) else and_then (c.parse text) λ x. some (some x.0, x.1)

  pub option_parses :
      (o : Option A) (rest : List ℕ) → parse_option (print_option o rest) ≡ some (o, rest)
  option_parses none rest = refl
  option_parses (some a) rest = rw (c.parses a rest)

  pub option_plain :
      (o : Option A) (rest : List ℕ) → All IsOther rest → All IsOther (print_option o rest)
  option_plain none rest h = (refl, h)
  option_plain (some a) rest h = (refl, c.plain a rest h)

  abbrev option : Coder (Option A)
  option = record {
    print = print_option;
    parse = parse_option;
    parses = option_parses;
    plain = option_plain;
  }

module _ {A B : Type 0} (c : Coder A) (d : Coder B) where
  abbrev pair : Coder (A × B)
  pair = record {
    print = λ x rest. c.print x.0 (d.print x.1 rest);
    parse = λ text. and_then (c.parse text) λ x. and_then (d.parse x.1) λ y. some ((x.0, y.0), y.1);
    parses = λ x rest. rw (c.parses x.0 (d.print x.1 rest), d.parses x.1 rest);
    plain = λ x rest h. c.plain x.0 _ (d.plain x.1 rest h);
  }

abbrev Parts : Type 0
Parts =
    List ℕ
    × (List ℕ
        × (Option ℕ
            × (List ℕ
                × (Option ℤ
                    × (Option ℕ
                        × (ℤ
                            × (Option ℕ
                                × (Option ℤ
                                    × (List ℕ
                                        × (List ℕ
                                            × (Option (List ℕ)
                                                × (Option ℤ × (List ℕ × (ℤ))))))))))))))

abbrev parts_coder : Coder Parts
parts_coder = pair text (
    pair text (
      pair (option number) (
        pair text (
          pair (option integer) (
            pair (option number) (
              pair integer (
                pair (option number) (
                  pair (option integer) (
                    pair text (
                      pair text
                        (pair (option text) (pair (option integer) (pair text (integer))))))))))))))

abbrev parts : SidecarRecord → Parts
parts r = (
  r.id,
  (
    r.source,
    (
      r.antenna,
      (
        r.chip,
        (
          r.reader_timestamp_us,
          (
            r.reader_uptime_us,
            (
              r.received_at_us,
              (
                r.received_at_monotonic_ns,
                (
                  r.rssi_dbm,
                  (
                    r.device_clock_state,
                    (
                      r.timestamp_source,
                      (
                        r.timestamp_fallback_reason,
                        (r.clock_offset_ms, (r.raw_payload_hex, r.recorded_at_us)),
                      ),
                    ),
                  ),
                ),
              ),
            ),
          ),
        ),
      ),
    ),
  ),
)

abbrev record_of_parts : Parts → SidecarRecord
record_of_parts p = record {
  id = p.0;
  source = p.1.0;
  antenna = p.1.1.0;
  chip = p.1.1.1.0;
  reader_timestamp_us = p.1.1.1.1.0;
  reader_uptime_us = p.1.1.1.1.1.0;
  received_at_us = p.1.1.1.1.1.1.0;
  received_at_monotonic_ns = p.1.1.1.1.1.1.1.0;
  rssi_dbm = p.1.1.1.1.1.1.1.1.0;
  device_clock_state = p.1.1.1.1.1.1.1.1.1.0;
  timestamp_source = p.1.1.1.1.1.1.1.1.1.1.0;
  timestamp_fallback_reason = p.1.1.1.1.1.1.1.1.1.1.1.0;
  clock_offset_ms = p.1.1.1.1.1.1.1.1.1.1.1.1.0;
  raw_payload_hex = p.1.1.1.1.1.1.1.1.1.1.1.1.1.0;
  recorded_at_us = p.1.1.1.1.1.1.1.1.1.1.1.1.1.1;
}

abbrev sum : List ℕ → ℕ
sum [] = 0
sum (n ∷ text) = n + sum text

-- Instants are numbers of nanoseconds.
abbrev pub plain_api : SidecarApi
plain_api = record {
  Instant = ℤ;
  nanos = λ at. at;
  from_nanos = λ n. some n;
  micros = λ at. micros_nanos (floor_micros at);
  from_nanos_micros = λ at. refl;
  nanos_micros = λ at. refl;
  print_uuid = λ id. id ∷ [];
  parse_uuid = λ text. elim text [ [] ↦ none | id ∷ rest ↦ some id ];
  parse_print = λ id. refl;
  to_json = λ r. parts_coder.print (parts r) [];
  from_json = λ text. and_then (parts_coder.parse text) λ x. some (record_of_parts x.0);
  from_to_json = λ r. rw (parts_coder.parses (parts r) []);
  is_utf8 = λ text. true;
  is_utf8_ascii = λ c text h. refl;
  is_utf8_json = λ r. refl;
  one_line_json = λ r. parts_coder.plain (parts r) [] tt;
  sha256 = λ text. (sum text % 256) ∷ [];
  sha256_bytes = λ text. (omega arith, tt);
}
