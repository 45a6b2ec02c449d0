-- ===== src/IabParser.antt =====
-- iabparser/iabparser.go: the lists of robots and of browsers, line by line. A text is the list of its
-- bytes. What the code calls of packages strings and time is the parameter `Texts`; the lines of the
-- scanner, and whether it ends with a read error, are arguments.
pub mod Scan
pub mod Lines
mod Tests
use rudder_go_kit.Prelude.{
  ℕ, zero, suc, ◌+◌, Bool, true, false, ◌||◌, List, [], ◌∷◌, ◌++◌, Option, none, some,
  if◌then◌else◌, ◌==◌,
}

-- `strings.TrimSpace`, `strings.Split` by "|" and by ", ", and `time.Parse` of a mm/dd/yyyy date.
pub record Texts : Type 0 where
  pub trim_space : List ℕ → List ℕ
  pub split_fields : List ℕ → List (List ℕ)
  pub split_exceptions : List ℕ → List (List ℕ)
  pub parse_date : List ℕ → Option ℕ

pub data Result (E A : Type 0) : Type 0 where
  ok : A → Result E A
  err : E → Result E A

-- The errors of a line: a wrong number of fields, an empty pattern, or the number of a wrong field and
-- its text.
pub data LineError : Type 0 where
  field_count : ℕ → LineError
  empty_pattern : LineError
  bad_field : ℕ → List ℕ → LineError

pub data ScanError : Type 0 where
  at_line : ℕ → LineError → ScanError
  reading : ScanError

pub record BlacklistEntry : Type 0 where
  pub pattern_text : List ℕ
  pub active : Bool
  pub exceptions : List (List ℕ)
  pub dual_pass_flag : ℕ
  pub impact_type : ℕ
  pub start_of_string : Bool
  pub inactive_date : ℕ

pub record WhitelistEntry : Type 0 where
  pub pattern_text : List ℕ
  pub active : Bool
  pub start_of_string : Bool
  pub inactive_date : ℕ

unfoldable pub and_then : {E A B : Type 0} → Result E A → (A → Result E B) → Result E B
and_then (ok x) f = f x
and_then (err e) f = err e

unfoldable pub parse_binary_flag : ℕ → List ℕ → Result LineError Bool
parse_binary_flag i (c ∷ []) =
    if c == 48 then ok false else if c == 49 then ok true else err (bad_field i (c ∷ []))
parse_binary_flag i s = err (bad_field i s)

unfoldable pub parse_dual_pass_flag : List ℕ → Result LineError ℕ
parse_dual_pass_flag (c ∷ []) =
    if c == 48 then ok 0 else if c == 49 then ok 1 else err (bad_field 4 (c ∷ []))
parse_dual_pass_flag s = err (bad_field 4 s)

unfoldable pub parse_impact_type : List ℕ → Result LineError ℕ
parse_impact_type (c ∷ []) =
    if c == 48
    then ok 0
    else if c == 49
    then ok 1
    else if c == 50
    then ok 2
    else err (bad_field 5 (c ∷ []))
parse_impact_type s = err (bad_field 5 s)

module _ (texts : Texts) where
  -- The zero time stands for no date.
  unfoldable pub parse_inactive_date : ℕ → List ℕ → Result LineError ℕ
  parse_inactive_date i [] = ok 0
  parse_inactive_date i (c ∷ s) = elim (texts.parse_date (c ∷ s)) [
    | none ↦ err (bad_field i (c ∷ s))
    | some t ↦ ok t
  ]

  unfoldable pub parse_exceptions : List ℕ → List (List ℕ)
  parse_exceptions [] = []
  parse_exceptions (c ∷ s) = texts.split_exceptions (c ∷ s)

  unfoldable pub blacklist_entry :
      List ℕ → List ℕ → List ℕ → List ℕ → List ℕ → List ℕ → List ℕ → Result LineError BlacklistEntry
  blacklist_entry [] f2 f3 f4 f5 f6 f7 = err empty_pattern
  blacklist_entry (c ∷ s) f2 f3 f4 f5 f6 f7 = and_then (parse_binary_flag 2 f2) λ active.
      and_then (parse_dual_pass_flag f4) λ dual_pass. and_then (parse_impact_type f5) λ impact.
        and_then (parse_binary_flag 6 f6) λ start. and_then (parse_inactive_date 7 f7) λ date.
          ok (record {
            pattern_text = c ∷ s;
            active = active;
            exceptions = parse_exceptions f3;
            dual_pass_flag = dual_pass;
            impact_type = impact;
            start_of_string = start;
            inactive_date = date;
          })

  unfoldable pub count_fields : List (List ℕ) → ℕ
  count_fields [] = 0
  count_fields (f ∷ fs) = suc (count_fields fs)

  -- A line with no seventh field has no date, as one with an empty seventh field.
  unfoldable pub blacklist_fields : List (List ℕ) → Result LineError BlacklistEntry
  blacklist_fields (a ∷ b ∷ c ∷ d ∷ e ∷ f ∷ []) = blacklist_entry a b c d e f []
  blacklist_fields (a ∷ b ∷ c ∷ d ∷ e ∷ f ∷ g ∷ []) = blacklist_entry a b c d e f g
  blacklist_fields fs = err (field_count (count_fields fs))

  unfoldable pub parse_blacklist_line : List ℕ → Result LineError BlacklistEntry
  parse_blacklist_line line = blacklist_fields (texts.split_fields line)

  unfoldable pub whitelist_entry :
      List ℕ → List ℕ → List ℕ → List ℕ → Result LineError WhitelistEntry
  whitelist_entry [] f2 f3 f4 = err empty_pattern
  whitelist_entry (c ∷ s) f2 f3 f4 = and_then (parse_binary_flag 2 f2) λ active.
      and_then (parse_binary_flag 3 f3) λ start. and_then (parse_inactive_date 4 f4) λ date.
        ok (record {
          pattern_text = c ∷ s;
          active = active;
          start_of_string = start;
          inactive_date = date;
        })

  unfoldable pub whitelist_fields : List (List ℕ) → Result LineError WhitelistEntry
  whitelist_fields (a ∷ b ∷ c ∷ []) = whitelist_entry a b c []
  whitelist_fields (a ∷ b ∷ c ∷ d ∷ []) = whitelist_entry a b c d
  whitelist_fields fs = err (field_count (count_fields fs))

  unfoldable pub parse_whitelist_line : List ℕ → Result LineError WhitelistEntry
  parse_whitelist_line line = whitelist_fields (texts.split_fields line)

  -- A blank line, or one that starts with "#".
  abbrev is_comment : List ℕ → Bool
  is_comment [] = true
  is_comment (c ∷ s) = c == 35

  unfoldable pub should_skip_line : List ℕ → Bool
  should_skip_line line = is_comment (texts.trim_space line)

  module _ {T : Type 0} (read_error : Bool) (parse_line : List ℕ → Result LineError T)
      (collect : Bool) where
    -- The loop of `scanLines`, after `line_num` lines.
    unfoldable pub scan_from : ℕ → List T → List (List ℕ) → Result ScanError (List T)
    scan_from line_num entries [] = if read_error then err reading else ok entries
    scan_from line_num entries (line ∷ lines) = elim (should_skip_line line) [
      | true ↦ scan_from (line_num + 1) entries lines
      | false ↦ elim (parse_line line) [
        | err e ↦ err (at_line (line_num + 1) e)
        | ok x ↦ scan_from (line_num + 1) (if collect then entries ++ x ∷ [] else entries) lines
      ]
    ]

  module _ {T : Type 0} (read_error : Bool) (parse_line : List ℕ → Result LineError T) where
    unfoldable pub scan_lines : Bool → List (List ℕ) → Result ScanError (List T)
    scan_lines collect lines = scan_from read_error parse_line collect 0 [] lines

    unfoldable pub parse_lines : List (List ℕ) → Result ScanError (List T)
    parse_lines lines = scan_lines true lines

    -- `none` is no error.
    unfoldable pub validate_lines : List (List ℕ) → Option ScanError
    validate_lines lines = elim (scan_lines false lines) [ ok xs ↦ none | err e ↦ some e ]

  unfoldable parse_blacklist : Bool → List (List ℕ) → Result ScanError (List BlacklistEntry)
  parse_blacklist read_error lines = parse_lines read_error parse_blacklist_line lines

  unfoldable validate_blacklist : Bool → List (List ℕ) → Option ScanError
  validate_blacklist read_error lines = validate_lines read_error parse_blacklist_line lines

  unfoldable parse_whitelist : Bool → List (List ℕ) → Result ScanError (List WhitelistEntry)
  parse_whitelist read_error lines = parse_lines read_error parse_whitelist_line lines

  unfoldable validate_whitelist : Bool → List (List ℕ) → Option ScanError
  validate_whitelist read_error lines = validate_lines read_error parse_whitelist_line lines
