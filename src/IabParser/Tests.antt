-- ===== src/IabParser/Tests.antt =====
-- iabparser/iabparser.go at concrete inputs: a splitting by one byte, and no date or exception.
use rudder_go_kit.Prelude.{
  ℕ, ◌+◌, ◌≡◌, ◌⊎◌, refl, true, false, List, [], ◌∷◌, none, if◌then◌else◌, ◌==◌, All, length,
}
use rudder_go_kit.IabParser.{
  Texts, ok, err, LineError, at_line, empty_pattern, and_then, parse_binary_flag,
  parse_inactive_date, count_fields, whitelist_entry, whitelist_fields, parse_whitelist_line,
  BlacklistEntry, parse_dual_pass_flag, parse_impact_type, parse_exceptions, blacklist_entry,
  blacklist_fields, parse_blacklist_line, should_skip_line, scan_from, scan_lines, parse_lines,
  validate_lines,
}
use rudder_go_kit.IabParser.Scan.{
  error_of, Good, entries_of, FirstBad, validate_lines-parse_lines, parse_lines_complete,
}

prepend : ℕ → List (List ℕ) → List (List ℕ)
prepend c [] = (c ∷ []) ∷ []
prepend c (f ∷ fs) = (c ∷ f) ∷ fs

split_at_bar : List ℕ → List (List ℕ)
split_at_bar [] = [] ∷ []
split_at_bar (c ∷ s) = let rest = split_at_bar s in if c == 124 then [] ∷ rest else prepend c rest

abbrev bars : Texts
bars = record {
  trim_space = λ s. s;
  split_fields = split_at_bar;
  split_exceptions = λ s. s ∷ [];
  parse_date = λ s. none;
}

program : Unit {0}
unfolding prepend split_at_bar and_then parse_binary_flag parse_inactive_date count_fields
    whitelist_entry whitelist_fields parse_whitelist_line should_skip_line scan_from scan_lines
    parse_lines validate_lines entries_of parse_dual_pass_flag parse_impact_type parse_exceptions
    blacklist_entry blacklist_fields parse_blacklist_line
program = tt

-- A comment, "a|1|0", and "|1|0".
abbrev text : List (List ℕ)
text = (35 ∷ []) ∷ (97 ∷ 124 ∷ 49 ∷ 124 ∷ 48 ∷ []) ∷ (124 ∷ 49 ∷ 124 ∷ 48 ∷ []) ∷ []

third_line : parse_lines bars false (parse_whitelist_line bars) text ≡ err (at_line 3 empty_pattern)
unfolding program
third_line = refl

validate_lines-parse_lines_example :
    validate_lines bars false (parse_whitelist_line bars) text
    ≡ error_of (parse_lines bars false (parse_whitelist_line bars) text)
validate_lines-parse_lines_example =
    validate_lines-parse_lines bars false (parse_whitelist_line bars) text

parse_lines_complete_example :
    (All (Good bars (parse_whitelist_line bars)) text
      × (parse_lines bars false (parse_whitelist_line bars) text
          ≡ ok (entries_of bars (parse_whitelist_line bars) text)))
    ⊎ ((e : LineError) × (before : List (List ℕ)) × FirstBad bars
          (parse_whitelist_line bars)
          text
          e
          before
        × (parse_lines bars false (parse_whitelist_line bars) text
            ≡ err (at_line (length before + 1) e)))
parse_lines_complete_example = parse_lines_complete bars (parse_whitelist_line bars) text

-- "a|1||0|2|0"
abbrev robot_line : List ℕ
robot_line = 97 ∷ 124 ∷ 49 ∷ 124 ∷ 124 ∷ 48 ∷ 124 ∷ 50 ∷ 124 ∷ 48 ∷ []

abbrev robot : BlacklistEntry
robot = record {
  pattern_text = 97 ∷ [];
  active = true;
  exceptions = [];
  dual_pass_flag = 0;
  impact_type = 2;
  start_of_string = false;
  inactive_date = 0;
}
