-- ===== src/Cdoc/Engine.antt =====
-- cmd/cdoc/internal/engine/engine.go and model/warnings.go: the severity of warnings, and a run from
-- the scanned files to the text that is written. Reading, parsing and writing files are not modelled:
-- the scans, or the error of parsing, are an argument.
use rudder_go_kit.Prelude.{
  ℕ, suc, List, [], ◌∷◌, ◌++◌, Bool, not, ◌&&◌, Option, none, some, ltb, if◌then◌else◌,
}
use rudder_go_kit.Config.Types.{Text, codes, Go}
use rudder_go_kit.Cdoc.Types.{
  Entry, Warning, WarningCode, GroupOrderDeclaration, Message, missing_description, missing_group,
  no_desc, no_group, is_empty,
}
use rudder_go_kit.Cdoc.Model.{deduplicate_entries, apply_project_group_orders}
use rudder_go_kit.Cdoc.Scan.{FileScanResult}
use rudder_go_kit.Cdoc.Markdown.{Sorts, format_markdown}

-- `Warning.String`; `text` formats its message.
unfoldable pub warning_string : (ℕ → Text) → (Message → Text) → Warning → Text
warning_string decimal text w =
    if not (is_empty w.file) && ltb 0 w.line
    then codes "warning: " ++ w.file ++ (b':' ∷ decimal w.line) ++ codes ": " ++ text w.message
    else if not (is_empty w.file)
    then codes "warning: " ++ w.file ++ codes ": " ++ text w.message
    else codes "warning: " ++ text w.message

pub data WarningSeverity : Type 0 where
  severity_ignore : WarningSeverity
  severity_warn : WarningSeverity
  severity_error : WarningSeverity

-- A `nil` map of overrides answers like an empty one.
pub record WarningPolicy : Type 0 where
  pub default_severity : WarningSeverity
  pub overrides : WarningCode → Option WarningSeverity

unfoldable pub default_warning_policy : WarningPolicy
default_warning_policy = record { default_severity = severity_warn; overrides = λ code. none }

unfoldable pub strict_warning_policy : WarningPolicy
strict_warning_policy = record { default_severity = severity_error; overrides = λ code. none }

-- `SeverityFor`
unfoldable pub severity_for : WarningPolicy → WarningCode → WarningSeverity
severity_for p code = elim (p.overrides code) [ some s ↦ s | none ↦ p.default_severity ]

-- `ClassifyWarnings`
unfoldable pub classify_warnings : List Warning → WarningPolicy → List (Warning × WarningSeverity)
classify_warnings [] p = []
classify_warnings (w ∷ ws) p = (w, severity_for p w.code) ∷ classify_warnings ws p

-- The loop of `Run` over the warnings: `errorCount`, and the warnings that are printed.
unfoldable pub report : List (Warning × WarningSeverity) → ℕ × List Warning
report [] = (0, [])
report ((w, s) ∷ ws) =
    let (errors, printed) = report ws in
    elim s [
      | severity_ignore ↦ (errors, printed)
      | severity_warn ↦ (errors, w ∷ printed)
      | severity_error ↦ (suc errors, w ∷ printed)
    ]

-- `generateExtraWarnings`
unfoldable pub generate_extra_warnings : List Entry → List Warning
generate_extra_warnings [] = []
generate_extra_warnings (e ∷ es) =
    (if is_empty e.description
      then record {
        code = missing_description;
        file = e.file;
        line = e.line;
        message = no_desc e.primary_key;
      }
        ∷ []
      else [])
    ++ (if is_empty e.group
        then record {
          code = missing_group;
          file = e.file;
          line = e.line;
          message = no_group e.primary_key;
        }
          ∷ []
        else [])
    ++ generate_extra_warnings es

unfoldable pub all_entries : List FileScanResult → List Entry
all_entries [] = []
all_entries (f ∷ fs) = f.entries ++ all_entries fs

unfoldable pub all_declarations : List FileScanResult → List GroupOrderDeclaration
all_declarations [] = []
all_declarations (f ∷ fs) = f.group_order_declarations ++ all_declarations fs

unfoldable pub all_warnings : List FileScanResult → List Warning
all_warnings [] = []
all_warnings (f ∷ fs) = f.warnings ++ all_warnings fs

-- `parseProjectWithMode` behind the parsing of the files, which gives `parse_warnings`.
unfoldable pub merge_scans :
    (ℕ → Text) → List Warning → List FileScanResult → List Entry × List Warning
merge_scans decimal parse_warnings scans =
    let (merged, merge_warnings) = deduplicate_entries decimal (all_entries scans) in
    let (ordered, order_warnings) =
      apply_project_group_orders decimal merged (all_declarations scans) in
    (ordered, ((parse_warnings ++ all_warnings scans) ++ merge_warnings) ++ order_warnings)

-- What a run prints and writes, and the number in its error.
pub record Outcome : Type 0 where
  pub printed : List Warning
  pub markdown : Text
  pub error_count : ℕ

module _ {F S V : Type 0} (go : Go F S V) (sorts : Sorts) (decimal : ℕ → Text) where
  -- `Run`, behind the parsing and without the errors of writing; it fails when `error_count` is not 0.
  unfoldable pub run : Text → Bool → WarningPolicy → List Warning → List FileScanResult → Outcome
  run env_prefix extra_warnings policy parse_warnings scans =
      let (entries, found) = merge_scans decimal parse_warnings scans in
      let warnings = if extra_warnings then found ++ generate_extra_warnings entries else found in
      let (errors, printed) = report (classify_warnings warnings policy) in
      record {
        printed = printed;
        markdown = format_markdown go sorts env_prefix entries;
        error_count = errors;
      }
