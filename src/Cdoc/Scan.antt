-- ===== src/Cdoc/Scan.antt =====
-- cmd/cdoc/internal/engine/scanner/scanner.go: the pass over the directives and calls of a file. The
-- call expressions of the file are an argument, in the order of `ast.Inspect`; `sort.SliceStable` is
-- the parameter `sort`.
use rudder_go_kit.Prelude.{
  ℕ, List, [], ◌∷◌, ◌++◌, map, Bool, true, false, not, ◌&&◌, Option, none, some, ltb, ◌==◌,
  if◌then◌else◌,
}
use rudder_go_kit.Prelude.Int.{ℤ, pos}
use rudder_go_kit.Config.Types.{Text, codes}
use rudder_go_kit.Cdoc.Types.{
  Entry, Warning, Message, GroupOrderDeclaration, arg_count, expected_args, unused_desc,
  unused_default, unused_desc_directive, unused_default_directive, is_empty,
}
use rudder_go_kit.Cdoc.Strings.{join}
use rudder_go_kit.Cdoc.Expr.{
  Expr, Exprs, selector_expr, no_expr, more, Printer, render_expr, render_duration,
  render_with_unit, is_literal_default, wrapped,
}
use rudder_go_kit.Cdoc.Keys.{
  MethodSpec, MethodFamily, family_simple, family_duration, family_with_multiplier, classify_method,
  classify_keys,
}
use rudder_go_kit.Cdoc.Directives.{
  Directive, group_directive, desc_directive, default_directive, PendingDirective,
  collect_directives, flatten_directives, parse_group_directive, extract_group_order_declarations,
  consume_ignore_directive, consume_nearest_directive_value, collect_key_and_default_overrides,
  consume_indexes, max_lookback,
}

-- A call expression, with the lines of its ends and its position.
pub record CallExpr : Type 0 where
  pub fun : Expr
  pub args : Exprs
  pub has_ellipsis : Bool
  pub start_line : ℕ
  pub end_line : ℕ
  pub position : ℕ

pub record CallInfo : Type 0 where
  pub call : CallExpr
  pub spec : MethodSpec

-- `selectorMethodName`
unfoldable pub selector_method_name : Expr → Text
selector_method_name (selector_expr x sel) = sel
selector_method_name e = []

-- `collectCalls`; a `nil` filter accepts every call.
unfoldable pub collect_calls : Option (CallExpr → Bool) → List CallExpr → List CallInfo
collect_calls filter [] = []
collect_calls filter (c ∷ cs) =
    let rest = collect_calls filter cs in
    elim (classify_method (selector_method_name c.fun)) [
      | none ↦ rest
      | some spec ↦
          if elim filter [ none ↦ true | some accepts ↦ accepts c ]
          then record { call = c; spec = spec } ∷ rest
          else rest
    ]

-- `fileEvent`
pub data FileEvent : Type 0 where
  directive_event : Directive → FileEvent
  call_event : CallInfo → FileEvent

unfoldable pub event_line : FileEvent → ℕ
event_line (directive_event d) = d.line
event_line (call_event c) = c.call.end_line

-- Two events of one line.
unfoldable pub same_line_less : FileEvent → FileEvent → Bool
same_line_less (directive_event d) (call_event c) = true
same_line_less (call_event c) (directive_event d) = false
same_line_less (directive_event d) (directive_event e) = ltb d.order e.order
same_line_less (call_event b) (call_event c) =
    if not (b.call.position == c.call.position)
    then ltb b.call.position c.call.position
    else ltb b.call.start_line c.call.start_line

-- The order of `buildEvents`.
unfoldable pub event_less : FileEvent → FileEvent → Bool
event_less a b =
    if not (event_line a == event_line b)
    then ltb (event_line a) (event_line b)
    else same_line_less a b

-- `buildEvents`
unfoldable pub build_events :
    ((FileEvent → FileEvent → Bool) → List FileEvent → List FileEvent)
    → List CallInfo
    → List Directive
    → List FileEvent
build_events sort calls directives =
    sort event_less (map directive_event directives ++ map call_event calls)

-- The result of `extractEntry`.
pub data Extracted : Type 0 where
  failed : Message → Extracted
  extracted : Entry → List Warning → Extracted

module _ (is_space : ℕ → Bool) (go : Printer) where
  -- `extractEntry` behind its `switch`.
  unfoldable pub finish_entry :
      CallInfo → Text → ℕ → List Text → Text → Text → Option Expr → Exprs → Extracted
  finish_entry ci file line var_keys var_default rendered default_expr key_args =
      let default_value = if not (is_empty var_default) then var_default else elim default_expr [
        | none ↦ rendered
        | some e ↦ if is_literal_default e then rendered else wrapped rendered
      ] in
      let variadic = ci.call.has_ellipsis && elim key_args [ no_expr ↦ false | more e es ↦ true ] in
      let k = classify_keys is_space go variadic file line key_args var_keys in
      extracted
        (record {
          primary_key = join (codes ",") k.all_keys;
          config_keys = k.config_keys;
          env_keys = k.env_keys;
          default_value = default_value;
          description = [];
          reloadable = ci.spec.reloadable;
          group = [];
          group_order = pos 0;
          file = file;
          line = line;
        })
        k.warnings

  -- The `switch` of `extractEntry`, on the family and the arguments.
  unfoldable pub extract_args :
      CallInfo → Text → ℕ → List Text → Text → MethodFamily → Exprs → Extracted
  extract_args ci file line var_keys var_default family_simple no_expr = failed (expected_args 2 0)
  extract_args ci file line var_keys var_default family_simple (more a no_expr) =
      failed (expected_args 2 1)
  extract_args ci file line var_keys var_default family_simple (more a (more b es)) =
      finish_entry ci file line var_keys var_default (render_expr go a) (some a) (more b es)
  extract_args ci file line var_keys var_default family_duration (more a (more b (more c es))) =
      finish_entry ci file line var_keys var_default (render_duration go a b) (some a) (more c es)
  extract_args ci file line var_keys var_default family_with_multiplier
        (more a (more b (more c es))) =
      finish_entry ci file line var_keys var_default (render_with_unit go a b) none (more c es)
  extract_args ci file line var_keys var_default f no_expr = failed (expected_args 3 0)
  extract_args ci file line var_keys var_default f (more a no_expr) = failed (expected_args 3 1)
  extract_args ci file line var_keys var_default f (more a (more b no_expr)) =
      failed (expected_args 3 2)

  -- `extractEntry`
  unfoldable pub extract_entry : CallInfo → Text → ℕ → List Text → Text → Extracted
  extract_entry ci file line var_keys var_default =
      extract_args ci file line var_keys var_default ci.spec.family ci.call.args

-- The variables of `extractEntriesWithWarnings`.
pub record Scanning : Type 0 where
  pub current_group : Text
  pub current_group_order : ℤ
  pub pending : List PendingDirective
  pub entries : List Entry
  pub warnings : List Warning

module _ (is_space : ℕ → Bool) (go : Printer) (atoi : Text → Option ℤ) (file : Text) where
  -- A directive in the stream of events.
  unfoldable pub scan_directive : Directive → Scanning → Scanning
  scan_directive d s = elim d.kind [
    | group_directive ↦
        let (group, order) = parse_group_directive is_space atoi d.value in
        record s { current_group = group; current_group_order = order }
    | _ ↦ record s { pending = s.pending ++ (record { directive = d; consumed = false } ∷ []) }
  ]

  -- What becomes of the result of `extractEntry`.
  unfoldable pub add_extracted : ℕ → Option Text → Extracted → Scanning → Scanning
  add_extracted line description (failed message) s = record s {
    warnings =
        s.warnings
        ++ (record { code = arg_count; file = file; line = line; message = message } ∷ []);
  }
  add_extracted line description (extracted e warnings) s = record s {
    warnings = s.warnings ++ warnings;
    entries =
        s.entries
        ++ (record e {
          description = elim description [ none ↦ e.description | some text ↦ text ];
          group = s.current_group;
          group_order = s.current_group_order;
        }
            ∷ []);
  }

  -- A call that is not ignored, with the description that it consumed.
  unfoldable pub scan_described :
      CallInfo → Option Text → List PendingDirective → Scanning → Scanning
  scan_described ci description pending s =
      let o =
        collect_key_and_default_overrides is_space ci.call.start_line ci.call.end_line pending in
      add_extracted ci.call.start_line description
        (extract_entry is_space go ci file ci.call.start_line o.var_keys o.var_default)
        (record s { pending = consume_indexes o.key_indexes o.pending })

  -- A call in the stream of events.
  unfoldable pub scan_call : CallInfo → Scanning → Scanning
  scan_call ci s = elim (consume_ignore_directive ci.call.start_line s.pending) [
    | some pending ↦ record s { pending = pending }
    | none ↦
        elim (consume_nearest_directive_value desc_directive ci.call.start_line max_lookback
          s.pending) [
            | some (text, pending) ↦ scan_described ci (some text) pending s
            | none ↦ scan_described ci none s.pending s
          ]
  ]

  unfoldable pub scan_event : FileEvent → Scanning → Scanning
  scan_event (directive_event d) s = scan_directive d s
  scan_event (call_event c) s = scan_call c s

  unfoldable pub scan_events : List FileEvent → Scanning → Scanning
  scan_events [] s = s
  scan_events (e ∷ es) s = scan_events es (scan_event e s)

  -- The last loop: warnings for descriptions and defaults that no call consumed.
  unfoldable pub unused_warnings : List PendingDirective → List Warning
  unused_warnings [] = []
  unused_warnings (p ∷ pending) =
      let rest = unused_warnings pending in
      if p.consumed then rest else elim p.directive.kind [
        | desc_directive ↦
            record {
              code = unused_desc_directive;
              file = file;
              line = p.directive.line;
              message = unused_desc;
            }
            ∷ rest
        | default_directive ↦
            record {
              code = unused_default_directive;
              file = file;
              line = p.directive.line;
              message = unused_default;
            }
            ∷ rest
        | _ ↦ rest
      ]

  -- `extractEntriesWithWarnings`
  unfoldable pub extract_entries_with_warnings :
      ((FileEvent → FileEvent → Bool) → List FileEvent → List FileEvent)
      → List CallExpr
      → List Directive
      → Option (CallExpr → Bool)
      → List Entry × List Warning
  extract_entries_with_warnings sort calls directives filter =
      let s = scan_events (build_events sort (collect_calls filter calls) directives) (record {
        current_group = [];
        current_group_order = pos 0;
        pending = [];
        entries = [];
        warnings = [];
      }) in
      (s.entries, s.warnings ++ unused_warnings s.pending)

pub record FileScanResult : Type 0 where
  pub entries : List Entry
  pub group_order_declarations : List GroupOrderDeclaration
  pub warnings : List Warning

-- `ScanFile`; `sorted` is `slices.Sorted`.
unfoldable pub scan_file :
    (ℕ → Bool)
    → Printer
    → (Text → Option ℤ)
    → (List ℕ → List ℕ)
    → ((FileEvent → FileEvent → Bool) → List FileEvent → List FileEvent)
    → Text
    → List (ℕ × Text)
    → List CallExpr
    → Option (CallExpr → Bool)
    → FileScanResult
scan_file is_space go atoi sorted sort file comments calls filter =
    let directives = flatten_directives sorted (collect_directives is_space 0 comments []) in
    let (entries, warnings) =
      extract_entries_with_warnings is_space go atoi file sort calls directives filter in
    record {
      entries = entries;
      group_order_declarations = extract_group_order_declarations is_space atoi file directives;
      warnings = warnings;
    }
