-- ===== src/Cdoc/Expr.antt =====
-- cmd/cdoc/internal/engine/scanner/scanner.go: how the arguments of a getter are rendered. An
-- expression of package go/ast is one of the forms that the scanner looks into, or `other`;
-- `strconv.Unquote` and `exprToString`, which is package go/printer, are the parameter `Printer`.
use rudder_go_kit.Prelude.{
  ℕ, List, [], ◌∷◌, ◌++◌, Bool, true, false, not, ◌&&◌, ◌||◌, Option, none, some, leb,
  if◌then◌else◌,
}
use rudder_go_kit.Prelude.Maps.{lookup}
use rudder_go_kit.Config.Types.{Text, text_discrete, codes}
use rudder_go_kit.Cdoc.Types.{same_text, is_empty}
use rudder_go_kit.Cdoc.Strings.{contains, join}

-- The kinds of a `BasicLit`.
pub data LitKind : Type 0 where
  int_lit : LitKind
  float_lit : LitKind
  string_lit : LitKind
  other_lit : LitKind

mutual
  pub data Expr : Type 0 where
    basic_lit : LitKind → Text → Expr
    ident : Text → Expr
    composite_lit : Exprs → Expr
    unary_expr : Text → Expr → Expr
    call_expr : Expr → Exprs → Expr
    selector_expr : Expr → Text → Expr
    other : ℕ → Expr

  pub data Exprs : Type 0 where
    no_expr : Exprs
    more : Expr → Exprs → Exprs

pub record Printer : Type 0 where
  pub unquote : Text → Option Text
  pub expr_to_string : Expr → Text

-- `builtinTypeNames`
abbrev pub builtin_type_names : List Text
builtin_type_names =
    codes "bool"
    ∷ codes "string"
    ∷ codes "int"
    ∷ codes "int8"
    ∷ codes "int16"
    ∷ codes "int32"
    ∷ codes "int64"
    ∷ codes "uint"
    ∷ codes "uint8"
    ∷ codes "uint16"
    ∷ codes "uint32"
    ∷ codes "uint64"
    ∷ codes "uintptr"
    ∷ codes "byte"
    ∷ codes "rune"
    ∷ codes "float32"
    ∷ codes "float64"
    ∷ codes "complex64"
    ∷ codes "complex128"
    ∷ []

-- The argument of a call for which `isBuiltinTypeConversionCall` holds.
unfoldable pub builtin_type_conversion_call : Expr → Exprs → Option Expr
builtin_type_conversion_call (ident f) (more x no_expr) =
    if contains builtin_type_names f then some x else none
builtin_type_conversion_call f args = none

-- `isLiteralDefault`
unfoldable pub is_literal_default : Expr → Bool
is_literal_default (basic_lit kind value) = true
is_literal_default (ident name) =
    same_text name (codes "true") || same_text name (codes "false") || same_text name (codes "nil")
is_literal_default (composite_lit elts) = true
is_literal_default (unary_expr op x) = is_literal_default x
is_literal_default (call_expr (ident f) (more x no_expr)) =
    contains builtin_type_names f && is_literal_default x
is_literal_default e = false

-- `isNumericLiteral`
unfoldable pub is_numeric_literal : Expr → Bool
is_numeric_literal (basic_lit int_lit value) = true
is_numeric_literal (basic_lit float_lit value) = true
is_numeric_literal (unary_expr op x) = is_numeric_literal x
is_numeric_literal e = false

-- `isNonNegativeInteger`
unfoldable pub all_digits : Text → Bool
all_digits [] = true
all_digits (c ∷ s) = (leb b'0' c && leb c b'9') && all_digits s

unfoldable pub is_non_negative_integer : Text → Bool
is_non_negative_integer s = not (is_empty s) && all_digits s

-- `durationUnits`
abbrev pub duration_units : List (Text × Text)
duration_units =
    (codes "Nanosecond", codes "ns")
    ∷ (codes "Microsecond", codes "µs")
    ∷ (codes "Millisecond", codes "ms")
    ∷ (codes "Second", codes "s")
    ∷ (codes "Minute", codes "m")
    ∷ (codes "Hour", codes "h")
    ∷ []

-- `unitAbbreviations`
abbrev pub unit_abbreviations : List (Text × Text)
unit_abbreviations =
    (codes "Nanosecond", codes "ns")
    ∷ (codes "Microsecond", codes "µs")
    ∷ (codes "Millisecond", codes "ms")
    ∷ (codes "Second", codes "sec")
    ∷ (codes "Minute", codes "min")
    ∷ (codes "Hour", codes "h")
    ∷ (codes "B", codes "B")
    ∷ (codes "KB", codes "KB")
    ∷ (codes "MB", codes "MB")
    ∷ (codes "GB", codes "GB")
    ∷ (codes "TB", codes "TB")
    ∷ []

-- `durationUnitAbbrev`
unfoldable pub duration_unit_abbrev : Expr → Text
duration_unit_abbrev (selector_expr x sel) = elim (lookup text_discrete sel duration_units) [
  | none ↦ []
  | some abbrev_text ↦ abbrev_text
]
duration_unit_abbrev e = []

-- `${…}`
unfoldable pub wrapped : Text → Text
wrapped s = codes "${" ++ s ++ codes "}"

module _ (go : Printer) where
  -- A string literal without its quotes.
  unfoldable pub unquoted : Text → Text
  unquoted value = elim (go.unquote value) [ none ↦ value | some s ↦ s ]

  unfoldable mutual
    -- `renderExpr`
    pub render_expr : Expr → Text
    render_expr (basic_lit string_lit value) = unquoted value
    render_expr (basic_lit kind value) = value
    render_expr (ident name) = name
    render_expr (composite_lit elts) =
        codes "[" ++ join (codes ", ") (render_exprs elts) ++ codes "]"
    render_expr (unary_expr op x) = op ++ render_expr x
    render_expr (call_expr (ident f) (more x no_expr)) =
        let inner = render_expr x in
        if contains builtin_type_names f
        then inner
        else go.expr_to_string (call_expr (ident f) (more x no_expr))
    render_expr e = go.expr_to_string e

    render_exprs : Exprs → List Text
    render_exprs no_expr = []
    render_exprs (more e es) = render_expr e ∷ render_exprs es

  -- `renderStringLit`
  unfoldable pub render_string_lit : Expr → Text
  render_string_lit (basic_lit string_lit value) = unquoted value
  render_string_lit e = []

  -- `renderDuration`
  unfoldable pub render_duration : Expr → Expr → Text
  render_duration quantity unit =
      let qty = render_expr quantity in
      let unit_str = duration_unit_abbrev unit in
      if is_empty unit_str
      then qty ++ (b' ' ∷ go.expr_to_string unit)
      else if not (is_non_negative_integer qty)
      then qty
      else if same_text qty (codes "0")
      then codes "0"
      else qty ++ unit_str

  -- `innerUnit`
  unfoldable pub inner_unit : Expr → Expr
  inner_unit (call_expr f args) = elim (builtin_type_conversion_call f args) [
    | none ↦ call_expr f args
    | some x ↦ x
  ]
  inner_unit e = e

  -- The literal 1.
  unfoldable pub is_one : Expr → Bool
  is_one (basic_lit int_lit value) = same_text value (codes "1")
  is_one e = false

  -- The abbreviation of a unit that is selected from a package.
  unfoldable pub unit_abbreviation : Expr → Option Text
  unit_abbreviation (selector_expr x sel) = lookup text_discrete sel unit_abbreviations
  unit_abbreviation e = none

  unfoldable pub wrapped_unless_literal : Expr → Text
  wrapped_unless_literal e = if is_literal_default e then render_expr e else wrapped (render_expr e)

  -- `renderWithUnit`
  unfoldable pub render_with_unit : Expr → Expr → Text
  render_with_unit default_expr unit_expr =
      let def_wrapped = wrapped_unless_literal default_expr in
      let inner = inner_unit unit_expr in
      let last_cases =
        if is_numeric_literal inner && is_numeric_literal default_expr
        then render_expr default_expr ++ codes " * " ++ render_expr inner
        else def_wrapped ++ (b' ' ∷ wrapped_unless_literal inner) in
      if is_one inner
      then def_wrapped
      else elim (unit_abbreviation inner) [ some a ↦ def_wrapped ++ a | none ↦ last_cases ]
