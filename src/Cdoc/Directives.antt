-- ===== src/Cdoc/Directives.antt =====
-- cmd/cdoc/internal/engine/scanner/scanner.go: the directives in comments, and how a call consumes
-- those that stand near it. A line that the source reaches by a subtraction is told by its
-- distance from the line of the call.
use rudder_go_kit.Prelude.{
  ℕ, zero, suc, ◌+◌, List, [], ◌∷◌, ◌++◌, map, Bool, true, not, ◌&&◌, ◌||◌, Option, none, some, leb,
  ◌==◌, if◌then◌else◌,
}
use rudder_go_kit.Prelude.Int.{ℤ, pos}
use rudder_go_kit.Config.Types.{Text, codes}
use rudder_go_kit.Cdoc.Types.{GroupOrderDeclaration, same_text, is_empty}
use rudder_go_kit.Cdoc.Model.{is_zero}
use rudder_go_kit.Cdoc.Strings.{cut_prefix, trim_prefix, trim_space, fields, join}
use rudder_go_kit.Cdoc.Keys.{parse_var_key_directive}

pub data DirectiveKind : Type 0 where
  group_directive : DirectiveKind
  desc_directive : DirectiveKind
  ignore_directive : DirectiveKind
  key_directive : DirectiveKind
  default_directive : DirectiveKind

-- The number that Go's `iota` gives to a kind.
abbrev pub kind_number : DirectiveKind → ℕ
kind_number group_directive = 0
kind_number desc_directive = 1
kind_number ignore_directive = 2
kind_number key_directive = 3
kind_number default_directive = 4

pub record Directive : Type 0 where
  pub kind : DirectiveKind
  pub value : Text
  pub line : ℕ
  pub order : ℕ

-- `maxLookback`
abbrev pub max_lookback : ℕ
max_lookback = 10

-- The chain of tests in `collectDirectives`: the kind and the value of a comment.
unfoldable pub parse_directive : Text → Option (DirectiveKind × Text)
parse_directive text = elim (cut_prefix (codes "cdoc:group ") text) [
  | some value ↦ some (group_directive, value)
  | none ↦ elim (cut_prefix (codes "cdoc:desc ") text) [
    | some value ↦ some (desc_directive, value)
    | none ↦
        if same_text text (codes "cdoc:ignore")
        then some (ignore_directive, [])
        else elim (cut_prefix (codes "cdoc:key ") text) [
          | some value ↦ some (key_directive, value)
          | none ↦ elim (cut_prefix (codes "cdoc:default ") text) [
            | some value ↦ some (default_directive, value)
            | none ↦ none
          ]
        ]
  ]
]

-- `lineDirectives[line] = append(lineDirectives[line], d)`
unfoldable pub append_at : ℕ → Directive → List (ℕ × List Directive) → List (ℕ × List Directive)
append_at line d [] = (line, d ∷ []) ∷ []
append_at line d ((l, ds) ∷ rest) =
    let later = append_at line d rest in
    if l == line then (l, ds ++ (d ∷ [])) ∷ rest else (l, ds) ∷ later

-- `collectDirectives`, from the comments with their lines and the number `order` of the first.
unfoldable pub collect_directives :
    (ℕ → Bool) → ℕ → List (ℕ × Text) → List (ℕ × List Directive) → List (ℕ × List Directive)
collect_directives is_space order [] found = found
collect_directives is_space order ((line, comment) ∷ rest) found =
    collect_directives is_space (suc order) rest
      (elim (parse_directive (trim_space is_space (trim_prefix (codes "//") comment))) [
        | none ↦ found
        | some (kind, value) ↦
            append_at line (record { kind = kind; value = value; line = line; order = order }) found
      ])

-- The directives of a line.
unfoldable pub directives_at : List (ℕ × List Directive) → ℕ → List Directive
directives_at [] line = []
directives_at ((l, ds) ∷ rest) line =
    let later = directives_at rest line in if l == line then ds else later

unfoldable pub directives_of : List (ℕ × List Directive) → List ℕ → List Directive
directives_of found [] = []
directives_of found (line ∷ lines) = directives_at found line ++ directives_of found lines

-- `flattenDirectives`; `sorted` is `slices.Sorted`.
unfoldable pub flatten_directives : (List ℕ → List ℕ) → List (ℕ × List Directive) → List Directive
flatten_directives sorted found = directives_of found (sorted (map (λ p. p.0) found))

module _ (is_space : ℕ → Bool) (atoi : Text → Option ℤ) where
  -- `parseGroupDirective`; `atoi` is `strconv.Atoi`.
  unfoldable pub parse_group_directive : Text → Text × ℤ
  parse_group_directive given =
      let value = trim_space is_space given in
      if is_empty value then ([], pos 0) else elim (fields is_space value) [
        | [] ↦ (value, pos 0)
        | first ∷ [] ↦ (value, pos 0)
        | first ∷ second ∷ others ↦ elim (atoi first) [
          | none ↦ (value, pos 0)
          | some n ↦ (join (codes " ") (second ∷ others), n)
        ]
      ]

  -- `extractGroupOrderDeclarations`
  unfoldable pub extract_group_order_declarations :
      Text → List Directive → List GroupOrderDeclaration
  extract_group_order_declarations file [] = []
  extract_group_order_declarations file (d ∷ ds) =
      let rest = extract_group_order_declarations file ds in
      let (given, order) = parse_group_directive d.value in
      let group = trim_space is_space given in
      if not (kind_number d.kind == 0)
      then rest
      else if is_empty group || is_zero order
      then rest
      else record { group = group; order = order; file = file; line = d.line } ∷ rest

pub record PendingDirective : Type 0 where
  pub directive : Directive
  pub consumed : Bool

-- An unconsumed directive of the kind, `distance` lines before `line`.
unfoldable pub is_at : DirectiveKind → ℕ → ℕ → PendingDirective → Bool
is_at kind line distance p =
    not p.consumed
    && (kind_number p.directive.kind == kind_number kind)
    && (p.directive.line + distance == line)

unfoldable pub consume : PendingDirective → PendingDirective
consume p = record p { consumed = true }

-- `findUnconsumedDirectiveOnLine`, with the write of its caller to the directive that it finds.
unfoldable pub consume_first :
    DirectiveKind → ℕ → ℕ → List PendingDirective → Option (List PendingDirective)
consume_first kind line distance [] = none
consume_first kind line distance (p ∷ pending) =
    let rest = consume_first kind line distance pending in
    if is_at kind line distance p
    then some (consume p ∷ pending)
    else elim rest [ none ↦ none | some pending' ↦ some (p ∷ pending') ]

-- `consumeIgnoreDirective`
unfoldable pub consume_ignore_directive : ℕ → List PendingDirective → Option (List PendingDirective)
consume_ignore_directive line pending = elim (consume_first ignore_directive line 0 pending) [
  | some pending' ↦ some pending'
  | none ↦ consume_first ignore_directive line 1 pending
]

-- The inner loop of `consumeNearestDirectiveValue`, from the last directive to the first.
unfoldable pub consume_last :
    DirectiveKind → ℕ → ℕ → List PendingDirective → Option (Text × List PendingDirective)
consume_last kind line distance [] = none
consume_last kind line distance (p ∷ pending) =
    let rest = consume_last kind line distance pending in
    elim rest [
      | some (value, pending') ↦ some (value, p ∷ pending')
      | none ↦
          if is_at kind line distance p then some (p.directive.value, consume p ∷ pending) else none
    ]

-- The outer loop, with `more` distances after `distance`.
unfoldable pub consume_nearest_from :
    DirectiveKind → ℕ → ℕ → ℕ → List PendingDirective → Option (Text × List PendingDirective)
consume_nearest_from kind line zero distance pending = consume_last kind line distance pending
consume_nearest_from kind line (suc more) distance pending =
    let further = consume_nearest_from kind line more (suc distance) pending in
    elim (consume_last kind line distance pending) [ some found ↦ some found | none ↦ further ]

-- `consumeNearestDirectiveValue`
unfoldable pub consume_nearest_directive_value :
    DirectiveKind → ℕ → ℕ → List PendingDirective → Option (Text × List PendingDirective)
consume_nearest_directive_value kind line max_distance pending =
    consume_nearest_from kind line max_distance 0 pending

-- `inLineWindow`, from `before` lines above `start`.
unfoldable pub in_line_window : ℕ → ℕ → ℕ → ℕ → Bool
in_line_window line before start end = leb start (line + before) && leb line end

-- `directiveAppliesToKeyOrDefault`
unfoldable pub directive_applies_to_key_or_default : ℕ → ℕ → ℕ → ℕ → Bool
directive_applies_to_key_or_default line start end lookback =
    in_line_window line lookback start start || in_line_window line 0 start end

-- What `collectKeyAndDefaultOverrides` returns, with the directives as it leaves them.
pub record Overrides : Type 0 where
  pub var_keys : List Text
  pub var_default : Text
  pub key_indexes : List ℕ
  pub pending : List PendingDirective

-- The loop of `collectKeyAndDefaultOverrides` from position `i` on.
unfoldable pub collect_overrides_from :
    (ℕ → Bool) → ℕ → ℕ → ℕ → List Text → Text → List ℕ → List PendingDirective → Overrides
collect_overrides_from is_space start end i keys default_text indexes [] = record {
  var_keys = keys;
  var_default = default_text;
  key_indexes = indexes;
  pending = [];
}
collect_overrides_from is_space start end i keys default_text indexes (p ∷ rest) =
    let d = p.directive in
    let pass = collect_overrides_from is_space start end (suc i) keys default_text indexes rest in
    let with_key =
      collect_overrides_from is_space start end (suc i)
        (keys ++ parse_var_key_directive is_space d.value) default_text (indexes ++ (i ∷ []))
        rest in
    let with_default =
      collect_overrides_from is_space start end (suc i) keys d.value indexes rest in
    if p.consumed || not (directive_applies_to_key_or_default d.line start end max_lookback)
    then record pass { pending = p ∷ pass.pending }
    else elim d.kind [
      | key_directive ↦ record with_key { pending = p ∷ with_key.pending }
      | default_directive ↦ record with_default { pending = consume p ∷ with_default.pending }
      | _ ↦ record pass { pending = p ∷ pass.pending }
    ]

-- `collectKeyAndDefaultOverrides`
unfoldable pub collect_key_and_default_overrides :
    (ℕ → Bool) → ℕ → ℕ → List PendingDirective → Overrides
collect_key_and_default_overrides is_space start end pending =
    collect_overrides_from is_space start end 0 [] [] [] pending

-- `pending[idx].consumed = true`
unfoldable pub consume_index : ℕ → List PendingDirective → List PendingDirective
consume_index idx [] = []
consume_index zero (p ∷ pending) = consume p ∷ pending
consume_index (suc idx) (p ∷ pending) = p ∷ consume_index idx pending

unfoldable pub consume_indexes : List ℕ → List PendingDirective → List PendingDirective
consume_indexes [] pending = pending
consume_indexes (idx ∷ rest) pending = consume_indexes rest (consume_index idx pending)
