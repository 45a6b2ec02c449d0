-- ===== src/Cdoc/Markdown.antt =====
-- cmd/cdoc/internal/engine/render/markdown.go. `sort.SliceStable` and `sort.Slice` are the parameter
-- `Sorts`; `ConfigKeyToEnv` is the one of Config.
use rudder_go_kit.Prelude.{
  ℕ, suc, List, [], ◌∷◌, ◌++◌, map, Bool, true, false, not, ◌&&◌, ◌||◌, none, some, ltb, ◌==◌,
  if◌then◌else◌, is_some, length,
}
use rudder_go_kit.Prelude.Int.{ℤ, pos, negsuc}
use rudder_go_kit.Prelude.Maps.{lookup, insert}
use rudder_go_kit.Config.Types.{Text, text_discrete, codes, Go}
use rudder_go_kit.Config.Env.{config_key_to_env}
use rudder_go_kit.Cdoc.Types.{Entry, is_empty}
use rudder_go_kit.Cdoc.Strings.{contains, cut_prefix, cut_suffix, join, split, repeat}
use rudder_go_kit.Cdoc.Model.{is_zero}

-- The loop of `formatInlineCode` over the characters.
unfoldable pub max_run : ℕ → ℕ → Text → ℕ
max_run current longest [] = longest
max_run current longest (c ∷ s) =
    let run =
      max_run (suc current) (if ltb longest (suc current) then suc current else longest) s in
    let others = max_run 0 longest s in if c == b'`' then run else others

-- A space on each side, where the text has one at an end.
unfoldable pub padded : Text → Text
padded value =
    if is_some (cut_prefix (codes " ") value) || is_some (cut_suffix (codes " ") value)
    then (b' ' ∷ value) ++ codes " "
    else value

-- `delimiter`
unfoldable pub delimiter : Text → Text
delimiter value = repeat b'`' (suc (max_run 0 0 value))

-- `formatInlineCode`
unfoldable pub format_inline_code : Text → Text
format_inline_code value =
    if is_empty value then [] else delimiter value ++ padded value ++ delimiter value

-- `normalizeLineEndings`: CRLF becomes LF, then CR does.
unfoldable pub replace_crlf : Text → Text
replace_crlf [] = []
replace_crlf (c ∷ []) = c ∷ []
replace_crlf (c ∷ d ∷ s) =
    let pair = replace_crlf s in
    let single = replace_crlf (d ∷ s) in
    if (c == b'\r') && (d == b'\n') then b'\n' ∷ pair else c ∷ single

unfoldable pub replace_cr : Text → Text
replace_cr [] = []
replace_cr (c ∷ s) = (if c == b'\r' then b'\n' else c) ∷ replace_cr s

unfoldable pub normalize_line_endings : Text → Text
normalize_line_endings value = replace_cr (replace_crlf value)

-- `strings.ReplaceAll` of one character.
unfoldable pub replace_char : ℕ → Text → Text → Text
replace_char old new [] = []
replace_char old new (c ∷ s) =
    let rest = replace_char old new s in if c == old then new ++ rest else c ∷ rest

-- `escapeMarkdownTableText`
unfoldable pub escape_markdown_table_text : Text → Text
escape_markdown_table_text value =
    replace_char b'|' (codes "\\|")
      (replace_char b'\n' (codes "<br>") (normalize_line_endings value))

-- `formatCodeCell`
unfoldable pub format_code_cell : Text → Text
format_code_cell value =
    join (codes "<br>") (map format_inline_code (split b'\n' (normalize_line_endings value)))

-- `formatConfigVarColumn`
unfoldable pub format_config_var_column : Entry → Text
format_config_var_column e = elim e.config_keys [
  | [] ↦ format_code_cell e.primary_key
  | k ∷ ks ↦ join (codes "<br>") (map format_code_cell (k ∷ ks))
]

-- The two loops of `formatEnvVarColumn` over their names: those that are not in `seen`, once each.
unfoldable pub unseen : List Text → List Text → List Text
unseen seen [] = []
unseen seen (k ∷ ks) =
    let old = unseen seen ks in
    let new = unseen (k ∷ seen) ks in if contains seen k then old else k ∷ new

module _ {F S V : Type 0} (go : Go F S V) (env_prefix : Text) where
  -- The names of the column: those derived from the config keys, then the explicit ones.
  unfoldable pub env_var_names : Entry → List Text
  env_var_names e = unseen [] (map (config_key_to_env go env_prefix) e.config_keys ++ e.env_keys)

  -- `formatEnvVarColumn`
  unfoldable pub format_env_var_column : Entry → Text
  format_env_var_column e = join (codes "<br>") (map format_code_cell (env_var_names e))

-- `groupNames`, `groupMap` and `groupOrderMap`.
pub record Groups : Type 0 where
  pub names : List Text
  pub entries : List (Text × List Entry)
  pub orders : List (Text × ℤ)

unfoldable pub entries_of : Text → Groups → List Entry
entries_of g gs = elim (lookup text_discrete g gs.entries) [ none ↦ [] | some es ↦ es ]

unfoldable pub order_of : Text → Groups → ℤ
order_of g gs = elim (lookup text_discrete g gs.orders) [ none ↦ pos 0 | some n ↦ n ]

-- The group under which an entry stands.
unfoldable pub group_of : Entry → Text
group_of e = if is_empty e.group then codes "Ungrouped" else e.group

-- One round of the first loop of `FormatMarkdown`.
unfoldable pub add_to_group : Entry → Groups → Groups
add_to_group e gs =
    let g = group_of e in
    record gs {
      names =
          if is_some (lookup text_discrete g gs.entries) then gs.names else gs.names ++ (g ∷ []);
      entries = insert text_discrete g (entries_of g gs ++ (e ∷ [])) gs.entries;
      orders =
          if not (is_zero e.group_order) && is_zero (order_of g gs)
          then insert text_discrete g e.group_order gs.orders
          else gs.orders;
    }

unfoldable pub group_entries : List Entry → Groups → Groups
group_entries [] gs = gs
group_entries (e ∷ es) gs = group_entries es (add_to_group e gs)

-- `<` on strings.
unfoldable pub text_less : Text → Text → Bool
text_less s [] = false
text_less [] (d ∷ t) = true
text_less (c ∷ s) (d ∷ t) = ltb c d || ((c == d) && text_less s t)

-- `<` on int.
unfoldable pub int_less : ℤ → ℤ → Bool
int_less (pos m) (pos n) = ltb m n
int_less (negsuc m) (pos n) = true
int_less (pos m) (negsuc n) = false
int_less (negsuc m) (negsuc n) = ltb n m

-- The order of the groups.
unfoldable pub group_less : Groups → Text → Text → Bool
group_less gs g h =
    if not (is_zero (order_of g gs)) && not (is_zero (order_of h gs))
    then int_less (order_of g gs) (order_of h gs)
    else if not (is_zero (order_of g gs))
    then true
    else if not (is_zero (order_of h gs))
    then false
    else text_less g h

-- Sorting by a comparison, of the groups' names and of entries.
pub record Sorts : Type 0 where
  pub sort_names : (Text → Text → Bool) → List Text → List Text
  pub sort_entries : (Entry → Entry → Bool) → List Entry → List Entry

module _ {F S V : Type 0} (go : Go F S V) (sorts : Sorts) (env_prefix : Text) where
  -- A row of a table.
  unfoldable pub format_row : Entry → Text
  format_row e =
      codes "| "
      ++ format_config_var_column e
      ++ codes " | "
      ++ format_env_var_column go env_prefix e
      ++ codes " | "
      ++ format_code_cell e.default_value
      ++ codes " | "
      ++ escape_markdown_table_text
          (if e.reloadable then codes "🔄 " ++ e.description else e.description)
      ++ codes " |\n"

  unfoldable pub format_rows : List Entry → Text
  format_rows [] = []
  format_rows (e ∷ es) = format_row e ++ format_rows es

  -- A group with its header, unless `singleUngrouped`.
  unfoldable pub format_group : Bool → Groups → Text → Text
  format_group single_ungrouped gs g =
      (if single_ungrouped then [] else codes "## " ++ g ++ codes "\n\n")
      ++ codes "| Config variable | Env variable | Default | Description |\n"
      ++ codes "|---|---|---|---|\n"
      ++ format_rows
          (sorts.sort_entries (λ a b. text_less a.primary_key b.primary_key) (entries_of g gs))
      ++ codes "\n"

  unfoldable pub format_groups : Bool → Groups → List Text → Text
  format_groups single_ungrouped gs [] = []
  format_groups single_ungrouped gs (g ∷ names) =
      format_group single_ungrouped gs g ++ format_groups single_ungrouped gs names

  -- `FormatMarkdown`
  unfoldable pub format_markdown : List Entry → Text
  format_markdown entries =
      let gs = group_entries entries (record { names = []; entries = []; orders = [] }) in
      let names = sorts.sort_names (group_less gs) gs.names in
      let single_ungrouped = (length names == 1) && contains names (codes "Ungrouped") in
      codes "# Configuration\n\n"
      ++ codes "All configuration is read via environment variables with the `"
      ++ env_prefix
      ++ codes "_` prefix, or via a configuration file.\n\n"
      ++ codes "<!-- This file is auto-generated by cdoc. Do not edit manually. -->\n\n"
      ++ format_groups single_ungrouped gs names
