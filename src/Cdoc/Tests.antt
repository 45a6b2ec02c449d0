-- ===== src/Cdoc/Tests.antt =====
-- cmd/cdoc at concrete inputs, and the theorems' instances.
use rudder_go_kit.Prelude.{
  ℕ, ◌≡◌, ◌<◌, refl, List, [], ◌∷◌, map, not, ◌&&◌, false, some, length, ℕ_discrete,
}
use rudder_go_kit.Prelude.Int.{pos}
use rudder_go_kit.Config.Types.{Text, codes}
use rudder_go_kit.Cdoc.Types.{Entry, GroupOrderDeclaration, is_empty}
use rudder_go_kit.Cdoc.Strings.{contains, repeat, cut_prefix, cut_suffix}
use rudder_go_kit.Cdoc.Model.{deduplicate_entries, apply_project_group_orders}
use rudder_go_kit.Cdoc.Directives.{
  PendingDirective, desc_directive, consume_nearest_directive_value, consume_nearest_from,
  consume_last, consume, is_at,
}
use rudder_go_kit.Cdoc.Markdown.{format_inline_code, delimiter, padded, max_run}
use rudder_go_kit.Cdoc.Nearest.{NearestResult, consume_nearest_directive_value-NearestResult}
use rudder_go_kit.Cdoc.InlineCode.{delimiter_longer}
use rudder_go_kit.Cdoc.Merged.{Single, keys_of, deduplicate_entries-Single}
use rudder_go_kit.Cdoc.Orders.{with_order, apply_project_group_orders_first}

-- The delimiter of a text that begins with a backtick runs into it.
inline_code_runs_together : format_inline_code (codes "`a") ≡ codes "```a``"
unfolding format_inline_code delimiter padded max_run repeat cut_prefix cut_suffix is_empty
    ℕ_discrete
inline_code_runs_together = refl

delimiter_longer_example : 2 < length (delimiter (codes "a``b"))
unfolding repeat
delimiter_longer_example = delimiter_longer (codes "a``b") (codes "a") (codes "b") 2 refl

abbrev desc_at : ℕ → Text → PendingDirective
desc_at line value = record {
  directive = record { kind = desc_directive; value = value; line = line; order = 0 };
  consumed = false;
}

abbrev three_descs : List PendingDirective
three_descs = desc_at 3 (codes "far") ∷ desc_at 8 (codes "near") ∷ desc_at 30 (codes "below") ∷ []

nearest_of_three :
    consume_nearest_directive_value desc_directive 9 10 three_descs
    ≡ some (
      codes "near",
      desc_at 3 (codes "far")
          ∷ consume (desc_at 8 (codes "near"))
          ∷ desc_at 30 (codes "below")
          ∷ [],
    )
unfolding consume_nearest_directive_value consume_nearest_from consume_last is_at
nearest_of_three = refl

consume_nearest_directive_value-NearestResult_example :
    NearestResult desc_directive 9 0 10 three_descs
      (consume_nearest_directive_value desc_directive 9 10 three_descs)
consume_nearest_directive_value-NearestResult_example =
    consume_nearest_directive_value-NearestResult desc_directive 9 10 three_descs

abbrev one_digit : ℕ → Text
one_digit n = n ∷ []

abbrev entry_of : Text → Text → Entry
entry_of key group = record {
  primary_key = key;
  config_keys = key ∷ [];
  env_keys = [];
  default_value = codes "1";
  description = [];
  reloadable = false;
  group = group;
  group_order = pos 0;
  file = codes "a.go";
  line = 1;
}

abbrev some_entries : List Entry
some_entries =
    entry_of (codes "port") (codes "HTTP")
    ∷ entry_of [] []
    ∷ entry_of (codes "port") (codes "TCP")
    ∷ entry_of (codes "host") []
    ∷ []

deduplicate_entries-Single_example :
    Single (keys_of (deduplicate_entries one_digit some_entries).0)
    × ((k : Text)
        → contains (keys_of (deduplicate_entries one_digit some_entries).0) k
          ≡ (not (is_empty k) && contains (keys_of some_entries) k))
deduplicate_entries-Single_example = deduplicate_entries-Single one_digit some_entries

abbrev two_orders : List GroupOrderDeclaration
two_orders =
    record { group = codes "HTTP"; order = pos 1; file = codes "a.go"; line = 2 }
    ∷ record { group = codes "HTTP"; order = pos 2; file = codes "b.go"; line = 3 }
    ∷ []

apply_project_group_orders_first_example :
    (apply_project_group_orders one_digit some_entries two_orders).0
    ≡ map (with_order two_orders) some_entries
apply_project_group_orders_first_example =
    apply_project_group_orders_first one_digit some_entries two_orders
