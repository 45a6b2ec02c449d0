-- ===== src/Cdoc/Model.antt =====
-- cmd/cdoc/internal/engine/model: entries of one key are merged, group orders are applied, warnings
-- are classified. `decimal` is the `%d` of package fmt.
use rudder_go_kit.Prelude.{
  ℕ, zero, suc, List, [], ◌∷◌, ◌++◌, map, Bool, true, false, not, ◌&&◌, none, some, length, leb,
  ltb, ◌==◌, if◌then◌else◌,
}
use rudder_go_kit.Prelude.Int.{ℤ, pos, negsuc}
use rudder_go_kit.Prelude.Maps.{lookup, insert}
use rudder_go_kit.Config.Types.{Text, text_discrete, codes}
use rudder_go_kit.Cdoc.Types.{
  Entry, GroupOrderDeclaration, Warning, conflicting_group_order, conflicting_group,
  conflicting_default, conflicting_groups, conflicting_defaults, conflicting_orders, same_text,
  is_empty,
}
use rudder_go_kit.Cdoc.Strings.{contains}

-- `a == b` on int.
unfoldable pub same_int : ℤ → ℤ → Bool
same_int (pos m) (pos n) = m == n
same_int (negsuc m) (negsuc n) = m == n
same_int (pos m) (negsuc n) = false
same_int (negsuc m) (pos n) = false

unfoldable pub is_zero : ℤ → Bool
is_zero n = same_int n (pos 0)

-- The loops that merge keys.
unfoldable pub add_missing : List Text → List Text → List Text
add_missing existing [] = existing
add_missing existing (k ∷ ks) =
    add_missing (if contains existing k then existing else existing ++ (k ∷ [])) ks

-- `skipGroupBackfill`
unfoldable pub skip_group_backfill : Entry → Entry → Bool
skip_group_backfill existing e =
    let same_file_later =
      not (is_empty existing.file)
      && not (is_empty e.file)
      && same_text existing.file e.file
      && ltb existing.line e.line in
    same_file_later && is_empty existing.group && not (is_empty e.group)

-- What a later entry of the same key changes.
unfoldable pub merge : Entry → Entry → Entry
merge existing e =
    let skip = skip_group_backfill existing e in
    record existing {
      description =
          if is_empty existing.description && not (is_empty e.description)
          then e.description
          else existing.description;
      group =
          if is_empty existing.group && not (is_empty e.group) && not skip
          then e.group
          else existing.group;
      env_keys = add_missing existing.env_keys e.env_keys;
      config_keys = add_missing existing.config_keys e.config_keys;
      reloadable = if e.reloadable then true else existing.reloadable;
      group_order =
          if is_zero existing.group_order && not (is_zero e.group_order) && not skip
          then e.group_order
          else existing.group_order;
    }

module _ (decimal : ℕ → Text) where
  -- `entryLocation`
  unfoldable pub entry_location : Entry → Text
  entry_location e =
      if is_empty e.file && leb e.line 0
      then codes "unknown"
      else if ltb 0 e.line
      then e.file ++ (b':' ∷ decimal e.line)
      else e.file

  -- The warnings of a merge. The second test of the groups is an `else if`.
  unfoldable pub merge_warnings : Entry → Entry → List Warning
  merge_warnings existing e =
      let taken =
        is_empty existing.group && not (is_empty e.group) && not (skip_group_backfill existing e) in
      let conflict =
        not taken
        && not (is_empty existing.group)
        && not (is_empty e.group)
        && not (same_text existing.group e.group) in
      let here = entry_location existing in
      let there = entry_location e in
      (if conflict
        then record {
          code = conflicting_group;
          file = e.file;
          line = e.line;
          message = conflicting_groups e.primary_key existing.group here e.group there;
        }
          ∷ []
        else [])
      ++ (if same_text existing.default_value e.default_value
          then []
          else record {
            code = conflicting_default;
            file = e.file;
            line = e.line;
            message =
                conflicting_defaults e.primary_key existing.default_value here e.default_value
                  there;
          }
            ∷ [])

-- The variables of `DeduplicateEntries`.
pub record Dedup : Type 0 where
  pub result : List Entry
  pub seen : List (Text × ℕ)
  pub warnings : List Warning

-- `result[idx]` is changed, after its warnings are made.
unfoldable pub merge_at : (ℕ → Text) → ℕ → Entry → List Entry → List Entry × List Warning
merge_at decimal idx e [] = ([], [])
merge_at decimal zero e (existing ∷ rest) =
    (merge existing e ∷ rest, merge_warnings decimal existing e)
merge_at decimal (suc idx) e (existing ∷ rest) =
    let (rest', warnings) = merge_at decimal idx e rest in (existing ∷ rest', warnings)

module _ (decimal : ℕ → Text) where
  -- One round of the loop.
  unfoldable pub deduplicate_entry : Dedup → Entry → Dedup
  deduplicate_entry d e =
      if is_empty e.primary_key then d else elim (lookup text_discrete e.primary_key d.seen) [
        | some idx ↦
            let (result, warnings) = merge_at decimal idx e d.result in
            record d { result = result; warnings = d.warnings ++ warnings }
        | none ↦ record d {
          result = d.result ++ (e ∷ []);
          seen = insert text_discrete e.primary_key (length d.result) d.seen;
        }
      ]

  unfoldable pub deduplicate_loop : Dedup → List Entry → Dedup
  deduplicate_loop d [] = d
  deduplicate_loop d (e ∷ es) = deduplicate_loop (deduplicate_entry d e) es

  -- `DeduplicateEntries`
  unfoldable pub deduplicate_entries : List Entry → List Entry × List Warning
  deduplicate_entries es =
      let d = deduplicate_loop (record { result = []; seen = []; warnings = [] }) es in
      (d.result, d.warnings)

  -- The first loop of `ApplyProjectGroupOrders`: the orders, their origins and the warnings.
  unfoldable pub declare_orders :
      List (Text × ℤ)
      → List (Text × Text)
      → List GroupOrderDeclaration
      → List (Text × ℤ) × List Warning
  declare_orders orders origins [] = (orders, [])
  declare_orders orders origins (d ∷ ds) = elim (lookup text_discrete d.group orders) [
    | some existing ↦
        let (orders', warnings) = declare_orders orders origins ds in
        (
          orders',
          if same_int existing d.order
              then warnings
              else record {
                code = conflicting_group_order;
                file = [];
                line = 0;
                message =
                    conflicting_orders d.group existing
                      (elim (lookup text_discrete d.group origins) [ none ↦ [] | some o ↦ o ])
                      d.order d.file d.line;
              }
                ∷ warnings,
        )
    | none ↦
        declare_orders (insert text_discrete d.group d.order orders)
          (insert text_discrete d.group (d.file ++ (b':' ∷ decimal d.line)) origins) ds
  ]

-- A round of the second loop.
unfoldable pub apply_order : List (Text × ℤ) → Entry → Entry
apply_order orders e = if is_empty e.group then e else elim (lookup text_discrete e.group orders) [
  | none ↦ e
  | some order ↦ record e { group_order = order }
]

-- `ApplyProjectGroupOrders`: the entries as it leaves them, and its warnings.
unfoldable pub apply_project_group_orders :
    (ℕ → Text) → List Entry → List GroupOrderDeclaration → List Entry × List Warning
apply_project_group_orders decimal entries declarations =
    let (orders, warnings) = declare_orders decimal [] [] declarations in
    (map (apply_order orders) entries, warnings)
