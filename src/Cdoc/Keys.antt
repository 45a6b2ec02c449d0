-- ===== src/Cdoc/Keys.antt =====
-- cmd/cdoc/internal/engine/scanner/scanner.go: the method of a call, the keys among its arguments,
-- and the entry that it makes.
use rudder_go_kit.Prelude.{
  ℕ, List, [], ◌∷◌, ◌++◌, Bool, true, false, ◌&&◌, ◌||◌, Option, none, some, leb, ◌==◌,
  if◌then◌else◌, is_some,
}
use rudder_go_kit.Config.Types.{Text, codes}
use rudder_go_kit.Cdoc.Types.{
  Warning, dynamic_key_missing, unused_key_override, no_key_directive, unused_overrides, same_text,
  is_empty,
}
use rudder_go_kit.Cdoc.Strings.{
  contains, cut_prefix, cut_suffix, trim_prefix, trim_space, join, split,
}
use rudder_go_kit.Cdoc.Expr.{Exprs, no_expr, more, Printer, render_string_lit}

-- `envVarRe`
unfoldable pub env_tail : Text → Bool
env_tail [] = true
env_tail (c ∷ s) =
    ((leb b'A' c && leb c b'Z') || (leb b'0' c && leb c b'9') || (c == b'_')) && env_tail s

-- `IsEnvVarStyle`
unfoldable pub is_env_var_style : Text → Bool
is_env_var_style [] = false
is_env_var_style (c ∷ s) = (leb b'A' c && leb c b'Z') && env_tail s

-- `methodFamily`
pub data MethodFamily : Type 0 where
  family_simple : MethodFamily
  family_duration : MethodFamily
  family_with_multiplier : MethodFamily

pub record MethodSpec : Type 0 where
  pub family : MethodFamily
  pub reloadable : Bool

-- The `switch` of `classifyMethod`.
unfoldable pub family_of : Text → Option MethodFamily
family_of base =
    if contains
      (codes "String"
        ∷ codes "Bool"
        ∷ codes "StringSlice"
        ∷ codes "StringMap"
        ∷ codes "Float64"
        ∷ [])
      base
    then some family_simple
    else if same_text base (codes "Duration")
    then some family_duration
    else if contains (codes "Int" ∷ codes "Int64" ∷ []) base
    then some family_with_multiplier
    else none

-- `classifyMethod`
unfoldable pub classify_method : Text → Option MethodSpec
classify_method name = elim (cut_prefix (codes "Get") name) [
  | none ↦ none
  | some base ↦
      let reloadable = is_some (cut_prefix (codes "Reloadable") base) in
      elim (cut_suffix (codes "Var") (trim_prefix (codes "Reloadable") base)) [
        | none ↦ none
        | some middle ↦ elim (family_of middle) [
          | none ↦ none
          | some f ↦ some (record { family = f; reloadable = reloadable })
        ]
      ]
]

-- The loop of `parseVarKeyDirective`.
unfoldable pub trimmed_keys : (ℕ → Bool) → List Text → List Text
trimmed_keys is_space [] = []
trimmed_keys is_space (part ∷ parts) =
    let rest = trimmed_keys is_space parts in
    let key = trim_space is_space part in if is_empty key then rest else key ∷ rest

-- `parseVarKeyDirective`
unfoldable pub parse_var_key_directive : (ℕ → Bool) → Text → List Text
parse_var_key_directive is_space value = trimmed_keys is_space (split b',' value)

-- What the loop of `classifyKeys` has made so far: `allKeys`, the two lists of the entry, and the
-- warnings.
pub record Keys : Type 0 where
  pub all_keys : List Text
  pub config_keys : List Text
  pub env_keys : List Text
  pub warnings : List Warning

module _ (is_space : ℕ → Bool) where
  -- `addKey`
  unfoldable pub add_key : Text → Keys → Keys
  add_key given k =
      let key = trim_space is_space given in
      if is_empty key
      then k
      else if is_env_var_style key
      then record k { all_keys = k.all_keys ++ (key ∷ []); env_keys = k.env_keys ++ (key ∷ []) }
      else record k {
        all_keys = k.all_keys ++ (key ∷ []);
        config_keys = k.config_keys ++ (key ∷ []);
      }

  unfoldable pub add_keys : List Text → Keys → Keys
  add_keys [] k = k
  add_keys (given ∷ rest) k = add_keys rest (add_key given k)

module _ (is_space : ℕ → Bool) (go : Printer) (variadic_last_arg : Bool) (file : Text)
    (line : ℕ) where
  -- The warning of an argument that is no literal and has no directive.
  unfoldable pub missing_key : Keys → Keys
  missing_key k = record k {
    warnings =
        k.warnings
        ++ (record {
          code = dynamic_key_missing;
          file = file;
          line = line;
          message = no_key_directive;
        }
            ∷ []);
  }

  -- The loop of `classifyKeys` over the arguments, with the `varKeys` from `varKeyIdx` on; those
  -- that are left stand beside what it makes.
  unfoldable pub classify_args : Exprs → List Text → Keys → Keys × List Text
  classify_args no_expr var_keys k = (k, var_keys)
  classify_args (more arg no_expr) var_keys k =
      let key = render_string_lit go arg in
      if is_empty key
      then elim var_keys [
        | [] ↦ (missing_key k, [])
        | v ∷ vs ↦
            if variadic_last_arg
            then (add_keys is_space (v ∷ vs) k, [])
            else (add_key is_space v k, vs)
      ]
      else (add_key is_space key k, var_keys)
  classify_args (more arg (more next args)) [] k =
      let key = render_string_lit go arg in
      classify_args (more next args) []
        (if is_empty key then missing_key k else add_key is_space key k)
  classify_args (more arg (more next args)) (v ∷ vs) k =
      let key = render_string_lit go arg in
      if is_empty key
      then classify_args (more next args) vs (add_key is_space v k)
      else classify_args (more next args) (v ∷ vs) (add_key is_space key k)

  -- The warning of `varKeys` that are left.
  unfoldable pub unused_warning : List Text → List Warning
  unused_warning [] = []
  unused_warning (v ∷ vs) =
      record {
        code = unused_key_override;
        file = file;
        line = line;
        message = unused_overrides (join (codes ", ") (v ∷ vs));
      }
      ∷ []

  -- `classifyKeys`
  unfoldable pub classify_keys : Exprs → List Text → Keys
  classify_keys args var_keys =
      let (k, left) =
        classify_args args var_keys
          (record { all_keys = []; config_keys = []; env_keys = []; warnings = [] }) in
      record k { warnings = k.warnings ++ unused_warning left }
