-- ===== src/Cdoc/Split.antt =====
-- cmd/cdoc/internal/engine/scanner/scanner.go: the two lists of keys that `classifyKeys` makes.
use rudder_go_kit.Prelude.{
  ℕ, ◌≡◌, refl, ap, List, [], ◌∷◌, ◌++◌, Bool, true, false, arith, if◌then◌else◌, Bool-cases, inl,
  inr,
}
use mathlib.Core.List.{append-nil}
use rudder_go_kit.Config.Types.{Text}
use rudder_go_kit.Cdoc.Types.{is_empty}
use rudder_go_kit.Cdoc.Strings.{trim_space}
use rudder_go_kit.Cdoc.Expr.{Exprs, no_expr, more, Printer, render_string_lit}
use rudder_go_kit.Cdoc.Keys.{
  Keys, add_key, add_keys, missing_key, classify_args, classify_keys, is_env_var_style,
}

-- The keys whose style is the one given.
abbrev pub of_style : Bool → List Text → List Text
of_style env [] = []
of_style true (k ∷ ks) = if is_env_var_style k then k ∷ of_style true ks else of_style true ks
of_style false (k ∷ ks) = if is_env_var_style k then of_style false ks else k ∷ of_style false ks

-- The two lists hold the keys of all, each by its style and in the order of all.
pub record IsSplit (k : Keys) : Type 0 where
  pub env : k.env_keys ≡ of_style true k.all_keys
  pub config : k.config_keys ≡ of_style false k.all_keys

of_style-append :
    (env : Bool) (ks js : List Text) → of_style env (ks ++ js) ≡ of_style env ks ++ of_style env js
of_style-append true [] js = refl
of_style-append true (k ∷ ks) js = ground (arith, of_style-append true ks js)
of_style-append false [] js = refl
of_style-append false (k ∷ ks) js = ground (arith, of_style-append false ks js)

module _ (is_space : ℕ → Bool) where
  add_key-IsSplit : (given : Text) (k : Keys) → IsSplit k → IsSplit (add_key is_space given k)
  unfolding add_key
  add_key-IsSplit given k s =
      let key = trim_space is_space given in
      elim (Bool-cases (is_empty key)) [
        | inl e ↦ rw e s
        | inr e ↦ elim (Bool-cases (is_env_var_style key)) [
          | inl t ↦ rw e (
              rw t (record {
                env =
                    rw (of_style-append true k.all_keys (key ∷ []))
                      (rw t (ap (λ ks. ks ++ key ∷ []) s.env));
                config =
                    rw (of_style-append false k.all_keys (key ∷ []))
                      (rw t (rw (append-nil (of_style false k.all_keys)) s.config));
              }))
          | inr f ↦ rw e (
              rw f (record {
                env =
                    rw (of_style-append true k.all_keys (key ∷ []))
                      (rw f (rw (append-nil (of_style true k.all_keys)) s.env));
                config =
                    rw (of_style-append false k.all_keys (key ∷ []))
                      (rw f (ap (λ ks. ks ++ key ∷ []) s.config));
              }))
        ]
      ]

  add_keys-IsSplit :
      (given : List Text) (k : Keys) → IsSplit k → IsSplit (add_keys is_space given k)
  unfolding add_keys
  add_keys-IsSplit [] k s = s
  add_keys-IsSplit (g ∷ given) k s =
      add_keys-IsSplit given (add_key is_space g k) (add_key-IsSplit g k s)

module _ (is_space : ℕ → Bool) (go : Printer) (variadic : Bool) (file : Text) (line : ℕ) where
  missing_key-IsSplit :
      (k : Keys) → IsSplit k → IsSplit (missing_key is_space go variadic file line k)
  unfolding missing_key
  missing_key-IsSplit k s = record { env = s.env; config = s.config }

  IsSplit-if : (b : Bool) (k j : Keys) → IsSplit k → IsSplit j → IsSplit (if b then k else j)
  IsSplit-if true k j s t = s
  IsSplit-if false k j s t = t

  IsSplit-if_pair :
      (b : Bool) (p q : Keys × List Text)
      → IsSplit p.0
      → IsSplit q.0
      → IsSplit (if b then p else q).0
  IsSplit-if_pair true p q s t = s
  IsSplit-if_pair false p q s t = t

  classify_args-IsSplit :
      (args : Exprs) (var_keys : List Text) (k : Keys)
      → IsSplit k
      → IsSplit (classify_args is_space go variadic file line args var_keys k).0
  unfolding classify_args
  classify_args-IsSplit no_expr var_keys k s = s
  classify_args-IsSplit (more arg no_expr) [] k s =
      IsSplit-if_pair (is_empty (render_string_lit go arg)) _ _ (missing_key-IsSplit k s)
        (add_key-IsSplit is_space _ k s)
  classify_args-IsSplit (more arg no_expr) (v ∷ vs) k s =
      IsSplit-if_pair (is_empty (render_string_lit go arg)) _ _
        (IsSplit-if_pair variadic _ _ (add_keys-IsSplit is_space (v ∷ vs) k s)
          (add_key-IsSplit is_space v k s))
        (add_key-IsSplit is_space _ k s)
  classify_args-IsSplit (more arg (more next args)) [] k s =
      classify_args-IsSplit (more next args) [] _ (
        IsSplit-if (is_empty (render_string_lit go arg)) _ _ (missing_key-IsSplit k s)
          (add_key-IsSplit is_space _ k s))
  classify_args-IsSplit (more arg (more next args)) (v ∷ vs) k s =
      IsSplit-if_pair (is_empty (render_string_lit go arg)) _ _
        (classify_args-IsSplit (more next args) vs _ (add_key-IsSplit is_space v k s))
        (classify_args-IsSplit (more next args) (v ∷ vs) _ (add_key-IsSplit is_space _ k s))

-- `classifyKeys` puts every key of the call into exactly one of the two lists of the entry, in the
-- order of the call: the environment variable style keys into `EnvKeys`, the others into
-- `ConfigKeys`.
pub classify_keys-IsSplit :
    (is_space : ℕ → Bool) (go : Printer) (variadic : Bool) (file : Text) (line : ℕ) (args : Exprs)
    (var_keys : List Text)
    → IsSplit (classify_keys is_space go variadic file line args var_keys)
unfolding classify_keys
classify_keys-IsSplit is_space go variadic file line args var_keys =
    let s =
      classify_args-IsSplit is_space go variadic file line args var_keys _
        (record { env = refl; config = refl }) in
    record { env = s.env; config = s.config }
