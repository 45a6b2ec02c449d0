-- ===== src/Cdoc/Types.antt =====
-- cmd/cdoc/internal/engine/model: entries and warnings. A line is a natural number; the text of a
-- warning is its format with its arguments.
use rudder_go_kit.Prelude.{ℕ, List, Bool, ite, true, false}
use rudder_go_kit.Prelude.Int.{ℤ}
use rudder_go_kit.Config.Types.{Text, text_discrete}

pub record Entry : Type 0 where
  pub primary_key : Text
  pub config_keys : List Text
  pub env_keys : List Text
  pub default_value : Text
  pub description : Text
  pub reloadable : Bool
  pub group : Text
  pub group_order : ℤ
  pub file : Text
  pub line : ℕ

pub record GroupOrderDeclaration : Type 0 where
  pub group : Text
  pub order : ℤ
  pub file : Text
  pub line : ℕ

pub data WarningCode : Type 0 where
  parse_failed : WarningCode
  arg_count : WarningCode
  dynamic_key_missing : WarningCode
  unused_key_override : WarningCode
  conflicting_group_order : WarningCode
  conflicting_group : WarningCode
  conflicting_default : WarningCode
  unused_desc_directive : WarningCode
  unused_default_directive : WarningCode
  missing_description : WarningCode
  missing_group : WarningCode

-- The formats of the messages, with their arguments.
pub data Message : Type 0 where
  conflicting_groups : (key group location other_group other_location : Text) → Message
  conflicting_defaults : (key value location other_value other_location : Text) → Message
  conflicting_orders :
      (group : Text) (order : ℤ) (location : Text) (other_order : ℤ) (other_file : Text)
      (other_line : ℕ)
      → Message
  expected_args : (expected got : ℕ) → Message
  no_key_directive : Message
  unused_overrides : (keys : Text) → Message
  unused_desc : Message
  unused_default : Message
  no_desc : (key : Text) → Message
  no_group : (key : Text) → Message

pub record Warning : Type 0 where
  pub code : WarningCode
  pub file : Text
  pub line : ℕ
  pub message : Message

-- `==` on strings.
unfoldable pub same_text : Text → Text → Bool
same_text s t = ite (text_discrete s t) true false

-- `s == ""`
unfoldable pub is_empty : Text → Bool
is_empty List.[] = true
is_empty (List.◌∷◌ c s) = false
