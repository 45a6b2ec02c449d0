-- ===== src/Cdoc.antt =====
-- cmd/cdoc/internal/engine: the generator of configuration docs, in child modules: Types (the data),
-- Strings (what it uses of package strings), Model (model/), Directives, Expr, Keys and Scan
-- (scanner/), Markdown (render/) and Engine (engine.go).
pub mod Types
pub mod Strings
pub mod Model
pub mod Expr
pub mod Keys
pub mod Directives
pub mod Scan
pub mod Markdown
pub mod Engine
pub mod Nearest
pub mod InlineCode
pub mod Merged
pub mod Split
pub mod Orders
mod Tests
