-- ===== src/Cdoc/Orders.antt =====
-- cmd/cdoc/internal/engine/model/model.go: `ApplyProjectGroupOrders` and the declarations of
-- group orders.
use rudder_go_kit.Prelude.{
  ℕ, ◌≡◌, refl, sym, ◌∙◌, List, [], ◌∷◌, ◌++◌, map, Option, none, some, ite, if_pos, if_neg,
  if◌then◌else◌, Option-cases, inl, inr,
}
use rudder_go_kit.Prelude.Int.{ℤ}
use rudder_go_kit.Prelude.Maps.{lookup, insert, lookup-insert_self, lookup-insert_ne}
use rudder_go_kit.Config.Types.{Text, text_discrete}
use rudder_go_kit.Cdoc.Types.{Entry, GroupOrderDeclaration, is_empty}
use rudder_go_kit.Cdoc.Model.{declare_orders, apply_order, apply_project_group_orders}

-- The order in the first declaration of a group.
abbrev pub first_order : Text → List GroupOrderDeclaration → Option ℤ
first_order g [] = none
first_order g (d ∷ ds) = ite (text_discrete d.group g) (some d.order) (first_order g ds)

-- The entry with the order that its group is declared to have, if it is.
abbrev pub with_order : List GroupOrderDeclaration → Entry → Entry
with_order ds e =
    if is_empty e.group
    then e
    else elim (first_order e.group ds) [ none ↦ e | some order ↦ record e { group_order = order } ]

abbrev or_else : Option ℤ → Option ℤ → Option ℤ
or_else none o = o
or_else (some n) o = some n

or_else-none : (o : Option ℤ) → o ≡ or_else o none
or_else-none none = refl
or_else-none (some n) = refl

first_known :
    (g : Text) (orders : List (Text × ℤ)) (d : GroupOrderDeclaration)
    (ds : List GroupOrderDeclaration) (existing : ℤ)
    → lookup text_discrete d.group orders ≡ some existing
    → or_else (lookup text_discrete g orders) (first_order g ds)
      ≡ or_else (lookup text_discrete g orders) (first_order g (d ∷ ds))
first_known g orders d ds existing h = elim (text_discrete d.group g) [
  | yes p ↦ rw (sym p) (rw h refl)
  | no n ↦ rw (if_neg _ n) refl
]

first_new :
    (g : Text) (orders : List (Text × ℤ)) (d : GroupOrderDeclaration)
    (ds : List GroupOrderDeclaration)
    → lookup text_discrete d.group orders ≡ none
    → or_else
        (lookup text_discrete g (insert text_discrete d.group d.order orders))
        (first_order g ds)
      ≡ or_else (lookup text_discrete g orders) (first_order g (d ∷ ds))
first_new g orders d ds h = elim (text_discrete d.group g) [
  | yes p ↦
      rw (if_pos (text_discrete d.group g) p)
        (rw (sym p) (rw (lookup-insert_self text_discrete d.group d.order orders) (rw h refl)))
  | no n ↦ rw (lookup-insert_ne text_discrete d.group g d.order orders n) (rw (if_neg _ n) refl)
]

module _ (decimal : ℕ → Text) where
  lookup-declare_orders :
      (g : Text) (orders : List (Text × ℤ)) (origins : List (Text × Text))
      (ds : List GroupOrderDeclaration)
      → lookup text_discrete g (declare_orders decimal orders origins ds).0
        ≡ or_else (lookup text_discrete g orders) (first_order g ds)
  unfolding declare_orders
  lookup-declare_orders g orders origins [] = or_else-none (lookup text_discrete g orders)
  lookup-declare_orders g orders origins (d ∷ ds) =
      elim (Option-cases (lookup text_discrete d.group orders)) [
        | inr (existing, h) ↦
            rw (h, declare_orders)
              (lookup-declare_orders g orders origins ds ∙ first_known g orders d ds existing h)
        | inl h ↦
            rw (h, declare_orders)
              (lookup-declare_orders g (insert text_discrete d.group d.order orders)
                  (insert text_discrete d.group (d.file ++ (b':' ∷ decimal d.line)) origins) ds
                ∙ first_new g orders d ds h)
      ]

apply_order-with_order :
    (orders : List (Text × ℤ)) (ds : List GroupOrderDeclaration) (e : Entry)
    → lookup text_discrete e.group orders ≡ first_order e.group ds
    → apply_order orders e ≡ with_order ds e
unfolding apply_order
apply_order-with_order orders ds e h = rw h refl

map_pointwise :
    (f g : Entry → Entry) (es : List Entry) → ((e : Entry) → f e ≡ g e) → map f es ≡ map g es
map_pointwise f g [] h = refl
map_pointwise f g (e ∷ es) h = cc (h e, map_pointwise f g es h)

-- `ApplyProjectGroupOrders` gives every entry whose group is declared the order of the group's
-- first declaration, and leaves all other entries as they are.
pub apply_project_group_orders_first :
    (decimal : ℕ → Text) (es : List Entry) (ds : List GroupOrderDeclaration)
    → (apply_project_group_orders decimal es ds).0 ≡ map (with_order ds) es
unfolding apply_project_group_orders lookup
apply_project_group_orders_first decimal es ds =
    map_pointwise _ (with_order ds) es
      (λ e. apply_order-with_order _ ds e (lookup-declare_orders decimal e.group [] [] ds))
