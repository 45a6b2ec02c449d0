-- ===== src/Cdoc/Nearest.antt =====
-- cmd/cdoc/internal/engine/scanner/scanner.go: what `consumeNearestDirectiveValue` finds.
use rudder_go_kit.Prelude.{
  ℕ, zero, suc, ◌+◌, ◌≤◌, ◌<◌, ◌≡◌, refl, sym, ap, List, [], ◌∷◌, ◌++◌, Option, none, some, All,
  arith, Bool, ◌⊎◌, true, false, if◌then◌else◌, inl, inr,
}
use rudder_go_kit.Config.Types.{Text}
use rudder_go_kit.Cdoc.Directives.{
  DirectiveKind, PendingDirective, is_at, consume, consume_last, consume_nearest_from,
  consume_nearest_directive_value,
}

-- No directive of the kind is left at the distance.
abbrev pub NoneAt : DirectiveKind → ℕ → ℕ → List PendingDirective → Type 0
NoneAt kind line distance = All (λ p. is_at kind line distance p ≡ false)

-- The last directive of the kind at the distance is consumed, and nothing else.
pub record LastAt (kind : DirectiveKind) (line distance : ℕ) (pending : List PendingDirective)
    (value : Text) (pending' : List PendingDirective) : Type 0 where
  pub before : List PendingDirective
  pub found : PendingDirective
  pub after : List PendingDirective
  pub was : pending ≡ before ++ found ∷ after
  pub becomes : pending' ≡ before ++ consume found ∷ after
  pub gives : value ≡ found.directive.value
  pub matches : is_at kind line distance found ≡ true
  pub last : NoneAt kind line distance after

-- The result of the scan at one distance.
abbrev LastResult :
    DirectiveKind → ℕ → ℕ → List PendingDirective → Option (Text × List PendingDirective) → Type 0
LastResult kind line distance pending none = NoneAt kind line distance pending
LastResult kind line distance pending (some (value, pending')) =
    LastAt kind line distance pending value pending'

-- The directive found is the last one at its distance, and there is none at a smaller one.
pub record Nearest (kind : DirectiveKind) (line from limit : ℕ) (pending : List PendingDirective)
    (value : Text) (pending' : List PendingDirective) : Type 0 where
  pub distance : ℕ
  pub near : distance ≤ limit
  pub at : LastAt kind line distance pending value pending'
  pub nearest : (d : ℕ) → from ≤ d → d < distance → NoneAt kind line d pending

-- What the search returns: the nearest directive, or nothing, if there is none up to the limit.
abbrev pub NearestResult :
    DirectiveKind
    → ℕ
    → ℕ
    → ℕ
    → List PendingDirective
    → Option (Text × List PendingDirective)
    → Type 0
NearestResult kind line from limit pending none =
    (d : ℕ) → from ≤ d → d ≤ limit → NoneAt kind line d pending
NearestResult kind line from limit pending (some (value, pending')) =
    Nearest kind line from limit pending value pending'

le_cases : (a b : ℕ) → a ≤ b → (a ≡ b) ⊎ (a < b)
le_cases a b h = ground arith

module _ (kind : DirectiveKind) (line : ℕ) where
  -- What the result for a list says of the list with one more directive in front.
  LastResult-cons :
      (distance : ℕ) (p : PendingDirective) (pending : List PendingDirective)
      (o : Option (Text × List PendingDirective)) (b : Bool)
      → is_at kind line distance p ≡ b
      → LastResult kind line distance pending o
      → LastResult kind line distance (p ∷ pending) (elim o [
        | some (value, pending') ↦ some (value, p ∷ pending')
        | none ↦ if b then some (p.directive.value, consume p ∷ pending) else none
      ])
  LastResult-cons distance p pending (some (value, pending')) b e r = record {
    before = p ∷ r.before;
    found = r.found;
    after = r.after;
    gives = r.gives;
    matches = r.matches;
    last = r.last;
    was = ap (λ ps. p ∷ ps) r.was;
    becomes = ap (λ ps. p ∷ ps) r.becomes;
  }
  LastResult-cons distance p pending none true e r = record {
    before = [];
    found = p;
    after = pending;
    was = refl;
    becomes = refl;
    gives = refl;
    matches = e;
    last = r;
  }
  LastResult-cons distance p pending none false e r = (e, r)

  consume_last-LastResult :
      (distance : ℕ) (pending : List PendingDirective)
      → LastResult kind line distance pending (consume_last kind line distance pending)
  unfolding consume_last
  consume_last-LastResult distance [] = tt
  consume_last-LastResult distance (p ∷ pending) =
      LastResult-cons distance p pending _ (is_at kind line distance p) refl
        (consume_last-LastResult distance pending)

  NoneAt-from :
      (from d : ℕ) (pending : List PendingDirective)
      → from ≤ d
      → NoneAt kind line from pending
      → (from < d → NoneAt kind line d pending)
      → NoneAt kind line d pending
  NoneAt-from from d pending h n f = elim (le_cases from d h) [ inl e ↦ rw (sym e) n | inr l ↦ f l ]

  NearestResult-last :
      (from limit : ℕ) (pending : List PendingDirective) (o : Option (Text × List PendingDirective))
      → limit ≡ from
      → LastResult kind line from pending o
      → NearestResult kind line from limit pending o
  NearestResult-last from limit pending none e r =
      λ d p q. NoneAt-from from d pending p r (λ l. absurd (omega arith))
  NearestResult-last from limit pending (some (value, pending')) e r = record {
    distance = from;
    near = omega arith;
    at = r;
    nearest = λ d p q. absurd (omega arith);
  }

  -- What the result at one distance and the result of those behind it give together.
  NearestResult-step :
      (from limit : ℕ) (pending : List PendingDirective)
      (o further : Option (Text × List PendingDirective))
      → from < limit
      → LastResult kind line from pending o
      → NearestResult kind line (suc from) limit pending further
      → NearestResult kind line from limit pending
          (elim o [ some found ↦ some found | none ↦ further ])
  NearestResult-step from limit pending (some (value, pending')) further h r n = record {
    distance = from;
    near = omega arith;
    at = r;
    nearest = λ d p q. absurd (omega arith);
  }
  NearestResult-step from limit pending none none h r n =
      λ d p q. NoneAt-from from d pending p r (λ l. n d l q)
  NearestResult-step from limit pending none (some (value, pending')) h r n = record {
    distance = n.distance;
    near = n.near;
    at = n.at;
    nearest = λ d p q. NoneAt-from from d pending p r (λ l. n.nearest d l q);
  }

  consume_nearest_from-NearestResult :
      (more from limit : ℕ) (pending : List PendingDirective)
      → limit ≡ from + more
      → NearestResult kind line from limit pending
          (consume_nearest_from kind line more from pending)
  unfolding consume_nearest_from
  consume_nearest_from-NearestResult zero from limit pending e =
      NearestResult-last from limit pending _ (omega arith) (consume_last-LastResult from pending)
  consume_nearest_from-NearestResult (suc more) from limit pending e =
      NearestResult-step from limit pending _ _ (omega arith) (consume_last-LastResult from pending)
        (consume_nearest_from-NearestResult more (suc from) limit pending (omega arith))

-- The search for a directive of a kind near a line, up to a distance: it answers nothing only if no
-- unconsumed directive of the kind stands within the distance above the line; otherwise it
-- answers the value of such a directive, of which there is none nearer to the line and none later
-- on the same line, and it consumes this directive and changes no other.
pub consume_nearest_directive_value-NearestResult :
    (kind : DirectiveKind) (line max_distance : ℕ) (pending : List PendingDirective)
    → NearestResult kind line 0 max_distance pending
        (consume_nearest_directive_value kind line max_distance pending)
unfolding consume_nearest_directive_value
consume_nearest_directive_value-NearestResult kind line max_distance pending =
    consume_nearest_from-NearestResult kind line max_distance 0 max_distance pending (omega arith)
