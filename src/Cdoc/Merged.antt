-- ===== src/Cdoc/Merged.antt =====
-- cmd/cdoc/internal/engine/model/model.go: the keys of the entries that `DeduplicateEntries` leaves.
use rudder_go_kit.Prelude.{
  ℕ, zero, suc, ◌≡◌, refl, sym, ap, ◌∙◌, List, [], ◌∷◌, ◌++◌, Bool, true, false, not, ◌&&◌, ◌||◌,
  arith, Bool-cases, Option-cases, inl, inr, is_some, length, if_neg,
}
use rudder_go_kit.Prelude.Maps.{lookup, insert, lookup-insert_self, lookup-insert_ne}
use rudder_go_kit.Config.Types.{Text, text_discrete}
use rudder_go_kit.Cdoc.Types.{Entry, same_text, is_empty}
use rudder_go_kit.Cdoc.Strings.{contains}
use rudder_go_kit.Cdoc.Model.{
  Dedup, merge, merge_at, deduplicate_entry, deduplicate_loop, deduplicate_entries,
}

abbrev pub keys_of : List Entry → List Text
keys_of [] = []
keys_of (e ∷ es) = e.primary_key ∷ keys_of es

-- No key stands twice.
abbrev pub Single : List Text → Type 0
Single [] = Unit
Single (k ∷ ks) = (contains ks k ≡ false) × Single ks

-- The map `seen` knows the keys of the result, and no key stands twice in it.
record IsIndexed (d : Dedup) : Type 0 where
  single : Single (keys_of d.result)
  known : (k : Text) → is_some (lookup text_discrete k d.seen) ≡ contains (keys_of d.result) k

contains-append :
    (ks js : List Text) (k : Text) → contains (ks ++ js) k ≡ (contains ks k || contains js k)
unfolding contains
contains-append [] js k = refl
contains-append (i ∷ ks) js k = ground (arith, contains-append ks js k)

same_text_self : (s : Text) → same_text s s ≡ true
unfolding same_text
same_text_self s = ground arith

keys_of-append : (es fs : List Entry) → keys_of (es ++ fs) ≡ keys_of es ++ keys_of fs
keys_of-append [] fs = refl
keys_of-append (e ∷ es) fs = ap (λ ks. e.primary_key ∷ ks) (keys_of-append es fs)

keys_of-merge_at :
    (decimal : ℕ → Text) (idx : ℕ) (e : Entry) (es : List Entry)
    → keys_of (merge_at decimal idx e es).0 ≡ keys_of es
unfolding merge_at merge
keys_of-merge_at decimal zero e [] = refl
keys_of-merge_at decimal (suc idx) e [] = refl
keys_of-merge_at decimal zero e (x ∷ es) = refl
keys_of-merge_at decimal (suc idx) e (x ∷ es) =
    ap (λ ks. x.primary_key ∷ ks) (keys_of-merge_at decimal idx e es)

or_and : (a b c d : Bool) → ((a || (b && c)) || (b && d)) ≡ (a || (b && (c || d)))
or_and a b c d = ground arith

same_text_comm : (s t : Text) → same_text s t ≡ same_text t s
unfolding same_text
same_text_comm s t = ground arith

Single-snoc :
    (ks : List Text) (k : Text) → Single ks → contains ks k ≡ false → Single (ks ++ k ∷ [])
unfolding contains
Single-snoc [] k s n = (refl, tt)
Single-snoc (j ∷ ks) k s n = (
  contains-append ks (k ∷ []) j ∙ ground (arith, n, s.0, same_text_comm j k),
  Single-snoc ks k s.1 (ground (arith, n)),
)

-- A key that is in the list is one more key of it at no cost.
contains-again :
    (ks : List Text) (key k : Text)
    → contains ks key ≡ true
    → contains ks k ≡ (contains ks k || (not (is_empty k) && same_text key k))
unfolding same_text
contains-again ks key k h = elim (text_discrete key k) [
  | yes p ↦ rw (sym p) (rw h refl)
  | no n ↦ rw (if_neg _ n) (ground arith)
]

empty_key : (key k : Text) → is_empty key ≡ true → (not (is_empty k) && same_text key k) ≡ false
unfolding same_text
empty_key key k h = elim (text_discrete key k) [
  | yes p ↦ rw (sym p) (rw h refl)
  | no n ↦ rw (if_neg _ n) (ground arith)
]

one_key :
    (key k : Text)
    → is_empty key ≡ false
    → contains (key ∷ []) k ≡ (not (is_empty k) && same_text key k)
unfolding contains same_text
one_key key k h = elim (text_discrete key k) [
  | yes p ↦ rw (sym p) (rw h (ground arith))
  | no n ↦ rw (if_neg _ n) (ground arith)
]

module _ (decimal : ℕ → Text) where
  known_added :
      (seen : List (Text × ℕ)) (e : Entry) (n : ℕ) (result : List Entry) (k : Text)
      → is_some (lookup text_discrete k seen) ≡ contains (keys_of result) k
      → is_some (lookup text_discrete k (insert text_discrete e.primary_key n seen))
        ≡ contains (keys_of (result ++ e ∷ [])) k
  unfolding contains same_text
  known_added seen e n result k h = rw (keys_of-append result (e ∷ [])) (
      rw (contains-append (keys_of result) (e.primary_key ∷ []) k)
        (elim (text_discrete e.primary_key k) [
          | yes p ↦ rw (sym p) (
              rw (lookup-insert_self text_discrete e.primary_key n seen)
                (rw (same_text_self e.primary_key) (ground arith)))
          | no m ↦
              rw (lookup-insert_ne text_discrete e.primary_key k n seen m)
                (rw (if_neg _ m) (h ∙ ground arith))
        ]))

  deduplicate_entry-IsIndexed :
      (d : Dedup) (e : Entry) → IsIndexed d → IsIndexed (deduplicate_entry decimal d e)
  unfolding deduplicate_entry
  deduplicate_entry-IsIndexed d e i = elim (Bool-cases (is_empty e.primary_key)) [
    | inl t ↦ rw t i
    | inr f ↦ rw f (elim (Option-cases (lookup text_discrete e.primary_key d.seen)) [
      | inr (idx, h) ↦ rw h (record {
        single = rw (keys_of-merge_at decimal idx e d.result) i.single;
        known = λ k. rw (keys_of-merge_at decimal idx e d.result) (i.known k);
      })
      | inl h ↦ rw h (record {
        single = rw (keys_of-append d.result (e ∷ [])) (
            Single-snoc (keys_of d.result) e.primary_key i.single
              (sym (i.known e.primary_key) ∙ rw h refl));
        known = λ k. known_added d.seen e (length d.result) d.result k (i.known k);
      })
    ])
  ]

  -- The keys of the result after one round.
  contains-deduplicate_entry :
      (d : Dedup) (e : Entry) (k : Text)
      → IsIndexed d
      → contains (keys_of (deduplicate_entry decimal d e).result) k
        ≡ (contains (keys_of d.result) k || (not (is_empty k) && same_text e.primary_key k))
  unfolding deduplicate_entry
  contains-deduplicate_entry d e k i = elim (Bool-cases (is_empty e.primary_key)) [
    | inl t ↦ rw t (rw (empty_key e.primary_key k t) (ground arith))
    | inr f ↦ rw f (elim (Option-cases (lookup text_discrete e.primary_key d.seen)) [
      | inr (idx, h) ↦ rw h (
          rw (keys_of-merge_at decimal idx e d.result) (
            contains-again (keys_of d.result) e.primary_key k
              (sym (i.known e.primary_key) ∙ rw h refl)))
      | inl h ↦ rw h (
          rw (keys_of-append d.result (e ∷ [])) (
            contains-append (keys_of d.result) (e.primary_key ∷ []) k
            ∙ ap (λ b. contains (keys_of d.result) k || b) (one_key e.primary_key k f)))
    ])
  ]

  deduplicate_loop-IsIndexed :
      (d : Dedup) (es : List Entry) → IsIndexed d → IsIndexed (deduplicate_loop decimal d es)
  unfolding deduplicate_loop
  deduplicate_loop-IsIndexed d [] i = i
  deduplicate_loop-IsIndexed d (e ∷ es) i =
      deduplicate_loop-IsIndexed (deduplicate_entry decimal d e) es
        (deduplicate_entry-IsIndexed d e i)

  contains-deduplicate_loop :
      (d : Dedup) (es : List Entry) (k : Text)
      → IsIndexed d
      → contains (keys_of (deduplicate_loop decimal d es).result) k
        ≡ (contains (keys_of d.result) k || (not (is_empty k) && contains (keys_of es) k))
  unfolding deduplicate_loop contains
  contains-deduplicate_loop d [] k i = ground arith
  contains-deduplicate_loop d (e ∷ es) k i =
      contains-deduplicate_loop (deduplicate_entry decimal d e) es k
        (deduplicate_entry-IsIndexed d e i)
      ∙ rw (contains-deduplicate_entry d e k i) (
          or_and (contains (keys_of d.result) k) (not (is_empty k)) (same_text e.primary_key k)
            (contains (keys_of es) k))

  -- The entries that `DeduplicateEntries` returns have different keys, and these are the keys that
  -- are not empty of the entries it is given: none is lost and none is made up.
  pub deduplicate_entries-Single :
      (es : List Entry)
      → Single (keys_of (deduplicate_entries decimal es).0)
        × ((k : Text)
            → contains (keys_of (deduplicate_entries decimal es).0) k
              ≡ (not (is_empty k) && contains (keys_of es) k))
  unfolding deduplicate_entries contains lookup
  deduplicate_entries-Single es =
      let start : IsIndexed (record { result = []; seen = []; warnings = [] }) = record {
        single = tt;
        known = λ k. refl;
      } in
      ((deduplicate_loop-IsIndexed _ es start).single, λ k. contains-deduplicate_loop _ es k start)
