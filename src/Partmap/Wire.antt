-- ===== src/Partmap/Wire.antt =====
-- partmap/partitionmapping.go: `Unmarshal` after `Marshal`, and of a payload that is cut short.
use mathlib.Core.List.{append-nil, append_assoc}
use rudder_go_kit.Prelude.{
  ℕ, zero, suc, ◌+◌, ◌*◌, ◌/◌, ◌%◌, ◌^◌, ◌≤◌, ◌<◌, ◌≡◌, refl, ap, ◌∙◌, ◌↔◌, inl, inr, List, [], ◌∷◌,
  ◌++◌, none, some, length, All, ℕ_discrete, arith, Option-cases,
}
use rudder_go_kit.Prelude.Maps.{insert, Keyed, insert_absent, lookup-front}
use rudder_go_kit.Partmap.{
  u32, u16, Mapping, read_u32, read_u16, write_entries, Gzip, marshal, read_entries, unmarshal,
}

-- The bytes of a number, put together again.
u32_bytes :
    (x : ℕ)
    → x < u32
    → x / 2 ^ 24 % 256 * 2 ^ 24 + x / 2 ^ 16 % 256 * 2 ^ 16 + x / 2 ^ 8 % 256 * 2 ^ 8 + x % 256 ≡ x
u32_bytes x h = omega arith

u16_bytes : (x : ℕ) → x < u16 → x / 2 ^ 8 % 256 * 2 ^ 8 + x % 256 ≡ x
u16_bytes x h = omega arith

-- The entries are numbers of the Go types, `uint32` and `uint16`.
abbrev pub InRange : Mapping → Type 0
InRange = All (λ e. (e.0 < u32) × (e.1 < u16))

-- The loop reads back what was written, behind what it has, and leaves the rest of the input.
read_entries-write_entries :
    (pm acc : Mapping) (rest : List ℕ)
    → InRange pm
    → Keyed ℕ_discrete (acc ++ pm)
    → read_entries (length pm) (write_entries pm ++ rest) acc ≡ (acc ++ pm, none)
unfolding read_entries write_entries
read_entries-write_entries [] acc rest r k = rw append-nil
read_entries-write_entries ((p, v) ∷ pm) acc rest r k =
    let acc' = acc ++ ((p, v) ∷ []) in
    let same = append_assoc acc ((p, v) ∷ []) pm in
    rw
      (
        u32_bytes p r.0.0,
        u16_bytes v r.0.1,
        insert_absent ℕ_discrete p v acc (lookup-front ℕ_discrete p v acc pm k),
      )
      (read_entries-write_entries pm acc' rest r.1 (rw same k) ∙ ap (λ m. (m, none)) same)

-- Unmarshalling what `Marshal` wrote gives the mapping back, with no error and whatever the receiver
-- held, for every mapping with fewer than 2^32 entries, its values of the Go types and its keys
-- distinct, if the gzip reader yields what the gzip writer took.
pub unmarshal-marshal :
    (gzip : Gzip) (pm old : Mapping) {bytes : List ℕ}
    → ((payload compressed : List ℕ)
        → gzip.compress payload ≡ some compressed
        → gzip.decompress compressed ≡ some payload)
    → InRange pm
    → Keyed ℕ_discrete pm
    → length pm < u32
    → marshal gzip pm ≡ some bytes
    → unmarshal gzip bytes old ≡ (pm, none)
unfolding marshal unmarshal
unmarshal-marshal gzip pm old inverse r k h e =
    let n : length pm % u32 ≡ length pm = omega arith in
    let read = read_entries-write_entries pm [] [] r k in
    rw (inverse _ _ e, unmarshal, n, u32_bytes (length pm) h) (rw append-nil at read)

-- The loop succeeds exactly when the input has six bytes for each entry that it is to read.
read_entries_complete :
    (n : ℕ) (bytes : List ℕ) (acc : Mapping)
    → ((read_entries n bytes acc).1 ≡ none) ↔ (6 * n ≤ length bytes)
unfolding read_entries read_u32 read_u16
read_entries_complete zero bytes acc = (λ h. omega arith, λ h. refl)
read_entries_complete (suc n) (a ∷ b ∷ c ∷ d ∷ e ∷ f ∷ rest) acc =
    let ih =
      read_entries_complete n rest
        (insert ℕ_discrete (a * 2 ^ 24 + b * 2 ^ 16 + c * 2 ^ 8 + d) (e * 2 ^ 8 + f) acc) in
    (λ h. omega (arith, ih.0 h), λ h. ih.1 (omega arith))
read_entries_complete (suc n) _ acc = (λ h. absurd (ground arith), λ h. absurd (omega arith))

-- `Unmarshal` reports no error exactly when the payload holds a length and six bytes for each entry
-- that the length announces: a payload that is cut short is always reported.
pub unmarshal_complete :
    (gzip : Gzip) (bytes payload : List ℕ) (old : Mapping)
    → gzip.decompress bytes ≡ some payload
    → ((unmarshal gzip bytes old).1 ≡ none)
      ↔ ((n : ℕ) × (rest : List ℕ) × (read_u32 payload ≡ some (n, rest)) × (6 * n ≤ length rest))
unfolding unmarshal
unmarshal_complete gzip bytes payload old e = elim (Option-cases (read_u32 payload)) [
  | inl short ↦ (λ h. absurd (ground arith), λ (n, rest, found, enough). absurd (ground arith))
  | inr ((n, rest), found) ↦
      let whole = read_entries_complete n rest [] in
      (
        λ h. (n, rest, found, whole.0 (rw (e, unmarshal, found) at h)),
        λ (m, rest', found', enough).
            rw (e, unmarshal, found') ((read_entries_complete m rest' []).1 enough),
      )
]
