-- ===== src/Api/Filters.antt =====
-- internal/api/handlers/query_parser.go: which filter a parameter becomes.

use tmidb_core.Base.{
  ℕ, ◌≤◌, ◌≡◌, ◌≢◌, refl, sym, subst, ap, ◌∙◌, List, [], ◌∷◌, ◌++◌, none, some, Text, arith,
  Option-cases, inl, inr, length, All,
}
use tmidb_core.Base.Strings.{strip_prefix}
use tmidb_core.Base.Strings.{trim_space}
use tmidb_core.Api.Query.{Filter, last_split, match_operators}

strip_prefix-append : (op y : Text) → strip_prefix op (op ++ y) ≡ some y
unfolding strip_prefix
strip_prefix-append [] y = refl
strip_prefix-append (c ∷ op) y = ground (arith, strip_prefix-append op y)

strip_prefix_sound : (op s y : Text) → strip_prefix op s ≡ some y → s ≡ op ++ y
unfolding strip_prefix
strip_prefix_sound [] s y h = ground arith
strip_prefix_sound (c ∷ op) [] y h = absurd (cc)
strip_prefix_sound (c ∷ op) (d ∷ s) y h = ground (arith, strip_prefix_sound op s y)

-- The text holds the operator with text before and behind it.
pub record IsSplit (op s before behind : Text) : Type 0 where
  pub whole : s ≡ before ++ (op ++ behind)
  pub some_before : before ≢ []
  pub some_behind : behind ≢ []

last_split-IsSplit :
    (op s before behind : Text)
    → last_split op s ≡ some (before, behind)
    → IsSplit op s before behind
unfolding last_split
last_split-IsSplit op [] before behind h = absurd (cc)
last_split-IsSplit op (c ∷ s) before behind h = elim (Option-cases (last_split op s)) [
  | inl e ↦ elim (Option-cases (strip_prefix op s)) [
    | inl n ↦ absurd (ground (arith, e, n, h))
    | inr ([], n) ↦ absurd (ground (arith, e, n, h))
    | inr (d ∷ rest, n) ↦
        let whole = strip_prefix_sound op s (d ∷ rest) n in
        let b : before ≡ c ∷ [] = ground (arith, e, n, h) in
        let a : behind ≡ d ∷ rest = ground (arith, e, n, h) in
        record { whole = rw (b, a) (ap (◌∷◌ c) whole); some_before = cc; some_behind = cc }
  ]
  | inr ((b, a), e) ↦
      let i = last_split-IsSplit op s b a e in
      let eb : before ≡ c ∷ b = ground (arith, e, h) in
      let ea : behind ≡ a = ground (arith, e, h) in
      record {
        whole = rw (eb, ea) (ap (◌∷◌ c) i.whole);
        some_before = cc;
        some_behind = λ n. i.some_behind (sym ea ∙ n);
      }
]

-- An occurrence is found, or a later one.
last_split-append :
    (op : Text) (c : ℕ) (x : Text) (d : ℕ) (y : Text)
    → (before : Text) × (behind : Text) × (last_split op ((c ∷ x) ++ (op ++ (d ∷ y)))
        ≡ some (before, behind))
      × (length (c ∷ x) ≤ length before)
unfolding last_split
last_split-append op c [] d y = elim (Option-cases (last_split op (op ++ (d ∷ y)))) [
  | inl e ↦ (c ∷ [], d ∷ y, ground (arith, e, strip_prefix-append op (d ∷ y)), omega arith)
  | inr ((b, a), e) ↦ (c ∷ b, a, ground (arith, e), omega arith)
]
last_split-append op c (z ∷ x) d y =
    let (b, a, e, l) = last_split-append op z x d y in
    (c ∷ b, a, ground (arith, e), omega (arith, l))

-- The last split of a text.
abbrev pub IsLastSplit : Text → Text → Text → Text → Type 0
IsLastSplit op s before behind =
    IsSplit op s before behind × ((x y : Text) → IsSplit op s x y → length x ≤ length before)

found_before : (p q : Text × Text) → some p ≡ some q → p.0 ≡ q.0
found_before p q e = cc

nothing_found : (p : Text × Text) → some p ≡ none → ⊥
nothing_found p e = cc

last_split-greedy :
    (op s before behind x y : Text)
    → last_split op s ≡ some (before, behind)
    → IsSplit op s x y
    → length x ≤ length before
last_split-greedy op s before behind [] y h i = absurd (i.some_before refl)
last_split-greedy op s before behind (c ∷ x) [] h i = absurd (i.some_behind refl)
last_split-greedy op s before behind (c ∷ x) (d ∷ y) h i =
    let (b, a, e, l) = last_split-append op c x d y in
    let found = sym e ∙ (ap (last_split op) (sym i.whole) ∙ h) in
    subst (λ t. length (c ∷ x) ≤ length t) (found_before (b, a) (before, behind) found) l

last_split-none : (op s x y : Text) → last_split op s ≡ none → IsSplit op s x y → ⊥
last_split-none op s [] y h i = i.some_before refl
last_split-none op s (c ∷ x) [] h i = i.some_behind refl
last_split-none op s (c ∷ x) (d ∷ y) h i =
    let (b, a, e, l) = last_split-append op c x d y in
    nothing_found (b, a) (sym e ∙ (ap (last_split op) (sym i.whole) ∙ h))

-- The greedy pattern finds the last split of a text, and finds none only if there is none.
pub last_split_lem :
    (op s : Text)
    → ((before behind : Text)
        → last_split op s ≡ some (before, behind)
        → IsLastSplit op s before behind)
      × (last_split op s ≡ none → (x y : Text) → IsSplit op s x y → ⊥)
last_split_lem op s = (
  λ before behind h. (
    last_split-IsSplit op s before behind h,
    λ x y i. last_split-greedy op s before behind x y h i,
  ),
  λ h x y i. last_split-none op s x y h i,
)

-- The filter that a list of operators gives: its operator has a split, and none that is tried
-- before it has one; the last split of the operator is the field and the value, trimmed.
pub match_operators_lem :
    (ops : List Text) (s : Text) (f : Filter)
    → match_operators ops s ≡ some f
    → (earlier : List Text) × (later : List Text) × (ops ≡ earlier ++ f.op ∷ later)
      × All (λ op. last_split op s ≡ none) earlier
      × ((before : Text) × (behind : Text) × (last_split f.op s ≡ some (before, behind))
          × (f.field ≡ trim_space before)
          × (f.value ≡ trim_space behind))
unfolding match_operators
match_operators_lem [] s f h = absurd (cc)
match_operators_lem (op ∷ ops) s f h = elim (Option-cases (last_split op s)) [
  | inl e ↦
      let (earlier, later, whole, none_yet, rest) =
        match_operators_lem ops s f (ground (arith, e, h)) in
      (op ∷ earlier, later, ap (◌∷◌ op) whole, (e, none_yet), rest)
  | inr ((b, a), e) ↦
      let g : Filter = record { field = trim_space b; op = op; value = trim_space a } in
      let same : g ≡ f = ground (arith, e, h) in
      (
        [],
        ops,
        ap (λ r. r.op ∷ ops) same,
        tt,
        (
          b,
          a,
          ap (λ t. last_split t s) (sym (ap (λ r. r.op) same)) ∙ e,
          sym (ap (λ r. r.field) same),
          sym (ap (λ r. r.value) same),
        ),
      )
]
