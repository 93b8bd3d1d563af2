-- ===== src/Api/Query.antt =====
-- internal/api/handlers/query_parser.go: filters from query parameters.

use tmidb_core.Base.{
  ℕ, Bool, false, not, ◌||◌, List, [], ◌∷◌, ◌++◌, Option, none, some, if◌then◌else◌, Text, bytes,
  text_eq, ltb, length, drop,
}
use tmidb_core.Base.Strings.{trim_space, strip_prefix, strip_suffix, includes, split_on}

pub record Filter : Type 0 where
  pub field : Text
  pub op : Text
  pub value : Text

-- The last occurrence of an operator with text before and behind it, as the greedy pattern
-- `^(.+)op(.+)$` finds it: the text before it, and the text behind.
unfoldable pub last_split : Text → Text → Option (Text × Text)
last_split op [] = none
last_split op (c ∷ s) = elim (last_split op s) [
  | some (before, behind) ↦ some (c ∷ before, behind)
  | none ↦ elim (strip_prefix op s) [ some (d ∷ behind) ↦ some (c ∷ [], d ∷ behind) | _ ↦ none ]
]

-- The operators, in the order in which they are tried.
abbrev pub operators : List Text
operators =
    bytes ">="
    ∷ bytes "<="
    ∷ bytes ">"
    ∷ bytes "<"
    ∷ bytes "!="
    ∷ bytes "~"
    ∷ bytes "!~"
    ∷ bytes "!in"
    ∷ []

unfoldable pub match_operators : List Text → Text → Option Filter
match_operators [] s = none
match_operators (op ∷ ops) s =
    let rest = match_operators ops s in
    elim (last_split op s) [
      | some (before, behind) ↦
          some (record { field = trim_space before; op = op; value = trim_space behind })
      | none ↦ rest
    ]

-- The suffixes of the keys, in the order in which they are tried, with the operator that each
-- stands for.
abbrev pub suffixes : List (Text × Text)
suffixes =
    (bytes "[]contains", bytes "array_includes")
    ∷ (bytes "[]!contains", bytes "!array_includes")
    ∷ (bytes "[]includes_any", bytes "array_includes_any")
    ∷ (bytes "[]includes_all", bytes "array_includes_all")
    ∷ (bytes ".size", bytes "size")
    ∷ (bytes ".size>", bytes "size>")
    ∷ (bytes ".size>=", bytes "size>=")
    ∷ (bytes ".size<", bytes "size<")
    ∷ (bytes ".size<=", bytes "size<=")
    ∷ []

unfoldable pub match_suffixes : List (Text × Text) → Text → Text → Option Filter
match_suffixes [] key value = none
match_suffixes ((suffix, op) ∷ rest) key value =
    let next = match_suffixes rest key value in
    elim (strip_suffix suffix key) [
      | some field ↦ some (record { field = field; op = op; value = value })
      | none ↦ next
    ]

abbrev is_yes : Text → Bool
is_yes value = text_eq value (bytes "true") || text_eq value (bytes "1")

-- `.exists` and `.empty`: the operator is negated unless the value is "true" or "1".
unfoldable pub flag_filter : Text → Text → Text → Filter
flag_filter field op value = record {
  field = field;
  op = if is_yes value then op else b'!' ∷ op;
  value = bytes "true";
}

-- The last cases: a comma makes a list, and anything else is an equation.
unfoldable pub plain_filter : Text → Text → Filter
plain_filter key value = record {
  field = key;
  op = if includes value (bytes ",") then bytes "in" else bytes "=";
  value = value;
}

unfoldable pub suffix_filter : Text → Text → Filter
unfolding match_suffixes flag_filter plain_filter
suffix_filter key value = elim (match_suffixes suffixes key value) [
  | some f ↦ f
  | none ↦ elim (strip_suffix (bytes ".exists") key) [
    | some field ↦ flag_filter field (bytes "exists") value
    | none ↦ elim (strip_suffix (bytes ".empty") key) [
      | some field ↦ flag_filter field (bytes "empty") value
      | none ↦ elim (strip_suffix (bytes ".like") key) [
        | some field ↦ record { field = field; op = bytes "like"; value = value }
        | none ↦ elim (strip_suffix (bytes ".regex") key) [
          | some field ↦ record { field = field; op = bytes "regex"; value = value }
          | none ↦ plain_filter key value
        ]
      ]
    ]
  ]
]

-- The filter of one parameter.
unfoldable pub parse_param : Text → Text → Filter
parse_param key value = elim (match_operators operators (key ++ value)) [
  | some f ↦ f
  | none ↦ suffix_filter key value
]

-- The parameters in the order of iteration; a key without a value is passed over, and of several
-- values the first counts.
unfoldable pub parse_query_params : List (Text × List Text) → List Filter
parse_query_params [] = []
parse_query_params ((key, []) ∷ params) = parse_query_params params
parse_query_params ((key, value ∷ _) ∷ params) = parse_param key value ∷ parse_query_params params

abbrev nth_is : List Text → ℕ → Text → Bool
nth_is parts i t = elim (drop i parts) [ [] ↦ false | p ∷ _ ↦ text_eq p t ]

-- `nil` is `none`.
unfoldable pub parse_multi_listener_path : Text → Option (List Text)
parse_multi_listener_path path =
    let parts = split_on b'/' path in
    if ltb (length parts) 5
      || (not (nth_is parts 1 (bytes "api")) || not (nth_is parts 3 (bytes "listener")))
    then none
    else some (drop 4 parts)
