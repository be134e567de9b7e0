-- ===== src/System/Selector.antt =====
-- `GenerationSelector` of snix-redox/src/system.rs: which generations a deletion is about.
pub mod Printing
use nix_redox.Base.{
  ℕ, zero, suc, ◌^◌, ◌==◌, Text, bytes, Bool, true, false, Option, none, some, List, [], ◌∷◌, ◌++◌,
  Result, ok, err, if◌then◌else◌,
}
use nix_redox.Base.Strings.{text_eq}
use nix_redox.Base.Slices.{is_empty, strip_prefix}
use nix_redox.Base.Decimal.{parse_unsigned}
use nix_redox.Base.Words.{trim_white, split_whitespace, strip_last}
use nix_redox.System.{
  SystemError, invalid_keep_count, zero_keep_count, invalid_day_count, invalid_selector,
}

pub data GenerationSelector : Type 0 where
  ids : List ℕ → GenerationSelector
  keep_last older_than_days : ℕ → GenerationSelector
  old : GenerationSelector

-- The numbers of all words, where each is one.
unfoldable pub parse_ids : List Text → Option (List ℕ)
parse_ids [] = some []
parse_ids (word ∷ words) = elim (parse_unsigned (2 ^ 32) word) [
  | none ↦ none
  | some id ↦ elim (parse_ids words) [ none ↦ none | some rest ↦ some (id ∷ rest) ]
]

abbrev pub keep_count : Text → Result SystemError GenerationSelector
keep_count n = elim (parse_unsigned (2 ^ 32) n) [
  | none ↦ err (invalid_keep_count n)
  | some count ↦ if count == 0 then err zero_keep_count else ok (keep_last count)
]

abbrev day_count : Text → Result SystemError GenerationSelector
day_count n = elim (parse_unsigned (2 ^ 32) n) [
  | none ↦ err (invalid_day_count n)
  | some days ↦ ok (older_than_days days)
]

abbrev listed : Text → Option (List ℕ) → Result SystemError GenerationSelector
listed trimmed none = err (invalid_selector trimmed)
listed trimmed (some []) = err (invalid_selector trimmed)
listed trimmed (some (id ∷ rest)) = ok (ids (id ∷ rest))

unfoldable pub parse_trimmed_selector : Text → Result SystemError GenerationSelector
unfolding parse_ids
parse_trimmed_selector trimmed =
    if text_eq trimmed (bytes "old") then ok old else elim (strip_prefix (b'+' ∷ []) trimmed) [
      | some n ↦ keep_count n
      | none ↦ elim (strip_last b'd' trimmed) [
        | some n ↦ day_count n
        | none ↦ listed trimmed (parse_ids (split_whitespace trimmed))
      ]
    ]

unfoldable pub parse_generation_selector : Text → Result SystemError GenerationSelector
unfolding parse_trimmed_selector
parse_generation_selector input = parse_trimmed_selector (trim_white input)
