-- ===== src/System/Selector/Printing.antt =====
-- The selectors that `system_gc` writes.
use nix_redox.Base.{
  ℕ, ◌<◌, ◌^◌, ◌==◌, Bool, true, false, ◌&&◌, leb, Text, bytes, Option, none, some, List, [], ◌∷◌,
  Result, ok, err, if◌then◌else◌, ◌≡◌, refl, ap, ◌∙◌, arith,
}
use nix_redox.Base.Strings.{text_eq}
use nix_redox.Base.Slices.{strip_prefix}
use nix_redox.Base.Decimal.{to_decimal, parse_unsigned-to_decimal}
use nix_redox.Base.Words.{is_plain, trim_white, trim_white-plain, is_plain-to_decimal}
use nix_redox.System.{SystemError, zero_keep_count}
use nix_redox.System.Deletion.{gc_selector}
use nix_redox.System.Selector.{
  GenerationSelector, keep_last, old, keep_count, parse_trimmed_selector, parse_generation_selector,
}

-- What `system_gc` asks for.
abbrev pub asked : Option ℕ → Result SystemError GenerationSelector
asked none = ok old
asked (some n) = if n == 0 then err zero_keep_count else ok (keep_last n)

keep_count-to_decimal : (n : ℕ) → n < 2 ^ 32 → keep_count (to_decimal n) ≡ asked (some n)
keep_count-to_decimal n h = rw (keep_count, parse_unsigned-to_decimal (2 ^ 32) n h) refl

parse_keep : (n : ℕ) → n < 2 ^ 32 → parse_trimmed_selector (b'+' ∷ to_decimal n) ≡ asked (some n)
unfolding parse_trimmed_selector text_eq strip_prefix
parse_keep n h = keep_count-to_decimal n h

-- The number of generations to keep is a u32.
abbrev pub Fits : Option ℕ → Type 0
Fits none = Unit
Fits (some n) = n < 2 ^ 32

-- The selector that `system_gc` writes is read as what it stands for: all old generations, or the last
-- generations but for their number, which may not be 0.
pub parse_generation_selector-gc_selector :
    (keep : Option ℕ) → Fits keep → parse_generation_selector (gc_selector keep) ≡ asked keep
unfolding parse_generation_selector gc_selector is_plain parse_trimmed_selector text_eq trim_white
    nix_redox.Base.Words.trim_white_start nix_redox.Base.Words.trim_white_end
    nix_redox.Base.Words.white_front
parse_generation_selector-gc_selector none h = refl
parse_generation_selector-gc_selector (some n) h =
    ap parse_trimmed_selector (trim_white-plain (b'+' ∷ to_decimal n) (is_plain-to_decimal n))
    ∙ parse_keep n h
