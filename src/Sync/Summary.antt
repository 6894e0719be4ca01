-- ===== src/Sync/Summary.antt =====
-- `sanitizeSummary` of apps/core/src/sync-utils.ts, over the code points of the text.
use Prim.Native.Char.{Char, code}
use agent_metrics.Prelude.{
  ℕ, zero, suc, ◌+◌, ◌-◌, Bool, true, false, ◌&&◌, ◌||◌, String, leb, ltb, ◌==◌, if◌then◌else◌,
}

abbrev pub error_summary_limit : ℕ
error_summary_limit = 2048

-- Between two codes, both included: a range of a character class.
abbrev within : ℕ → ℕ → ℕ → Bool
within lo hi n = leb lo n && leb n hi

-- `\s`, and what `trim` removes.
pub is_space : ℕ → Bool
is_space n =
    within 9 13 n
    || n == 32
    || n == 160
    || n == 0x1680
    || within 0x2000 0x200a n
    || n == 0x2028
    || n == 0x2029
    || n == 0x202f
    || n == 0x205f
    || n == 0x3000
    || n == 0xfeff

-- `[\u0000-\u0008\u000b\u000c\u000e-\u001f\u007f]`
pub is_control : ℕ → Bool
is_control n = leb n 8 || n == 11 || n == 12 || within 14 31 n || n == 127

-- How long `[0-?]*[ -/]*[@-~]` matches at the start of the text; 0 if it does not. The three
-- classes have no character in common, so the match never has to give one back.
intermediates : ℕ → String → ℕ
intermediates n String.[] = 0
intermediates n (String.◌∷◌ c s) =
    let rest = intermediates (n + 1) s in
    if within 0x20 0x2f (code c) then rest else if within 0x40 0x7e (code c) then n + 1 else 0

parameters : ℕ → String → ℕ
parameters n String.[] = 0
parameters n (String.◌∷◌ c s) =
    let rest = parameters (n + 1) s in
    if within 0x30 0x3f (code c) then rest else intermediates n (String.◌∷◌ c s)

-- The length of an escape sequence at the start of the text: `\u001b\[` and what follows.
escape_length : String → ℕ
unfolding parameters intermediates
escape_length (String.◌∷◌ c (String.◌∷◌ d s)) =
    if code c == 0x1b && code d == b'[' then parameters 2 s else 0
escape_length s = 0

-- `.replace(escape, "")`: `skip` characters of a match are still to be passed over.
pub strip_escapes : ℕ → String → String
strip_escapes skip String.[] = String.[]
strip_escapes (suc skip) (String.◌∷◌ c s) = strip_escapes skip s
strip_escapes zero (String.◌∷◌ c s) =
    let n = escape_length (String.◌∷◌ c s) in
    let rest = strip_escapes (n - 1) s in if n == 0 then String.◌∷◌ c rest else rest

abbrev blank : Char
blank = " "

-- `.replace(controls, " ")`
pub blank_controls : String → String
blank_controls String.[] = String.[]
blank_controls (String.◌∷◌ c s) =
    String.◌∷◌ (if is_control (code c) then blank else c) (blank_controls s)

-- `.replace(/\s+/g, " ")`: `inside` says that the character before was a space already.
pub collapse : Bool → String → String
collapse inside String.[] = String.[]
collapse inside (String.◌∷◌ c s) =
    let space = is_space (code c) in
    let rest = collapse space s in
    if space then (if inside then rest else String.◌∷◌ blank rest) else String.◌∷◌ c rest

abbrev pub is_empty : String → Bool
is_empty String.[] = true
is_empty (String.◌∷◌ c s) = false

trim_start : String → String
trim_start String.[] = String.[]
trim_start (String.◌∷◌ c s) =
    let rest = trim_start s in if is_space (code c) then rest else String.◌∷◌ c s

trim_end : String → String
trim_end String.[] = String.[]
trim_end (String.◌∷◌ c s) =
    let rest = trim_end s in
    if is_space (code c) && is_empty rest then String.[] else String.◌∷◌ c rest

unfoldable pub trim : String → String
unfolding trim_start trim_end is_space
trim s = trim_end (trim_start s)

-- How many UTF-16 units a character takes, which is what JavaScript counts and cuts by.
abbrev pub units : Char → ℕ
units c = if ltb (code c) 0x10000 then 1 else 2

unfoldable pub utf16_length : String → ℕ
utf16_length String.[] = 0
utf16_length (String.◌∷◌ c s) = units c + utf16_length s

-- `.slice(0, n)`. Of a surrogate pair that the cut would split nothing is kept.
unfoldable pub slice_units : ℕ → String → String
slice_units n String.[] = String.[]
slice_units n (String.◌∷◌ c s) =
    let rest = slice_units (n - units c) s in
    if leb (units c) n then String.◌∷◌ c rest else String.[]

abbrev pub default_summary : String
default_summary = "Synchronization failed"

unfoldable pub sanitize_summary : String → String
unfolding strip_escapes escape_length parameters intermediates blank_controls is_control collapse
    trim slice_units
sanitize_summary value =
    let summary = trim (collapse false (blank_controls (strip_escapes 0 value))) in
    slice_units error_summary_limit (if is_empty summary then default_summary else summary)
