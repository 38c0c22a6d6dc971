-- ===== src/Console/SessionLifecycle/Substitute.antt =====
-- console/src/session-lifecycle.ts: the placeholders of a profile, filled by `replaceAll` with its
-- patterns for `$` in the replacement.
use agent_runtime_mcp.Base.{
  ℕ, zero, suc, ◌-◌, [], ◌∷◌, ◌++◌, Text, length, drop, starts_with, ◌==◌, if◌then◌else◌, ◌≡◌, refl,
  arith, Lacks,
}

-- The replacement text at a match of `matched`, with the text before and behind it.
abbrev pattern_text : Text → Text → Text → ℕ → Text
pattern_text matched before after c =
    if c == b'$'
    then b'$' ∷ []
    else if c == b'&'
    then matched
    else if c == b'`'
    then before
    else if c == b'\''
    then after
    else b'$' ∷ c ∷ []

pub expand : Text → Text → Text → Text → Text
expand matched before after [] = []
expand matched before after (c ∷ []) = c ∷ []
expand matched before after (c ∷ d ∷ s) =
    let rest = expand matched before after (d ∷ s) in
    let skipped = expand matched before after s in
    if c == b'$' then pattern_text matched before after d ++ skipped else c ∷ rest

-- The scan of `replaceAll`: `before` is the text passed, `skip` what is left of a match.
pub replace_from : Text → Text → Text → ℕ → Text → Text
replace_from matched replacement before skip [] = []
replace_from matched replacement before (suc skip) (c ∷ s) =
    replace_from matched replacement (before ++ c ∷ []) skip s
replace_from matched replacement before zero (c ∷ s) =
    let behind = replace_from matched replacement (before ++ c ∷ []) (length matched - 1) s in
    let rest = replace_from matched replacement (before ++ c ∷ []) zero s in
    if starts_with (c ∷ s) matched
    then expand matched before (drop (length matched) (c ∷ s)) replacement ++ behind
    else c ∷ rest

-- `text.replaceAll(matched, replacement)`
pub replace_all : Text → Text → Text → Text
replace_all matched replacement text = replace_from matched replacement [] 0 text

-- A replacement without a dollar sign is put in as it is.
pub expand-Lacks :
    (matched before after replacement : Text)
    → Lacks b'$' replacement
    → expand matched before after replacement ≡ replacement
unfolding expand
expand-Lacks matched before after [] h = refl
expand-Lacks matched before after (c ∷ []) h = refl
expand-Lacks matched before after (c ∷ d ∷ s) h =
    ground (arith, expand-Lacks matched before after (d ∷ s) h.1)
