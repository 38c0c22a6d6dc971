-- ===== src/Runtime/Input.antt =====
-- src/input.ts: what text may be written to a channel.
use agent_runtime_mcp.Base.{
  ℕ, zero, Bool, false, not, ◌&&◌, ◌||◌, suc, ◌-◌, [], ◌∷◌, map, ◌++◌, Text, codes, text_eq,
  byte_length, hex, leb, ◌==◌, length, if◌then◌else◌, All, ◌≤◌, ◌≡◌, ◌↔◌, refl, sym, ◌∙◌, ◌*◌,
  true-absurd, arith, Bool-cases, inl, inr,
}
use agent_runtime_mcp.Runtime.Errors.{
  invalid_argument, text, number, plain, Result, ok, thrown, ◌>>◌, require,
}

abbrev pub hard_max_write_bytes : ℕ
hard_max_write_bytes = 1048576

abbrev pub is_unicode_control : ℕ → Bool
is_unicode_control c = leb c 0x1f || (leb 0x7f c && leb c 0x9f)

-- `c !== 0x0a && c !== 0x09` added to the test above
abbrev pub is_forbidden : ℕ → Bool
is_forbidden c = is_unicode_control c && not (c == 0x0a) && not (c == 0x09)

-- `U+` and at least four upper-case hexadecimal digits
abbrev pub upper : ℕ → ℕ
upper c = if leb b'a' c && leb c b'f' then c - 32 else c

abbrev pub pad : ℕ → Text → Text
pad zero s = s
pad (suc n) s = b'0' ∷ pad n s

pub code_point_name : ℕ → Text
code_point_name c = codes "U+" ++ pad (4 - length (hex c)) (map upper (hex c))

-- The loop over the characters.
pub check_characters : Text → Result (Unit {0})
check_characters [] = ok tt
check_characters (c ∷ s) =
    let rest = check_characters s in
    if is_forbidden c
    then thrown (record {
      code = invalid_argument;
      details = (codes "code_point", text (code_point_name c)) ∷ [];
    })
    else rest

pub validate_ordinary_text : Text → Result (Unit {0})
validate_ordinary_text s = do
  require (leb (byte_length s) hard_max_write_bytes) (record {
    code = invalid_argument;
    details =
        (codes "byte_count", number (byte_length s))
        ∷ (codes "max_bytes", number hard_max_write_bytes)
        ∷ [];
  })
  check_characters s

pub data TerminalControl : Type 0 where
  enter interrupt escape : TerminalControl

pub control_name : TerminalControl → Text
control_name enter = codes "ENTER"
control_name interrupt = codes "INTERRUPT"
control_name escape = codes "ESCAPE"

-- The control that a string names.
pub validate_terminal_control : Text → Result TerminalControl
validate_terminal_control s =
    if text_eq s (codes "ENTER")
    then ok enter
    else if text_eq s (codes "INTERRUPT")
    then ok interrupt
    else if text_eq s (codes "ESCAPE")
    then ok escape
    else thrown (plain invalid_argument)

-- Tab, line feed, or a character outside the two ranges of control characters.
pub data IsPlain (c : ℕ) : Type 0 where
  tab : c ≡ 0x09 → IsPlain c
  line_feed : c ≡ 0x0a → IsPlain c
  ascii : 0x20 ≤ c → c ≤ 0x7e → IsPlain c
  beyond : 0xa0 ≤ c → IsPlain c

-- The text has at most 1 MiB, and only such characters.
abbrev pub IsOrdinary : Text → Type 0
IsOrdinary s = (byte_length s ≤ 1024 * 1024) × All IsPlain s

is_forbidden-IsPlain : (c : ℕ) → is_forbidden c ≡ false → IsPlain c
is_forbidden-IsPlain c h = elim (Bool-cases (c == 0x09)) [
  | inl e ↦ tab (ground (arith, e))
  | inr not_tab ↦ elim (Bool-cases (c == 0x0a)) [
    | inl e ↦ line_feed (ground (arith, e))
    | inr not_feed ↦ elim (Bool-cases (leb 0xa0 c)) [
      | inl far ↦ beyond (ground (arith, far))
      | inr near ↦
          ascii (ground (arith, h, not_tab, not_feed, near))
            (ground (arith, h, not_tab, not_feed, near))
    ]
  ]
]

IsPlain-is_forbidden : (c : ℕ) → IsPlain c → is_forbidden c ≡ false
IsPlain-is_forbidden c (tab e) = ground (arith, e)
IsPlain-is_forbidden c (line_feed e) = ground (arith, e)
IsPlain-is_forbidden c (ascii a b) = ground (arith, a, b)
IsPlain-is_forbidden c (beyond a) = ground (arith, a)

check_characters-eq-ok : (s : Text) → (check_characters s ≡ ok tt) ↔ All IsPlain s
unfolding check_characters
check_characters-eq-ok [] = (λ _. tt, λ _. refl)
check_characters-eq-ok (c ∷ s) = elim (Bool-cases (is_forbidden c)) [
  | inl bad ↦ rw bad (λ h. absurd (cc h), λ h. true-absurd (sym bad ∙ IsPlain-is_forbidden c h.0))
  | inr good ↦ rw good (
    λ h. (is_forbidden-IsPlain c good, (check_characters-eq-ok s).0 h),
    λ h. (check_characters-eq-ok s).1 h.1,
  )
]

-- A text is accepted exactly if its UTF-8 encoding has at most 1 MiB and each of its characters is a
-- tab, a line feed, or none of the control characters U+0000 to U+001F and U+007F to U+009F.
pub validate_ordinary_text_iff : (s : Text) → (validate_ordinary_text s ≡ ok tt) ↔ IsOrdinary s
unfolding validate_ordinary_text
validate_ordinary_text_iff s = elim (Bool-cases (leb (byte_length s) hard_max_write_bytes)) [
  | inl fits ↦ rw fits (
    λ h. (ground (arith, fits), (check_characters-eq-ok s).0 h),
    λ h. (check_characters-eq-ok s).1 h.1,
  )
  | inr over ↦ rw over (λ h. absurd (cc h), λ h. ground (arith, over, h.0))
]
