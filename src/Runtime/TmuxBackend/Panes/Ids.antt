-- ===== src/Runtime/TmuxBackend/Panes/Ids.antt =====
-- src/tmux-backend.ts: the identifier of a channel and the pane that it names.
use agent_runtime_mcp.Base.{
  Bool, true, false, not, ◌&&◌, ◌||◌, [], ◌∷◌, ◌++◌, Text, codes, starts_with, is_hex, text_eq,
  text_eq_iff, text_eq_self, ◌==◌, length, take, drop, take-append-drop, take-length-append,
  drop-length-append, every, ◌≡◌, ◌↔◌, refl, sym, subst, ap, ◌∙◌, arith, if-elim,
}
use agent_runtime_mcp.Runtime.Errors.{ok, ok-inj}
use agent_runtime_mcp.Runtime.TmuxBackend.Panes.{
  is_digits, is_channel_id, channel_id_for_pane, parse_channel_id,
}

-- What the fingerprint is: twelve lower-case hexadecimal digits.
abbrev pub IsFingerprint : Text → Type 0
IsFingerprint fingerprint = (length fingerprint ≡ 12) × (every is_hex fingerprint ≡ true)

starts_with-split : (s p : Text) → starts_with s p ≡ true → s ≡ p ++ drop (length p) s
unfolding starts_with
starts_with-split s [] h = refl
starts_with-split [] (d ∷ p) h = absurd (cc h)
starts_with-split (c ∷ s) (d ∷ p) h =
    let ih : s ≡ p ++ drop (length p) s = starts_with-split s p (ground (arith, h)) in
    let same : c ≡ d = ground (arith, h) in cc

parse_channel_id-fill :
    (fingerprint digits : Text)
    → IsFingerprint fingerprint
    → is_digits digits ≡ true
    → parse_channel_id fingerprint (codes "tmux:" ++ (fingerprint ++ b':' ∷ digits))
      ≡ ok (b'%' ∷ digits)
unfolding parse_channel_id starts_with
parse_channel_id-fill fingerprint digits (twelve, hex) all =
    rw (taken, dropped, twelve, hex, text_eq_self fingerprint, all) refl
  where
    taken : take 12 (fingerprint ++ b':' ∷ digits) ≡ fingerprint
    taken =
        ap (λ n. take n (fingerprint ++ b':' ∷ digits)) (sym twelve)
        ∙ take-length-append fingerprint (b':' ∷ digits)

    dropped : drop 12 (fingerprint ++ b':' ∷ digits) ≡ b':' ∷ digits
    dropped =
        ap (λ n. drop n (fingerprint ++ b':' ∷ digits)) (sym twelve)
        ∙ drop-length-append fingerprint (b':' ∷ digits)

channel_id_for_pane-eq-ok :
    (fingerprint pane id : Text)
    → channel_id_for_pane fingerprint pane ≡ ok id
    → (digits : Text) × (pane ≡ b'%' ∷ digits)
      × (is_digits digits ≡ true)
      × (id ≡ codes "tmux:" ++ (fingerprint ++ b':' ∷ digits))
unfolding channel_id_for_pane
channel_id_for_pane-eq-ok fingerprint [] id h = absurd (cc h)
channel_id_for_pane-eq-ok fingerprint (c ∷ digits) id h =
    if-elim
      (λ o.
        o ≡ ok id
        → (ds : Text) × ((c ∷ digits) ≡ b'%' ∷ ds)
          × (is_digits ds ≡ true)
          × (id ≡ codes "tmux:" ++ (fingerprint ++ b':' ∷ ds)))
      (c == b'%' && is_digits digits) _ _
      (λ b e. (digits, ap (λ x. x ∷ digits) (ground (arith, b)), and-right b, sym (ok-inj e)))
      (λ _ e. absurd (cc e)) h
  where
    and-right : (c == b'%' && is_digits digits) ≡ true → is_digits digits ≡ true
    and-right b = ground (arith, b)

all_five :
    (a b c d e f : Bool)
    → not (a && b && c && d && e) || not f ≡ false
    → (a ≡ true) × (d ≡ true) × (e ≡ true) × (f ≡ true)
all_five true true true true true true h = (refl, refl, refl, refl)
all_five true true true true true false h = absurd (cc h)
all_five true true true true false f h = absurd (cc h)
all_five true true true false e f h = absurd (cc h)
all_five true true false d e f h = absurd (cc h)
all_five true false c d e f h = absurd (cc h)
all_five false b c d e f h = absurd (cc h)

pub parse_channel_id-eq-ok :
    (fingerprint id pane : Text)
    → parse_channel_id fingerprint id ≡ ok pane
    → channel_id_for_pane fingerprint pane ≡ ok id
unfolding parse_channel_id channel_id_for_pane
parse_channel_id-eq-ok fingerprint id pane h =
    if-elim (λ o. o ≡ ok pane → channel_id_for_pane fingerprint pane ≡ ok id)
      (not (is_channel_id id) || not (text_eq (take 12 (drop 5 id)) fingerprint)) _ _
      (λ _ e. absurd (cc e))
      (λ b e.
        let (mark, colon, all, name) =
          all_five (starts_with id (codes "tmux:")) (length (take 12 rest) == 12)
            (every is_hex (take 12 rest)) (starts_with (drop 12 rest) (b':' ∷ []))
            (is_digits digits) (text_eq (take 12 rest) fingerprint) b in
        subst (λ p. channel_id_for_pane fingerprint p ≡ ok id) (ok-inj e)
          (back ((text_eq_iff (take 12 rest) fingerprint).0 name)
            (starts_with-split id (codes "tmux:") mark)
            (starts_with-split (drop 12 rest) (b':' ∷ []) colon) all))
      h
  where
    rest : Text
    rest = drop 5 id

    digits : Text
    digits = drop 1 (drop 12 rest)

    back :
        take 12 rest ≡ fingerprint
        → id ≡ codes "tmux:" ++ rest
        → drop 12 rest ≡ b':' ∷ digits
        → is_digits digits ≡ true
        → channel_id_for_pane fingerprint (b'%' ∷ digits) ≡ ok id
    back name mark colon all = rw (all) (
        ap ok (
          ap (λ t. codes "tmux:" ++ t)
            (ap (λ f. f ++ b':' ∷ digits) (sym name)
              ∙ ap (λ t. take 12 rest ++ t) (sym colon)
              ∙ take-append-drop 12 rest)
          ∙ sym mark))

-- The identifier that a pane gets is read back as that pane, and an identifier that is read as a pane
-- is the one that the pane gets: under one fingerprint, identifiers and panes correspond one to one.
pub parse_channel_id_iff :
    (fingerprint id pane : Text)
    → IsFingerprint fingerprint
    → (parse_channel_id fingerprint id ≡ ok pane) ↔ (channel_id_for_pane fingerprint pane ≡ ok id)
parse_channel_id_iff fingerprint id pane fp = (
  parse_channel_id-eq-ok fingerprint id pane,
  λ h.
      let (digits, pane_eq, all, id_eq) = channel_id_for_pane-eq-ok fingerprint pane id h in
      rw (pane_eq, id_eq) (parse_channel_id-fill fingerprint digits fp all),
)
