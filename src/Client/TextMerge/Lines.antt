-- ===== src/Client/TextMerge/Lines.antt =====
-- Splitting a text into lines and joining them again.
use Prim.Native.Char.{Char}
use Prim.Native.String.{◌++◌ as ◌<>◌}
use text.Mathlib.TextLemmas.{
  append_assoc as str_append_assoc, append-nil as str_append-nil, cons-append as str_cons-append,
  nil-append as str_nil-append,
}
use synch.Common.{
  ◌≡◌, refl, ap, sym, subst, ◌∙◌, ◌↔◌, String, Bool, true, false, ◌||◌, Bool-cases, List, ◌∷◌, ◌==◌,
  eq_iff, arith, inl, inr,
}
use synch.Client.TextMerge.{is_separator, ends_line, scan, split_lines, join}

-- Whether a line separator (U+2028) or a paragraph separator (U+2029) stands in a text.
pub has_separator : String → Bool
has_separator String.[] = false
has_separator (String.◌∷◌ c s) = is_separator c || has_separator s

has_separator-append :
    (s t : String) → has_separator (s <> t) ≡ (has_separator s || has_separator t)
unfolding has_separator
has_separator-append String.[] t = rw str_nil-append refl
has_separator-append (String.◌∷◌ c s) t =
    rw (str_cons-append c s t) (ground (arith, has_separator-append s t))

ends_line-not-separator : (c : Char) (s : String) → ends_line c s ≡ true → is_separator c ≡ false
unfolding ends_line is_separator
ends_line-not-separator c s h = ground arith

has_separator-longer :
    (line : String) (c : Char)
    → has_separator line ≡ false
    → is_separator c ≡ false
    → has_separator (line <> String.◌∷◌ c String.[]) ≡ false
unfolding has_separator
has_separator-longer line c h e = ground (arith, has_separator-append line (String.◌∷◌ c String.[]))

longer-append :
    (line : String) (c : Char) (s : String)
    → (line <> String.◌∷◌ c String.[]) <> s ≡ line <> String.◌∷◌ c s
longer-append line c s =
    str_append_assoc line (String.◌∷◌ c String.[]) s
    ∙ ap (λ t. line <> t) (str_cons-append c "" s ∙ ap (λ t. String.◌∷◌ c t) (str_nil-append s))

module _ (line : String) (c : Char) (s : String) where
  -- What the scan does with a character.
  data ScanOf : List String → Type 0 where
    ends :
        {ls : List String}
        → ends_line c s ≡ true
        → ls ≡ (line <> String.◌∷◌ c String.[]) ∷ scan "" s
        → ScanOf ls
    cuts : {ls : List String} → is_separator c ≡ true → ls ≡ scan "" s → ScanOf ls
    goes_on :
        {ls : List String}
        → is_separator c ≡ false
        → ls ≡ scan (line <> String.◌∷◌ c String.[]) s
        → ScanOf ls

  scan-step : ScanOf (scan line (String.◌∷◌ c s))
  unfolding scan
  scan-step = elim (Bool-cases (ends_line c s)) [
    | inl e ↦ ends e (ground arith)
    | inr e ↦ elim (Bool-cases (is_separator c)) [
      | inl cut ↦ cuts cut (ground arith)
      | inr plain ↦ goes_on plain (ground arith)
    ]
  ]

scan-nil : (line : String) → join (scan line String.[]) ≡ line
unfolding scan join
scan-nil line = elim (Bool-cases (line == "")) [
  | inl e ↦ ground (arith, eq_iff line "")
  | inr e ↦ ground (arith, str_append-nil line)
]

join-scan : (line s : String) → has_separator s ≡ false → join (scan line s) ≡ line <> s
unfolding join has_separator
join-scan line String.[] h = scan-nil line ∙ sym (str_append-nil line)
join-scan line (String.◌∷◌ c s) h = elim (scan-step line c s) [
  | ends e q ↦ rw (q, join-scan "" s (ground arith), str_nil-append) (longer-append line c s)
  | cuts e q ↦ absurd (ground arith)
  | goes_on e q ↦
      rw (q, join-scan (line <> String.◌∷◌ c String.[]) s (ground arith)) (longer-append line c s)
]

has_separator-join-scan :
    (line s : String) → has_separator line ≡ false → has_separator (join (scan line s)) ≡ false
unfolding join
has_separator-join-scan line String.[] h = rw scan-nil h
has_separator-join-scan line (String.◌∷◌ c s) h = elim (scan-step line c s) [
  | ends e q ↦
      rw (q, has_separator-append)
        (ground (
          arith,
          has_separator-longer line c h (ends_line-not-separator c s e),
          has_separator-join-scan "" s (unfold has_separator in refl),
        ))
  | cuts e q ↦ rw q (has_separator-join-scan "" s (unfold has_separator in refl))
  | goes_on e q ↦
      rw q (
        has_separator-join-scan (line <> String.◌∷◌ c String.[]) s
          (has_separator-longer line c h e))
]

-- Joining the lines of a text gives the text back exactly when no line separator and no paragraph
-- separator stands in it.
pub join-split_lines :
    (text : String) → (join (split_lines text) ≡ text) ↔ (has_separator text ≡ false)
unfolding split_lines has_separator
join-split_lines text = (
  λ whole. subst (λ t. has_separator t ≡ false) whole (has_separator-join-scan "" text refl),
  λ clear. join-scan "" text clear ∙ str_nil-append text,
)
