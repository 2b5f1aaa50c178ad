-- ===== src/TeamMode/Lines.antt =====
-- Text by lines, as the JSONL files are written and read: `writeln!`, `lines()` and `trim`.
use agent_teams_mcp.Base.{
  Text, ◌≡◌, refl, ap, ◌∙◌, append_assoc, Bool, true, false, ◌||◌, ◌&&◌, Option, some, List, [],
  ◌∷◌, ◌++◌, arith, nat_eq, leb, ltb, all, has_char, retain, map, ℕ, if◌then◌else◌, not,
}

-- The characters with the property White_Space.
unfoldable pub is_whitespace : ℕ → Bool
is_whitespace c =
    leb 9 c && leb c 13
    || nat_eq c 32
    || nat_eq c 0x85
    || nat_eq c 0xa0
    || nat_eq c 0x1680
    || leb 0x2000 c && leb c 0x200a
    || nat_eq c 0x2028
    || nat_eq c 0x2029
    || nat_eq c 0x202f
    || nat_eq c 0x205f
    || nat_eq c 0x3000

unfoldable pub trim_start : Text → Text
trim_start [] = []
trim_start (c ∷ s) = let rest = trim_start s in if is_whitespace c then rest else c ∷ s

unfoldable pub trim_end : Text → Text
trim_end [] = []
trim_end (c ∷ s) = elim (trim_end s) [
  | [] ↦ if is_whitespace c then [] else c ∷ []
  | d ∷ t ↦ c ∷ d ∷ t
]

unfoldable pub trim : Text → Text
unfolding trim_start trim_end
trim s = trim_end (trim_start s)

unfoldable pub prepend : ℕ → List Text → List Text
prepend c [] = (c ∷ []) ∷ []
prepend c (line ∷ lines) = (c ∷ line) ∷ lines

-- `lines()`. A carriage return at the end of a line goes with the `trim` that follows.
unfoldable pub split_lines : Text → List Text
unfolding prepend
split_lines [] = []
split_lines (c ∷ s) = let rest = split_lines s in if nat_eq c 10 then [] ∷ rest else prepend c rest

unfoldable pub is_blank : Text → Bool
is_blank [] = true
is_blank (_ ∷ _) = false

-- `data.lines().map(str::trim).filter(|line| !line.is_empty())`
unfoldable pub content_lines : Text → List Text
unfolding split_lines is_blank
content_lines data' = retain (λ line. not (is_blank line)) (map trim (split_lines data'))

-- Whether `read_to_string` can read a file. The content of a file is a list of numbers: a code point
-- for a character, and a number from 0x110000 on for a byte that is part of no character.
unfoldable pub is_utf8 : Text → Bool
is_utf8 content = all (λ c. ltb c 0x110000) content

pub is_utf8-append : (s t : Text) → is_utf8 (s ++ t) ≡ (is_utf8 s && is_utf8 t)
unfolding is_utf8
is_utf8-append [] t = refl
is_utf8-append (c ∷ s) t = ground (arith, is_utf8-append s t)

-- serde_json between a type and one line of text: what is written is read back, and it is one line
-- of characters with nothing to trim.
pub record LineSerde (A : Type 0) : Type 0 where
  pub encode : A → Text
  pub decode : Text → Option A
  pub decode-encode : (a : A) → decode (encode a) ≡ some a
  pub one_line : (a : A) → has_char 10 (encode a) ≡ false
  pub trimmed : (a : A) → trim (encode a) ≡ encode a
  pub nonempty : (a : A) → is_blank (encode a) ≡ false
  pub utf8 : (a : A) → is_utf8 (encode a) ≡ true

pub split_lines-line :
    (line rest : Text)
    → has_char 10 line ≡ false
    → split_lines (line ++ 10 ∷ rest) ≡ line ∷ split_lines rest
unfolding split_lines has_char
split_lines-line [] rest h = refl
split_lines-line (c ∷ line) rest h = ground (arith, split_lines-line line rest)

split_lines-last :
    (line : Text) → has_char 10 line ≡ false → is_blank line ≡ false → split_lines line ≡ line ∷ []
unfolding split_lines has_char is_blank
split_lines-last [] h k = cc
split_lines-last (c ∷ []) h k = ground arith
split_lines-last (c ∷ d ∷ line) h k = ground (arith, split_lines-last (d ∷ line))

-- A line that was written is read first, and the rest after it.
pub content_lines-line :
    (line rest : Text)
    → has_char 10 line ≡ false
    → trim line ≡ line
    → is_blank line ≡ false
    → content_lines (line ++ 10 ∷ rest) ≡ line ∷ content_lines rest
unfolding content_lines
content_lines-line line rest one same full = rw (split_lines-line line rest one, same, full)

pub content_lines-last :
    (line : Text)
    → has_char 10 line ≡ false
    → is_blank line ≡ false
    → content_lines line ≡ (if is_blank (trim line) then [] else trim line ∷ [])
unfolding content_lines
content_lines-last line one full = rw (split_lines-last line one full) (ground arith)

module _ {A : Type 0} (serde : LineSerde A) where
  open serde use {encode, one_line, trimmed, nonempty, utf8}

  -- The text that the values were written as.
  abbrev pub render : List A → Text
  render [] = []
  render (e ∷ es) = encode e ++ 10 ∷ render es

  pub render-append : (es fs : List A) → render (es ++ fs) ≡ render es ++ render fs
  render-append [] fs = refl
  render-append (e ∷ es) fs = rw (append_assoc) (ap (λ t. encode e ++ 10 ∷ t) (render-append es fs))

  -- Its lines are those of the values.
  pub content_lines-render : (es : List A) → content_lines (render es) ≡ map encode es
  unfolding content_lines split_lines
  content_lines-render [] = refl
  content_lines-render (e ∷ es) =
      content_lines-line (encode e) (render es) (one_line e) (trimmed e) (nonempty e)
      ∙ ap (λ ls. encode e ∷ ls) (content_lines-render es)

  pub render-utf8 : (es : List A) → is_utf8 (render es) ≡ true
  unfolding is_utf8
  render-utf8 [] = refl
  render-utf8 (e ∷ es) =
      is_utf8-append (encode e) (10 ∷ render es) ∙ ground (arith, utf8 e, render-utf8 es)
