-- ===== src/TeamMode/Mentions/Found.antt =====
-- That a mention in a text is found.
use agent_teams_mcp.Base.{
  Text, ◌==◌, ==_iff, ==_refl, ◌≡◌, sym, ap, ◌∙◌, ℕ, Bool, true, false, not, ◌&&◌, ◌||◌, List, [],
  ◌∷◌, ◌++◌, append_assoc, append-nil, arith, all,
}
use agent_teams_mcp.Names.{is_ascii_lowercase, is_ascii_digit}
use agent_teams_mcp.TeamMode.Lines.{is_blank}
use agent_teams_mcp.TeamMode.Mentions.{
  MentionCandidate, is_handle_char, has_handle, push_unique_candidate, Position, outside, inside,
  behind_handle, close, outer, next, found_at, parse_from, parse_mentions_from_body,
}

has_handle-snoc :
    (h : Text) (items : List MentionCandidate) (c : MentionCandidate)
    → has_handle h (items ++ c ∷ []) ≡ (has_handle h items || c.handle == h)
unfolding has_handle
has_handle-snoc h [] c = ground arith
has_handle-snoc h (x ∷ items) c = ground (arith, has_handle-snoc h items c)

pub has_handle-push_unique_candidate :
    (h : Text) (items : List MentionCandidate) (c : MentionCandidate)
    → has_handle h (push_unique_candidate items c)
      ≡ (has_handle h items || not (is_blank c.handle) && c.handle == h)
unfolding push_unique_candidate
has_handle-push_unique_candidate h items c =
    ground (arith, has_handle-snoc h items c, ==_iff c.handle h)

close-keeps :
    (h : Text) (p : Position) (found : List MentionCandidate)
    → has_handle h found ≡ true
    → has_handle h (close p found) ≡ true
unfolding close
close-keeps h (outside b) found k = k
close-keeps h (inside x) found k =
    ground (arith, has_handle-push_unique_candidate h found (record { raw = b'@' ∷ x; handle = x }))

close-adds :
    (h : Text) (found : List MentionCandidate)
    → is_blank h ≡ false
    → has_handle h (close (inside h) found) ≡ true
unfolding close
close-adds h found full = ground (
  arith,
  has_handle-push_unique_candidate h found (record { raw = b'@' ∷ h; handle = h }),
  ==_refl h,
)

found_at-keeps :
    (h : Text) (c : ℕ) (p : Position) (found : List MentionCandidate)
    → has_handle h found ≡ true
    → has_handle h (found_at c p found) ≡ true
unfolding found_at
found_at-keeps h c (outside b) found k = k
found_at-keeps h c (inside x) found k = ground (arith, close-keeps h (inside x) found)

parse_from-keeps :
    (h s : Text) (p : Position) (found : List MentionCandidate)
    → has_handle h found ≡ true
    → has_handle h (parse_from s p found) ≡ true
unfolding parse_from
parse_from-keeps h [] p found k = close-keeps h p found k
parse_from-keeps h (c ∷ s) p found k =
    parse_from-keeps h s (next c p) (found_at c p found) (found_at-keeps h c p found k)

next-handle :
    (c : ℕ) (h : Text) → is_handle_char c ≡ true → next c (inside h) ≡ inside (h ++ c ∷ [])
unfolding next
next-handle c h k = ground (arith, k)

found_at-handle :
    (c : ℕ) (h : Text) (found : List MentionCandidate)
    → is_handle_char c ≡ true
    → found_at c (inside h) found ≡ found
unfolding found_at
found_at-handle c h found k = ground (arith, k)

-- A handle is read to its end.
parse_from-handle :
    (name rest h : Text) (found : List MentionCandidate)
    → all is_handle_char name ≡ true
    → parse_from (name ++ rest) (inside h) found ≡ parse_from rest (inside (h ++ name)) found
unfolding parse_from
parse_from-handle [] rest h found k =
    ap (λ x. parse_from rest (inside x) found) (sym (append-nil h))
parse_from-handle (c ∷ name) rest h found k =
    let here : is_handle_char c ≡ true = ground arith in
    let later : all is_handle_char name ≡ true = ground arith in
    ap (λ f. parse_from (name ++ rest) (next c (inside h)) f) (found_at-handle c h found here)
    ∙ ap (λ q. parse_from (name ++ rest) q found) (next-handle c h here)
    ∙ parse_from-handle name rest (h ++ c ∷ []) found later
    ∙ ap (λ x. parse_from rest (inside x) found) (append_assoc h (c ∷ []) name)

-- Whether a text starts with a character of a handle, and whether one ends with such a character.
abbrev pub starts_handle : Text → Bool
starts_handle [] = false
starts_handle (c ∷ _) = is_handle_char c

abbrev pub ends_handle : Bool → Text → Bool
ends_handle b [] = b
ends_handle b (c ∷ s) = ends_handle (is_handle_char c) s

parse_from-ends :
    (rest h : Text) (found : List MentionCandidate)
    → is_blank h ≡ false
    → starts_handle rest ≡ false
    → has_handle h (parse_from rest (inside h) found) ≡ true
unfolding parse_from found_at
parse_from-ends [] h found full k = close-adds h found full
parse_from-ends (c ∷ s) h found full k =
    parse_from-keeps h s (next c (inside h)) (found_at c (inside h) found)
      (ground (arith, k, close-adds h found full))

behind_handle-next : (c : ℕ) (p : Position) → behind_handle (next c p) ≡ is_handle_char c
unfolding next outer behind_handle is_handle_char is_blank is_ascii_lowercase is_ascii_digit
behind_handle-next c (outside b) = ground arith
behind_handle-next c (inside []) = ground arith
behind_handle-next c (inside (d ∷ h)) = ground arith

next-at : (p : Position) → behind_handle p ≡ false → next b'@' p ≡ inside []
unfolding next outer behind_handle is_handle_char is_ascii_lowercase is_ascii_digit
next-at (outside b) k = ground (arith, k)
next-at (inside h) k = ground (arith, k)

parse_from-finds :
    (before name rest : Text) (p : Position) (found : List MentionCandidate)
    → all is_handle_char name ≡ true
    → is_blank name ≡ false
    → ends_handle (behind_handle p) before ≡ false
    → starts_handle rest ≡ false
    → has_handle name (parse_from (before ++ b'@' ∷ name ++ rest) p found) ≡ true
unfolding parse_from
parse_from-finds [] name rest p found chars full away ends =
    ap (λ q. has_handle name (parse_from (name ++ rest) q (found_at b'@' p found))) (next-at p away)
    ∙ ap (has_handle name) (parse_from-handle name rest [] (found_at b'@' p found) chars)
    ∙ parse_from-ends rest name (found_at b'@' p found) full ends
parse_from-finds (c ∷ before) name rest p found chars full away ends =
    parse_from-finds before name rest (next c p) (found_at c p found) chars full
      (ap (λ b. ends_handle b before) (behind_handle-next c p) ∙ away) ends

-- Wherever a text has `@name`, where `name` is made of handle characters, no handle character
-- stands before the `@` and none after the name, the name is among the mentions that are found.
pub parse_mentions_from_body-finds :
    (before name rest : Text)
    → all is_handle_char name ≡ true
    → is_blank name ≡ false
    → ends_handle false before ≡ false
    → starts_handle rest ≡ false
    → has_handle name (parse_mentions_from_body (before ++ b'@' ∷ name ++ rest)) ≡ true
unfolding parse_mentions_from_body behind_handle
parse_mentions_from_body-finds before name rest chars full away ends =
    parse_from-finds before name rest (outside false) [] chars full away ends
